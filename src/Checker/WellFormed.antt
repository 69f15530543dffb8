-- ===== src/Checker/WellFormed.antt =====
-- The tables stay hash maps through src/analysis/mod.rs, `process_statement`.
use rustycpp.Common.{String, ◌≡◌, ◌⊎◌, inl, inr, arith}
use rustycpp.Ir.{
  IrStatement, Block, nil, cons, ElseBranch, absent, present, BorrowKind, OwnershipState,
}
use rustycpp.Tracker.{
  OwnershipTracker, TrackerState, restore_state, clone_state, set_ownership, get_borrows,
  enter_scope, is_in_unsafe_block,
}
use rustycpp.Tracker.WellFormed.{
  IsTracker, set_ownership-IsTracker, add_borrow-IsTracker, mark_as_reference-IsTracker,
  exit_scope-IsTracker, merge_states-IsTracker,
}
use rustycpp.Common.{Bool-cases}
use rustycpp.Checker.{
  Checker, with_tracker, process_move, process_borrow, process_statement, process_block,
  process_else, transfer, record_borrow, enter_unsafe, exit_unsafe,
}
use rustycpp.Checker.SafeCode.{process_assign-tracker, check_conflict-tracker}

-- what a move does to the tracker
pub process_move-tracker :
    (from to : String) (c : Checker)
    → ((process_move from to c).tracker ≡ c.tracker)
      ⊎ ((process_move from to c).tracker ≡ set_ownership c.tracker from OwnershipState.moved)
      ⊎ ((process_move from to c).tracker ≡ transfer c.tracker from to)
unfolding process_move
process_move-tracker from to c = ground arith

-- what a borrow does to the tracker
pub process_borrow-tracker :
    (from to : String) (kind : BorrowKind) (c : Checker)
    → ((process_borrow from to kind c).tracker ≡ c.tracker)
      ⊎ ((process_borrow from to kind c).tracker ≡ record_borrow c.tracker from to kind)
unfolding process_borrow
process_borrow-tracker from to kind c =
    ground (arith, check_conflict-tracker from kind (get_borrows c.tracker from) c)

move-IsTracker :
    (from to : String) (c : Checker)
    → IsTracker c.tracker
    → IsTracker (process_move from to c).tracker
move-IsTracker from to c h =
    let moved = set_ownership-IsTracker c.tracker from OwnershipState.moved h in
    elim (process_move-tracker from to c) [
      | inl e ↦ rw e h
      | inr (inl e) ↦ rw e moved
      | inr (inr e) ↦ rw e (set_ownership-IsTracker _ to OwnershipState.owned moved)
    ]

borrow-IsTracker :
    (from to : String) (kind : BorrowKind) (c : Checker)
    → IsTracker c.tracker
    → IsTracker (process_borrow from to kind c).tracker
borrow-IsTracker from to kind c h = elim (process_borrow-tracker from to kind c) [
  | inl e ↦ rw e h
  | inr e ↦
      rw e (mark_as_reference-IsTracker _ to _ (add_borrow-IsTracker c.tracker from to kind h))
]

exit_unsafe-IsTracker : (t : OwnershipTracker) → IsTracker t → IsTracker (exit_unsafe t)
unfolding exit_unsafe
exit_unsafe-IsTracker t h = elim (Bool-cases (is_in_unsafe_block t)) [
  | inl inside ↦ rw inside (record {
    ownership_map = h.ownership_map;
    borrows_map = h.borrows_map;
    references_map = h.references_map;
  })
  | inr outside ↦ rw outside h
]

mutual
  unfolding process_statement enter_scope restore_state enter_unsafe

  statement-IsTracker :
      (s : IrStatement) (c : Checker)
      → IsTracker c.tracker
      → IsTracker (process_statement s c).tracker
  statement-IsTracker (IrStatement.move from to) c h = move-IsTracker from to c h
  statement-IsTracker (IrStatement.borrow from to kind) c h = borrow-IsTracker from to kind c h
  statement-IsTracker (IrStatement.assign lhs rhs) c h = rw (process_assign-tracker lhs rhs c) h
  statement-IsTracker IrStatement.exit_scope c h = exit_scope-IsTracker c.tracker h
  statement-IsTracker IrStatement.exit_unsafe c h = exit_unsafe-IsTracker c.tracker h
  statement-IsTracker (IrStatement.if_else then_branch else_branch) c h =
      let after_then = process_block then_branch c in
      let restored =
        with_tracker after_then (restore_state after_then.tracker (clone_state c.tracker)) in
      let merged =
        else-IsTracker else_branch (clone_state c.tracker) (clone_state after_then.tracker) restored
          h in
      elim (Bool-cases (is_in_unsafe_block c.tracker)) [
        | inl inside ↦ rw inside h
        | inr outside ↦ rw outside merged
      ]
  statement-IsTracker _ c h = h

  block-IsTracker :
      (b : Block) (c : Checker) → IsTracker c.tracker → IsTracker (process_block b c).tracker
  block-IsTracker nil c h = h
  block-IsTracker (cons s rest) c h =
      block-IsTracker rest (process_statement s c) (statement-IsTracker s c h)

  else-IsTracker :
      (e : ElseBranch) (before after_then : TrackerState) (c : Checker)
      → IsTracker c.tracker
      → IsTracker (process_else e before after_then c).tracker
  else-IsTracker absent before after_then c h = merge_states-IsTracker c.tracker after_then before h
  else-IsTracker (present b) before after_then c h =
      let c' = process_block b c in
      merge_states-IsTracker c'.tracker after_then (clone_state c'.tracker) (block-IsTracker b c h)

pub process_statement-IsTracker :
    (s : IrStatement) (c : Checker)
    → IsTracker c.tracker
    → IsTracker (process_statement s c).tracker
process_statement-IsTracker s c h = statement-IsTracker s c h

-- Any statements keep one entry for each key in the tables of the tracker.
pub process_block-IsTracker :
    (b : Block) (c : Checker) → IsTracker c.tracker → IsTracker (process_block b c).tracker
process_block-IsTracker b c h = block-IsTracker b c h
