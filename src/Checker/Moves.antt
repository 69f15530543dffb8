-- ===== src/Checker/Moves.antt =====
-- Moved variables: src/analysis/mod.rs, `process_statement`. A variable stays moved until it is
-- the target of another move, and its use is reported.
use rustycpp.Common.{
  ◌∙◌, false, String, ◌≡◌, ◌≢◌, ◌<◌, inl, inr, arith, refl, Bool-cases, eq_iff, get, insert,
  get-insert, some,
}
use rustycpp.Ir.{
  IrStatement, Block, nil, cons, ElseBranch, absent, present, BorrowKind, OwnershipState,
  IrExpression,
}
use rustycpp.Tracker.{
  is_reference, OwnershipTracker, TrackerState, restore_state, clone_state, set_ownership,
  get_ownership, enter_scope, is_in_unsafe_block, merge_states, add_borrow, mark_as_reference,
}
use rustycpp.Tracker.Frame.{ownership-exit_scope}
use rustycpp.Tracker.WellFormed.{IsTracker, IsState}
use rustycpp.Tracker.Merge.{merge_states-moved_iff}
use rustycpp.Checker.Messages.{
  cannot_move, use_after_move, cannot_borrow_moved, const_assign, use_of_moved,
}
use rustycpp.Checker.{
  push, Checker, with_tracker, process_move, process_borrow, process_assign, process_statement,
  process_block, process_else, enter_unsafe, exit_unsafe,
}
use rustycpp.Checker.Growth.{error_count, error_count-push}
use rustycpp.Checker.SafeCode.{
  IsSafeCode, IsSafeBlock, unsafe_depth-process_statement, unsafe_depth-process_block,
  process_assign-tracker,
}
use rustycpp.Checker.WellFormed.{
  process_move-tracker, process_borrow-tracker, process_block-IsTracker,
  process_statement-IsTracker,
}

abbrev pub IsMovedIn : String → OwnershipTracker → Type 0
IsMovedIn x t = get_ownership t x ≡ some OwnershipState.moved

-- no statement moves a value into the variable
unfoldable mutual
  pub IsNotTarget : String → IrStatement → Type 0
  IsNotTarget x (IrStatement.move from to) = to ≢ x
  IsNotTarget x (IrStatement.if_else then_branch else_branch) =
      IsNotTargetBlock x then_branch × IsNotTargetElse x else_branch
  IsNotTarget x _ = Unit

  pub IsNotTargetBlock : String → Block → Type 0
  IsNotTargetBlock x nil = Unit
  IsNotTargetBlock x (cons s rest) = IsNotTarget x s × IsNotTargetBlock x rest

  pub IsNotTargetElse : String → ElseBranch → Type 0
  IsNotTargetElse x absent = Unit
  IsNotTargetElse x (present b) = IsNotTargetBlock x b

set_moved :
    (t : OwnershipTracker) (x from : String)
    → IsMovedIn x t
    → IsMovedIn x (set_ownership t from OwnershipState.moved)
unfolding set_ownership
set_moved t x from h = ground (arith, get-insert t.ownership from x OwnershipState.moved)

set_other :
    (t : OwnershipTracker) (x to : String) (s : OwnershipState)
    → to ≢ x
    → IsMovedIn x t
    → IsMovedIn x (set_ownership t to s)
unfolding set_ownership
set_other t x to s ne h = ground (arith, get-insert t.ownership to x s, eq_iff to x)

move_keeps :
    (x from to : String) (c : Checker)
    → to ≢ x
    → IsMovedIn x c.tracker
    → IsMovedIn x (process_move from to c).tracker
move_keeps x from to c ne h =
    let moved = set_moved c.tracker x from h in
    elim (process_move-tracker from to c) [
      | inl e ↦ rw e h
      | inr (inl e) ↦ rw e moved
      | inr (inr e) ↦ rw e (set_other _ x to OwnershipState.owned ne moved)
    ]

borrow_keeps :
    (x from to : String) (kind : BorrowKind) (c : Checker)
    → IsMovedIn x c.tracker
    → IsMovedIn x (process_borrow from to kind c).tracker
unfolding add_borrow mark_as_reference
borrow_keeps x from to kind c h = elim (process_borrow-tracker from to kind c) [
  | inl e ↦ rw e h
  | inr e ↦ rw e h
]

exit_unsafe_keeps :
    (x : String) (t : OwnershipTracker) → IsMovedIn x t → IsMovedIn x (exit_unsafe t)
unfolding exit_unsafe
exit_unsafe_keeps x t h = ground arith

merge_keeps :
    (x : String) (t : OwnershipTracker) (a b : TrackerState)
    → IsState a
    → get a.ownership x ≡ some OwnershipState.moved
    → get b.ownership x ≡ some OwnershipState.moved
    → IsMovedIn x (merge_states t a b)
merge_keeps x t a b h p q =
    (merge_states-moved_iff t a b x OwnershipState.moved OwnershipState.moved h.ownership_map p q).1
      (refl, refl)

mutual
  unfolding process_statement enter_scope restore_state enter_unsafe IsNotTarget

  statement_keeps :
      (x : String) (s : IrStatement) (c : Checker)
      → IsNotTarget x s
      → IsTracker c.tracker
      → IsMovedIn x c.tracker
      → IsMovedIn x (process_statement s c).tracker
  statement_keeps x (IrStatement.move from to) c n w h = move_keeps x from to c n h
  statement_keeps x (IrStatement.borrow from to kind) c n w h = borrow_keeps x from to kind c h
  statement_keeps x (IrStatement.assign lhs rhs) c n w h = rw (process_assign-tracker lhs rhs c) h
  statement_keeps x IrStatement.exit_scope c n w h = rw (ownership-exit_scope c.tracker) h
  statement_keeps x IrStatement.exit_unsafe c n w h = exit_unsafe_keeps x c.tracker h
  statement_keeps x (IrStatement.if_else then_branch else_branch) c (n, m) w h =
      let after_then = process_block then_branch c in
      let before = clone_state c.tracker in
      let restored = with_tracker after_then (restore_state after_then.tracker before) in
      let merged =
        else_keeps x else_branch before (clone_state after_then.tracker) restored m w
          (process_block-IsTracker then_branch c w) h h (block_keeps x then_branch c n w h) in
      elim (Bool-cases (is_in_unsafe_block c.tracker)) [
        | inl inside ↦ rw inside h
        | inr outside ↦ rw outside merged
      ]
  statement_keeps x _ c n w h = h

  block_keeps :
      (x : String) (b : Block) (c : Checker)
      → IsNotTargetBlock x b
      → IsTracker c.tracker
      → IsMovedIn x c.tracker
      → IsMovedIn x (process_block b c).tracker
  block_keeps x nil c n w h = h
  block_keeps x (cons s rest) c (n, m) w h =
      block_keeps x rest (process_statement s c) m (process_statement-IsTracker s c w)
        (statement_keeps x s c n w h)

  else_keeps :
      (x : String) (e : ElseBranch) (before after_then : TrackerState) (c : Checker)
      → IsNotTargetElse x e
      → IsTracker c.tracker
      → IsState after_then
      → get before.ownership x ≡ some OwnershipState.moved
      → IsMovedIn x c.tracker
      → get after_then.ownership x ≡ some OwnershipState.moved
      → IsMovedIn x (process_else e before after_then c).tracker
  else_keeps x absent before after_then c n w v b h p =
      merge_keeps x c.tracker after_then before v p b
  else_keeps x (present statements) before after_then c n w v b h p =
      let c' = process_block statements c in
      merge_keeps x c'.tracker after_then (clone_state c'.tracker) v p
        (block_keeps x statements c n w h)

-- In tables with one entry for each key, a moved variable stays moved through statements that move
-- nothing into it, conditionals and unsafe blocks among them.
pub moved_persists :
    (x : String) (b : Block) (c : Checker)
    → IsNotTargetBlock x b
    → IsTracker c.tracker
    → IsMovedIn x c.tracker
    → IsMovedIn x (process_block b c).tracker
moved_persists x b c n w h = block_keeps x b c n w h

-- the uses that the checker looks at: a move out of the variable, a borrow of it, a copy of it
pub data Uses (x : String) : IrStatement → Type 0 where
  moves : (to : String) → Uses x (IrStatement.move x to)
  borrows : (to : String) (kind : BorrowKind) → Uses x (IrStatement.borrow x to kind)
  reads : (lhs : String) → Uses x (IrStatement.assign lhs (IrExpression.variable x))

move_reported :
    (x to : String) (c : Checker)
    → c.tracker.unsafe_depth ≡ 0
    → IsMovedIn x c.tracker
    → error_count c < error_count (process_move x to c)
unfolding process_move
move_reported x to c d h =
    ground (arith, error_count-push (cannot_move x) c, error_count-push (use_after_move x) c)

borrow_reported :
    (x to : String) (kind : BorrowKind) (c : Checker)
    → c.tracker.unsafe_depth ≡ 0
    → IsMovedIn x c.tracker
    → error_count c < error_count (process_borrow x to kind c)
unfolding process_borrow
borrow_reported x to kind c d h = ground (arith, error_count-push (cannot_borrow_moved x) c)

read_reported :
    (x lhs : String) (c : Checker)
    → c.tracker.unsafe_depth ≡ 0
    → IsMovedIn x c.tracker
    → error_count c < error_count (process_assign lhs (IrExpression.variable x) c)
unfolding process_assign
read_reported x lhs c d h = ground (
  arith,
  error_count-push (const_assign lhs) c,
  error_count-push (use_of_moved x) c,
  error_count-push (use_of_moved x) (push (const_assign lhs) c),
)

use_reported :
    (x : String) (s : IrStatement) (c : Checker)
    → Uses x s
    → c.tracker.unsafe_depth ≡ 0
    → IsMovedIn x c.tracker
    → error_count c < error_count (process_statement s c)
unfolding process_statement
use_reported x _ c (moves to) d h = move_reported x to c d h
use_reported x _ c (borrows to kind) d h = borrow_reported x to kind c d h
use_reported x _ c (reads lhs) d h = read_reported x lhs c d h

pub move_marks :
    (x to : String) (c : Checker)
    → c.tracker.unsafe_depth ≡ 0
    → to ≢ x
    → is_reference c.tracker x ≡ false
    → IsMovedIn x (process_move x to c).tracker
unfolding process_move set_ownership
move_marks x to c d ne r = ground (
  arith,
  get-insert c.tracker.ownership x x OwnershipState.moved,
  get-insert (insert c.tracker.ownership x OwnershipState.moved) to x OwnershipState.owned,
  eq_iff x x,
  eq_iff to x,
)

-- Outside unsafe blocks, and with tables that have one entry for each key, after a move out of a
-- variable that is no reference into another one, and statements without unsafe markers that move
-- nothing back into it, conditionals included, a move, borrow or copy of the variable adds at
-- least one error.
pub use_after_move_reported :
    (x to : String) (b : Block) (s : IrStatement) (c : Checker)
    → Uses x s
    → IsTracker c.tracker
    → c.tracker.unsafe_depth ≡ 0
    → is_reference c.tracker x ≡ false
    → to ≢ x
    → IsNotTargetBlock x b
    → IsSafeBlock b
    → (let before = process_block (cons (IrStatement.move x to) b) c in
        error_count before < error_count (process_statement s before))
unfolding process_statement
use_after_move_reported x to b s c used w d r ne n safe =
    let c' = process_move x to c in
    let outside =
      unsafe_depth-process_statement (IrStatement.move x to) c (unfold IsSafeCode in tt) ∙ d in
    use_reported x s (process_block b c') used (unsafe_depth-process_block b c' safe ∙ outside) (
      moved_persists x b c' n (process_statement-IsTracker (IrStatement.move x to) c w)
        (move_marks x to c d ne r))
