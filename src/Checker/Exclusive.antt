-- ===== src/Checker/Exclusive.antt =====
-- Exclusive borrows and the checker of src/analysis/mod.rs: what it accepts keeps to "many readers
-- or one writer".
use rustycpp.Common.{ap, ◌∙◌, String, ◌≡◌, false, arith}
use rustycpp.Ir.{
  IrStatement, Block, nil, cons, ElseBranch, absent, present, BorrowKind, immutable, mutable,
}
use rustycpp.Tracker.{
  TrackerState, BorrowInfo, restore_state, clone_state, set_ownership, mark_as_reference,
  enter_scope, get_borrows, get_ownership, count_borrow,
}
use rustycpp.Tracker.Exclusive.{
  IsExclusive, IsExclusiveInfo, add_borrow-IsExclusive, exit_scope-IsExclusive,
  merge_states-IsExclusive,
}
use rustycpp.Checker.{
  Checker, with_tracker, process_move, process_borrow, check_conflict, process_statement,
  process_block, process_else, is_some_moved, record_borrow,
}
use rustycpp.Checker.Messages.{cannot_borrow_moved, already_mutable, already_immutable}
use rustycpp.Checker.Growth.{
  error_count, error_count-push, process_statement-grows, process_block-grows, process_else-grows,
}
use rustycpp.Checker.SafeCode.{
  IsSafeCode, IsSafeBlock, process_assign-tracker, check_conflict-tracker,
  unsafe_depth-process_statement, process_statement-if_else,
}

-- no error of a borrow: the new borrow does not break exclusiveness
no_conflict :
    (from to : String) (kind : BorrowKind) (info : BorrowInfo) (c : Checker)
    → error_count (check_conflict from kind info c) ≡ error_count c
    → IsExclusiveInfo (count_borrow to kind info)
unfolding check_conflict
no_conflict from to immutable info c h e = ground (arith, error_count-push (already_mutable from) c)
no_conflict from to mutable info c h e = ground (arith, error_count-push (already_immutable from) c)

pub borrows-process_move :
    (from to : String) (c : Checker) → (process_move from to c).tracker.borrows ≡ c.tracker.borrows
unfolding process_move set_ownership
borrows-process_move from to c = ground arith

-- A borrow without an error is recorded, and its source was neither moved nor in conflict.
pub accepted_borrow :
    (from to : String) (kind : BorrowKind) (c : Checker)
    → c.tracker.unsafe_depth ≡ 0
    → error_count (process_borrow from to kind c) ≡ error_count c
    → (is_some_moved (get_ownership c.tracker from) ≡ false)
      × (error_count (check_conflict from kind (get_borrows c.tracker from) c) ≡ error_count c)
      × ((process_borrow from to kind c).tracker ≡ record_borrow c.tracker from to kind)
unfolding process_borrow
accepted_borrow from to kind c safe accepted = ground (
  arith,
  error_count-push (cannot_borrow_moved from) c,
  check_conflict-tracker from kind (get_borrows c.tracker from) c,
)

borrow-IsExclusive :
    (from to : String) (kind : BorrowKind) (c : Checker)
    → c.tracker.unsafe_depth ≡ 0
    → error_count (process_borrow from to kind c) ≡ error_count c
    → IsExclusive c.tracker.borrows
    → IsExclusive (process_borrow from to kind c).tracker.borrows
unfolding mark_as_reference
borrow-IsExclusive from to kind c safe accepted h =
    let (_, quiet, same) = accepted_borrow from to kind c safe accepted in
    rw same (
      add_borrow-IsExclusive c.tracker from to kind h
        (no_conflict from to kind (get_borrows c.tracker from) c quiet))

mutual
  unfolding process_statement IsSafeCode enter_scope restore_state

  statement-IsExclusive :
      (s : IrStatement) (c : Checker)
      → IsSafeCode s
      → c.tracker.unsafe_depth ≡ 0
      → error_count (process_statement s c) ≡ error_count c
      → IsExclusive c.tracker.borrows
      → IsExclusive (process_statement s c).tracker.borrows
  statement-IsExclusive (IrStatement.move from to) c safe d e h =
      rw (borrows-process_move from to c) h
  statement-IsExclusive (IrStatement.borrow from to kind) c safe d e h =
      borrow-IsExclusive from to kind c d e h
  statement-IsExclusive (IrStatement.assign lhs rhs) c safe d e h =
      rw (process_assign-tracker lhs rhs c) h
  statement-IsExclusive IrStatement.exit_scope c safe d e h = exit_scope-IsExclusive c.tracker h
  statement-IsExclusive IrStatement.enter_unsafe c safe d e h = absurd safe
  statement-IsExclusive IrStatement.exit_unsafe c safe d e h = absurd safe
  statement-IsExclusive (IrStatement.if_else then_branch else_branch) c (safe, _) d e h =
      let after_then = process_block then_branch c in
      let before = clone_state c.tracker in
      let restored = with_tracker after_then (restore_state after_then.tracker before) in
      let grows = process_block-grows then_branch c in
      let grows' =
        process_else-grows else_branch before (clone_state after_then.tracker) restored in
      let split = process_statement-if_else then_branch else_branch c d in
      let quiet : error_count after_then ≡ error_count c = omega (arith, ap error_count split) in
      rw split (
        else-IsExclusive else_branch before (clone_state after_then.tracker) restored
          (block-IsExclusive then_branch c safe d quiet h))
  statement-IsExclusive _ c safe d e h = h

  block-IsExclusive :
      (b : Block) (c : Checker)
      → IsSafeBlock b
      → c.tracker.unsafe_depth ≡ 0
      → error_count (process_block b c) ≡ error_count c
      → IsExclusive c.tracker.borrows
      → IsExclusive (process_block b c).tracker.borrows
  block-IsExclusive nil c safe d e h = h
  block-IsExclusive (cons s rest) c (safe, safe_rest) d e h =
      let c' = process_statement s c in
      let grows = process_statement-grows s c in
      let grows' = process_block-grows rest c' in
      block-IsExclusive rest c' safe_rest (unsafe_depth-process_statement s c safe ∙ d)
        (omega arith) (statement-IsExclusive s c safe d (omega arith) h)

  else-IsExclusive :
      (s : ElseBranch) (before after_then : TrackerState) (c : Checker)
      → IsExclusive after_then.borrows
      → IsExclusive (process_else s before after_then c).tracker.borrows
  else-IsExclusive absent before after_then c h =
      merge_states-IsExclusive c.tracker after_then before h
  else-IsExclusive (present b) before after_then c h =
      let c' = process_block b c in
      merge_states-IsExclusive c'.tracker after_then (clone_state c'.tracker) h

pub accepted_statement-IsExclusive :
    (s : IrStatement) (c : Checker)
    → IsSafeCode s
    → c.tracker.unsafe_depth ≡ 0
    → error_count (process_statement s c) ≡ error_count c
    → IsExclusive c.tracker.borrows
    → IsExclusive (process_statement s c).tracker.borrows
accepted_statement-IsExclusive s c safe d e h = statement-IsExclusive s c safe d e h

-- Code with no unsafe markers that is checked without an error keeps borrows exclusive: no source
-- has a mutable borrow beside an immutable one.
pub accepted_block-IsExclusive :
    (b : Block) (c : Checker)
    → IsSafeBlock b
    → c.tracker.unsafe_depth ≡ 0
    → error_count (process_block b c) ≡ error_count c
    → IsExclusive c.tracker.borrows
    → IsExclusive (process_block b c).tracker.borrows
accepted_block-IsExclusive b c safe d e h = block-IsExclusive b c safe d e h
