-- ===== src/Checker/Growth.antt =====
-- Errors are only added: src/analysis/mod.rs, `process_statement`. So where none is left at the
-- end, none was pushed on the way.
use rustycpp.Common.{
  ℕ, suc, ◌≤◌, String, ◌≡◌, Option, none, some, [], ◌∷◌, arith, length, length-append,
}
use rustycpp.Ir.{
  BorrowKind, immutable, mutable, IrExpression, IrStatement, Block, nil, cons, ElseBranch, absent,
  present,
}
use rustycpp.Tracker.{TrackerState, restore_state, clone_state, BorrowInfo, get_borrows}
use rustycpp.Checker.{
  Checker, push, push_if, with_tracker, process_move, process_borrow, process_assign,
  check_conflict, process_statement, process_block, process_else, uses_moved,
}
use rustycpp.Checker.Messages.{
  cannot_move, use_after_move, cannot_borrow_moved, already_mutable, already_immutable,
  mutable_twice, const_assign, use_of_moved,
}

abbrev pub error_count : Checker → ℕ
error_count c = length c.errors

pub error_count-push :
    (message : String) (c : Checker) → error_count (push message c) ≡ suc (error_count c)
error_count-push message c = omega (arith, length-append c.errors (message ∷ []))

pub error_count-push_if :
    (message : String → String) (var : Option String) (c : Checker)
    → error_count c ≤ error_count (push_if message var c)
error_count-push_if message none c = omega arith
error_count-push_if message (some var) c = omega (arith, error_count-push (message var) c)

process_move-grows :
    (from to : String) (c : Checker) → error_count c ≤ error_count (process_move from to c)
unfolding process_move
process_move-grows from to c =
    ground (arith, error_count-push (cannot_move from) c, error_count-push (use_after_move from) c)

check_conflict-grows :
    (from : String) (kind : BorrowKind) (info : BorrowInfo) (c : Checker)
    → error_count c ≤ error_count (check_conflict from kind info c)
unfolding check_conflict
check_conflict-grows from immutable info c =
    ground (arith, error_count-push (already_mutable from) c)
check_conflict-grows from mutable info c =
    ground
      (arith, error_count-push (already_immutable from) c, error_count-push (mutable_twice from) c)

process_borrow-grows :
    (from to : String) (kind : BorrowKind) (c : Checker)
    → error_count c ≤ error_count (process_borrow from to kind c)
unfolding process_borrow
process_borrow-grows from to kind c = ground (
  arith,
  error_count-push (cannot_borrow_moved from) c,
  check_conflict-grows from kind (get_borrows c.tracker from) c,
)

process_assign-grows :
    (lhs : String) (rhs : IrExpression) (c : Checker)
    → error_count c ≤ error_count (process_assign lhs rhs c)
unfolding process_assign
process_assign-grows lhs rhs c = ground (
  arith,
  error_count-push (const_assign lhs) c,
  error_count-push_if use_of_moved (uses_moved c.tracker rhs) c,
  error_count-push_if use_of_moved (uses_moved c.tracker rhs) (push (const_assign lhs) c),
)

mutual
  unfolding process_statement

  statement-grows :
      (s : IrStatement) (c : Checker) → error_count c ≤ error_count (process_statement s c)
  statement-grows (IrStatement.move from to) c = process_move-grows from to c
  statement-grows (IrStatement.borrow from to kind) c = process_borrow-grows from to kind c
  statement-grows (IrStatement.assign lhs rhs) c = process_assign-grows lhs rhs c
  statement-grows (IrStatement.if_else then_branch else_branch) c =
      let after_then = process_block then_branch c in
      let restored =
        with_tracker after_then (restore_state after_then.tracker (clone_state c.tracker)) in
      ground (
        arith,
        block-grows then_branch c,
        else-grows else_branch (clone_state c.tracker) (clone_state after_then.tracker) restored,
      )
  statement-grows _ c = omega arith

  block-grows : (b : Block) (c : Checker) → error_count c ≤ error_count (process_block b c)
  block-grows nil c = omega arith
  block-grows (cons s rest) c =
      omega (arith, statement-grows s c, block-grows rest (process_statement s c))

  else-grows :
      (e : ElseBranch) (before after_then : TrackerState) (c : Checker)
      → error_count c ≤ error_count (process_else e before after_then c)
  else-grows absent before after_then c = omega arith
  else-grows (present b) before after_then c = block-grows b c

pub process_statement-grows :
    (s : IrStatement) (c : Checker) → error_count c ≤ error_count (process_statement s c)
process_statement-grows s c = statement-grows s c

pub process_block-grows :
    (b : Block) (c : Checker) → error_count c ≤ error_count (process_block b c)
process_block-grows b c = block-grows b c

pub process_else-grows :
    (e : ElseBranch) (before after_then : TrackerState) (c : Checker)
    → error_count c ≤ error_count (process_else e before after_then c)
process_else-grows e before after_then c = else-grows e before after_then c
