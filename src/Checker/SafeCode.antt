-- ===== src/Checker/SafeCode.antt =====
-- Statements with no unsafe markers, at any depth: src/ir/mod.rs, `EnterUnsafe` and `ExitUnsafe`.
-- On such code the tracker never enters an unsafe block: src/analysis/mod.rs, `process_statement`.
use rustycpp.Common.{ap, ◌≡◌, refl, ◌∙◌, arith, String, Option, none, some}
use rustycpp.Ir.{
  IrStatement, Block, nil, cons, ElseBranch, absent, present, BorrowKind, immutable, mutable,
  IrExpression,
}
use rustycpp.Tracker.{
  OwnershipTracker, TrackerState, restore_state, merge_states, clone_state, set_ownership,
  add_borrow, mark_as_reference, enter_scope, BorrowInfo, get_borrows,
}
use rustycpp.Tracker.Frame.{unsafe_depth-exit_scope}
use rustycpp.Checker.{
  false, is_in_unsafe_block, Checker, push, with_tracker, push_if, process_move, process_borrow,
  process_assign, check_conflict, process_statement, process_block, process_else, uses_moved,
}
use rustycpp.Checker.Messages.{const_assign, use_of_moved}

unfoldable mutual
  pub IsSafeCode : IrStatement → Type 0
  IsSafeCode IrStatement.enter_unsafe = ⊥
  IsSafeCode IrStatement.exit_unsafe = ⊥
  IsSafeCode (IrStatement.if_else then_branch else_branch) =
      IsSafeBlock then_branch × IsSafeElse else_branch
  IsSafeCode _ = Unit

  pub IsSafeBlock : Block → Type 0
  IsSafeBlock nil = Unit
  IsSafeBlock (cons s rest) = IsSafeCode s × IsSafeBlock rest

  pub IsSafeElse : ElseBranch → Type 0
  IsSafeElse absent = Unit
  IsSafeElse (present b) = IsSafeBlock b

push_if-tracker :
    (message : String → String) (var : Option String) (c : Checker)
    → (push_if message var c).tracker ≡ c.tracker
push_if-tracker message none c = refl
push_if-tracker message (some var) c = refl

pub check_conflict-tracker :
    (from : String) (kind : BorrowKind) (info : BorrowInfo) (c : Checker)
    → (check_conflict from kind info c).tracker ≡ c.tracker
unfolding check_conflict
check_conflict-tracker from immutable info c = ground arith
check_conflict-tracker from mutable info c = ground arith

pub process_assign-tracker :
    (lhs : String) (rhs : IrExpression) (c : Checker)
    → (process_assign lhs rhs c).tracker ≡ c.tracker
unfolding process_assign
process_assign-tracker lhs rhs c =
    let moved = uses_moved c.tracker rhs in
    ground (
      arith,
      push_if-tracker use_of_moved moved c,
      push_if-tracker use_of_moved moved (push (const_assign lhs) c),
    )

move_depth :
    (from to : String) (c : Checker)
    → (process_move from to c).tracker.unsafe_depth ≡ c.tracker.unsafe_depth
unfolding process_move set_ownership
move_depth from to c = ground arith

borrow_depth :
    (from to : String) (kind : BorrowKind) (c : Checker)
    → (process_borrow from to kind c).tracker.unsafe_depth ≡ c.tracker.unsafe_depth
unfolding process_borrow add_borrow mark_as_reference
borrow_depth from to kind c =
    ground (arith, check_conflict-tracker from kind (get_borrows c.tracker from) c)

mutual
  unfolding process_statement IsSafeCode enter_scope restore_state merge_states

  statement_depth :
      (s : IrStatement) (c : Checker)
      → IsSafeCode s
      → (process_statement s c).tracker.unsafe_depth ≡ c.tracker.unsafe_depth
  statement_depth (IrStatement.move from to) c h = move_depth from to c
  statement_depth (IrStatement.borrow from to kind) c h = borrow_depth from to kind c
  statement_depth (IrStatement.assign lhs rhs) c h =
      ap (λ (t : OwnershipTracker). t.unsafe_depth) (process_assign-tracker lhs rhs c)
  statement_depth IrStatement.exit_scope c h = unsafe_depth-exit_scope c.tracker
  statement_depth IrStatement.enter_unsafe c h = absurd h
  statement_depth IrStatement.exit_unsafe c h = absurd h
  statement_depth (IrStatement.if_else then_branch else_branch) c (h, k) =
      let after_then = process_block then_branch c in
      let restored =
        with_tracker after_then (restore_state after_then.tracker (clone_state c.tracker)) in
      ground (
        arith,
        block_depth then_branch c h,
        else_depth else_branch (clone_state c.tracker) (clone_state after_then.tracker) restored k,
      )
  statement_depth _ c h = refl

  block_depth :
      (b : Block) (c : Checker)
      → IsSafeBlock b
      → (process_block b c).tracker.unsafe_depth ≡ c.tracker.unsafe_depth
  block_depth nil c h = refl
  block_depth (cons s rest) c (h, k) =
      block_depth rest (process_statement s c) k ∙ statement_depth s c h

  else_depth :
      (e : ElseBranch) (before after_then : TrackerState) (c : Checker)
      → IsSafeElse e
      → (process_else e before after_then c).tracker.unsafe_depth ≡ c.tracker.unsafe_depth
  else_depth absent before after_then c h = refl
  else_depth (present b) before after_then c h = block_depth b c h

pub unsafe_depth-process_statement :
    (s : IrStatement) (c : Checker)
    → IsSafeCode s
    → (process_statement s c).tracker.unsafe_depth ≡ c.tracker.unsafe_depth
unsafe_depth-process_statement s c h = statement_depth s c h

pub unsafe_depth-process_block :
    (b : Block) (c : Checker)
    → IsSafeBlock b
    → (process_block b c).tracker.unsafe_depth ≡ c.tracker.unsafe_depth
unsafe_depth-process_block b c h = block_depth b c h

-- A conditional outside unsafe blocks: both branches, each from the state before it.
pub process_statement-if_else :
    (then_branch : Block) (else_branch : ElseBranch) (c : Checker)
    → c.tracker.unsafe_depth ≡ 0
    → process_statement (IrStatement.if_else then_branch else_branch) c ≡ (
        let after_then = process_block then_branch c in
        let restored =
          with_tracker after_then (restore_state after_then.tracker (clone_state c.tracker)) in
        process_else else_branch (clone_state c.tracker) (clone_state after_then.tracker) restored)
unfolding process_statement
process_statement-if_else then_branch else_branch c d =
    let outside : is_in_unsafe_block c.tracker ≡ false = ground arith in rw outside
