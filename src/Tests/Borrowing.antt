-- ===== src/Tests/Borrowing.antt =====
-- Borrows that src/analysis/mod.rs accepts: two readers in a scope, and a writer after it.
use rustycpp.Common.{arith, ◌∷◌, none, Map, String, ◌≡◌, refl, ok, []}
use rustycpp.Ir.{
  append, Block, nil, cons, IrStatement, VariableInfo, VariableType, OwnershipState, BorrowKind,
}
use rustycpp.Common.{◌≢◌}
use rustycpp.Tracker.{
  add_borrow, mark_as_reference, set_ownership, enter_scope, exit_scope, enter_loop, exit_loop,
  clear_loop_locals,
}
use rustycpp.Common.{insert, get, remove, map_values, retain, contains, add, discard}
use rustycpp.Checker.Growth.{error_count}
use rustycpp.Checker.Accepted.{IsSound, check_statements-IsSound}
use rustycpp.Checker.Loops.{check_statements-loop}
use rustycpp.Checker.SafeCode.{IsSafeBlock}
use rustycpp.Common.{eq_iff}
use rustycpp.Checker.{
  check_statement_for_loop_errors, drop_block, take_block, find_loop_end, process_borrow,
  process_loop, Checker, process_block, check_statements, declare_all,
}
use rustycpp.Checker.Loans.{Respects}
use rustycpp.Checker.Loans.Initial.{start, accepted-Respects}

abbrev owned : String → VariableInfo
owned name = record {
  name = name;
  ty = VariableType.owned "int";
  ownership = OwnershipState.owned;
  lifetime = none;
}

abbrev variables : Map VariableInfo
variables = ("x", owned "x") ∷ []

abbrev readers : Block
readers = cons IrStatement.enter_scope (
    cons (IrStatement.borrow "x" "r" BorrowKind.immutable) (
      cons (IrStatement.borrow "x" "s" BorrowKind.immutable)
        (cons IrStatement.exit_scope (cons (IrStatement.borrow "x" "w" BorrowKind.mutable) nil))))

readers_accepted : (process_block readers (start variables)).errors ≡ []
unfolding process_block process_borrow declare_all add_borrow mark_as_reference set_ownership
    enter_scope exit_scope insert get remove map_values retain contains add discard
readers_accepted = refl

names_differ : ◌≢◌ {A = String} "r" "s"
names_differ p = ground (arith, p, eq_iff "r" "s")

accepted-Respects_example : Respects ([] ∷ []) readers
accepted-Respects_example =
    accepted-Respects variables readers (tt, (tt, (tt, (tt, (tt, tt)))))
      (tt, ((tt, (tt, tt)), (((names_differ, tt), (tt, tt)), (tt, ((tt, tt), tt)))))
      readers_accepted

abbrev body : Block
body = cons (IrStatement.borrow "x" "r" BorrowKind.immutable) nil

abbrev looped : Block
looped = cons IrStatement.enter_loop (
    append body
      (cons IrStatement.exit_loop (cons (IrStatement.borrow "x" "w" BorrowKind.mutable) nil)))

abbrev after_looped : Checker
after_looped =
    process_block (cons (IrStatement.borrow "x" "w" BorrowKind.mutable) nil)
      (process_loop body (start variables))

looped_accepted : check_statements 4 looped (start variables) ≡ ok after_looped
unfolding check_statements find_loop_end take_block drop_block process_block
looped_accepted = refl

looped_errors : error_count after_looped ≡ error_count (start variables)
unfolding process_block process_borrow process_loop check_statement_for_loop_errors declare_all
    add_borrow mark_as_reference set_ownership enter_scope exit_scope enter_loop exit_loop
    clear_loop_locals insert get remove map_values retain contains add discard
looped_errors = refl

looped_start : IsSound (start variables)
unfolding declare_all set_ownership
looped_start = record { outside = refl; exclusive = tt }

looped_safe : IsSafeBlock looped
unfolding IsSafeBlock
looped_safe = (tt, (tt, (tt, (tt, tt))))

check_statements-IsSound_example : IsSound after_looped
check_statements-IsSound_example =
    check_statements-IsSound 4 looped (start variables) after_looped looped_safe looped_accepted
      looped_errors looped_start

check_statements-loop_example :
    check_statements 4 looped (start variables)
    ≡ check_statements 3
        (cons (IrStatement.borrow "x" "w" BorrowKind.mutable) nil)
        (process_loop body (start variables))
check_statements-loop_example =
    check_statements-loop 3 body (cons (IrStatement.borrow "x" "w" BorrowKind.mutable) nil)
      (start variables) tt
