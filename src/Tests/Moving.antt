-- ===== src/Tests/Moving.antt =====
-- Moves: what src/analysis/mod.rs reports, and what it forgets after a conditional.
use rustycpp.Common.{
  IsMap, false, String, ◌≡◌, ◌≢◌, ◌<◌, ◌↔◌, refl, arith, eq_iff, [], ◌∷◌, some, none,
}
use rustycpp.Common.{insert, get}
use rustycpp.Ir.{
  Block, nil, cons, append, IrStatement, IrExpression, VariableInfo, VariableType, OwnershipState,
  BorrowKind, ElseBranch,
}
use rustycpp.Tracker
use rustycpp.Tracker.{
  OwnershipTracker, TrackerState, add_borrow, mark_as_reference, set_ownership, enter_scope,
  exit_scope, enter_loop, exit_loop, clear_loop_locals, get_ownership, merge_states, is_reference,
}
use rustycpp.Tracker.WellFormed.{IsTracker}
use rustycpp.Tracker.Merge.{merge_states-moved_iff}
use rustycpp.Checker.{
  is_marker, process_borrow, process_borrow, Checker, process_block, process_statement,
  process_loop, process_move, declare_all, with_tracker,
}
use rustycpp.Checker.Growth.{error_count}
use rustycpp.Checker.SafeCode.{IsSafeBlock}
use rustycpp.Checker.Moves.{
  IsMovedIn, IsNotTargetBlock, Uses, use_after_move_reported, moved_persists,
}
use rustycpp.Checker.Rounds.{moved_in_loop_reported}
use rustycpp.Checker.Loans.Initial.{start, start-IsInitial}
use rustycpp.Checker.WellFormed.{process_block-IsTracker}

abbrev boxed : String → VariableInfo
boxed name = record {
  name = name;
  ty = VariableType.unique_ptr "Box";
  ownership = OwnershipState.owned;
  lifetime = none;
}

abbrev begun : Checker
begun = start (("a", boxed "a") ∷ ("b", boxed "b") ∷ [])

-- a conditional that moves `a` in neither branch
abbrev between : Block
between =
    cons (IrStatement.if_else (cons (IrStatement.move "b" "c") nil) ElseBranch.absent)
      (cons (IrStatement.assign "d" (IrExpression.new "int")) nil)

begun-IsTracker : IsTracker begun.tracker
begun-IsTracker = (start-IsInitial (("a", boxed "a") ∷ ("b", boxed "b") ∷ [])).tables

begun_outside : begun.tracker.unsafe_depth ≡ 0
begun_outside = (start-IsInitial (("a", boxed "a") ∷ ("b", boxed "b") ∷ [])).outside

begun_no_reference : is_reference begun.tracker "a" ≡ false
unfolding declare_all set_ownership get
begun_no_reference = refl

target_differs : ◌≢◌ {A = String} "b" "a"
target_differs p = ground (arith, p, eq_iff "b" "a")

other_differs : ◌≢◌ {A = String} "c" "a"
other_differs p = ground (arith, p, eq_iff "c" "a")

between-IsNotTarget : IsNotTargetBlock "a" between
unfolding IsNotTargetBlock
between-IsNotTarget = (((other_differs, tt), tt), (tt, tt))

between-IsSafe : IsSafeBlock between
unfolding IsSafeBlock
between-IsSafe = (((tt, tt), tt), (tt, tt))

abbrev used : IrStatement
used = IrStatement.borrow "a" "r" BorrowKind.immutable

use_after_move_reported_example :
    let before = process_block (cons (IrStatement.move "a" "b") between) begun in
    error_count before < error_count (process_statement used before)
use_after_move_reported_example =
    use_after_move_reported "a" "b" between used begun (Uses.borrows "r" BorrowKind.immutable)
      begun-IsTracker begun_outside begun_no_reference target_differs between-IsNotTarget
      between-IsSafe

abbrev before_move : Block
before_move = cons (IrStatement.borrow "b" "r" BorrowKind.immutable) nil

before_move-IsSafe : IsSafeBlock before_move
unfolding IsSafeBlock
before_move-IsSafe = (tt, tt)

abbrev round_start : Checker
round_start = process_block before_move (with_tracker begun (enter_loop begun.tracker))

round_no_reference : is_reference round_start.tracker "a" ≡ false
unfolding process_block declare_all set_ownership get insert enter_loop process_borrow add_borrow
    mark_as_reference
round_no_reference = refl

moved_in_loop_reported_example :
    error_count begun
    < error_count
        (process_loop (append before_move (cons (IrStatement.move "a" "b") between)) begun)
moved_in_loop_reported_example =
    moved_in_loop_reported "a" "b" before_move between begun begun-IsTracker begun_outside
      before_move-IsSafe round_no_reference target_differs between-IsNotTarget

abbrev moved_a : Checker
moved_a = process_move "a" "b" begun

moved_a-IsTracker : IsTracker moved_a.tracker
unfolding process_block
moved_a-IsTracker =
    process_block-IsTracker (cons (IrStatement.move "a" "b") nil) begun begun-IsTracker

moved_a-IsMovedIn : IsMovedIn "a" moved_a.tracker
unfolding process_move declare_all set_ownership get insert is_marker
moved_a-IsMovedIn = refl

moved_persists_example : IsMovedIn "a" (process_block between moved_a).tracker
moved_persists_example =
    moved_persists "a" between moved_a between-IsNotTarget moved_a-IsTracker moved_a-IsMovedIn

abbrev state_with : OwnershipState → TrackerState
state_with s = record { ownership = ("a", s) ∷ []; borrows = []; reference_info = [] }

moved-IsMap : IsMap (state_with OwnershipState.moved).ownership
unfolding get
moved-IsMap = (refl, tt)

moved_there : get (state_with OwnershipState.moved).ownership "a" ≡ some OwnershipState.moved
unfolding get
moved_there = refl

owned_there : get (state_with OwnershipState.owned).ownership "a" ≡ some OwnershipState.owned
unfolding get
owned_there = refl

merge_states-moved_iff_example :
    (get_ownership
        (merge_states Tracker.new
          (state_with OwnershipState.moved)
          (state_with OwnershipState.owned))
        "a"
      ≡ some OwnershipState.moved)
    ↔ ((OwnershipState.moved ≡ OwnershipState.moved)
        × (OwnershipState.owned ≡ OwnershipState.moved))
merge_states-moved_iff_example =
    merge_states-moved_iff Tracker.new (state_with OwnershipState.moved)
      (state_with OwnershipState.owned) "a" OwnershipState.moved OwnershipState.owned moved-IsMap
      moved_there owned_there
