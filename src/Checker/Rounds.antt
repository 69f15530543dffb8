-- ===== src/Checker/Rounds.antt =====
-- The two rounds of a loop body: src/analysis/mod.rs, lines 196-237 and 254-286.
use rustycpp.Common.{
  ◌≤◌, ◌<◌, ◌≡◌, ◌≢◌, ◌∙◌, refl, arith, String, List, [], ◌∷◌, Option, some, none, false, length,
  length-append, Map, get,
}
use rustycpp.Ir.{append, IrStatement, Block, nil, cons, OwnershipState}
use rustycpp.Tracker.{clear_loop_locals, enter_loop, is_reference}
use rustycpp.Tracker.WellFormed.{IsTracker}
use rustycpp.Checker.{
  Checker, with_tracker, process_statement, process_block, process_loop, second_round, loop_locals,
  check_statement_for_loop_errors, loop_error, used_variable,
}
use rustycpp.Checker.Messages.{moved_in_loop}
use rustycpp.Checker.Growth.{error_count, process_statement-grows, process_block-grows}
use rustycpp.Checker.SafeCode.{IsSafeBlock, unsafe_depth-process_block}
use rustycpp.Checker.WellFormed.{process_block-IsTracker, process_statement-IsTracker}
use rustycpp.Checker.Moves.{IsMovedIn, IsNotTargetBlock, moved_persists, move_marks}

loop_error-grows :
    (state : Map OwnershipState) (var : Option String) (errors : List String)
    → length errors ≤ length (loop_error state var errors)
loop_error-grows state none errors = omega arith
loop_error-grows state (some var) errors =
    ground (arith, length-append errors (moved_in_loop var ∷ []))

-- the checker as the second round passes it to a statement
abbrev pub noticed : IrStatement → Map OwnershipState → Checker → Checker
noticed s state c = record c { errors = check_statement_for_loop_errors s state c.errors }

pub noticed-grows :
    (s : IrStatement) (state : Map OwnershipState) (c : Checker)
    → error_count c ≤ error_count (noticed s state c)
unfolding check_statement_for_loop_errors
noticed-grows s state c = loop_error-grows state (used_variable s) c.errors

pub second_round-grows :
    (b : Block) (state : Map OwnershipState) (c : Checker)
    → error_count c ≤ error_count (second_round b state c)
unfolding second_round
second_round-grows nil state c = omega arith
second_round-grows (cons s rest) state c = omega (
  arith,
  noticed-grows s state c,
  process_statement-grows s (noticed s state c),
  second_round-grows rest state (process_statement s (noticed s state c)),
)

-- a statement that uses a variable which the first round moved
noticed_reports :
    (s : IrStatement) (state : Map OwnershipState) (x : String) (c : Checker)
    → used_variable s ≡ some x
    → get state x ≡ some OwnershipState.moved
    → error_count c < error_count (noticed s state c)
unfolding check_statement_for_loop_errors
noticed_reports s state x c used moved =
    rw (used, moved) (omega (arith, length-append c.errors (moved_in_loop x ∷ [])))

second_round_reports :
    (before after : Block) (s : IrStatement) (state : Map OwnershipState) (x : String) (c : Checker)
    → used_variable s ≡ some x
    → get state x ≡ some OwnershipState.moved
    → error_count c < error_count (second_round (append before (cons s after)) state c)
unfolding second_round
second_round_reports nil after s state x c used moved =
    let c' = noticed s state c in
    omega (
      arith,
      noticed_reports s state x c used moved,
      process_statement-grows s c',
      second_round-grows after state (process_statement s c'),
    )
second_round_reports (cons r before) after s state x c used moved =
    let c' = noticed r state c in
    omega (
      arith,
      noticed-grows r state c,
      process_statement-grows r c',
      second_round_reports before after s state x (process_statement r c') used moved,
    )

process_block-append :
    (a b : Block) (c : Checker) → process_block (append a b) c ≡ process_block b (process_block a c)
unfolding process_block
process_block-append nil b c = refl
process_block-append (cons s a) b c = process_block-append a b (process_statement s c)

pub process_loop-grows :
    (body : Block) (c : Checker) → error_count c ≤ error_count (process_loop body c)
unfolding process_loop
process_loop-grows body c =
    let first = process_block body (with_tracker c (enter_loop c.tracker)) in
    let state = first.tracker.ownership in
    let cleared = with_tracker first (clear_loop_locals first.tracker (loop_locals body [])) in
    let grows = process_block-grows body (with_tracker c (enter_loop c.tracker)) in
    let grows' = second_round-grows body state cleared in omega arith

-- Outside unsafe blocks, and with tables that have one entry for each key, a loop body that has no
-- unsafe markers before it moves out of a variable into another one, where the variable is no
-- reference in the first round, and that moves nothing into the variable afterwards, adds at least
-- one error, whether the variable is local to the body or not.
pub moved_in_loop_reported :
    (x to : String) (before after : Block) (c : Checker)
    → IsTracker c.tracker
    → c.tracker.unsafe_depth ≡ 0
    → IsSafeBlock before
    → is_reference (process_block before (with_tracker c (enter_loop c.tracker))).tracker x ≡ false
    → to ≢ x
    → IsNotTargetBlock x after
    → error_count c
      < error_count (process_loop (append before (cons (IrStatement.move x to) after)) c)
unfolding process_loop process_statement enter_loop
moved_in_loop_reported x to before after c w d safe r ne n =
    let body = append before (cons (IrStatement.move x to) after) in
    let entered = with_tracker c (enter_loop c.tracker) in
    let mid = process_block before entered in
    let first = process_block body entered in
    let depth : mid.tracker.unsafe_depth ≡ 0 = unsafe_depth-process_block before entered safe ∙ d in
    let kept = process_block-IsTracker before entered w in
    let moved = process_statement (IrStatement.move x to) mid in
    let stays : IsMovedIn x (process_block after moved).tracker =
      moved_persists x after moved n (process_statement-IsTracker (IrStatement.move x to) mid kept)
        (move_marks x to mid depth ne r) in
    let end : IsMovedIn x first.tracker =
      rw (process_block-append before (cons (IrStatement.move x to) after) entered) stays in
    let cleared = with_tracker first (clear_loop_locals first.tracker (loop_locals body [])) in
    let grows = process_block-grows body entered in
    let reports =
      second_round_reports before after (IrStatement.move x to) first.tracker.ownership x cleared
        refl end in
    omega arith
