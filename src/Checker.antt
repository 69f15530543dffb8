-- ===== src/Checker.antt =====
-- The borrow checker of one function: src/analysis/mod.rs, lines 162-480. The tracker and the list
-- of errors that the code mutates are the two fields of `Checker`.
use rustycpp.Common.{
  ℕ, zero, suc, ◌+◌, ◌-◌, ltb, eqb, String, ◌==◌, starts_with, Bool, true, false, not, ◌&&◌, ◌||◌,
  Option, none, some, List, [], ◌∷◌, ◌++◌, if◌then◌else◌, Map, get, StringSet, add, Outcome, ok,
  panic, out_of_fuel, ◌>>=◌,
}
use rustycpp.Ir.{
  BorrowKind, immutable, mutable, OwnershipState, VariableType, VariableInfo, IrExpression,
  IrStatement, Block, nil, cons, ElseBranch, absent, present, BasicBlock, IrFunction,
}
use rustycpp.Tracker
use rustycpp.Tracker.{
  OwnershipTracker, BorrowInfo, TrackerState, is_moved, is_in_unsafe_block, set_ownership,
  get_ownership, get_borrows, add_borrow, enter_scope, exit_scope, mark_as_reference, is_reference,
  is_mutable_reference, enter_loop, exit_loop, clone_state, restore_state, merge_states,
  clear_loop_locals,
}
mod Messages
pub mod Growth
pub mod SafeCode
pub mod Exclusive
pub mod Loops
pub mod Rounds
pub mod Accepted
pub mod Loans
pub mod WellFormed
pub mod Moves
use Messages.{
  cannot_move, use_after_move, cannot_borrow_moved, already_mutable, already_immutable,
  mutable_twice, const_assign, use_of_moved, moved_in_loop,
}

pub record Checker : Type 0 where
  pub tracker : OwnershipTracker
  pub errors : List String

-- `errors.push(message)`
abbrev pub push : String → Checker → Checker
push message c = record c { errors = c.errors ++ message ∷ [] }

abbrev pub with_tracker : Checker → OwnershipTracker → Checker
with_tracker c t = record c { tracker = t }

-- `state == Some(&OwnershipState::Moved)`
abbrev pub is_some_moved : Option OwnershipState → Bool
is_some_moved none = false
is_some_moved (some s) = is_moved s

abbrev pub transfer : OwnershipTracker → String → String → OwnershipTracker
transfer t from to =
    set_ownership (set_ownership t from OwnershipState.moved) to OwnershipState.owned

-- the targets that mark a `std::move` in the arguments of a call
unfoldable pub is_marker : String → Bool
is_marker to = starts_with to "_temp_move_" || starts_with to "_moved_"

unfoldable pub process_move : String → String → Checker → Checker
process_move from to c =
    if is_in_unsafe_block c.tracker
    then with_tracker c (transfer c.tracker from to)
    else if is_reference c.tracker from
    then push (cannot_move from) c
    else let checked =
        if is_some_moved (get_ownership c.tracker from) then push (use_after_move from) c else c in
      if is_marker to
      then with_tracker checked (set_ownership checked.tracker from OwnershipState.moved)
      else with_tracker checked (transfer checked.tracker from to)

abbrev pub is_mutable_kind : BorrowKind → Bool
is_mutable_kind immutable = false
is_mutable_kind mutable = true

abbrev pub record_borrow : OwnershipTracker → String → String → BorrowKind → OwnershipTracker
record_borrow t from to kind =
    mark_as_reference (add_borrow t from to kind) to (is_mutable_kind kind)

-- the errors of a borrow beside those that exist
unfoldable pub check_conflict : String → BorrowKind → BorrowInfo → Checker → Checker
check_conflict from immutable info c = if info.has_mutable then push (already_mutable from) c else c
check_conflict from mutable info c =
    if ltb 0 info.immutable_count
    then push (already_immutable from) c
    else if info.has_mutable
    then push (mutable_twice from) c
    else c

unfoldable pub process_borrow : String → String → BorrowKind → Checker → Checker
unfolding check_conflict
process_borrow from to kind c =
    if is_in_unsafe_block c.tracker
    then with_tracker c (record_borrow c.tracker from to kind)
    else if is_some_moved (get_ownership c.tracker from)
    then push (cannot_borrow_moved from) c
    else let checked = check_conflict from kind (get_borrows c.tracker from) c in
      with_tracker checked (record_borrow checked.tracker from to kind)

-- `if let IrExpression::Variable(rhs_var) = rhs`
abbrev pub uses_moved : OwnershipTracker → IrExpression → Option String
uses_moved t (IrExpression.variable var) =
    if is_some_moved (get_ownership t var) then some var else none
uses_moved t _ = none

abbrev pub push_if : (String → String) → Option String → Checker → Checker
push_if message none c = c
push_if message (some var) c = push (message var) c

unfoldable pub process_assign : String → IrExpression → Checker → Checker
process_assign lhs rhs c =
    if is_in_unsafe_block c.tracker
    then c
    else let checked =
        if is_reference c.tracker lhs && not (is_mutable_reference c.tracker lhs)
        then push (const_assign lhs) c
        else c in
      push_if use_of_moved (uses_moved checked.tracker rhs) checked

unfoldable pub enter_unsafe : OwnershipTracker → OwnershipTracker
enter_unsafe t = record t { unsafe_depth = t.unsafe_depth + 1 }

unfoldable pub exit_unsafe : OwnershipTracker → OwnershipTracker
exit_unsafe t = if ltb 0 t.unsafe_depth then record t { unsafe_depth = t.unsafe_depth - 1 } else t

unfoldable mutual
  pub process_statement : IrStatement → Checker → Checker
  process_statement (IrStatement.move from to) c = process_move from to c
  process_statement (IrStatement.borrow from to kind) c = process_borrow from to kind c
  process_statement (IrStatement.assign lhs rhs) c = process_assign lhs rhs c
  process_statement IrStatement.enter_scope c = with_tracker c (enter_scope c.tracker)
  process_statement IrStatement.exit_scope c = with_tracker c (exit_scope c.tracker)
  process_statement IrStatement.enter_loop c = c
  process_statement IrStatement.exit_loop c = c
  process_statement IrStatement.enter_unsafe c = with_tracker c (enter_unsafe c.tracker)
  process_statement IrStatement.exit_unsafe c = with_tracker c (exit_unsafe c.tracker)
  process_statement (IrStatement.if_else then_branch else_branch) c =
      let merged =
        let after_then = process_block then_branch c in
        let restored =
          with_tracker after_then (restore_state after_then.tracker (clone_state c.tracker)) in
        process_else else_branch (clone_state c.tracker) (clone_state after_then.tracker)
          restored in
      if is_in_unsafe_block c.tracker then c else merged
  process_statement (IrStatement.call_expr func args result) c = c
  process_statement (IrStatement.return value) c = c
  process_statement (IrStatement.drop var) c = c

  -- `for stmt in statements`
  pub process_block : Block → Checker → Checker
  process_block nil c = c
  process_block (cons s rest) c = process_block rest (process_statement s c)

  -- the second half of a conditional, from the restored state
  pub process_else : ElseBranch → TrackerState → TrackerState → Checker → Checker
  process_else absent before after_then c =
      with_tracker c (merge_states c.tracker after_then before)
  process_else (present statements) before after_then c =
      let c' = process_block statements c in
      with_tracker c' (merge_states c'.tracker after_then (clone_state c'.tracker))

-- the variable that a statement moves or reads, for the second round of a loop
abbrev pub used_variable : IrStatement → Option String
used_variable (IrStatement.move from to) = some from
used_variable (IrStatement.assign lhs (IrExpression.variable var)) = some var
used_variable _ = none

abbrev pub loop_error : Map OwnershipState → Option String → List String → List String
loop_error state none errors = errors
loop_error state (some var) errors =
    if is_some_moved (get state var) then errors ++ moved_in_loop var ∷ [] else errors

unfoldable pub check_statement_for_loop_errors :
    IrStatement → Map OwnershipState → List String → List String
check_statement_for_loop_errors s state errors = loop_error state (used_variable s) errors

-- `loop_local_vars`, gathered in the first round
unfoldable pub loop_locals : Block → StringSet → StringSet
loop_locals nil vars = vars
loop_locals (cons (IrStatement.borrow from to kind) rest) vars = loop_locals rest (add vars to)
loop_locals (cons _ rest) vars = loop_locals rest vars

unfoldable pub second_round : Block → Map OwnershipState → Checker → Checker
unfolding check_statement_for_loop_errors
second_round nil state c = c
second_round (cons s rest) state c =
    second_round rest state
      (process_statement s (record c { errors = check_statement_for_loop_errors s state c.errors }))

-- a loop body, processed twice
unfoldable pub process_loop : Block → Checker → Checker
unfolding loop_locals second_round
process_loop body c =
    let locals = loop_locals body [] in
    let first = process_block body (with_tracker c (enter_loop c.tracker)) in
    let second =
      second_round body first.tracker.ownership
        (with_tracker first (clear_loop_locals first.tracker locals)) in
    with_tracker second (exit_loop (clear_loop_locals second.tracker locals))

abbrev pub loop_depth_after : IrStatement → ℕ → ℕ
loop_depth_after IrStatement.enter_loop depth = depth + 1
loop_depth_after IrStatement.exit_loop depth = depth - 1
loop_depth_after _ depth = depth

-- `loop_end - (i + 1)`: how many statements the search for the matching `ExitLoop` passes
unfoldable pub find_loop_end : Block → ℕ → ℕ
find_loop_end nil depth = 0
find_loop_end (cons s rest) depth =
    let further = suc (find_loop_end rest (loop_depth_after s depth)) in
    if eqb depth 0 then 0 else further

unfoldable pub take_block : ℕ → Block → Block
take_block zero b = nil
take_block (suc n) nil = nil
take_block (suc n) (cons s b) = cons s (take_block n b)

unfoldable pub drop_block : ℕ → Block → Block
drop_block zero b = b
drop_block (suc n) nil = nil
drop_block (suc n) (cons s b) = drop_block n b

abbrev pub is_enter_loop : IrStatement → Bool
is_enter_loop IrStatement.enter_loop = true
is_enter_loop _ = false

-- The loop over the indices of a block. The slice `[i + 1 .. loop_end - 1]` panics where
-- `EnterLoop` is the last statement.
unfoldable pub check_statements : ℕ → Block → Checker → Outcome Checker
check_statements fuel nil c = ok c
check_statements zero (cons s rest) c = out_of_fuel
check_statements (suc fuel) (cons s rest) c =
    let n = find_loop_end rest 1 in
    let after_loop =
      check_statements fuel (drop_block n rest) (process_loop (take_block (n - 1) rest) c) in
    let plain = check_statements fuel rest (process_statement s c) in
    let looped = if eqb n 0 then panic else after_loop in if is_enter_loop s then looped else plain

abbrev pub block_length : Block → ℕ
block_length nil = 0
block_length (cons _ b) = suc (block_length b)

unfoldable pub check_blocks : List BasicBlock → Checker → Outcome Checker
unfolding check_statements
check_blocks [] c = ok c
check_blocks (b ∷ blocks) c = do
  c' ← check_statements (block_length b.statements) b.statements c
  check_blocks blocks c'

abbrev pub mark_type : OwnershipTracker → String → VariableType → OwnershipTracker
mark_type t name (VariableType.reference _) = mark_as_reference t name false
mark_type t name (VariableType.mutable_reference _) = mark_as_reference t name true
mark_type t name _ = t

unfoldable pub declare : OwnershipTracker → String → VariableInfo → OwnershipTracker
declare t name info = mark_type (set_ownership t name info.ownership) name info.ty

unfoldable pub declare_all : OwnershipTracker → Map VariableInfo → OwnershipTracker
unfolding declare
declare_all t [] = t
declare_all t ((name, info) ∷ variables) = declare_all (declare t name info) variables

unfoldable pub check_function : IrFunction → Outcome (List String)
unfolding check_blocks declare_all
check_function f = do
  c ←
      check_blocks f.cfg.blocks
        (record { tracker = declare_all Tracker.new f.variables; errors = [] })
  ok c.errors
