-- ===== src/Ownership/Moved.antt =====
-- A variable that src/analysis/ownership.rs has seen moved or dropped.
use rustycpp.Common.{String, eq_iff, ◌≡◌, ◌≢◌, refl, Option, some, arith, get-insert, err}
use rustycpp.Ir.{IrStatement, IrExpression, OwnershipState, Block, nil, cons}
use rustycpp.Ownership.{
  OwnershipAnalyzer, analyze_statement, get_state, set_state, move_from, already_moved,
}

-- the analyzer after a block, errors passed over
unfoldable pub analyze_block : OwnershipAnalyzer → Block → OwnershipAnalyzer
analyze_block analyzer nil = analyzer
analyze_block analyzer (cons s b) = analyze_block (analyze_statement analyzer s).1 b

-- no statement assigns to the variable
abbrev pub IsUnassigned : String → IrStatement → Type 0
IsUnassigned x (IrStatement.assign lhs _) = lhs ≢ x
IsUnassigned x _ = Unit

abbrev pub IsUnassignedIn : String → Block → Type 0
IsUnassignedIn x nil = Unit
IsUnassignedIn x (cons s b) = IsUnassigned x s × IsUnassignedIn x b

set_keeps :
    (a : OwnershipAnalyzer) (x y : String) (s : OwnershipState)
    → y ≢ x
    → get_state a x ≡ some OwnershipState.moved
    → get_state (set_state a y s) x ≡ some OwnershipState.moved
set_keeps a x y s ne h = ground (arith, get-insert a.states y x s, eq_iff y x)

set_moves :
    (a : OwnershipAnalyzer) (x y : String)
    → get_state a x ≡ some OwnershipState.moved
    → get_state (set_state a y OwnershipState.moved) x ≡ some OwnershipState.moved
set_moves a x y h = ground (arith, get-insert a.states y x OwnershipState.moved)

move_from_keeps :
    (a : OwnershipAnalyzer) (x lhs from : String) (s : Option OwnershipState)
    → lhs ≢ x
    → get_state a x ≡ some OwnershipState.moved
    → get_state (move_from a lhs from s).1 x ≡ some OwnershipState.moved
move_from_keeps a x lhs from (some OwnershipState.owned) ne h =
    set_keeps (set_state a from OwnershipState.moved) x lhs OwnershipState.owned ne
      (set_moves a x from h)
move_from_keeps a x lhs from _ ne h = h

statement_keeps :
    (a : OwnershipAnalyzer) (x : String) (s : IrStatement)
    → IsUnassigned x s
    → get_state a x ≡ some OwnershipState.moved
    → get_state (analyze_statement a s).1 x ≡ some OwnershipState.moved
unfolding analyze_statement
statement_keeps a x (IrStatement.assign lhs (IrExpression.move from)) ne h =
    move_from_keeps a x lhs from (get_state a from) ne h
statement_keeps a x (IrStatement.assign lhs (IrExpression.new _)) ne h =
    set_keeps a x lhs OwnershipState.owned ne h
statement_keeps a x (IrStatement.drop var) ne h = set_moves a x var h
statement_keeps a x _ ne h = h

block_keeps :
    (a : OwnershipAnalyzer) (x : String) (b : Block)
    → IsUnassignedIn x b
    → get_state a x ≡ some OwnershipState.moved
    → get_state (analyze_block a b) x ≡ some OwnershipState.moved
unfolding analyze_block
block_keeps a x nil u h = h
block_keeps a x (cons s b) (p, u) h =
    block_keeps (analyze_statement a s).1 x b u (statement_keeps a x s p h)

moved_again :
    (a : OwnershipAnalyzer) (x second : String)
    → get_state a x ≡ some OwnershipState.moved
    → (analyze_statement a (IrStatement.assign second (IrExpression.move x))).0
      ≡ err (already_moved x)
unfolding analyze_statement
moved_again a x second h = rw h refl

first_move :
    (a : OwnershipAnalyzer) (x first : String)
    → first ≢ x
    → get_state a x ≡ some OwnershipState.owned
    → get_state (analyze_statement a (IrStatement.assign first (IrExpression.move x))).1 x
      ≡ some OwnershipState.moved
unfolding analyze_statement
first_move a x first ne h = rw h (
    set_keeps (set_state a x OwnershipState.moved) x first OwnershipState.owned ne
      (ground (arith, get-insert a.states x x OwnershipState.moved, eq_iff x x)))

-- A variable that was owned when it was moved out of, and is not assigned since, is reported when
-- it is moved out of again; the first move was into another variable.
pub move_twice_reported :
    (a : OwnershipAnalyzer) (x first second : String) (b : Block)
    → get_state a x ≡ some OwnershipState.owned
    → first ≢ x
    → IsUnassignedIn x b
    → (let before = analyze_block a (cons (IrStatement.assign first (IrExpression.move x)) b) in
        (analyze_statement before (IrStatement.assign second (IrExpression.move x))).0
        ≡ err (already_moved x))
unfolding analyze_block
move_twice_reported a x first second b h ne u =
    let s = IrStatement.assign first (IrExpression.move x) in
    let moved = first_move a x first ne h in
    moved_again (analyze_block a (cons s b)) x second
      (block_keeps (analyze_statement a s).1 x b u moved)
