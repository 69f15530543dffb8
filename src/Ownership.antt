-- ===== src/Ownership.antt =====
-- Ownership of variables through moves by assignment: src/analysis/ownership.rs.
pub mod Moved
use rustycpp.Common.{
  String, Option, none, some, [], ◌∷◌, concat, Map, get, insert, Outcome, ok, err,
}
use rustycpp.Ir.{IrStatement, IrExpression, OwnershipState}

pub record OwnershipAnalyzer : Type 0 where
  pub states : Map OwnershipState

abbrev pub new : OwnershipAnalyzer
new = record { states = [] }

abbrev pub get_state : OwnershipAnalyzer → String → Option OwnershipState
get_state analyzer var = get analyzer.states var

abbrev pub set_state : OwnershipAnalyzer → String → OwnershipState → OwnershipAnalyzer
set_state analyzer var state = record { states = insert analyzer.states var state }

pub already_moved : String → String
already_moved from = concat ("Use after move: '" ∷ from ∷ "'" ∷ [])

-- an assignment of a moved variable, by the state of the variable
abbrev pub move_from :
    OwnershipAnalyzer
    → String
    → String
    → Option OwnershipState
    → Outcome (Unit {0}) × OwnershipAnalyzer
move_from analyzer lhs from (some OwnershipState.owned) =
    (ok tt, set_state (set_state analyzer from OwnershipState.moved) lhs OwnershipState.owned)
move_from analyzer lhs from (some OwnershipState.moved) = (err (already_moved from), analyzer)
move_from analyzer lhs from _ = (ok tt, analyzer)

-- the result, and the analyzer afterwards
unfoldable pub analyze_statement :
    OwnershipAnalyzer → IrStatement → Outcome (Unit {0}) × OwnershipAnalyzer
analyze_statement analyzer (IrStatement.assign lhs (IrExpression.move from)) =
    move_from analyzer lhs from (get_state analyzer from)
analyze_statement analyzer (IrStatement.assign lhs (IrExpression.new _)) =
    (ok tt, set_state analyzer lhs OwnershipState.owned)
analyze_statement analyzer (IrStatement.drop var) =
    (ok tt, set_state analyzer var OwnershipState.moved)
analyze_statement analyzer _ = (ok tt, analyzer)
