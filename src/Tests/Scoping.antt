-- ===== src/Tests/Scoping.antt =====
-- Scopes and inferred lifetimes of whole functions: src/analysis/scope_lifetime.rs and
-- src/analysis/lifetime_inference.rs.
use rustycpp.Common.{insert, false, get, String, ◌≡◌, refl, arith, none, some, List, [], ◌∷◌, ok}
use rustycpp.Ir.{
  IrStatement, IrExpression, Block, nil, cons, BorrowKind, OwnershipState, VariableType, IrFunction,
  IrProgram, ControlFlowGraph,
}
use rustycpp.Annotations.{HeaderCache}
use rustycpp.Scopes
use rustycpp.Scopes.{ScopedLifetimeTracker, ScopeKind, push_scope, declare_variable, find_scope}
use rustycpp.Scopes.Functions.{analyze_function_scopes, check_scoped_lifetimes}
use rustycpp.Scopes.Queue.{HasClosedEdges}
use rustycpp.Scopes.Total.{check_scoped_lifetimes_total}
use rustycpp.Scopes.Quiet.{analyze_function_scopes-quiet}
use rustycpp.Inference
use rustycpp.Inference.{
  infer_function_lifetimes, is_alive_at, all_statements, first_pass, second_pass, third_pass,
  process_statement,
}

abbrev borrows : Block
borrows =
    cons (IrStatement.borrow "x" "r" BorrowKind.immutable)
      (cons (IrStatement.borrow "y" "s" BorrowKind.immutable) nil)

abbrev returns : Block
returns = cons (IrStatement.return (some "r")) nil

-- two blocks with edges both ways
abbrev two_blocks : Block → Block → ControlFlowGraph
two_blocks a b = record {
  blocks =
      record { id = 0; statements = a; terminator = none }
      ∷ record { id = 1; statements = b; terminator = none }
      ∷ [];
  successors = λ n. 1 ∷ 0 ∷ [];
  incoming = λ n. n;
}

abbrev function_of : ControlFlowGraph → IrFunction
function_of cfg = record {
  name = "f";
  cfg = cfg;
  variables =
      (
        "r",
        record {
          name = "r";
          ty = VariableType.reference "int";
          ownership = OwnershipState.uninitialized;
          lifetime = none;
        },
      )
      ∷ [];
}

abbrev no_headers : HeaderCache
no_headers = record { signatures = []; processed_headers = []; include_paths = [] }

two_blocks-HasClosedEdges : (a b : Block) → HasClosedEdges (two_blocks a b)
two_blocks-HasClosedEdges a b n h = (omega arith, (omega arith, tt))

abbrev one_name : ScopedLifetimeTracker
one_name = declare_variable (push_scope Scopes.new ScopeKind.function none).1 "x" 0

abbrev program : IrProgram
program = record { functions = function_of (two_blocks borrows returns) ∷ [] }

check_scoped_lifetimes_total_example :
    (errors : List String) × (check_scoped_lifetimes program no_headers ≡ ok errors)
check_scoped_lifetimes_total_example =
    check_scoped_lifetimes_total program no_headers (two_blocks-HasClosedEdges borrows returns, tt)

analyze_function_scopes-quiet_example :
    analyze_function_scopes (function_of (two_blocks returns nil)) no_headers ≡ ok []
analyze_function_scopes-quiet_example =
    analyze_function_scopes-quiet (function_of (two_blocks returns nil)) no_headers
      (two_blocks-HasClosedEdges returns nil) (tt, (tt, tt))

-- `y` is borrowed in the second block, and bound nowhere
abbrev borrower : IrFunction
borrower = function_of (two_blocks returns borrows)

-- `y = 0; x = y;`: the second statement reads `y`, but `y` is not alive there
abbrev assigning : IrFunction
assigning = function_of (
    two_blocks
      (cons (IrStatement.assign "y" (IrExpression.new "int"))
        (cons (IrStatement.assign "x" (IrExpression.variable "y")) nil))
      nil)

assigned_read : is_alive_at (infer_function_lifetimes assigning Inference.new) "y" 1 ≡ false
unfolding is_alive_at infer_function_lifetimes all_statements first_pass second_pass third_pass
    process_statement get insert
assigned_read = refl

abbrev moving : Block
moving =
    cons (IrStatement.assign "x" (IrExpression.new "int")) (cons (IrStatement.move "x" "y") nil)

abbrev mover : IrFunction
mover = function_of (two_blocks moving nil)
