-- ===== src/Ir.antt =====
-- The intermediate representation that the analyses read: src/ir/mod.rs, lines 5-138.
-- A control-flow graph of petgraph is taken by what the analyses ask of it: the blocks in the
-- order of `node_indices`, the successors of a node and the number of its incoming edges.
use rustycpp.Common.{ℕ, String, Option, List, Map}

pub data BorrowKind : Type 0 where
  immutable mutable : BorrowKind

pub data OwnershipState : Type 0 where
  owned : OwnershipState
  borrowed : BorrowKind → OwnershipState
  moved uninitialized : OwnershipState

pub data VariableType : Type 0 where
  owned reference mutable_reference unique_ptr shared_ptr raw : String → VariableType

pub record Lifetime : Type 0 where
  pub name : String
  pub scope_start : ℕ
  pub scope_end : ℕ

pub record VariableInfo : Type 0 where
  pub name : String
  pub ty : VariableType
  pub ownership : OwnershipState
  pub lifetime : Option Lifetime

pub data IrExpression : Type 0 where
  variable move : String → IrExpression
  borrow : String → BorrowKind → IrExpression
  new : String → IrExpression

-- `Block` is `Vec<IrStatement>`, and `ElseBranch` is `Option<Vec<IrStatement>>`.
mutual
  pub data IrStatement : Type 0 where
    assign : String → IrExpression → IrStatement
    move : String → String → IrStatement
    borrow : String → String → BorrowKind → IrStatement
    call_expr : String → List String → Option String → IrStatement
    return : Option String → IrStatement
    drop : String → IrStatement
    enter_scope exit_scope enter_loop exit_loop : IrStatement
    if_else : Block → ElseBranch → IrStatement
    enter_unsafe exit_unsafe : IrStatement

  pub data Block : Type 0 where
    nil : Block
    cons : IrStatement → Block → Block

  pub data ElseBranch : Type 0 where
    absent : ElseBranch
    present : Block → ElseBranch

-- `Vec::extend`
abbrev pub append : Block → Block → Block
append nil c = c
append (cons s b) c = cons s (append b c)

pub data Terminator : Type 0 where
  return : Option String → Terminator
  jump : ℕ → Terminator
  branch : String → ℕ → ℕ → Terminator

pub record BasicBlock : Type 0 where
  pub id : ℕ
  pub statements : Block
  pub terminator : Option Terminator

pub record ControlFlowGraph : Type 0 where
  pub blocks : List BasicBlock
  pub successors : ℕ → List ℕ
  pub incoming : ℕ → ℕ

pub record IrFunction : Type 0 where
  pub name : String
  pub cfg : ControlFlowGraph
  pub variables : Map VariableInfo

pub record IrProgram : Type 0 where
  pub functions : List IrFunction
