-- ===== src/Build.antt =====
-- From the syntax tree to the intermediate representation: src/ir/mod.rs, lines 140-455. The
-- conversions never return an error, so their `Result` is left out, as is the output on stderr.
pub mod Markers
use rustycpp.Common.{
  ℕ, String, Bool, true, false, Option, none, some, List, [], ◌∷◌, concat, if◌then◌else◌, Map, get,
  insert,
}
use rustycpp.Ir.{
  BorrowKind, immutable, mutable, OwnershipState, VariableType, VariableInfo, IrExpression,
  IrStatement, Block, ElseBranch, BasicBlock, ControlFlowGraph, IrFunction, IrProgram, append,
}
use rustycpp.Ast
use rustycpp.Ast.{Variable, Expression, Args, arg, Statement, Body, ElseBody, Function, CppAst}

abbrev pub single : IrStatement → Block
single s = Block.cons s Block.nil

abbrev pub Variables : Type 0
Variables = Map VariableInfo

abbrev pub info : Variable → VariableType → OwnershipState → VariableInfo
info var ty ownership = record { name = var.name; ty = ty; ownership = ownership; lifetime = none }

-- a variable declared in the body; references are bound later
unfoldable pub declared : Variable → VariableInfo
declared var =
    if var.is_unique_ptr
    then info var (VariableType.unique_ptr var.type_name) OwnershipState.owned
    else if var.is_reference
    then if var.is_const
      then info var (VariableType.reference var.type_name) OwnershipState.uninitialized
      else info var (VariableType.mutable_reference var.type_name) OwnershipState.uninitialized
    else info var (VariableType.owned var.type_name) OwnershipState.owned

-- a parameter
unfoldable pub parameter : Variable → VariableInfo
parameter var =
    if var.is_unique_ptr
    then info var (VariableType.unique_ptr var.type_name) OwnershipState.owned
    else if var.is_reference
    then if var.is_const
      then info var (VariableType.reference var.type_name) (OwnershipState.borrowed immutable)
      else info var (VariableType.mutable_reference var.type_name) (OwnershipState.borrowed mutable)
    else info var (VariableType.owned var.type_name) OwnershipState.owned

-- `if let Some(info) = variables.get_mut(name)`
abbrev pub update_found :
    Variables → String → (VariableInfo → VariableInfo) → Option VariableInfo → Variables
update_found variables name change none = variables
update_found variables name change (some found) = insert variables name (change found)

abbrev pub update : Variables → String → (VariableInfo → VariableInfo) → Variables
update variables name change = update_found variables name change (get variables name)

abbrev pub kind_of : Bool → BorrowKind
kind_of true = mutable
kind_of false = immutable

abbrev pub bound_type : Bool → VariableType → VariableType
bound_type true (VariableType.owned type_name) = VariableType.mutable_reference type_name
bound_type false (VariableType.owned type_name) = VariableType.reference type_name
bound_type _ ty = ty

abbrev pub bind_reference : Bool → VariableInfo → VariableInfo
bind_reference is_mutable found = record found {
  ownership = OwnershipState.borrowed (kind_of is_mutable);
  ty = bound_type is_mutable found.ty;
}

-- The arguments that are variables, and a move for each that is a `std::move` of one.
unfoldable pub convert_args : String → Args → Block × List String
convert_args marker Args.none = (Block.nil, [])
convert_args marker (arg (Expression.variable var) rest) =
    let (statements, names) = convert_args marker rest in (statements, var ∷ names)
convert_args marker (arg (Expression.move (Expression.variable var)) rest) =
    let (statements, names) = convert_args marker rest in
    (Block.cons (IrStatement.move var (concat (marker ∷ var ∷ []))) statements, var ∷ names)
convert_args marker (arg _ rest) = convert_args marker rest

unfoldable pub convert_call : String → String → Args → Option String → Block
unfolding convert_args
convert_call marker name args result =
    let (statements, names) = convert_args marker args in
    append statements (single (IrStatement.call_expr name names result))

-- an assignment from a variable: a move of a unique pointer, or a copy
abbrev pub assign_typed : String → String → VariableType → Block
assign_typed lhs rhs (VariableType.unique_ptr _) = single (IrStatement.move rhs lhs)
assign_typed lhs rhs _ = single (IrStatement.assign lhs (IrExpression.variable rhs))

abbrev pub assign_variable : String → String → Option VariableInfo → Option Block
assign_variable lhs rhs none = none
assign_variable lhs rhs (some found) = some (assign_typed lhs rhs found.ty)

-- the type of the moved variable goes to the target
abbrev pub transfer_type : Variables → String → Option VariableInfo → Variables
transfer_type variables lhs none = variables
transfer_type variables lhs (some source) =
    update variables lhs (λ found. record found { ty = source.ty })

unfoldable pub convert_assignment : String → Expression → Variables → Option Block × Variables
convert_assignment lhs (Expression.variable rhs) variables =
    (assign_variable lhs rhs (get variables rhs), variables)
convert_assignment lhs (Expression.move (Expression.variable var)) variables =
    (some (single (IrStatement.move var lhs)), transfer_type variables lhs (get variables var))
convert_assignment lhs (Expression.function_call name args) variables =
    (some (convert_call "_temp_move_" name args (some lhs)), variables)
convert_assignment lhs _ variables = (none, variables)

unfoldable pub convert_binding : String → Expression → Bool → Variables → Option Block × Variables
convert_binding name (Expression.variable target) is_mutable variables = (
  some (single (IrStatement.borrow target name (kind_of is_mutable))),
  update variables name (bind_reference is_mutable),
)
convert_binding name _ is_mutable variables = (none, variables)

abbrev pub returned : Option Expression → Option String
returned (some (Expression.variable var)) = some var
returned _ = none

-- `if let Some(ir_stmts) = ...`: what a statement adds
abbrev pub extension : Option Block → Block
extension none = Block.nil
extension (some b) = b

unfoldable mutual
  pub convert_statement : Statement → Variables → Option Block × Variables
  convert_statement (Statement.variable_decl var) variables =
      (none, insert variables var.name (declared var))
  convert_statement (Statement.reference_binding name target is_mutable _) variables =
      convert_binding name target is_mutable variables
  convert_statement (Statement.assignment lhs rhs _) variables =
      convert_assignment lhs rhs variables
  convert_statement (Statement.function_call name args _) variables =
      (some (convert_call "_moved_" name args none), variables)
  convert_statement (Statement.return e) variables =
      (some (single (IrStatement.return (returned e))), variables)
  convert_statement Statement.enter_scope variables =
      (some (single IrStatement.enter_scope), variables)
  convert_statement Statement.exit_scope variables =
      (some (single IrStatement.exit_scope), variables)
  convert_statement Statement.enter_loop variables =
      (some (single IrStatement.enter_loop), variables)
  convert_statement Statement.exit_loop variables = (some (single IrStatement.exit_loop), variables)
  convert_statement Statement.enter_unsafe variables =
      (some (single IrStatement.enter_unsafe), variables)
  convert_statement Statement.exit_unsafe variables =
      (some (single IrStatement.exit_unsafe), variables)
  convert_statement (Statement.if_else condition then_branch else_branch _) variables =
      let (then_ir, after_then) = convert_body then_branch variables in
      let (else_ir, after_else) = convert_else else_branch after_then in
      (some (single (IrStatement.if_else then_ir else_ir)), after_else)
  convert_statement (Statement.block _) variables = (none, variables)

  -- the loop over the statements of a body or a branch
  pub convert_body : Body → Variables → Block × Variables
  convert_body Body.nil variables = (Block.nil, variables)
  convert_body (Body.cons s rest) variables =
      let (added, after) = convert_statement s variables in
      let (others, final) = convert_body rest after in (append (extension added) others, final)

  pub convert_else : ElseBody → Variables → ElseBranch × Variables
  convert_else ElseBody.absent variables = (ElseBranch.absent, variables)
  convert_else (ElseBody.present b) variables =
      let (statements, after) = convert_body b variables in (ElseBranch.present statements, after)

unfoldable pub add_parameters : List Variable → Variables → Variables
add_parameters [] variables = variables
add_parameters (p ∷ rest) variables = add_parameters rest (insert variables p.name (parameter p))

-- one block and no edges
abbrev pub single_block : Block → ControlFlowGraph
single_block statements = record {
  blocks = record { id = 0; statements = statements; terminator = none } ∷ [];
  successors = λ _. [];
  incoming = λ _. 0;
}

unfoldable pub convert_function : Function → IrFunction
unfolding convert_body add_parameters
convert_function f =
    let (statements, variables) = convert_body f.body [] in
    record {
      name = f.name;
      cfg = single_block statements;
      variables = add_parameters f.parameters variables;
    }

unfoldable pub convert_functions : List Function → List IrFunction
unfolding convert_function
convert_functions [] = []
convert_functions (f ∷ rest) = convert_function f ∷ convert_functions rest

-- `build_ir`; `build_ir_with_safety_context` ignores its context and does the same
unfoldable pub build_ir : CppAst → IrProgram
unfolding convert_functions
build_ir ast = record { functions = convert_functions ast.functions }
