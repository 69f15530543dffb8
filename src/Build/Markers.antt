-- ===== src/Build/Markers.antt =====
-- Markers of loops survive the conversion of src/ir/mod.rs, so the checker of
-- src/analysis/mod.rs never panics on a converted function.
use rustycpp.Common.{
  Bool, get, ℕ, zero, suc, ◌≡◌, refl, arith, String, Option, none, some, List, [], ok, false,
}
use rustycpp.Ir.{VariableType, append, VariableInfo, IrStatement, Block}
use rustycpp.Ast.{Expression, Args, arg, Statement, Body, Function}
use rustycpp.Checker.{check_function, block_length}
use rustycpp.Checker.Loans.Initial.{start}
use rustycpp.Checker.Loops.{IsNested, ends_in_loop, check_statements_total}
use rustycpp.Build.{
  assign_typed, single, Variables, convert_args, convert_call, convert_assignment, convert_binding,
  convert_statement, convert_body, convert_function, extension, assign_variable,
}

-- the markers of loops of a body are nested, from `depth` open loops
abbrev pub IsNestedBody : ℕ → Body → Type 0
IsNestedBody zero Body.nil = Unit
IsNestedBody (suc depth) Body.nil = ⊥
IsNestedBody depth (Body.cons Statement.enter_loop b) = IsNestedBody (suc depth) b
IsNestedBody zero (Body.cons Statement.exit_loop b) = ⊥
IsNestedBody (suc depth) (Body.cons Statement.exit_loop b) = IsNestedBody depth b
IsNestedBody depth (Body.cons _ b) = IsNestedBody depth b

-- statements without markers of loops
abbrev IsUnmarked : Block → Type 0
IsUnmarked Block.nil = Unit
IsUnmarked (Block.cons IrStatement.enter_loop b) = ⊥
IsUnmarked (Block.cons IrStatement.exit_loop b) = ⊥
IsUnmarked (Block.cons _ b) = IsUnmarked b

IsNested-append :
    (depth : ℕ) (a b : Block) → IsUnmarked a → IsNested depth b → IsNested depth (append a b)
IsNested-append depth Block.nil b u h = h
IsNested-append depth (Block.cons IrStatement.enter_loop a) b u h = absurd u
IsNested-append zero (Block.cons IrStatement.exit_loop a) b u h = absurd u
IsNested-append (suc depth) (Block.cons IrStatement.exit_loop a) b u h = absurd u
IsNested-append depth (Block.cons _ a) b u h = IsNested-append depth a b u h

IsUnmarked-append : (a b : Block) → IsUnmarked a → IsUnmarked b → IsUnmarked (append a b)
IsUnmarked-append Block.nil b h k = k
IsUnmarked-append (Block.cons IrStatement.enter_loop a) b h k = absurd h
IsUnmarked-append (Block.cons IrStatement.exit_loop a) b h k = absurd h
IsUnmarked-append (Block.cons _ a) b h k = IsUnmarked-append a b h k

args-IsUnmarked : (marker : String) (args : Args) → IsUnmarked (convert_args marker args).0
unfolding convert_args
args-IsUnmarked marker Args.none = tt
args-IsUnmarked marker (arg (Expression.variable var) rest) = args-IsUnmarked marker rest
args-IsUnmarked marker (arg (Expression.move (Expression.variable var)) rest) =
    args-IsUnmarked marker rest
args-IsUnmarked marker (arg _ rest) = args-IsUnmarked marker rest

call-IsUnmarked :
    (marker name : String) (args : Args) (result : Option String)
    → IsUnmarked (convert_call marker name args result)
unfolding convert_call
call-IsUnmarked marker name args result =
    IsUnmarked-append (convert_args marker args).0
      (single (IrStatement.call_expr name (convert_args marker args).1 result))
      (args-IsUnmarked marker args) tt

assign_typed-IsUnmarked :
    (lhs rhs : String) (ty : VariableType) → IsUnmarked (assign_typed lhs rhs ty)
assign_typed-IsUnmarked lhs rhs (VariableType.unique_ptr _) = tt
assign_typed-IsUnmarked lhs rhs _ = tt

assign_variable-IsUnmarked :
    (lhs rhs : String) (found : Option VariableInfo)
    → IsUnmarked (extension (assign_variable lhs rhs found))
assign_variable-IsUnmarked lhs rhs none = tt
assign_variable-IsUnmarked lhs rhs (some found) = assign_typed-IsUnmarked lhs rhs found.ty

assignment-IsUnmarked :
    (lhs : String) (rhs : Expression) (variables : Variables)
    → IsUnmarked (extension (convert_assignment lhs rhs variables).0)
unfolding convert_assignment
assignment-IsUnmarked lhs (Expression.variable rhs) variables =
    assign_variable-IsUnmarked lhs rhs (get variables rhs)
assignment-IsUnmarked lhs (Expression.move (Expression.variable var)) variables = tt
assignment-IsUnmarked lhs (Expression.function_call name args) variables =
    call-IsUnmarked "_temp_move_" name args (some lhs)
assignment-IsUnmarked lhs _ variables = tt

binding-IsUnmarked :
    (name : String) (target : Expression) (is_mutable : Bool) (variables : Variables)
    → IsUnmarked (extension (convert_binding name target is_mutable variables).0)
unfolding convert_binding
binding-IsUnmarked name (Expression.variable target) is_mutable variables = tt
binding-IsUnmarked name _ is_mutable variables = tt

-- Nested markers of a body are nested markers of what it is converted to.
pub convert_body-IsNested :
    (depth : ℕ) (b : Body) (variables : Variables)
    → IsNestedBody depth b
    → IsNested depth (convert_body b variables).0
unfolding convert_statement
convert_body-IsNested zero Body.nil variables h = tt
convert_body-IsNested (suc depth) Body.nil variables h = absurd h
convert_body-IsNested depth (Body.cons Statement.enter_loop b) variables h =
    convert_body-IsNested (suc depth) b variables h
convert_body-IsNested zero (Body.cons Statement.exit_loop b) variables h = absurd h
convert_body-IsNested (suc depth) (Body.cons Statement.exit_loop b) variables h =
    convert_body-IsNested depth b variables h
convert_body-IsNested depth (Body.cons (Statement.reference_binding name target m l) b) variables
      h =
    let (added, after) = convert_binding name target m variables in
    IsNested-append depth (extension added) (convert_body b after).0
      (binding-IsUnmarked name target m variables) (convert_body-IsNested depth b after h)
convert_body-IsNested depth (Body.cons (Statement.assignment lhs rhs l) b) variables h =
    let (added, after) = convert_assignment lhs rhs variables in
    IsNested-append depth (extension added) (convert_body b after).0
      (assignment-IsUnmarked lhs rhs variables) (convert_body-IsNested depth b after h)
convert_body-IsNested depth (Body.cons (Statement.function_call name args l) b) variables h =
    IsNested-append depth (convert_call "_moved_" name args none) (convert_body b variables).0
      (call-IsUnmarked "_moved_" name args none) (convert_body-IsNested depth b variables h)
convert_body-IsNested depth (Body.cons s b) variables h =
    convert_body-IsNested depth b (convert_statement s variables).1 h

IsNested-ends_in_loop : (depth : ℕ) (b : Block) → IsNested depth b → ends_in_loop b ≡ false
IsNested-ends_in_loop depth Block.nil h = refl
IsNested-ends_in_loop depth (Block.cons IrStatement.enter_loop Block.nil) h = absurd h
IsNested-ends_in_loop depth (Block.cons IrStatement.exit_loop Block.nil) h = refl
IsNested-ends_in_loop depth (Block.cons _ Block.nil) h = refl
IsNested-ends_in_loop depth (Block.cons IrStatement.enter_loop (Block.cons r b)) h =
    IsNested-ends_in_loop (suc depth) (Block.cons r b) h
IsNested-ends_in_loop zero (Block.cons IrStatement.exit_loop (Block.cons r b)) h = absurd h
IsNested-ends_in_loop (suc depth) (Block.cons IrStatement.exit_loop (Block.cons r b)) h =
    IsNested-ends_in_loop depth (Block.cons r b) h
IsNested-ends_in_loop depth (Block.cons _ (Block.cons r b)) h =
    IsNested-ends_in_loop depth (Block.cons r b) h

-- A function whose statements have nested markers of loops is converted and then checked to its
-- end: a list of errors is returned, with no panic.
pub check_function_total :
    (f : Function)
    → IsNestedBody 0 f.body
    → (errors : List String) × (check_function (convert_function f) ≡ ok errors)
unfolding check_function convert_function
check_function_total f h =
    let g = convert_function f in
    let b = (convert_body f.body []).0 in
    let closed = IsNested-ends_in_loop 0 b (convert_body-IsNested 0 f.body [] h) in
    let (c, done) =
      check_statements_total (block_length b) b (start g.variables) (omega arith) closed in
    (c.errors, rw done)
