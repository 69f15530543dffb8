-- ===== src/Calls/Functions.antt =====
-- The statements of a function: src/analysis/lifetime_checker.rs, `check_function_lifetimes`, lines
-- 98-182, and the returned references, lines 277-305.
use text.Mathlib.Text.{find?}
use rustycpp.Common.{
  String, Bool, not, ◌&&◌, ◌||◌, is_some, Option, none, some, List, [], ◌∷◌, ◌++◌, concat,
  starts_with, if◌then◌else◌, Map,
}
use rustycpp.Ir.{
  VariableType, VariableInfo, IrStatement, Block, nil, cons, BasicBlock, IrFunction, IrProgram,
}
use rustycpp.Annotations.{FunctionSignature, HeaderCache, get_signature}
use rustycpp.Outlives
use rustycpp.Outlives.{LifetimeScope, set_lifetime, mark_owned, get_lifetime, is_owned}
use rustycpp.Calls.{quoted, check_function_call}

abbrev pub is_parameter : String → Bool
is_parameter var_name = starts_with var_name "param" || starts_with var_name "arg"

pub dangling : String → String
dangling var_name = concat (
    "Returning reference to local variable '" ∷ var_name
    ∷ "' - this will create a dangling reference" ∷ [])

unfoldable pub dangling_in : String → Map VariableInfo → List String
dangling_in lifetime [] = []
dangling_in lifetime ((var_name, _) ∷ variables) =
    (if is_some (find? lifetime var_name) && not (is_parameter var_name)
      then dangling var_name ∷ []
      else [])
    ++ dangling_in lifetime variables

abbrev pub dangling_from : Map VariableInfo → Option String → List String
dangling_from variables none = []
dangling_from variables (some lifetime) = dangling_in lifetime variables

unfoldable pub check_return_lifetime : String → IrFunction → LifetimeScope → List String
unfolding dangling_in
check_return_lifetime value f scope = dangling_from f.variables (get_lifetime scope value)

abbrev pub declare_lifetime : LifetimeScope → String → VariableType → LifetimeScope
declare_lifetime scope name (VariableType.reference _) = set_lifetime scope name (quoted name)
declare_lifetime scope name (VariableType.mutable_reference _) =
    set_lifetime scope name (quoted name)
declare_lifetime scope name _ = mark_owned scope name

unfoldable pub declare_lifetimes : LifetimeScope → Map VariableInfo → LifetimeScope
declare_lifetimes scope [] = scope
declare_lifetimes scope ((name, info) ∷ variables) =
    declare_lifetimes (declare_lifetime scope name info.ty) variables

-- the scope after a borrow, by the lifetime of its source
abbrev pub borrow_lifetime : LifetimeScope → String → String → Option String → LifetimeScope
borrow_lifetime scope from to (some lifetime) = set_lifetime scope to lifetime
borrow_lifetime scope from to none =
    if is_owned scope from then set_lifetime scope to (quoted to) else scope

abbrev pub call_errors :
    String → List String → LifetimeScope → Option FunctionSignature → List String
call_errors func args scope none = []
call_errors func args scope (some signature) = check_function_call func args signature scope

module _ (f : IrFunction) (header_cache : HeaderCache) where
  unfoldable pub check_lifetimes_in : Block → LifetimeScope → List String × LifetimeScope
  check_lifetimes_in nil scope = ([], scope)
  check_lifetimes_in (cons (IrStatement.call_expr func args result) b) scope =
      let (others, after) = check_lifetimes_in b scope in
      (call_errors func args scope (get_signature header_cache func) ++ others, after)
  check_lifetimes_in (cons (IrStatement.borrow from to kind) b) scope =
      check_lifetimes_in b (borrow_lifetime scope from to (get_lifetime scope from))
  check_lifetimes_in (cons (IrStatement.return (some value)) b) scope =
      let (others, after) = check_lifetimes_in b scope in
      (check_return_lifetime value f scope ++ others, after)
  check_lifetimes_in (cons _ b) scope = check_lifetimes_in b scope

  unfoldable pub check_lifetime_blocks : List BasicBlock → LifetimeScope → List String
  unfolding check_lifetimes_in
  check_lifetime_blocks [] scope = []
  check_lifetime_blocks (b ∷ blocks) scope =
      let (errors, after) = check_lifetimes_in b.statements scope in
      errors ++ check_lifetime_blocks blocks after

  unfoldable pub check_function_lifetimes : LifetimeScope → List String
  unfolding check_lifetime_blocks declare_lifetimes
  check_function_lifetimes scope =
      check_lifetime_blocks f.cfg.blocks (declare_lifetimes scope f.variables)

unfoldable pub check_lifetimes_of : HeaderCache → List IrFunction → List String
unfolding check_function_lifetimes
check_lifetimes_of header_cache [] = []
check_lifetimes_of header_cache (f ∷ functions) =
    check_function_lifetimes f header_cache Outlives.new
    ++ check_lifetimes_of header_cache functions

unfoldable pub check_lifetimes_with_annotations : IrProgram → HeaderCache → List String
unfolding check_lifetimes_of
check_lifetimes_with_annotations program header_cache =
    check_lifetimes_of header_cache program.functions
