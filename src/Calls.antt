-- ===== src/Calls.antt =====
-- Lifetimes at calls and returns: src/analysis/lifetime_checker.rs, lines 98-315.
pub mod Bounds
pub mod Functions
use rustycpp.Common.{
  ℕ, suc, eqb, ◌+◌, String, ◌==◌, Bool, true, false, not, ◌&&◌, ◌||◌, Option, none, some, List, [],
  ◌∷◌, ◌++◌, length, get_elem?, concat, decimal, starts_with, if◌then◌else◌, Map, get,
}
use rustycpp.Ir.{
  VariableType, VariableInfo, IrStatement, Block, nil, cons, BasicBlock, IrFunction, IrProgram,
}
use rustycpp.Annotations.{
  LifetimeAnnotation, LifetimeBound, FunctionSignature, HeaderCache, get_signature,
}
use rustycpp.Outlives
use rustycpp.Outlives.{
  LifetimeScope, set_lifetime, mark_owned, get_lifetime, is_owned, check_outlives,
}

abbrev pub quoted : String → String
quoted name = concat ("'" ∷ name ∷ [])

-- the lifetime of the argument at an index; none for an owned value
abbrev pub argument_lifetime : LifetimeScope → ℕ → String → Option String → Option String
argument_lifetime scope i arg (some lifetime) = some lifetime
argument_lifetime scope i arg none =
    if is_owned scope arg then none else some (concat ("'arg" ∷ decimal i ∷ []))

unfoldable pub arg_lifetimes : LifetimeScope → ℕ → List String → List (Option String)
arg_lifetimes scope i [] = []
arg_lifetimes scope i (arg ∷ args) =
    argument_lifetime scope i arg (get_lifetime scope arg) ∷ arg_lifetimes scope (suc i) args

pub wants_reference : String → ℕ → String → String
wants_reference func_name position arg = concat (
    "Function '"
    ∷ func_name
    ∷ "' expects a reference for parameter "
    ∷ decimal position
    ∷ ", but '"
    ∷ arg
    ∷ "' is owned"
    ∷ [])

pub wants_ownership : String → ℕ → String → String
wants_ownership func_name position arg = concat (
    "Function '"
    ∷ func_name
    ∷ "' expects ownership of parameter "
    ∷ decimal position
    ∷ ", but '"
    ∷ arg
    ∷ "' is a reference"
    ∷ [])

abbrev pub check_argument :
    LifetimeScope → String → ℕ → String → Option LifetimeAnnotation → List String
check_argument scope func_name i arg (some (LifetimeAnnotation.ref _)) =
    if is_owned scope arg then wants_reference func_name (i + 1) arg ∷ [] else []
check_argument scope func_name i arg (some (LifetimeAnnotation.mut_ref _)) =
    if is_owned scope arg then wants_reference func_name (i + 1) arg ∷ [] else []
check_argument scope func_name i arg (some LifetimeAnnotation.owned) =
    if is_owned scope arg then [] else wants_ownership func_name (i + 1) arg ∷ []
check_argument scope func_name i arg _ = []

-- `args.iter().zip(&signature.param_lifetimes).enumerate()`
unfoldable pub check_arguments :
    LifetimeScope → String → ℕ → List String → List (Option LifetimeAnnotation) → List String
check_arguments scope func_name i (arg ∷ args) (expected ∷ rest) =
    check_argument scope func_name i arg expected
    ++ check_arguments scope func_name (suc i) args rest
check_arguments scope func_name i _ _ = []

-- `get(i).and_then(|l| l.clone())`
abbrev pub flatten : Option (Option String) → Option String
flatten none = none
flatten (some lifetime) = lifetime

unfoldable pub map_lifetime_to_actual : String → List (Option String) → Option String
map_lifetime_to_actual lifetime_name lifetimes =
    if lifetime_name == "a"
    then flatten (get_elem? lifetimes 0)
    else if lifetime_name == "b"
    then flatten (get_elem? lifetimes 1)
    else if lifetime_name == "c"
    then flatten (get_elem? lifetimes 2)
    else some (quoted lifetime_name)

pub bound_violated : String → String → String → String
bound_violated func_name longer shorter = concat (
    "Lifetime constraint violated in call to '" ∷ func_name ∷ "': '" ∷ longer ∷ "' must outlive '"
    ∷ shorter ∷ "'" ∷ [])

abbrev pub check_bound : LifetimeScope → String → Option String → Option String → List String
check_bound scope func_name (some longer) (some shorter) =
    if check_outlives scope longer shorter then [] else bound_violated func_name longer shorter ∷ []
check_bound scope func_name _ _ = []

unfoldable pub check_bounds :
    LifetimeScope → String → List (Option String) → List LifetimeBound → List String
unfolding map_lifetime_to_actual
check_bounds scope func_name lifetimes [] = []
check_bounds scope func_name lifetimes (bound ∷ bounds) =
    check_bound scope func_name (map_lifetime_to_actual bound.longer lifetimes)
      (map_lifetime_to_actual bound.shorter lifetimes)
    ++ check_bounds scope func_name lifetimes bounds

-- The check of the return lifetime at the end of the source has no effect.
unfoldable pub check_function_call :
    String → List String → FunctionSignature → LifetimeScope → List String
unfolding check_arguments check_bounds arg_lifetimes
check_function_call func_name args signature scope =
    if eqb (length args) (length signature.param_lifetimes)
    then check_arguments scope func_name 0 args signature.param_lifetimes
      ++ check_bounds scope func_name (arg_lifetimes scope 0 args) signature.lifetime_bounds
    else []
