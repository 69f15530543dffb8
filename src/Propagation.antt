-- ===== src/Propagation.antt =====
-- Calls of unsafe functions in checked functions: src/analysis/unsafe_propagation.rs, lines 1-186.
pub mod Calls
pub mod Statements
use mathlib.Core.Option
use rustycpp.Common.{
  String, ◌==◌, Bool, true, false, ◌||◌, Option, none, some, or_else, List, [], ◌∷◌, ◌++◌, concat,
  decimal, if◌then◌else◌, StringSet, contains,
}
use rustycpp.Ast.{
  Expression, Args, arg, Statement, Body, nil, cons, ElseBody, absent, present, Function,
  SourceLocation,
}
use rustycpp.Pointers.{push_found}
use rustycpp.Safety.{SafetyContext, first_override}

abbrev pub standard_safe : StringSet
standard_safe =
    "printf" ∷ "scanf" ∷ "puts" ∷ "gets" ∷ "malloc" ∷ "free" ∷ "new" ∷ "delete" ∷ "memcpy"
    ∷ "memset" ∷ "strcpy" ∷ "sin" ∷ "cos" ∷ "sqrt" ∷ "pow" ∷ "move" ∷ "std::move" ∷ "std::forward"
    ∷ "std::swap" ∷ []

unfoldable pub is_standard_safe_function : String → Bool
is_standard_safe_function func_name = contains standard_safe func_name

abbrev pub calling_at : SourceLocation → String → String
calling_at location f = concat (
    "Calling unsafe function '"
    ∷ f
    ∷ "' at line "
    ∷ decimal location.line
    ∷ " requires unsafe context"
    ∷ [])

abbrev pub calling_in_return : String → String
calling_in_return f =
    concat ("Calling unsafe function '" ∷ f ∷ "' in return statement requires unsafe context" ∷ [])

abbrev pub calling_in_condition : SourceLocation → String → String
calling_in_condition location f = concat (
    "Calling unsafe function '"
    ∷ f
    ∷ "' in condition at line "
    ∷ decimal location.line
    ∷ " requires unsafe context"
    ∷ [])

module _ (context : SafetyContext) (known_safe_functions : StringSet) where
  unfoldable pub is_function_safe : String → Bool
  is_function_safe func_name =
      contains known_safe_functions func_name
      || is_standard_safe_function func_name
      || first_override context.function_overrides func_name false

  unfoldable mutual
    pub find_unsafe_function_call : Expression → Option String
    find_unsafe_function_call (Expression.function_call name args) =
        or_else (if is_function_safe name then none else some name) (find_unsafe_argument args)
    find_unsafe_function_call (Expression.binary_op left op right) =
        or_else (find_unsafe_function_call left) (find_unsafe_function_call right)
    find_unsafe_function_call (Expression.move inner) = find_unsafe_function_call inner
    find_unsafe_function_call (Expression.dereference inner) = find_unsafe_function_call inner
    find_unsafe_function_call (Expression.address_of inner) = find_unsafe_function_call inner
    find_unsafe_function_call _ = none

    -- the loop over the arguments of a call
    pub find_unsafe_argument : Args → Option String
    find_unsafe_argument Args.none = none
    find_unsafe_argument (arg e args) =
        or_else (find_unsafe_function_call e) (find_unsafe_argument args)

  unfoldable mutual
    pub check_statement_for_unsafe_calls : Statement → Option String
    check_statement_for_unsafe_calls (Statement.function_call name args location) =
        if is_function_safe name then none else some (calling_at location name)
    check_statement_for_unsafe_calls (Statement.assignment lhs rhs location) =
        Option.map (calling_at location) (find_unsafe_function_call rhs)
    check_statement_for_unsafe_calls (Statement.return (some e)) =
        Option.map calling_in_return (find_unsafe_function_call e)
    check_statement_for_unsafe_calls
          (Statement.if_else condition then_branch else_branch location) =
        or_else (Option.map (calling_in_condition location) (find_unsafe_function_call condition))
          (or_else (check_body then_branch) (check_else else_branch))
    check_statement_for_unsafe_calls (Statement.block statements) = check_body statements
    check_statement_for_unsafe_calls _ = none

    -- the first error of the statements
    pub check_body : Body → Option String
    check_body nil = none
    check_body (cons s rest) = or_else (check_statement_for_unsafe_calls s) (check_body rest)

    pub check_else : ElseBody → Option String
    check_else absent = none
    check_else (present statements) = check_body statements

  unfoldable pub check_each : String → Body → List String → List String
  check_each name nil errors = errors
  check_each name (cons s rest) errors =
      check_each name rest (push_found name (check_statement_for_unsafe_calls s) errors)

  unfoldable pub check_unsafe_propagation : Function → List String
  unfolding check_each
  check_unsafe_propagation f = check_each f.name f.body []
