-- ===== src/Pointers.antt =====
-- Pointer operations in checked functions: src/analysis/pointer_safety.rs, lines 1-95.
pub mod Operations
use mathlib.Core.Option
use rustycpp.Common.{
  or_else, String, Bool, Option, none, some, List, [], ◌∷◌, ◌++◌, concat, decimal,
}
use rustycpp.Ast.{Expression, Args, arg, Statement, Body, nil, cons, Function, SourceLocation}

-- `check_function_for_pointers` finds nothing on the intermediate representation.

unfoldable mutual
  pub contains_pointer_operation : Expression → Option String
  contains_pointer_operation (Expression.dereference _) = some "dereference"
  contains_pointer_operation (Expression.address_of _) = some "address-of"
  contains_pointer_operation (Expression.function_call name args) = first_pointer_operation args
  contains_pointer_operation (Expression.binary_op left op right) =
      or_else (contains_pointer_operation left) (contains_pointer_operation right)
  contains_pointer_operation _ = none

  -- the loop over the arguments of a call
  pub first_pointer_operation : Args → Option String
  first_pointer_operation Args.none = none
  first_pointer_operation (arg e args) =
      or_else (contains_pointer_operation e) (first_pointer_operation args)

pub in_assignment : SourceLocation → String → String
in_assignment location op = concat (
    "Unsafe pointer "
    ∷ op
    ∷ " at line "
    ∷ decimal location.line
    ∷ ": pointer operations require unsafe context"
    ∷ [])

pub in_call : SourceLocation → String → String
in_call location op = concat (
    "Unsafe pointer "
    ∷ op
    ∷ " in function call at line "
    ∷ decimal location.line
    ∷ ": pointer operations require unsafe context"
    ∷ [])

pub in_return : String → String
in_return op = concat (
    "Unsafe pointer " ∷ op ∷ " in return statement: pointer operations require unsafe context" ∷ [])

pub in_condition : SourceLocation → String → String
in_condition location op = concat (
    "Unsafe pointer "
    ∷ op
    ∷ " in condition at line "
    ∷ decimal location.line
    ∷ ": pointer operations require unsafe context"
    ∷ [])

-- the operation that a statement is reported for, with the text of the report
unfoldable pub check_parsed_statement_for_pointers : Statement → Option String
check_parsed_statement_for_pointers (Statement.assignment lhs rhs location) =
    Option.map (in_assignment location) (contains_pointer_operation rhs)
check_parsed_statement_for_pointers (Statement.function_call name args location) =
    Option.map (in_call location) (first_pointer_operation args)
check_parsed_statement_for_pointers (Statement.return (some e)) =
    Option.map in_return (contains_pointer_operation e)
check_parsed_statement_for_pointers (Statement.if_else condition _ _ location) =
    Option.map (in_condition location) (contains_pointer_operation condition)
check_parsed_statement_for_pointers _ = none

abbrev pub in_function : String → String → String
in_function name error = concat ("In function '" ∷ name ∷ "': " ∷ error ∷ [])

abbrev pub push_found : String → Option String → List String → List String
push_found name none errors = errors
push_found name (some error) errors = errors ++ in_function name error ∷ []

unfoldable pub check_body_for_pointers : String → Body → List String → List String
check_body_for_pointers name nil errors = errors
check_body_for_pointers name (cons s rest) errors =
    check_body_for_pointers name rest
      (push_found name (check_parsed_statement_for_pointers s) errors)

unfoldable pub check_parsed_function_for_pointers : Function → List String
unfolding check_body_for_pointers
check_parsed_function_for_pointers f = check_body_for_pointers f.name f.body []
