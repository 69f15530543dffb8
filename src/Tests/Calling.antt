-- ===== src/Tests/Calling.antt =====
-- Calls, pointers and annotations: src/analysis/unsafe_propagation.rs, src/analysis/pointer_safety.rs
-- and src/parser/safety_annotations.rs.
use rustycpp.Common.{String, ◌≡◌, ◌↔◌, refl, true, false, List, [], ◌∷◌, some, none, ok, contains}
use rustycpp.Ast.{Expression, Args, arg, Statement, Body, ElseBody, Function, SourceLocation}
use rustycpp.Safety.{SafetyContext, SafetyMode, should_check_function, known_safe, first_override}
use rustycpp.Safety.Lookup.{should_check_function-known_safe}
use rustycpp.Pointers.{contains_pointer_operation}
use rustycpp.Pointers.Operations.{Operates, contains_pointer_operation_iff}
use rustycpp.Propagation.{
  check_statement_for_unsafe_calls, is_function_safe, is_standard_safe_function,
  find_unsafe_function_call, check_unsafe_propagation,
}
use rustycpp.Propagation.Calls.{Calls, find_unsafe_function_call_sound}
use rustycpp.Propagation.Statements.{BodyPerforms, Performs, check_unsafe_propagation_complete}
use rustycpp.Build.{convert_function, convert_body}
use rustycpp.Build.Markers.{convert_body-IsNested, check_function_total}
use rustycpp.Checker.{check_function}
use rustycpp.Checker.Loops.{IsNested}

abbrev here : SourceLocation
here = record { file = "a.cpp"; line = 1; column = 1 }

abbrev overrides : List (String × SafetyMode)
overrides = ("checked", SafetyMode.safe) ∷ ("raw", SafetyMode.unsafe) ∷ []

abbrev context : SafetyContext
context = record { file_default = SafetyMode.default; function_overrides = overrides }

-- `checked(raw(x))`
abbrev inner_call : Expression
inner_call = Expression.function_call "raw" (arg (Expression.variable "x") Args.none)

abbrev nested_call : Expression
nested_call = Expression.function_call "checked" (arg inner_call Args.none)

nested_found : find_unsafe_function_call context [] nested_call ≡ some "raw"
unfolding find_unsafe_function_call is_function_safe contains is_standard_safe_function
    first_override
nested_found = refl

find_unsafe_function_call_sound_example :
    Calls nested_call "raw" × (is_function_safe context [] "raw" ≡ false)
find_unsafe_function_call_sound_example =
    find_unsafe_function_call_sound context [] nested_call nested_found

abbrev plain_call : Expression
plain_call = Expression.function_call "checked" (arg (Expression.variable "x") Args.none)

plain_clean : find_unsafe_function_call context [] plain_call ≡ none
unfolding find_unsafe_function_call is_function_safe contains is_standard_safe_function
    first_override
plain_clean = refl

abbrev branch : Body
branch = Body.cons (Statement.assignment "y" plain_call here) Body.nil

abbrev caller : Function
caller = record {
  name = "caller";
  parameters = [];
  return_type = "void";
  body = Body.cons Statement.enter_loop (
      Body.cons (Statement.if_else (Expression.literal "true") branch ElseBody.absent here)
        (Body.cons Statement.exit_loop Body.nil));
  location = here;
}

caller_clean : check_unsafe_propagation context [] caller ≡ []
unfolding check_unsafe_propagation check_statement_for_unsafe_calls find_unsafe_function_call
    is_function_safe contains is_standard_safe_function first_override
caller_clean = refl

check_unsafe_propagation_complete_example : is_function_safe context [] "checked" ≡ true
check_unsafe_propagation_complete_example =
    check_unsafe_propagation_complete context [] caller caller_clean (
      BodyPerforms.later Statement.enter_loop (
        BodyPerforms.first (Body.cons Statement.exit_loop Body.nil) (
          Performs.thens (Expression.literal "true") ElseBody.absent here (
            BodyPerforms.first Body.nil (
              Performs.assigns "y" here
                (Calls.itself "checked" (arg (Expression.variable "x") Args.none)))))))

contains_pointer_operation_iff_example :
    ¬ (Operates nested_call) ↔ (contains_pointer_operation nested_call ≡ none)
contains_pointer_operation_iff_example = contains_pointer_operation_iff nested_call

should_check_function-known_safe_example :
    should_check_function context "raw" ≡ contains (known_safe overrides []) "raw"
should_check_function-known_safe_example =
    should_check_function-known_safe context "raw" refl (((refl, tt), (tt, tt)))

check_function_total_example :
    (errors : List String) × (check_function (convert_function caller) ≡ ok errors)
check_function_total_example = check_function_total caller tt

convert_body-IsNested_example : IsNested 0 (convert_body caller.body []).0
convert_body-IsNested_example = convert_body-IsNested 0 caller.body [] tt
