-- ===== src/Tests/Composing.antt =====
-- A whole tree of one checked function: src/main.rs and src/analysis/mod.rs.
use rustycpp.Common.{add, ◌≡◌, refl, [], ◌∷◌, All, contains}
use rustycpp.Ast.{Args, Statement, Body, Function, CppAst, SourceLocation}
use rustycpp.Safety.{SafetyMode, SafetyContext, known_safe, should_check_function}
use rustycpp.Pointers.{
  check_parsed_function_for_pointers, check_parsed_statement_for_pointers,
  contains_pointer_operation,
}
use rustycpp.Propagation.{
  check_unsafe_propagation, check_statement_for_unsafe_calls, is_function_safe,
  is_standard_safe_function,
}
use rustycpp.Pipeline.{violations, violations_of}
use rustycpp.Pipeline.Safety.{CallsSafely, violations-CallsSafely}

abbrev here : SourceLocation
here = record { file = "b.cpp"; line = 3; column = 1 }

abbrev printer : Function
printer = record {
  name = "printer";
  parameters = [];
  return_type = "void";
  body = Body.cons Statement.enter_loop (
      Body.cons (Statement.function_call "printf" Args.none here)
        (Body.cons Statement.exit_loop Body.nil));
  location = here;
}

abbrev tree : CppAst
tree = record { functions = printer ∷ []; global_variables = [] }

abbrev marked : SafetyContext
marked = record {
  file_default = SafetyMode.default;
  function_overrides = ("printer", SafetyMode.safe) ∷ [];
}

tree_clean : violations marked tree ≡ []
unfolding violations violations_of should_check_function known_safe
    check_parsed_function_for_pointers check_parsed_statement_for_pointers
    contains_pointer_operation check_unsafe_propagation check_statement_for_unsafe_calls
    is_function_safe is_standard_safe_function contains add
tree_clean = refl

violations-CallsSafely_example :
    All (CallsSafely marked (known_safe marked.function_overrides [])) tree.functions
violations-CallsSafely_example = violations-CallsSafely marked tree tree_clean
