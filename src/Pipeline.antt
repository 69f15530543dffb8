-- ===== src/Pipeline.antt =====
-- How the analyses are put together: src/main.rs, `analyze_file`, lines 100-127, and
-- src/analysis/mod.rs, lines 32-42 and 109-120.
pub mod Safety
pub mod Totality
pub mod Contexts
pub mod Analysis
pub mod Unannotated
use rustycpp.Common.{
  String, Bool, true, false, ◌||◌, Option, none, some, List, [], ◌∷◌, ◌++◌, if◌then◌else◌,
  StringSet, Outcome, ok, ◌>>=◌,
}
use rustycpp.Ir.{IrFunction, IrProgram}
use rustycpp.Ast.{Function, CppAst}
use rustycpp.Annotations.{SafetyAnnotation, FunctionSignature, HeaderCache, get_signature}
use rustycpp.Safety.{SafetyContext, should_check_function, known_safe}
use rustycpp.Pointers.{check_parsed_function_for_pointers}
use rustycpp.Propagation.{check_unsafe_propagation}
use rustycpp.Checker.{check_function}

module _ (context : SafetyContext) (known_safe_functions : StringSet) where
  -- the loop over the functions of the tree
  unfoldable pub violations_of : List Function → List String
  violations_of [] = []
  violations_of (f ∷ functions) =
      let here =
        check_parsed_function_for_pointers f
        ++ check_unsafe_propagation context known_safe_functions f in
      (if should_check_function context f.name then here else []) ++ violations_of functions

-- what is found in the syntax tree, before the conversion
unfoldable pub violations : SafetyContext → CppAst → List String
violations context ast =
    violations_of context (known_safe context.function_overrides []) ast.functions

unfoldable pub check_functions : List IrFunction → Outcome (List String)
check_functions [] = ok []
check_functions (f ∷ functions) = do
  function_errors ← check_function f
  others ← check_functions functions
  ok (function_errors ++ others)

unfoldable pub check_borrows : IrProgram → Outcome (List String)
unfolding check_functions
check_borrows program = check_functions program.functions

abbrev pub is_marked_safe : Option FunctionSignature → Bool
is_marked_safe none = false
is_marked_safe (some signature) = is_safe_annotation signature.safety
  where
    is_safe_annotation : Option SafetyAnnotation → Bool
    is_safe_annotation (some SafetyAnnotation.safe) = true
    is_safe_annotation _ = false

unfoldable pub any_safe : HeaderCache → List IrFunction → Bool
any_safe header_cache [] = false
any_safe header_cache (f ∷ functions) =
    is_marked_safe (get_signature header_cache f.name) || any_safe header_cache functions

unfoldable pub has_any_safe_functions : IrProgram → HeaderCache → Bool
unfolding any_safe
has_any_safe_functions program header_cache = any_safe header_cache program.functions
