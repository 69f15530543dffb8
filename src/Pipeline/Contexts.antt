-- ===== src/Pipeline/Contexts.antt =====
-- The analyses over a program with headers and a safety context: src/analysis/mod.rs, lines 44-160,
-- and src/main.rs, `analyze_file`, lines 100-135. The standard error stream is left out.
use rustycpp.Common.{
  String, Bool, true, false, not, ◌&&◌, ◌||◌, Option, none, some, List, [], ◌∷◌, ◌++◌, any,
  if◌then◌else◌, Outcome, ok, ◌>>=◌,
}
use rustycpp.Ir.{IrFunction, IrProgram}
use rustycpp.Ast.{CppAst}
use rustycpp.Build.{build_ir}
use rustycpp.Annotations.{
  SafetyAnnotation, FunctionSignature, HeaderCache, get_signature, has_signatures,
}
use rustycpp.Safety.{SafetyContext, is_safe, should_check_function}
use rustycpp.Checker.{check_function}
use rustycpp.Calls.Functions.{check_lifetimes_with_annotations}
use rustycpp.Scopes.Functions.{check_scoped_lifetimes}
use rustycpp.Inference.Validation.{infer_and_validate_lifetimes}
use rustycpp.Pipeline.{has_any_safe_functions, violations}

-- the loop over the functions that the context has checked
unfoldable pub check_safe : SafetyContext → List IrFunction → Outcome (List String)
check_safe context [] = ok []
check_safe context (f ∷ functions) = do
  function_errors ← if should_check_function context f.name then check_function f else ok []
  others ← check_safe context functions
  ok (function_errors ++ others)

unfoldable pub infer_safe : SafetyContext → List IrFunction → List String
infer_safe context [] = []
infer_safe context (f ∷ functions) =
    (if should_check_function context f.name then infer_and_validate_lifetimes f else [])
    ++ infer_safe context functions

-- what is found with the signatures of the headers, where there are any
unfoldable pub check_with_headers : IrProgram → HeaderCache → Outcome (List String)
check_with_headers program header_cache =
    if has_signatures header_cache
    then (check_scoped_lifetimes program header_cache >>= (λ scope_errors.
        ok (check_lifetimes_with_annotations program header_cache ++ scope_errors)))
    else ok []

-- Something is marked safe: the file, a function by an override or a function by a header.
unfoldable pub anything_safe : IrProgram → HeaderCache → SafetyContext → Bool
unfolding has_any_safe_functions
anything_safe program header_cache context =
    is_safe context.file_default
    || any (λ entry. is_safe entry.1) context.function_overrides
    || has_any_safe_functions program header_cache

unfoldable pub check_everything : IrProgram → HeaderCache → SafetyContext → Outcome (List String)
unfolding check_safe infer_safe check_with_headers
check_everything program header_cache context = do
  errors ← check_safe context program.functions
  header_errors ← check_with_headers program header_cache
  ok (errors ++ (infer_safe context program.functions ++ header_errors))

unfoldable pub check_borrows_with_safety_context :
    IrProgram → HeaderCache → SafetyContext → Outcome (List String)
unfolding anything_safe check_everything
check_borrows_with_safety_context program header_cache context =
    if anything_safe program header_cache context
    then check_everything program header_cache context
    else ok []

abbrev pub is_unsafe_annotation : Option SafetyAnnotation → Bool
is_unsafe_annotation (some SafetyAnnotation.unsafe) = true
is_unsafe_annotation _ = false

abbrev pub is_marked_unsafe : Option FunctionSignature → Bool
is_marked_unsafe none = false
is_marked_unsafe (some signature) = is_unsafe_annotation signature.safety

unfoldable pub check_not_unsafe : HeaderCache → List IrFunction → Outcome (List String)
check_not_unsafe header_cache [] = ok []
check_not_unsafe header_cache (f ∷ functions) = do
  function_errors ←
      if is_marked_unsafe (get_signature header_cache f.name) then ok [] else check_function f
  others ← check_not_unsafe header_cache functions
  ok (function_errors ++ others)

unfoldable pub infer_all : List IrFunction → List String
infer_all [] = []
infer_all (f ∷ functions) = infer_and_validate_lifetimes f ++ infer_all functions

unfoldable pub check_borrows_with_annotations : IrProgram → HeaderCache → Outcome (List String)
unfolding check_not_unsafe infer_all check_with_headers
check_borrows_with_annotations program header_cache = do
  errors ← check_not_unsafe header_cache program.functions
  header_errors ← check_with_headers program header_cache
  ok (errors ++ (infer_all program.functions ++ header_errors))

unfoldable pub check_borrows_with_annotations_and_safety :
    IrProgram → HeaderCache → Bool → Outcome (List String)
unfolding check_borrows_with_annotations has_any_safe_functions
check_borrows_with_annotations_and_safety program header_cache file_safe =
    if not file_safe && not (has_any_safe_functions program header_cache)
    then ok []
    else check_borrows_with_annotations program header_cache

-- `analyze_file` from the tree, the headers and the context on
unfoldable pub analyze_ast : HeaderCache → SafetyContext → CppAst → Outcome (List String)
unfolding check_borrows_with_safety_context violations
analyze_ast header_cache context ast = do
  borrow_violations ← check_borrows_with_safety_context (build_ir ast) header_cache context
  ok (violations context ast ++ borrow_violations)
