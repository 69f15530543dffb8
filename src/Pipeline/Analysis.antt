-- ===== src/Pipeline/Analysis.antt =====
-- src/main.rs, `analyze_file`, and src/analysis/mod.rs, `check_borrows_with_safety_context`, from the
-- syntax tree to the list of errors.
use rustycpp.Common.{
  String, ◌==◌, Bool, false, ◌||◌, Bool-cases, List, [], ◌∷◌, ◌++◌, any, All, ◌≡◌, refl, inl, inr,
  arith, ok,
}
use rustycpp.Ir.{IrFunction, IrProgram}
use rustycpp.Ast.{Function, CppAst}
use rustycpp.Build.{build_ir, convert_function, convert_functions}
use rustycpp.Build.Markers.{IsNestedBody, check_function_total}
use rustycpp.Annotations.{HeaderCache, get_signature, has_signatures}
use rustycpp.Safety.{
  SafetyMode, SafetyContext, is_safe, first_override, should_check_function, known_safe,
}
use rustycpp.Calls.Functions.{check_lifetimes_with_annotations}
use rustycpp.Scopes.Queue.{HasClosedEdges}
use rustycpp.Scopes.Total.{check_scoped_lifetimes_total}
use rustycpp.Pipeline.{has_any_safe_functions, violations_of, violations}
use rustycpp.Pipeline.Contexts.{
  check_safe, infer_safe, check_with_headers, anything_safe, check_everything,
  check_borrows_with_safety_context, is_marked_unsafe, check_not_unsafe, infer_all,
  check_borrows_with_annotations, analyze_ast,
}

check_safe_total :
    (context : SafetyContext) (functions : List Function)
    → All (λ f. IsNestedBody 0 f.body) functions
    → (errors : List String) × (check_safe context (convert_functions functions) ≡ ok errors)
unfolding check_safe convert_functions
check_safe_total context [] h = ([], refl)
check_safe_total context (f ∷ functions) (p, h) =
    let (others, r) = check_safe_total context functions h in
    elim (Bool-cases (should_check_function context (convert_function f).name)) [
      | inl checked ↦
          let (errors, q) = check_function_total f p in (errors ++ others, rw (checked, q, r) refl)
      | inr skipped ↦ (others, rw (skipped, r) refl)
    ]

converted-HasClosedEdges :
    (functions : List Function) → All (λ f. HasClosedEdges f.cfg) (convert_functions functions)
unfolding convert_functions convert_function
converted-HasClosedEdges [] = tt
converted-HasClosedEdges (f ∷ functions) = (λ n h. tt, converted-HasClosedEdges functions)

check_with_headers_total :
    (ast : CppAst) (header_cache : HeaderCache)
    → (errors : List String) × (check_with_headers (build_ir ast) header_cache ≡ ok errors)
unfolding check_with_headers build_ir
check_with_headers_total ast header_cache = elim (Bool-cases (has_signatures header_cache)) [
  | inl p ↦
      let (errors, q) =
        check_scoped_lifetimes_total (build_ir ast) header_cache
          (converted-HasClosedEdges ast.functions) in
      (check_lifetimes_with_annotations (build_ir ast) header_cache ++ errors, rw (p, q) refl)
  | inr p ↦ ([], rw p refl)
]

check_everything_total :
    (ast : CppAst) (header_cache : HeaderCache) (context : SafetyContext)
    → All (λ f. IsNestedBody 0 f.body) ast.functions
    → (errors : List String) × (check_everything (build_ir ast) header_cache context ≡ ok errors)
unfolding check_everything build_ir
check_everything_total ast header_cache context h =
    let (errors, p) = check_safe_total context ast.functions h in
    let (more, q) = check_with_headers_total ast header_cache in
    (errors ++ (infer_safe context (convert_functions ast.functions) ++ more), rw (p, q) refl)

-- A tree whose functions all have nested markers of loops is analysed to the end.
pub analyze_ast_total :
    (header_cache : HeaderCache) (context : SafetyContext) (ast : CppAst)
    → All (λ f. IsNestedBody 0 f.body) ast.functions
    → (errors : List String) × (analyze_ast header_cache context ast ≡ ok errors)
unfolding analyze_ast check_borrows_with_safety_context
analyze_ast_total header_cache context ast h =
    elim (Bool-cases (anything_safe (build_ir ast) header_cache context)) [
      | inl p ↦
          let (errors, q) = check_everything_total ast header_cache context h in
          (violations context ast ++ errors, rw (p, q) refl)
      | inr p ↦ (violations context ast ++ [], rw p refl)
    ]

or_false : (a b : Bool) → (a || b) ≡ false → (a ≡ false) × (b ≡ false)
or_false a b q = (ground (arith, q), ground (arith, q))

nothing_checked :
    (overrides : List (String × SafetyMode)) (name : String) (file_safe : Bool)
    → file_safe ≡ false
    → any (λ entry. is_safe entry.1) overrides ≡ false
    → first_override overrides name file_safe ≡ false
unfolding first_override
nothing_checked [] name file_safe p h = p
nothing_checked ((other, mode) ∷ overrides) name file_safe p h =
    let (unmarked, others) = or_false (is_safe mode) _ h in
    elim (Bool-cases (other == name)) [
      | inl same ↦ rw same unmarked
      | inr apart ↦ rw apart (nothing_checked overrides name file_safe p others)
    ]

no_violations :
    (context : SafetyContext) (known : List String) (functions : List Function)
    → is_safe context.file_default ≡ false
    → any (λ entry. is_safe entry.1) context.function_overrides ≡ false
    → violations_of context known functions ≡ []
unfolding violations_of should_check_function
no_violations context known [] p q = refl
no_violations context known (f ∷ functions) p q =
    rw (nothing_checked context.function_overrides f.name (is_safe context.file_default) p q)
      (no_violations context known functions p q)

-- Where neither the file, nor an override, nor a header marks anything as safe, the analysis of a
-- tree finds nothing and reports nothing.
pub analyze_ast-unmarked :
    (header_cache : HeaderCache) (context : SafetyContext) (ast : CppAst)
    → anything_safe (build_ir ast) header_cache context ≡ false
    → analyze_ast header_cache context ast ≡ ok []
unfolding analyze_ast check_borrows_with_safety_context violations anything_safe
analyze_ast-unmarked header_cache context ast h =
    let overridden = any (λ entry. is_safe entry.1) context.function_overrides in
    let in_headers = has_any_safe_functions (build_ir ast) header_cache in
    let (first, _) = or_false (is_safe context.file_default || overridden) in_headers h in
    let (unsafe_file, no_override) = or_false (is_safe context.file_default) overridden first in
    rw
      (
        h,
        no_violations context (known_safe context.function_overrides []) ast.functions unsafe_file
            no_override,
      )
      refl

abbrev pub everything_checked : SafetyContext
everything_checked = record { file_default = SafetyMode.safe; function_overrides = [] }

-- no header marks one of the functions as unsafe
abbrev pub NoneUnsafe : HeaderCache → List IrFunction → Type 0
NoneUnsafe header_cache functions =
    All (λ f. is_marked_unsafe (get_signature header_cache f.name) ≡ false) functions

same_checks :
    (header_cache : HeaderCache) (functions : List IrFunction)
    → NoneUnsafe header_cache functions
    → check_not_unsafe header_cache functions ≡ check_safe everything_checked functions
unfolding check_not_unsafe check_safe should_check_function first_override
same_checks header_cache [] h = refl
same_checks header_cache (f ∷ functions) (p, h) = rw (p, same_checks header_cache functions h) refl

same_inferences :
    (functions : List IrFunction) → infer_all functions ≡ infer_safe everything_checked functions
unfolding infer_all infer_safe should_check_function first_override
same_inferences [] = refl
same_inferences (f ∷ functions) = rw (same_inferences functions) refl

-- Where no header marks a function of the program as unsafe, the check with annotations comes to
-- the same as the check with a context in which the whole file is safe.
pub check_borrows_with_annotations-safe :
    (program : IrProgram) (header_cache : HeaderCache)
    → NoneUnsafe header_cache program.functions
    → check_borrows_with_annotations program header_cache
      ≡ check_borrows_with_safety_context program header_cache everything_checked
unfolding check_borrows_with_annotations check_borrows_with_safety_context check_everything
    anything_safe
check_borrows_with_annotations-safe program header_cache h =
    rw (same_checks header_cache program.functions h, same_inferences program.functions) refl
