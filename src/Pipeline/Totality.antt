-- ===== src/Pipeline/Totality.antt =====
-- Whole programs: src/ir/mod.rs, `build_ir`, followed by src/analysis/mod.rs, `check_borrows`.
use rustycpp.Common.{String, ◌≡◌, refl, List, [], ◌∷◌, ◌++◌, All, ok}
use rustycpp.Ast.{Function, CppAst}
use rustycpp.Build.{build_ir, convert_functions}
use rustycpp.Build.Markers.{IsNestedBody, check_function_total}
use rustycpp.Pipeline.{check_functions, check_borrows}

check_functions_total :
    (functions : List Function)
    → All (λ f. IsNestedBody 0 f.body) functions
    → (errors : List String) × (check_functions (convert_functions functions) ≡ ok errors)
unfolding check_functions convert_functions
check_functions_total [] h = ([], refl)
check_functions_total (f ∷ functions) (p, h) =
    let (errors, q) = check_function_total f p in
    let (others, r) = check_functions_total functions h in (errors ++ others, rw (q, r) refl)

-- A tree whose functions all have nested markers of loops is converted and its program is checked
-- to the end: a list of errors is returned, with no panic.
pub check_borrows_total :
    (ast : CppAst)
    → All (λ f. IsNestedBody 0 f.body) ast.functions
    → (errors : List String) × (check_borrows (build_ir ast) ≡ ok errors)
unfolding check_borrows build_ir
check_borrows_total ast h = check_functions_total ast.functions h
