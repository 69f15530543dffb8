-- ===== src/Pipeline/Safety.antt =====
-- Whole files that src/main.rs, `analyze_file`, finds no violation in.
use rustycpp.Common.{
  if◌then◌else◌, String, ◌≡◌, true, List, [], ◌∷◌, ◌++◌, append_empty, All, StringSet,
}
use rustycpp.Ast.{Function, CppAst}
use rustycpp.Safety.{SafetyContext, should_check_function, known_safe}
use rustycpp.Pointers.{check_parsed_function_for_pointers}
use rustycpp.Propagation.{is_function_safe, check_unsafe_propagation}
use rustycpp.Propagation.Statements.{BodyPerforms, check_unsafe_propagation_complete}
use rustycpp.Pipeline.{violations_of, violations}

-- if the function is checked, every function that it calls in a place that is looked at is safe
abbrev pub CallsSafely : SafetyContext → StringSet → Function → Type 0
CallsSafely context known f =
    should_check_function context f.name ≡ true
    → (g : String) → BodyPerforms f.body g
    → is_function_safe context known g ≡ true

each_call_is_safe :
    (context : SafetyContext) (known : StringSet) (functions : List Function)
    → violations_of context known functions ≡ []
    → All (CallsSafely context known) functions
unfolding violations_of
each_call_is_safe context known [] h = tt
each_call_is_safe context known (f ∷ functions) h =
    let own = check_parsed_function_for_pointers f ++ check_unsafe_propagation context known f in
    let (here, others) =
      append_empty (if should_check_function context f.name then own else [])
        (violations_of context known functions) h in
    (
      λ checked g calls.
          let (_, clean) =
            append_empty (check_parsed_function_for_pointers f)
              (check_unsafe_propagation context known f) (rw checked at here) in
          check_unsafe_propagation_complete context known f clean calls,
      each_call_is_safe context known functions others,
    )

-- A file in whose tree no violation is found: every function of it that is checked calls only safe
-- functions, in all the places that the search for unsafe calls looks at.
pub violations-CallsSafely :
    (context : SafetyContext) (ast : CppAst)
    → violations context ast ≡ []
    → All (CallsSafely context (known_safe context.function_overrides [])) ast.functions
unfolding violations
violations-CallsSafely context ast h =
    each_call_is_safe context (known_safe context.function_overrides []) ast.functions h
