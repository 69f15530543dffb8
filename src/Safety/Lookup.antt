-- ===== src/Safety/Lookup.antt =====
-- The two readings of the overrides: src/parser/safety_annotations.rs, `should_check_function`,
-- against the set that src/main.rs gathers.
use rustycpp.Common.{
  subst, ◌&&◌, String, ◌==◌, eq_cases, ◌≡◌, refl, inl, inr, Bool, false, ◌||◌, List, [], ◌∷◌, arith,
  StringSet, contains, add, contains-add, All,
}
use rustycpp.Safety.{
  SafetyMode, SafetyContext, is_safe, first_override, should_check_function, known_safe,
}

-- some override marks the function safe
abbrev pub some_safe : List (String × SafetyMode) → String → Bool
some_safe [] f = false
some_safe ((name, mode) ∷ overrides) f = (name == f) && is_safe mode || some_safe overrides f

-- A name is known as safe exactly when some override marks it safe.
pub contains-known_safe :
    (overrides : List (String × SafetyMode)) (known : StringSet) (f : String)
    → contains (known_safe overrides known) f ≡ (some_safe overrides f || contains known f)
unfolding known_safe
contains-known_safe [] known f = refl
contains-known_safe ((name, mode) ∷ overrides) known f = ground (
  arith,
  contains-known_safe overrides known f,
  contains-known_safe overrides (add known name) f,
  contains-add known name f,
)

-- the names of the overrides are all different
abbrev pub HasOneOverrideEach : List (String × SafetyMode) → Type 0
HasOneOverrideEach [] = Unit
HasOneOverrideEach ((name, mode) ∷ overrides) =
    All (λ o. (o.0 == name) ≡ false) overrides × HasOneOverrideEach overrides

some_safe-absent :
    (overrides : List (String × SafetyMode)) (f : String)
    → All (λ o. (o.0 == f) ≡ false) overrides
    → some_safe overrides f ≡ false
some_safe-absent [] f h = refl
some_safe-absent ((name, mode) ∷ overrides) f (p, h) =
    ground (arith, some_safe-absent overrides f h)

first_override-some_safe :
    (overrides : List (String × SafetyMode)) (f : String)
    → HasOneOverrideEach overrides
    → first_override overrides f false ≡ some_safe overrides f
unfolding first_override
first_override-some_safe [] f h = refl
first_override-some_safe ((name, mode) ∷ overrides) f (p, h) = elim (eq_cases name f) [
  | inl (same, e) ↦
      let others = subst (λ n. All (λ o. (o.0 == n) ≡ false) overrides) e p in
      ground (arith, some_safe-absent overrides f others)
  | inr (other, e) ↦ ground (arith, first_override-some_safe overrides f h)
]

-- In a file that is not safe by default, and where no name has two overrides, the functions that
-- are checked are those that are known as safe.
pub should_check_function-known_safe :
    (context : SafetyContext) (f : String)
    → is_safe context.file_default ≡ false
    → HasOneOverrideEach context.function_overrides
    → should_check_function context f ≡ contains (known_safe context.function_overrides []) f
unfolding should_check_function contains
should_check_function-known_safe context f unsafe once = ground (
  arith,
  first_override-some_safe context.function_overrides f once,
  contains-known_safe context.function_overrides [] f,
)
