-- ===== src/Lifetimes.antt =====
-- Named lifetimes and constraints between them: src/analysis/lifetimes.rs.
pub mod Holding
use rustycpp.Common.{
  ℕ, ltb, eqb, String, Bool, true, false, not, ◌&&◌, ◌||◌, Option, none, some, List, [], ◌∷◌, ◌++◌,
  is_empty, concat, if◌then◌else◌, Map, get, insert,
}
use rustycpp.Ir.{Lifetime}

pub data LifetimeConstraint : Type 0 where
  outlives equal : String → String → LifetimeConstraint

pub record LifetimeAnalyzer : Type 0 where
  pub lifetimes : Map Lifetime
  pub constraints : List LifetimeConstraint

abbrev pub new : LifetimeAnalyzer
new = record { lifetimes = []; constraints = [] }

unfoldable pub add_lifetime : LifetimeAnalyzer → String → ℕ → ℕ → LifetimeAnalyzer
add_lifetime analyzer name scope_start scope_end = record analyzer {
  lifetimes =
      insert analyzer.lifetimes name
        (record { name = name; scope_start = scope_start; scope_end = scope_end });
}

unfoldable pub add_constraint : LifetimeAnalyzer → LifetimeConstraint → LifetimeAnalyzer
add_constraint analyzer constraint = record analyzer {
  constraints = analyzer.constraints ++ constraint ∷ [];
}

pub does_not_outlive : String → String → String
does_not_outlive longer shorter =
    concat ("Lifetime '" ∷ longer ∷ "' does not outlive '" ∷ shorter ∷ "'" ∷ [])

pub are_not_equal : String → String → String
are_not_equal a b = concat ("Lifetimes '" ∷ a ∷ "' and '" ∷ b ∷ "' are not equal" ∷ [])

-- `if let (Some(l1), Some(l2)) = ...`
abbrev pub both : (Lifetime → Lifetime → Bool) → Option Lifetime → Option Lifetime → Bool
both p (some l1) (some l2) = p l1 l2
both p _ _ = false

abbrev pub ends_before : Lifetime → Lifetime → Bool
ends_before l1 l2 = ltb l1.scope_end l2.scope_end

abbrev pub differs : Lifetime → Lifetime → Bool
differs l1 l2 = not (eqb l1.scope_start l2.scope_start) || not (eqb l1.scope_end l2.scope_end)

abbrev pub violation : Map Lifetime → LifetimeConstraint → List String
violation lifetimes (LifetimeConstraint.outlives longer shorter) =
    if both ends_before (get lifetimes longer) (get lifetimes shorter)
    then does_not_outlive longer shorter ∷ []
    else []
violation lifetimes (LifetimeConstraint.equal a b) =
    if both differs (get lifetimes a) (get lifetimes b) then are_not_equal a b ∷ [] else []

unfoldable pub violations : Map Lifetime → List LifetimeConstraint → List String
violations lifetimes [] = []
violations lifetimes (constraint ∷ constraints) =
    violation lifetimes constraint ++ violations lifetimes constraints

-- the errors; the code returns `Ok` where there are none
unfoldable pub check_constraints : LifetimeAnalyzer → List String
unfolding violations
check_constraints analyzer = violations analyzer.lifetimes analyzer.constraints

abbrev pub infer_lifetimes : LifetimeAnalyzer → Map Lifetime
infer_lifetimes analyzer = analyzer.lifetimes
