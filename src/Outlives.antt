-- ===== src/Outlives.antt =====
-- Which lifetime outlives which: src/analysis/lifetime_checker.rs, lines 6-95, `LifetimeScope`.
-- The search over the bounds takes fuel; `Outlives.Correct` shows that one more than the number of
-- bounds is enough.
pub mod Chains
pub mod Search
pub mod Correct
use rustycpp.Common.{
  ℕ, zero, suc, String, ◌==◌, Bool, true, false, ◌&&◌, ◌||◌, Option, List, [], ◌∷◌, ◌++◌, length,
  any, if◌then◌else◌, Map, get, insert, StringSet, contains, add,
}
use rustycpp.Annotations.{LifetimeBound}

pub record LifetimeScope : Type 0 where
  pub variable_lifetimes : Map String
  pub constraints : List LifetimeBound
  pub owned_variables : StringSet

abbrev pub new : LifetimeScope
new = record { variable_lifetimes = []; constraints = []; owned_variables = [] }

unfoldable pub set_lifetime : LifetimeScope → String → String → LifetimeScope
set_lifetime scope var lifetime = record scope {
  variable_lifetimes = insert scope.variable_lifetimes var lifetime;
}

unfoldable pub mark_owned : LifetimeScope → String → LifetimeScope
mark_owned scope var = record scope { owned_variables = add scope.owned_variables var }

abbrev pub get_lifetime : LifetimeScope → String → Option String
get_lifetime scope var = get scope.variable_lifetimes var

abbrev pub is_owned : LifetimeScope → String → Bool
is_owned scope var = contains scope.owned_variables var

unfoldable pub add_constraint : LifetimeScope → LifetimeBound → LifetimeScope
add_constraint scope constraint = record scope {
  constraints = scope.constraints ++ constraint ∷ [];
}

module _ (shorter : String) where
  -- the loop over the constraints, with the recursive call as an argument
  unfoldable pub scan :
      (String → StringSet → Bool × StringSet)
      → String
      → List LifetimeBound
      → StringSet
      → Bool × StringSet
  scan search_from longer [] visited = (false, visited)
  scan search_from longer (b ∷ bounds) visited =
      let here = search_from b.shorter visited in
      let onward = scan search_from longer bounds here.1 in
      let skipped = scan search_from longer bounds visited in
      let through = if here.0 then (true, here.1) else onward in
      let matching = if b.shorter == shorter then (true, visited) else through in
      if b.longer == longer then matching else skipped

  unfoldable pub check_outlives_transitive :
      List LifetimeBound → ℕ → String → StringSet → Bool × StringSet
  unfolding scan
  check_outlives_transitive bounds zero longer visited = (false, visited)
  check_outlives_transitive bounds (suc fuel) longer visited =
      let scanned =
        scan (check_outlives_transitive bounds fuel) longer bounds (add visited longer) in
      if contains visited longer then (false, visited) else scanned

abbrev pub is_bound : String → String → LifetimeBound → Bool
is_bound longer shorter b = b.longer == longer && b.shorter == shorter

unfoldable pub check_outlives : LifetimeScope → String → String → Bool
unfolding check_outlives_transitive
check_outlives scope longer shorter =
    longer == shorter
    || any (is_bound longer shorter) scope.constraints
    || (check_outlives_transitive shorter scope.constraints (suc (length scope.constraints)) longer
        []).0
