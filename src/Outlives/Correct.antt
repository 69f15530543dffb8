-- ===== src/Outlives/Correct.antt =====
-- `check_outlives` of src/analysis/lifetime_checker.rs decides whether the bounds lead from one
-- lifetime to the other.
use rustycpp.Common.{
  ◌↔◌, ◌==◌, length, ◌||◌, suc, String, eq_cases, ◌≡◌, inl, inr, Bool, true, List, [], any, arith,
  StringSet, Bool-cases,
}
use rustycpp.Annotations.{LifetimeBound}
use rustycpp.Outlives.{LifetimeScope, check_outlives, check_outlives_transitive, is_bound}
use rustycpp.Outlives.Chains.{self, Outlives, search_sound, any_sound}
use rustycpp.Outlives.Search.{search-Fails, no_chain, unvisited_none}

-- One lifetime outlives another by the check exactly when a chain of declared bounds, possibly
-- empty, leads from it to the other; the fuel is always enough.
pub check_outlives_iff :
    (scope : LifetimeScope) (longer shorter : String)
    → (check_outlives scope longer shorter ≡ true) ↔ Outlives scope.constraints shorter longer
unfolding check_outlives
check_outlives_iff scope longer shorter = (sound, complete)
  where
    bounds : List LifetimeBound
    bounds = scope.constraints

    found : Bool × StringSet
    found = check_outlives_transitive shorter bounds (suc (length bounds)) longer []

    sound :
        ((longer == shorter) || any (is_bound longer shorter) bounds || found.0) ≡ true
        → Outlives bounds shorter longer
    sound e = elim (eq_cases longer shorter) [
      | inl (_, p) ↦ rw p self
      | inr (apart, _) ↦ elim (Bool-cases (any (is_bound longer shorter) bounds)) [
        | inl direct ↦ any_sound bounds shorter longer bounds (λ b l. l) direct
        | inr indirect ↦
            search_sound bounds shorter (suc (length bounds)) longer [] (rw (apart, indirect) at e)
      ]
    ]

    complete :
        Outlives bounds shorter longer
        → ((longer == shorter) || any (is_bound longer shorter) bounds || found.0) ≡ true
    complete chain = elim (eq_cases longer shorter) [
      | inl (same, _) ↦ rw same
      | inr (apart, ne) ↦ elim (Bool-cases found.0) [
        | inl yes_found ↦ ground arith
        | inr missed ↦
            let enough = unvisited_none bounds shorter bounds in
            let (explored, mark) =
              search-Fails bounds shorter (suc (length bounds)) longer [] (omega arith) missed in
            absurd (no_chain bounds shorter found.1 explored mark ne chain)
      ]
    ]
