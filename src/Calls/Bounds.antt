-- ===== src/Calls/Bounds.antt =====
-- What src/analysis/lifetime_checker.rs, `check_function_call`, asks of the lifetimes of arguments.
use rustycpp.Common.{
  sym, subst, eq_false, ◌≢◌, eq_cases, String, ◌≡◌, refl, ◌↔◌, Bool-cases, Option, none, some, inl,
  inr, List, [], ◌∷◌, All, append_empty,
}
use rustycpp.Annotations.{LifetimeBound}
use rustycpp.Outlives.{LifetimeScope, check_outlives}
use rustycpp.Outlives.Chains.{Outlives}
use rustycpp.Outlives.Correct.{check_outlives_iff}
use rustycpp.Calls.{quoted, flatten, get_elem?, check_bound, check_bounds, map_lifetime_to_actual}

-- What a lifetime name of a signature stands for at a call: `'a`, `'b` and `'c` for the lifetimes of
-- the first three arguments, where these have one, and any other name for itself.
pub data StandsFor (lifetimes : List (Option String)) (actual : String) : String → Type 0 where
  first : get_elem? lifetimes 0 ≡ some (some actual) → StandsFor lifetimes actual "a"
  second : get_elem? lifetimes 1 ≡ some (some actual) → StandsFor lifetimes actual "b"
  third : get_elem? lifetimes 2 ≡ some (some actual) → StandsFor lifetimes actual "c"
  itself :
      (name : String)
      → name ≢ "a"
      → name ≢ "b"
      → name ≢ "c"
      → quoted name ≡ actual
      → StandsFor lifetimes actual name

-- A chain of the bounds in scope leads between whatever the two names stand for.
abbrev pub IsBacked : LifetimeScope → List (Option String) → LifetimeBound → Type 0
IsBacked scope lifetimes bound =
    (longer shorter : String)
    → StandsFor lifetimes longer bound.longer
    → StandsFor lifetimes shorter bound.shorter
    → Outlives scope.constraints shorter longer

abbrev pub AllBacked : LifetimeScope → List (Option String) → List LifetimeBound → Type 0
AllBacked scope lifetimes = All (IsBacked scope lifetimes)

flatten_found :
    (o : Option (Option String)) (actual : String)
    → flatten o ≡ some actual
    → o ≡ some (some actual)
flatten_found none actual h = cc
flatten_found (some o) actual h = cc

actual_found :
    (lifetimes : List (Option String)) (name actual : String)
    → map_lifetime_to_actual name lifetimes ≡ some actual
    → StandsFor lifetimes actual name
unfolding map_lifetime_to_actual
actual_found lifetimes name actual h = elim (eq_cases name "a") [
  | inl (p, e) ↦
      subst (StandsFor lifetimes actual) (sym e)
        (StandsFor.first (flatten_found (get_elem? lifetimes 0) actual (rw p at h)))
  | inr (p, not_a) ↦ elim (eq_cases name "b") [
    | inl (q, e) ↦
        subst (StandsFor lifetimes actual) (sym e)
          (StandsFor.second (flatten_found (get_elem? lifetimes 1) actual (rw (p, q) at h)))
    | inr (q, not_b) ↦ elim (eq_cases name "c") [
      | inl (r, e) ↦
          subst (StandsFor lifetimes actual) (sym e)
            (StandsFor.third (flatten_found (get_elem? lifetimes 2) actual (rw (p, q, r) at h)))
      | inr (r, not_c) ↦
          let k : some (quoted name) ≡ some actual = rw (p, q, r) at h in
          StandsFor.itself name not_a not_b not_c cc
    ]
  ]
]

actual_given :
    (lifetimes : List (Option String)) (name actual : String)
    → StandsFor lifetimes actual name
    → map_lifetime_to_actual name lifetimes ≡ some actual
unfolding map_lifetime_to_actual
actual_given lifetimes _ actual (StandsFor.first p) = rw p refl
actual_given lifetimes _ actual (StandsFor.second p) = rw p refl
actual_given lifetimes _ actual (StandsFor.third p) = rw p refl
actual_given lifetimes _ actual (StandsFor.itself name not_a not_b not_c p) =
    rw (eq_false name "a" not_a, eq_false name "b" not_b, eq_false name "c" not_c, p) refl

-- the same for lifetimes that were looked up
abbrev IsBackedBy : LifetimeScope → Option String → Option String → Type 0
IsBackedBy scope longer shorter =
    (l s : String) → longer ≡ some l → shorter ≡ some s → Outlives scope.constraints s l

bound_iff :
    (scope : LifetimeScope) (func_name : String) (longer shorter : Option String)
    → (check_bound scope func_name longer shorter ≡ []) ↔ IsBackedBy scope longer shorter
bound_iff scope func_name (some longer) (some shorter) = (
  λ h l s p q. elim (Bool-cases (check_outlives scope longer shorter)) [
    | inl r ↦
        let same_l : longer ≡ l = cc in
        let same_s : shorter ≡ s = cc in
        rw (same_l, same_s) at ((check_outlives_iff scope longer shorter).0 r)
    | inr r ↦ cc (rw r at h)
  ],
  λ h. rw ((check_outlives_iff scope longer shorter).1 (h longer shorter refl refl)) refl,
)
bound_iff scope func_name none shorter = (λ _ l s p q. cc, λ _. refl)
bound_iff scope func_name (some longer) none = (λ _ l s p q. cc, λ _. refl)

signature_bound_iff :
    (scope : LifetimeScope) (func_name : String) (lifetimes : List (Option String))
    (bound : LifetimeBound)
    → (check_bound scope func_name
          (map_lifetime_to_actual bound.longer lifetimes)
          (map_lifetime_to_actual bound.shorter lifetimes)
        ≡ [])
      ↔ IsBacked scope lifetimes bound
signature_bound_iff scope func_name lifetimes bound =
    let looked_up =
      bound_iff scope func_name (map_lifetime_to_actual bound.longer lifetimes)
        (map_lifetime_to_actual bound.shorter lifetimes) in
    (
      λ h l s p q.
          looked_up.0 h l s (actual_given lifetimes bound.longer l p)
            (actual_given lifetimes bound.shorter s q),
      λ h. looked_up.1 (λ l s p q.
          h l s (actual_found lifetimes bound.longer l p)
            (actual_found lifetimes bound.shorter s q)),
    )

-- No bound of a call is reported exactly when, for every bound of the signature whose two names
-- both stand for a lifetime, a chain of the bounds in scope leads between these; the names `a`,
-- `b` and `c` stand for the lifetimes of the first, the second and the third argument, for none
-- where that argument is missing or has none, and any other name for itself with a quote in front.
pub check_bounds_iff :
    (scope : LifetimeScope) (func_name : String) (lifetimes : List (Option String))
    (bounds : List LifetimeBound)
    → (check_bounds scope func_name lifetimes bounds ≡ []) ↔ AllBacked scope lifetimes bounds
unfolding check_bounds
check_bounds_iff scope func_name lifetimes bounds = (sound bounds, complete bounds)
  where
    sound :
        (bs : List LifetimeBound)
        → check_bounds scope func_name lifetimes bs ≡ []
        → AllBacked scope lifetimes bs
    sound [] h = tt
    sound (b ∷ bs) h =
        let longer = map_lifetime_to_actual b.longer lifetimes in
        let shorter = map_lifetime_to_actual b.shorter lifetimes in
        let (p, q) =
          append_empty (check_bound scope func_name longer shorter)
            (check_bounds scope func_name lifetimes bs) h in
        ((signature_bound_iff scope func_name lifetimes b).0 p, sound bs q)

    complete :
        (bs : List LifetimeBound)
        → AllBacked scope lifetimes bs
        → check_bounds scope func_name lifetimes bs ≡ []
    complete [] h = refl
    complete (b ∷ bs) (p, h) =
        rw ((signature_bound_iff scope func_name lifetimes b).1 p, complete bs h) refl
