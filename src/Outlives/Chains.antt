-- ===== src/Outlives/Chains.antt =====
-- Chains of the bounds that src/analysis/lifetime_checker.rs, lines 40-95, searches; what the search
-- answers has a chain.
use rustycpp.Common.{
  ℕ, zero, suc, String, eq_iff, eq_cases, ◌≡◌, subst, inl, inr, Bool, true, List, [], ◌∷◌, any,
  arith, StringSet, contains, add, Bool-cases,
}
use rustycpp.Annotations.{LifetimeBound}
use rustycpp.Outlives.{scan, check_outlives_transitive, is_bound}

-- a bound of the list
pub data Listed (b : LifetimeBound) : List LifetimeBound → Type 0 where
  head : (bounds : List LifetimeBound) → Listed b (b ∷ bounds)
  tail : (a : LifetimeBound) {bounds : List LifetimeBound} → Listed b bounds → Listed b (a ∷ bounds)

-- the chains of bounds, reflexive and transitive
pub data Outlives (bounds : List LifetimeBound) (shorter : String) : String → Type 0 where
  self : Outlives bounds shorter shorter
  step :
      (b : LifetimeBound)
      → Listed b bounds
      → Outlives bounds shorter b.shorter
      → Outlives bounds shorter b.longer

module _ (bounds : List LifetimeBound) (shorter : String) where
  abbrev pub Search : Type 0
  Search = String → StringSet → Bool × StringSet

  -- soundness: what the search answers has a chain
  scan_sound :
      (go : Search) (longer : String) (bs : List LifetimeBound) (visited : StringSet)
      → ((b : LifetimeBound) → Listed b bs → Listed b bounds)
      → ((x : String) (v : StringSet) → (go x v).0 ≡ true → Outlives bounds shorter x)
      → (scan shorter go longer bs visited).0 ≡ true
      → Outlives bounds shorter longer
  unfolding scan
  scan_sound go longer [] visited sub h e = cc
  scan_sound go longer (b ∷ bs) visited sub h e =
      let chain = λ (p : b.longer ≡ longer) (q : Outlives bounds shorter b.shorter).
        subst (Outlives bounds shorter) p (step b (sub b (Listed.head bs)) q) in
      let sub' = λ (a : LifetimeBound) (l : Listed a bs). sub a (Listed.tail b l) in
      elim (eq_cases b.longer longer) [
        | inr (other, _) ↦ scan_sound go longer bs visited sub' h (rw other at e)
        | inl (same, p) ↦ elim (eq_cases b.shorter shorter) [
          | inl (_, q) ↦ chain p (rw q self)
          | inr (apart, _) ↦ elim (Bool-cases (go b.shorter visited).0) [
            | inl found ↦ chain p (h b.shorter visited found)
            | inr missed ↦
                scan_sound go longer bs (go b.shorter visited).1 sub' h
                  (rw (same, apart, missed) at e)
          ]
        ]
      ]

  pub search_sound :
      (fuel : ℕ) (x : String) (visited : StringSet)
      → (check_outlives_transitive shorter bounds fuel x visited).0 ≡ true
      → Outlives bounds shorter x
  unfolding check_outlives_transitive
  search_sound zero x visited e = cc
  search_sound (suc fuel) x visited e = elim (Bool-cases (contains visited x)) [
    | inl seen ↦ cc (rw seen at e)
    | inr fresh ↦
        scan_sound (check_outlives_transitive shorter bounds fuel) x bounds (add visited x)
          (λ a l. l) (search_sound fuel) (rw fresh at e)
  ]

  pub any_sound :
      (longer : String) (bs : List LifetimeBound)
      → ((b : LifetimeBound) → Listed b bs → Listed b bounds)
      → any (is_bound longer shorter) bs ≡ true
      → Outlives bounds shorter longer
  any_sound longer [] sub e = cc
  any_sound longer (b ∷ bs) sub e = elim (Bool-cases (is_bound longer shorter b)) [
    | inl found ↦
        let p : b.longer ≡ longer = ground (arith, eq_iff b.longer longer) in
        let q : b.shorter ≡ shorter = ground (arith, eq_iff b.shorter shorter) in
        subst (Outlives bounds shorter) p (step b (sub b (Listed.head bs)) (rw q self))
    | inr missed ↦ any_sound longer bs (λ a l. sub a (Listed.tail b l)) (rw missed at e)
  ]
