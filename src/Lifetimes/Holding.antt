-- ===== src/Lifetimes/Holding.antt =====
-- What src/analysis/lifetimes.rs, `check_constraints`, accepts.
use rustycpp.Common.{
  append_empty, Option-cases, ◌≤◌, ◌≡◌, refl, ◌↔◌, inl, inr, some, List, [], ◌∷◌, arith, All, Map,
  get,
}
use rustycpp.Ir.{Lifetime}
use rustycpp.Lifetimes.{
  LifetimeAnalyzer, LifetimeConstraint, violation, violations, check_constraints,
}

-- what a constraint says of the lifetimes that are known
abbrev pub Holds : Map Lifetime → LifetimeConstraint → Type 0
Holds lifetimes (LifetimeConstraint.outlives longer shorter) =
    (l1 l2 : Lifetime)
    → get lifetimes longer ≡ some l1
    → get lifetimes shorter ≡ some l2
    → l2.scope_end ≤ l1.scope_end
Holds lifetimes (LifetimeConstraint.equal a b) =
    (l1 l2 : Lifetime)
    → get lifetimes a ≡ some l1
    → get lifetimes b ≡ some l2
    → (l1.scope_start ≡ l2.scope_start) × (l1.scope_end ≡ l2.scope_end)

violation-Holds :
    (lifetimes : Map Lifetime) (c : LifetimeConstraint)
    → violation lifetimes c ≡ []
    → Holds lifetimes c
violation-Holds lifetimes (LifetimeConstraint.outlives longer shorter) h =
    λ l1 l2 p q. let e = rw (p, q) at h in ground (arith, e)
violation-Holds lifetimes (LifetimeConstraint.equal a b) h =
    λ l1 l2 p q. let e = rw (p, q) at h in ground (arith, e)

Holds-violation :
    (lifetimes : Map Lifetime) (c : LifetimeConstraint)
    → Holds lifetimes c
    → violation lifetimes c ≡ []
Holds-violation lifetimes (LifetimeConstraint.outlives longer shorter) h =
    elim (Option-cases (get lifetimes longer)) [
      | inl p ↦ rw p refl
      | inr (l1, p) ↦ elim (Option-cases (get lifetimes shorter)) [
        | inl q ↦ rw (p, q) refl
        | inr (l2, q) ↦ let e = h l1 l2 p q in rw (p, q) (ground (arith, e))
      ]
    ]
Holds-violation lifetimes (LifetimeConstraint.equal a b) h = elim (Option-cases (get lifetimes a)) [
  | inl p ↦ rw p refl
  | inr (l1, p) ↦ elim (Option-cases (get lifetimes b)) [
    | inl q ↦ rw (p, q) refl
    | inr (l2, q) ↦ let e = h l1 l2 p q in rw (p, q) (ground (arith, e))
  ]
]

-- No constraint is reported exactly when all constraints hold of the lifetimes that are known.
pub check_constraints_iff :
    (analyzer : LifetimeAnalyzer)
    → (check_constraints analyzer ≡ []) ↔ All (Holds analyzer.lifetimes) analyzer.constraints
unfolding check_constraints
check_constraints_iff analyzer = (sound analyzer.constraints, complete analyzer.constraints)
  where
    sound :
        (cs : List LifetimeConstraint)
        → violations analyzer.lifetimes cs ≡ []
        → All (Holds analyzer.lifetimes) cs
    sound [] h = tt
    sound (c ∷ cs) h =
        let (p, q) =
          append_empty (violation analyzer.lifetimes c) (violations analyzer.lifetimes cs) h in
        (violation-Holds analyzer.lifetimes c p, sound cs q)

    complete :
        (cs : List LifetimeConstraint)
        → All (Holds analyzer.lifetimes) cs
        → violations analyzer.lifetimes cs ≡ []
    complete [] h = refl
    complete (c ∷ cs) (p, h) = rw (Holds-violation analyzer.lifetimes c p, complete cs h)
