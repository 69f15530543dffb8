-- ===== src/Outlives/Search.antt =====
-- A search of src/analysis/lifetime_checker.rs, lines 60-95, that finds nothing: what it visited, and
-- how much fuel it needs.
use rustycpp.Common.{
  refl, ap, length, sym, ℕ, zero, suc, ◌≤◌, ◌<◌, String, eq_iff, eq_cases, ◌≡◌, ◌≢◌, inl, inr, true,
  false, List, [], ◌∷◌, arith, if◌then◌else◌, StringSet, contains, add, contains-add, Bool-cases,
}
use rustycpp.Annotations.{LifetimeBound}
use rustycpp.Outlives.{scan, check_outlives_transitive}
use rustycpp.Outlives.Chains.{Listed, Outlives, Search}

module _ (bounds : List LifetimeBound) (shorter : String) where
  -- completeness: how many bounds start at a lifetime that was not visited
  unfoldable pub unvisited : List LifetimeBound → StringSet → ℕ
  unvisited [] v = 0
  unvisited (b ∷ bs) v = if contains v b.longer then unvisited bs v else suc (unvisited bs v)

  abbrev pub Grows : StringSet → StringSet → Type 0
  Grows v w = (x : String) → contains v x ≡ true → contains w x ≡ true

  unvisited_mono :
      (bs : List LifetimeBound) (v w : StringSet) → Grows v w → unvisited bs w ≤ unvisited bs v
  unfolding unvisited
  unvisited_mono [] v w g = omega arith
  unvisited_mono (b ∷ bs) v w g = ground (arith, unvisited_mono bs v w g, g b.longer)

  add-Grows : (v : StringSet) (x : String) → Grows v (add v x)
  add-Grows v x y h = ground (arith, contains-add v x y)

  -- a visit of the start of some bound leaves fewer
  unvisited_lt :
      (b : LifetimeBound) (bs : List LifetimeBound) (v : StringSet)
      → Listed b bs
      → contains v b.longer ≡ false
      → unvisited bs (add v b.longer) < unvisited bs v
  unfolding unvisited
  unvisited_lt b _ v (Listed.head bs) h = ground (
    arith,
    contains-add v b.longer b.longer,
    eq_iff b.longer b.longer,
    unvisited_mono bs v (add v b.longer) (add-Grows v b.longer),
  )
  unvisited_lt b _ v (Listed.tail a {bounds = bs} l) h =
      ground (arith, unvisited_lt b bs v l h, contains-add v b.longer a.longer)

  -- a failed search: what it visited beyond `v` leads only to what was visited, never to the goal
  pub record Explored (v w : StringSet) : Type 0 where
    pub grows : Grows v w
    pub closed :
        (b : LifetimeBound)
        → Listed b bounds
        → contains w b.longer ≡ true
        → contains v b.longer ≡ false
        → (b.shorter ≢ shorter) × (contains w b.shorter ≡ true)

  Explored-refl : (v : StringSet) → Explored v v
  Explored-refl v = record { grows = λ x h. h; closed = λ b l p q. cc }

  Explored-trans : (u v w : StringSet) → Explored u v → Explored v w → Explored u w
  Explored-trans u v w h k = record {
    grows = λ x p. k.grows x (h.grows x p);
    closed = λ b l p q. elim (Bool-cases (contains v b.longer)) [
      | inl before ↦ let (ne, m) = h.closed b l before q in (ne, k.grows b.shorter m)
      | inr after ↦ k.closed b l p after
    ];
  }

  abbrev pub Fails : Search bounds shorter → ℕ → Type 0
  Fails go fuel =
      (x : String) (v : StringSet)
      → unvisited bounds v < fuel
      → (go x v).0 ≡ false
      → Explored v (go x v).1 × (contains (go x v).1 x ≡ true)

  scan-Fails :
      (go : Search bounds shorter) (fuel : ℕ) (longer : String)
      → Fails go fuel
      → (bs : List LifetimeBound) (v : StringSet)
      → ((b : LifetimeBound) → Listed b bs → b.longer ≡ longer → unvisited bounds v < fuel)
      → (scan shorter go longer bs v).0 ≡ false
      → Explored v (scan shorter go longer bs v).1
        × ((b : LifetimeBound)
            → Listed b bs
            → b.longer ≡ longer
            → (b.shorter ≢ shorter) × (contains (scan shorter go longer bs v).1 b.shorter ≡ true))
  unfolding scan
  scan-Fails go fuel longer fails [] v enough e = (Explored-refl v, λ b l p. elim l [ ])
  scan-Fails go fuel longer fails (b ∷ bs) v enough e = elim (eq_cases b.longer longer) [
    | inr (other, ne) ↦
        let (x, each) =
          scan-Fails go fuel longer fails bs v (λ a l. enough a (Listed.tail b l))
            (rw other at e) in
        rw other (x, λ a l p. of_rest a l p (λ q. absurd (ne q)) each)
    | inl (same, p) ↦ elim (eq_cases b.shorter shorter) [
      | inl (there, _) ↦ cc (rw (same, there) at e)
      | inr (apart, ne) ↦ elim (Bool-cases (go b.shorter v).0) [
        | inl found ↦ cc (rw (same, apart, found) at e)
        | inr missed ↦
            let u = (go b.shorter v).1 in
            let (first, mark) = fails b.shorter v (enough b (Listed.head bs) p) missed in
            let less = unvisited_mono bounds v u first.grows in
            let (x, each) =
              scan-Fails go fuel longer fails bs u
                (λ a l q. let before = enough a (Listed.tail b l) q in omega arith)
                (rw (same, apart, missed) at e) in
            rw (same, apart, missed)
              (
                Explored-trans v u (scan shorter go longer bs u).1 first x,
                λ a l q. of_rest a l q (λ _. (ne, x.grows b.shorter mark)) each,
              )
      ]
    ]
  ]
    where
      of_rest :
          {P : LifetimeBound → Type 0} (a : LifetimeBound)
          → Listed a (b ∷ bs)
          → a.longer ≡ longer
          → (b.longer ≡ longer → P b)
          → ((c : LifetimeBound) → Listed c bs → c.longer ≡ longer → P c)
          → P a
      of_rest _ (Listed.head _) q here each = here q
      of_rest a (Listed.tail _ l) q here each = each a l q

  pub search-Fails : (fuel : ℕ) → Fails (check_outlives_transitive shorter bounds fuel) fuel
  unfolding check_outlives_transitive
  search-Fails zero x v enough e = absurd (omega arith)
  search-Fails (suc fuel) x v enough e = elim (Bool-cases (contains v x)) [
    | inl seen ↦ rw seen (Explored-refl v, seen)
    | inr fresh ↦
        let go = check_outlives_transitive shorter bounds fuel in
        let more = λ (b : LifetimeBound) (l : Listed b bounds) (p : b.longer ≡ x).
          let start : contains v b.longer ≡ false = rw p fresh in
          let drops : unvisited bounds (add v x) < unvisited bounds v =
            rw (← p) (unvisited_lt b bounds v l start) in
          let enough' : unvisited bounds (add v x) < fuel = omega arith in enough' in
        let (explored, each) =
          scan-Fails go fuel x (search-Fails fuel) bounds (add v x) more (rw fresh at e) in
        let w = (scan shorter go x bounds (add v x)).1 in
        let whole : Explored v w = record {
          grows = λ y h. explored.grows y (add-Grows v x y h);
          closed = λ b l p q. elim (eq_cases x b.longer) [
            | inl (_, same) ↦ each b l (sym same)
            | inr (other, _) ↦ explored.closed b l p (rw (contains-add v x b.longer, other) q)
          ];
        } in
        rw fresh (whole, explored.grows x (rw (contains-add v x x) (ground (arith, eq_iff x x))))
  ]

  -- no chain leads from a visited lifetime to the goal of a failed search
  pub no_chain :
      (w : StringSet) {x : String}
      → Explored [] w
      → contains w x ≡ true
      → x ≢ shorter
      → ¬ (Outlives bounds shorter x)
  unfolding contains
  no_chain w h m ne Outlives.self = ne refl
  no_chain w h m ne (Outlives.step b l rest) =
      let (ne', m') = h.closed b l m refl in no_chain w h m' ne' rest

  pub unvisited_none : (bs : List LifetimeBound) → unvisited bs [] ≡ length bs
  unfolding unvisited contains
  unvisited_none [] = refl
  unvisited_none (b ∷ bs) = ap suc (unvisited_none bs)
