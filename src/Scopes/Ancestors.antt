-- ===== src/Scopes/Ancestors.antt =====
-- The walk up the parents of src/analysis/scope_lifetime.rs, `is_ancestor_scope`, against the
-- ancestors of a scope.
use rustycpp.Common.{
  not, ◌&&◌, ◌∙◌, String, ◌++◌, if◌then◌else◌, sym, ℕ, zero, suc, ◌<◌, eqb, ◌≡◌, ◌≢◌, refl, subst,
  Bool, true, false, Bool-cases, Option, none, some, Option-cases, ◌⊎◌, inl, inr, List, [], ◌∷◌,
  arith, ok, get,
}
use rustycpp.Scopes.{
  source_dead, ends_early, Scope, ScopeKind, ScopeConstraint, ConstraintKind, ScopedLifetimeTracker,
  find_scope, put_scope, fresh_scope, push_scope, parent_of, walk_up, is_ancestor_scope,
  is_alive_in_scope, validate, validate_all, validate_constraints,
}

-- the scope itself, its parent, and so on
pub data Ancestor (scopes : List (ℕ × Scope)) (a : ℕ) : ℕ → Type 0 where
  itself : Ancestor scopes a a
  above :
      {b parent : ℕ}
      → parent_of (find_scope scopes b) ≡ some parent
      → Ancestor scopes a parent
      → Ancestor scopes a b

-- parents are older than their children
abbrev pub HasOlderParents : List (ℕ × Scope) → Type 0
HasOlderParents scopes = (b p : ℕ) → parent_of (find_scope scopes b) ≡ some p → p < b

-- all scopes are older than the next one
abbrev pub AllBelow : ℕ → List (ℕ × Scope) → Type 0
AllBelow next scopes = (b p : ℕ) → parent_of (find_scope scopes b) ≡ some p → b < next

pub record IsScoped (tracker : ScopedLifetimeTracker) : Type 0 where
  pub older : HasOlderParents tracker.scopes
  pub below : AllBelow tracker.next_scope_id tracker.scopes

pub parent-put_scope :
    (scopes : List (ℕ × Scope)) (id : ℕ) (s : Scope) (b : ℕ)
    → parent_of (find_scope (put_scope scopes id s) b)
      ≡ (if eqb id b then s.parent else parent_of (find_scope scopes b))
unfolding find_scope put_scope
parent-put_scope [] id s b = ground arith
parent-put_scope ((i, t) ∷ scopes) id s b = ground (arith, parent-put_scope scopes id s b)

-- A new scope whose parent exists keeps parents older than their children.
pub push_scope-IsScoped :
    (tracker : ScopedLifetimeTracker) (kind : ScopeKind) (parent : Option ℕ)
    → ((p : ℕ) → parent ≡ some p → p < tracker.next_scope_id)
    → IsScoped tracker
    → IsScoped (push_scope tracker kind parent).1
unfolding push_scope
push_scope-IsScoped tracker kind parent exists h = record {
  older = λ b p q. elim (cases b p q) [
    | inl (e, new_parent) ↦ rw (← e) (exists p new_parent)
    | inr old ↦ h.older b p old
  ];
  below = λ b p q. elim (cases b p q) [
    | inl (e, _) ↦ omega (arith, e)
    | inr old ↦ let lt = h.below b p old in omega arith
  ];
}
  where
    next : ℕ
    next = tracker.next_scope_id

    cases :
        (b p : ℕ)
        → parent_of (find_scope (put_scope tracker.scopes next (fresh_scope next kind parent)) b)
          ≡ some p
        → ((next ≡ b) × (parent ≡ some p)) ⊎ (parent_of (find_scope tracker.scopes b) ≡ some p)
    cases b p q =
        let now = parent-put_scope tracker.scopes next (fresh_scope next kind parent) b in
        elim (Bool-cases (eqb next b)) [
          | inl same ↦ inl (ground arith, rw (now, same) at q)
          | inr other ↦ inr (rw (now, other) at q)
        ]

none_above :
    {scopes : List (ℕ × Scope)} {a b : ℕ}
    → Ancestor scopes a b
    → parent_of (find_scope scopes b) ≡ none
    → a ≢ b
    → ⊥
none_above Ancestor.itself p ne = ne refl
none_above (Ancestor.above q up) p ne = cc

some_injective : {m n : ℕ} → some m ≡ some n → m ≡ n
some_injective e = cc

from_above :
    {scopes : List (ℕ × Scope)} {a b q : ℕ}
    → Ancestor scopes a b
    → parent_of (find_scope scopes b) ≡ some q
    → a ≢ b
    → Ancestor scopes a q
from_above Ancestor.itself p ne = absurd (ne refl)
from_above {scopes} {a} (Ancestor.above r up) p ne =
    subst (Ancestor scopes a) (some_injective (sym r ∙ p)) up

-- the walk finds an ancestor above `b` or there is none
walk_decides :
    (scopes : List (ℕ × Scope)) (a fuel b : ℕ)
    → HasOlderParents scopes
    → b < fuel
    → a ≢ b
    → ((walk_up scopes a fuel b ≡ ok true) × Ancestor scopes a b)
      ⊎ ((walk_up scopes a fuel b ≡ ok false) × ¬ (Ancestor scopes a b))
unfolding walk_up
walk_decides scopes a zero b older enough ne = absurd (omega arith)
walk_decides scopes a (suc fuel) b older enough ne =
    elim (Option-cases (parent_of (find_scope scopes b))) [
      | inl p ↦ inr (rw p refl, λ h. none_above h p ne)
      | inr (q, p) ↦ elim (Bool-cases (eqb q a)) [
        | inl same ↦
            let e : q ≡ a = ground arith in
            inl (rw (p, same) refl, Ancestor.above p (rw e Ancestor.itself))
        | inr other ↦
            let lt = older b q p in
            elim (walk_decides scopes a fuel q older (omega arith) (λ e. ground (arith, e))) [
              | inl (w, up) ↦ inl (rw (p, other) w, Ancestor.above p up)
              | inr (w, apart) ↦ inr (rw (p, other) w, λ h. apart (from_above h p ne))
            ]
      ]
    ]

-- Where parents are older than their children, the walk up the parents ends and says whether one
-- scope is an ancestor of the other.
pub is_ancestor_scope_decides :
    (tracker : ScopedLifetimeTracker) (a b : ℕ)
    → IsScoped tracker
    → ((is_ancestor_scope tracker a b ≡ ok true) × Ancestor tracker.scopes a b)
      ⊎ ((is_ancestor_scope tracker a b ≡ ok false) × ¬ (Ancestor tracker.scopes a b))
unfolding is_ancestor_scope
is_ancestor_scope_decides tracker a b h = elim (Bool-cases (eqb a b)) [
  | inl same ↦
      let e : a ≡ b = ground arith in
      inl (rw same refl, subst (Ancestor tracker.scopes a) e Ancestor.itself)
  | inr other ↦
      let ne : a ≢ b = λ e. ground (arith, e) in
      elim (Option-cases (parent_of (find_scope tracker.scopes b))) [
        | inl p ↦ inr (rw (other, p) refl, λ up. none_above up p ne)
        | inr (q, p) ↦
            let lt = h.below b q p in
            elim (walk_decides tracker.scopes a (suc tracker.next_scope_id) b h.older (omega arith)
              ne) [ inl (w, up) ↦ inl (rw other w, up) | inr (w, apart) ↦ inr (rw other w, apart) ]
      ]
]

is_ancestor_scope_total :
    (tracker : ScopedLifetimeTracker) (a b : ℕ)
    → IsScoped tracker
    → (r : Bool) × (is_ancestor_scope tracker a b ≡ ok r)
is_ancestor_scope_total tracker a b h = elim (is_ancestor_scope_decides tracker a b h) [
  | inl (p, _) ↦ (true, p)
  | inr (p, _) ↦ (false, p)
]

is_alive_in_scope_total :
    (tracker : ScopedLifetimeTracker) (var : String) (scope_id : ℕ)
    → IsScoped tracker
    → (r : Bool) × (is_alive_in_scope tracker var scope_id ≡ ok r)
unfolding is_alive_in_scope
is_alive_in_scope_total tracker var scope_id h =
    elim (Option-cases (get tracker.variable_scope var)) [
      | inl p ↦ (false, rw p refl)
      | inr (s, p) ↦
          let (r, q) = is_ancestor_scope_total tracker s scope_id h in (r, rw (p, q) refl)
    ]

validate_total :
    (tracker : ScopedLifetimeTracker) (location : String) (kind : ConstraintKind)
    → IsScoped tracker
    → (errors : List String) × (validate tracker location kind ≡ ok errors)
unfolding validate
validate_total tracker location (ConstraintKind.outlives longer shorter) h = (_, refl)
validate_total tracker location (ConstraintKind.equal a b) h = ([], refl)
validate_total tracker location (ConstraintKind.borrowed_from reference source) h =
    elim (Option-cases (get tracker.variable_scope reference)) [
      | inl p ↦ ([], rw p refl)
      | inr (s, p) ↦
          let (r, q) = is_alive_in_scope_total tracker source s h in
          (if r then [] else source_dead reference source location ∷ [], rw (p, q) refl)
    ]
validate_total tracker location (ConstraintKind.must_live_until lifetime scope_id) h =
    elim (Option-cases (get tracker.lifetime_scopes lifetime)) [
      | inl p ↦ ([], rw p refl)
      | inr (range, p) ↦
          let (r, q) = is_ancestor_scope_total tracker range.1 scope_id h in
          (
            if not r && not (eqb range.1 scope_id)
                then ends_early lifetime scope_id range.1 location ∷ []
                else [],
            rw (p, q) refl,
          )
    ]

validate_all_total :
    (tracker : ScopedLifetimeTracker) (constraints : List ScopeConstraint)
    → IsScoped tracker
    → (errors : List String) × (validate_all tracker constraints ≡ ok errors)
unfolding validate_all
validate_all_total tracker [] h = ([], refl)
validate_all_total tracker (c ∷ constraints) h =
    let (errors, p) = validate_total tracker c.location c.kind h in
    let (others, q) = validate_all_total tracker constraints h in (errors ++ others, rw (p, q) refl)

-- Where parents are older than their children, all constraints are validated and a list of errors
-- is returned.
pub validate_constraints_total :
    (tracker : ScopedLifetimeTracker)
    → IsScoped tracker
    → (errors : List String) × (validate_constraints tracker ≡ ok errors)
unfolding validate_constraints
validate_constraints_total tracker h = validate_all_total tracker tracker.constraints h
