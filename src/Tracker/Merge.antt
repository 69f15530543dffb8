-- ===== src/Tracker/Merge.antt =====
-- What is left after a conditional: src/analysis/mod.rs, `merge_states`, lines 674-721.
use rustycpp.Common.{
  subst, ap, String, ◌≡◌, refl, ◌==◌, ◌↔◌, Option, none, some, [], ◌∷◌, arith, Map, get, get-insert,
  IsMap, if◌then◌else◌, inl, inr, eq_cases,
}
use rustycpp.Ir.{OwnershipState}
use rustycpp.Tracker.{
  OwnershipTracker, TrackerState, merge_states, merge_ownerships, merge_ownership, merge_entry,
  get_ownership,
}

-- the ownership of a variable after the conditional, from its ownership now and in both branches
abbrev pub merged :
    Option OwnershipState → Option OwnershipState → Option OwnershipState → Option OwnershipState
merged now none b = now
merged now (some a) none = now
merged now (some a) (some b) = some (merge_ownership a b)

get-merge_entry :
    (own : Map OwnershipState) (var x : String) (a : OwnershipState) (b : Option OwnershipState)
    → get (merge_entry own var a b) x
      ≡ (if var == x then merged (get own x) (some a) b else get own x)
get-merge_entry own var x a none = ground arith
get-merge_entry own var x a (some b) = get-insert own var x (merge_ownership a b)

pub get-merge_ownerships :
    (own thens others : Map OwnershipState) (x : String)
    → IsMap thens
    → get (merge_ownerships own thens others) x ≡ merged (get own x) (get thens x) (get others x)
unfolding merge_ownerships get
get-merge_ownerships own [] others x h = refl
get-merge_ownerships own ((var, a) ∷ thens) others x (fresh, h) =
    let rest = get-merge_ownerships (merge_entry own var a (get others var)) thens others x h in
    elim (eq_cases var x) [
      | inl (same, e) ↦
          let absent : get thens x ≡ none = subst (λ v. get thens v ≡ none) e fresh in
          let entry = get-merge_entry own var x a (get others var) in
          let swap : get others var ≡ get others x = ap (get others) e in ground arith
      | inr (other, e) ↦ let entry = get-merge_entry own var x a (get others var) in ground arith
    ]

-- After a conditional, a variable that both branches know, the first in a table with one entry for
-- each key, is moved exactly when it is moved after both branches.
pub merge_states-moved_iff :
    (t : OwnershipTracker) (a b : TrackerState) (x : String)
    (after_then after_else : OwnershipState)
    → IsMap a.ownership
    → get a.ownership x ≡ some after_then
    → get b.ownership x ≡ some after_else
    → (get_ownership (merge_states t a b) x ≡ some OwnershipState.moved)
      ↔ ((after_then ≡ OwnershipState.moved) × (after_else ≡ OwnershipState.moved))
unfolding merge_states
merge_states-moved_iff t a b x after_then after_else h p q =
    ground (arith, get-merge_ownerships t.ownership a.ownership b.ownership x h)
