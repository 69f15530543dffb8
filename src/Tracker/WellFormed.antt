-- ===== src/Tracker/WellFormed.antt =====
-- The tables of a tracker have one entry for each key, as hash maps have: every operation of
-- src/analysis/mod.rs, lines 526-754, keeps this.
use rustycpp.Common.{
  map_values, String, Bool, Option, none, some, List, [], ◌∷◌, is_empty, Map, get, IsMap,
  IsMap-insert, IsMap-remove, IsMap-retain, IsMap-map_values, StringSet, Bool-cases, inl, inr,
}
use rustycpp.Ir.{BorrowKind, OwnershipState}
use rustycpp.Tracker.{
  OwnershipTracker, TrackerState, BorrowInfo, ReferenceInfo, ScopeInfo, add_borrow, exit_scope,
  pop_scope, forget_borrows, forget_borrow, mark_as_reference, merge_states, merge_ownerships,
  merge_borrows, merge_entry, insert_common, merge_info, set_ownership, clear_loop_locals,
  clear_locals, clear_local, drop_empty, has_borrowers, without_borrower, reset_empty,
}

pub record IsTables (ownership : Map OwnershipState) (borrows : Map BorrowInfo)
    (references : Map ReferenceInfo) : Type 0 where
  pub ownership_map : IsMap ownership
  pub borrows_map : IsMap borrows
  pub references_map : IsMap references

abbrev pub IsTracker : OwnershipTracker → Type 0
IsTracker t = IsTables t.ownership t.borrows t.reference_info

abbrev pub IsState : TrackerState → Type 0
IsState s = IsTables s.ownership s.borrows s.reference_info

pub set_ownership-IsTracker :
    (t : OwnershipTracker) (var : String) (s : OwnershipState)
    → IsTracker t
    → IsTracker (set_ownership t var s)
unfolding set_ownership
set_ownership-IsTracker t var s h = record {
  ownership_map = IsMap-insert t.ownership var s h.ownership_map;
  borrows_map = h.borrows_map;
  references_map = h.references_map;
}

pub add_borrow-IsTracker :
    (t : OwnershipTracker) (from to : String) (kind : BorrowKind)
    → IsTracker t
    → IsTracker (add_borrow t from to kind)
unfolding add_borrow
add_borrow-IsTracker t from to kind h = record {
  ownership_map = h.ownership_map;
  borrows_map = IsMap-insert t.borrows from _ h.borrows_map;
  references_map = h.references_map;
}

pub mark_as_reference-IsTracker :
    (t : OwnershipTracker) (var : String) (b : Bool)
    → IsTracker t
    → IsTracker (mark_as_reference t var b)
unfolding mark_as_reference
mark_as_reference-IsTracker t var b h = record {
  ownership_map = h.ownership_map;
  borrows_map = h.borrows_map;
  references_map = IsMap-insert t.reference_info var _ h.references_map;
}

pub forget_borrows-IsTracker :
    (t : OwnershipTracker) (names : StringSet) → IsTracker t → IsTracker (forget_borrows t names)
unfolding forget_borrows
forget_borrows-IsTracker t [] h = h
forget_borrows-IsTracker t (name ∷ names) h =
    forget_borrows-IsTracker (forget_borrow t name) names (record {
      ownership_map = h.ownership_map;
      borrows_map = IsMap-map_values (without_borrower name) t.borrows h.borrows_map;
      references_map = IsMap-remove t.reference_info name h.references_map;
    })

drop_empty-IsTracker : (t : OwnershipTracker) → IsTracker t → IsTracker (drop_empty t)
drop_empty-IsTracker t h = record {
  ownership_map = h.ownership_map;
  borrows_map = IsMap-retain has_borrowers t.borrows h.borrows_map;
  references_map = h.references_map;
}

pop_scope-IsTracker :
    (t : OwnershipTracker) (stack : List ScopeInfo) → IsTracker t → IsTracker (pop_scope t stack)
pop_scope-IsTracker t [] h = h
pop_scope-IsTracker t (scope ∷ stack) h =
    let t' = record t { scope_stack = stack } in
    drop_empty-IsTracker (forget_borrows t' scope.local_borrows)
      (forget_borrows-IsTracker t' scope.local_borrows h)

pub exit_scope-IsTracker : (t : OwnershipTracker) → IsTracker t → IsTracker (exit_scope t)
unfolding exit_scope
exit_scope-IsTracker t h = pop_scope-IsTracker t t.scope_stack h

clear_locals-IsTracker :
    (t : OwnershipTracker) (vars : StringSet) → IsTracker t → IsTracker (clear_locals t vars)
unfolding clear_locals
clear_locals-IsTracker t [] h = h
clear_locals-IsTracker t (var ∷ vars) h = clear_locals-IsTracker (clear_local t var) vars (record {
  ownership_map = IsMap-remove t.ownership var h.ownership_map;
  borrows_map = IsMap-map_values (without_borrower var) t.borrows h.borrows_map;
  references_map = IsMap-remove t.reference_info var h.references_map;
})

pub clear_loop_locals-IsTracker :
    (t : OwnershipTracker) (vars : StringSet) → IsTracker t → IsTracker (clear_loop_locals t vars)
unfolding clear_loop_locals
clear_loop_locals-IsTracker t vars h =
    let k = clear_locals-IsTracker t vars h in
    let t' = clear_locals t vars in
    drop_empty-IsTracker (record t' { borrows = map_values reset_empty t'.borrows })
      (record {
        ownership_map = k.ownership_map;
        borrows_map = IsMap-map_values reset_empty t'.borrows k.borrows_map;
        references_map = k.references_map;
      })

merge_ownerships-IsMap :
    (own thens others : Map OwnershipState) → IsMap own → IsMap (merge_ownerships own thens others)
unfolding merge_ownerships
merge_ownerships-IsMap own [] others h = h
merge_ownerships-IsMap own ((var, a) ∷ thens) others h =
    merge_ownerships-IsMap (merge_entry own var a (get others var)) thens others
      (entry (get others var))
  where
    entry : (b : Option OwnershipState) → IsMap (merge_entry own var a b)
    entry none = h
    entry (some b) = IsMap-insert own var _ h

insert_common-IsMap :
    (merged : Map BorrowInfo) (var : String) (a : BorrowInfo) (b : Option BorrowInfo)
    → IsMap merged
    → IsMap (insert_common merged var a b)
insert_common-IsMap merged var a none h = h
insert_common-IsMap merged var a (some b) h =
    let both = merge_info a b in
    elim (Bool-cases (is_empty both.borrowers)) [
      | inl unused ↦ rw unused h
      | inr used ↦ rw used (IsMap-insert merged var both h)
    ]

merge_borrows-IsMap :
    (merged thens others : Map BorrowInfo)
    → IsMap merged
    → IsMap (merge_borrows merged thens others)
unfolding merge_borrows
merge_borrows-IsMap merged [] others h = h
merge_borrows-IsMap merged ((var, a) ∷ thens) others h =
    merge_borrows-IsMap (insert_common merged var a (get others var)) thens others
      (insert_common-IsMap merged var a (get others var) h)

pub merge_states-IsTracker :
    (t : OwnershipTracker) (a b : TrackerState) → IsTracker t → IsTracker (merge_states t a b)
unfolding merge_states
merge_states-IsTracker t a b h = record {
  ownership_map = merge_ownerships-IsMap t.ownership a.ownership b.ownership h.ownership_map;
  borrows_map = merge_borrows-IsMap [] a.borrows b.borrows tt;
  references_map = IsMap-retain _ t.reference_info h.references_map;
}
