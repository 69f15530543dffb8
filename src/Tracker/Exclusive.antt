-- ===== src/Tracker/Exclusive.antt =====
-- Exclusive borrows: a source with a mutable borrow has no immutable one. The operations of
-- src/analysis/mod.rs that release or merge borrows keep this.
use rustycpp.Common.{
  String, ◌≡◌, refl, true, Option, none, some, [], ◌∷◌, is_empty, arith, Map, get, map_values,
  AllValues, AllValues-get, AllValues-insert, AllValues-retain, AllValues-map_values, Option-cases,
  inl, inr, StringSet, List, Bool-cases,
}
use rustycpp.Ir.{BorrowKind}
use rustycpp.Tracker.{
  BorrowInfo, OwnershipTracker, TrackerState, or_default, get_borrows, add_borrow, count_borrow,
  exit_scope, pop_scope, ScopeInfo, forget_borrows, forget_borrow, without_borrower, has_borrowers,
  merge_info, merge_borrows, insert_common, merge_states, clear_loop_locals, clear_locals,
  clear_local, reset_empty,
}

-- `abbrev`, so that the tactics read it
abbrev pub IsExclusiveInfo : BorrowInfo → Type 0
IsExclusiveInfo info = info.has_mutable ≡ true → info.immutable_count ≡ 0

abbrev pub IsExclusive : Map BorrowInfo → Type 0
IsExclusive = AllValues IsExclusiveInfo

pub get-IsExclusiveInfo :
    (m : Map BorrowInfo) (var : String) → IsExclusive m → IsExclusiveInfo (or_default (get m var))
get-IsExclusiveInfo m var h = elim (Option-cases (get m var)) [
  | inl e ↦ rw e (λ _. refl)
  | inr (info, e) ↦ rw e (AllValues-get IsExclusiveInfo m var h e)
]

pub add_borrow-IsExclusive :
    (t : OwnershipTracker) (from to : String) (kind : BorrowKind)
    → IsExclusive t.borrows
    → IsExclusiveInfo (count_borrow to kind (get_borrows t from))
    → IsExclusive (add_borrow t from to kind).borrows
unfolding add_borrow
add_borrow-IsExclusive t from to kind h p = AllValues-insert IsExclusiveInfo t.borrows from _ h p

without_borrowers :
    (m : Map BorrowInfo) (name : String)
    → IsExclusive m
    → IsExclusive (map_values (without_borrower name) m)
without_borrowers m name h =
    AllValues-map_values IsExclusiveInfo (without_borrower name) (λ v p. p) m h

forget_borrows-IsExclusive :
    (t : OwnershipTracker) (names : StringSet)
    → IsExclusive t.borrows
    → IsExclusive (forget_borrows t names).borrows
unfolding forget_borrows
forget_borrows-IsExclusive t [] h = h
forget_borrows-IsExclusive t (name ∷ names) h =
    forget_borrows-IsExclusive (forget_borrow t name) names (without_borrowers t.borrows name h)

pop_scope-IsExclusive :
    (t : OwnershipTracker) (stack : List ScopeInfo)
    → IsExclusive t.borrows
    → IsExclusive (pop_scope t stack).borrows
pop_scope-IsExclusive t [] h = h
pop_scope-IsExclusive t (scope ∷ stack) h =
    AllValues-retain IsExclusiveInfo has_borrowers _
      (forget_borrows-IsExclusive (record t { scope_stack = stack }) scope.local_borrows h)

pub exit_scope-IsExclusive :
    (t : OwnershipTracker) → IsExclusive t.borrows → IsExclusive (exit_scope t).borrows
unfolding exit_scope
exit_scope-IsExclusive t h = pop_scope-IsExclusive t t.scope_stack h

clear_locals-IsExclusive :
    (t : OwnershipTracker) (vars : StringSet)
    → IsExclusive t.borrows
    → IsExclusive (clear_locals t vars).borrows
unfolding clear_locals
clear_locals-IsExclusive t [] h = h
clear_locals-IsExclusive t (var ∷ vars) h =
    clear_locals-IsExclusive (clear_local t var) vars (without_borrowers t.borrows var h)

reset_empty-IsExclusiveInfo :
    (info : BorrowInfo) → IsExclusiveInfo info → IsExclusiveInfo (reset_empty info)
reset_empty-IsExclusiveInfo info h = ground arith

pub clear_loop_locals-IsExclusive :
    (t : OwnershipTracker) (vars : StringSet)
    → IsExclusive t.borrows
    → IsExclusive (clear_loop_locals t vars).borrows
unfolding clear_loop_locals
clear_loop_locals-IsExclusive t vars h = AllValues-retain IsExclusiveInfo has_borrowers _ (
    AllValues-map_values IsExclusiveInfo reset_empty reset_empty-IsExclusiveInfo _
      (clear_locals-IsExclusive t vars h))

merge_info-IsExclusiveInfo :
    (a b : BorrowInfo) → IsExclusiveInfo a → IsExclusiveInfo (merge_info a b)
merge_info-IsExclusiveInfo a b h = ground arith

insert_common-IsExclusive :
    (merged : Map BorrowInfo) (var : String) (a : BorrowInfo) (b : Option BorrowInfo)
    → IsExclusive merged
    → IsExclusiveInfo a
    → IsExclusive (insert_common merged var a b)
insert_common-IsExclusive merged var a none h p = h
insert_common-IsExclusive merged var a (some b) h p =
    let both = merge_info a b in
    elim (Bool-cases (is_empty both.borrowers)) [
      | inl unused ↦ rw unused h
      | inr used ↦
          rw used
            (AllValues-insert IsExclusiveInfo merged var both h (merge_info-IsExclusiveInfo a b p))
    ]

merge_borrows-IsExclusive :
    (merged thens others : Map BorrowInfo)
    → IsExclusive merged
    → IsExclusive thens
    → IsExclusive (merge_borrows merged thens others)
unfolding merge_borrows
merge_borrows-IsExclusive merged [] others h k = h
merge_borrows-IsExclusive merged ((var, a) ∷ thens) others h (p, k) =
    merge_borrows-IsExclusive (insert_common merged var a (get others var)) thens others
      (insert_common-IsExclusive merged var a (get others var) h p) k

pub merge_states-IsExclusive :
    (t : OwnershipTracker) (a b : TrackerState)
    → IsExclusive a.borrows
    → IsExclusive (merge_states t a b).borrows
unfolding merge_states
merge_states-IsExclusive t a b h = merge_borrows-IsExclusive [] a.borrows b.borrows tt h
