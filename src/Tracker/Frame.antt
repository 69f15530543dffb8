-- ===== src/Tracker/Frame.antt =====
-- What the operations of src/analysis/mod.rs, lines 526-754, leave alone: the depth of unsafe
-- blocks, and the ownership of variables where only borrows end.
use rustycpp.Common.{◌≡◌, refl, List, [], ◌∷◌, StringSet, ltb, Bool-cases, inl, inr}
use rustycpp.Tracker.{
  OwnershipTracker, ScopeInfo, exit_scope, pop_scope, forget_borrows, forget_borrow,
  clear_loop_locals, clear_locals, clear_local, exit_loop,
}

-- all that a tracker has but its borrows, its references and its ownership
pub record SameFrame (t u : OwnershipTracker) : Type 0 where
  pub scopes : u.scope_stack ≡ t.scope_stack
  pub unsafe : u.unsafe_depth ≡ t.unsafe_depth

forget_borrows-ownership :
    (t : OwnershipTracker) (names : StringSet) → (forget_borrows t names).ownership ≡ t.ownership
unfolding forget_borrows
forget_borrows-ownership t [] = refl
forget_borrows-ownership t (name ∷ names) = forget_borrows-ownership (forget_borrow t name) names

pub forget_borrows-SameFrame :
    (t : OwnershipTracker) (names : StringSet) → SameFrame t (forget_borrows t names)
unfolding forget_borrows
forget_borrows-SameFrame t [] = record { scopes = refl; unsafe = refl }
forget_borrows-SameFrame t (name ∷ names) =
    let same = forget_borrows-SameFrame (forget_borrow t name) names in
    record { scopes = same.scopes; unsafe = same.unsafe }

pop_scope-ownership :
    (t : OwnershipTracker) (stack : List ScopeInfo) → (pop_scope t stack).ownership ≡ t.ownership
pop_scope-ownership t [] = refl
pop_scope-ownership t (scope ∷ stack) =
    forget_borrows-ownership (record t { scope_stack = stack }) scope.local_borrows

pub ownership-exit_scope : (t : OwnershipTracker) → (exit_scope t).ownership ≡ t.ownership
unfolding exit_scope
ownership-exit_scope t = pop_scope-ownership t t.scope_stack

pop_scope-unsafe :
    (t : OwnershipTracker) (stack : List ScopeInfo)
    → (pop_scope t stack).unsafe_depth ≡ t.unsafe_depth
pop_scope-unsafe t [] = refl
pop_scope-unsafe t (scope ∷ stack) =
    (forget_borrows-SameFrame (record t { scope_stack = stack }) scope.local_borrows).unsafe

pub unsafe_depth-exit_scope : (t : OwnershipTracker) → (exit_scope t).unsafe_depth ≡ t.unsafe_depth
unfolding exit_scope
unsafe_depth-exit_scope t = pop_scope-unsafe t t.scope_stack

clear_locals-SameFrame :
    (t : OwnershipTracker) (vars : StringSet) → SameFrame t (clear_locals t vars)
unfolding clear_locals
clear_locals-SameFrame t [] = record { scopes = refl; unsafe = refl }
clear_locals-SameFrame t (var ∷ vars) =
    let same = clear_locals-SameFrame (clear_local t var) vars in
    record { scopes = same.scopes; unsafe = same.unsafe }

pub clear_loop_locals-SameFrame :
    (t : OwnershipTracker) (vars : StringSet) → SameFrame t (clear_loop_locals t vars)
unfolding clear_loop_locals
clear_loop_locals-SameFrame t vars =
    let same = clear_locals-SameFrame t vars in
    record { scopes = same.scopes; unsafe = same.unsafe }

pub exit_loop-SameFrame : (t : OwnershipTracker) → SameFrame t (exit_loop t)
unfolding exit_loop
exit_loop-SameFrame t = elim (Bool-cases (ltb 0 t.loop_depth)) [
  | inl inside ↦ rw inside (record { scopes = refl; unsafe = refl })
  | inr outside ↦ rw outside (record { scopes = refl; unsafe = refl })
]

pub exit_loop-tables :
    (t : OwnershipTracker)
    → ((exit_loop t).borrows ≡ t.borrows) × ((exit_loop t).ownership ≡ t.ownership)
unfolding exit_loop
exit_loop-tables t = elim (Bool-cases (ltb 0 t.loop_depth)) [
  | inl inside ↦ rw inside (refl, refl)
  | inr outside ↦ rw outside (refl, refl)
]
