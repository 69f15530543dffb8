-- ===== src/Scopes/Known.antt =====
-- What src/analysis/scope_lifetime.rs, `analyze_block`, comes to in a function: all names are
-- declared in the one scope of the function, so a name is alive when it is known.
use rustycpp.Common.{
  ℕ, String, eq_iff, arith, true, Bool-cases, Option, none, some, Option-cases, List, [], ◌∷◌, ◌++◌,
  ◌≡◌, refl, inl, inr, if◌then◌else◌, get, get-insert, StringSet, contains, add, contains-add, All,
  All-append, ok, is_some,
}
use rustycpp.Ir.{Block, IrStatement, IrFunction}
use rustycpp.Annotations.{
  LifetimeAnnotation, LifetimeBound, FunctionSignature, HeaderCache, get_signature,
}
use rustycpp.Scopes.{
  Scope, ScopeConstraint, ConstraintKind, ScopedLifetimeTracker, find_scope, put_scope, declare_in,
  declare_variable, declare_reference, is_alive_in_scope, is_ancestor_scope, add_constraint,
}
use rustycpp.Scopes.Functions.{not_alive, add_bounds, declare_result, check_call, check_return}

-- what a constraint says where there is one scope
abbrev pub IsFlatConstraint : StringSet → ConstraintKind → Type 0
IsFlatConstraint known (ConstraintKind.borrowed_from reference source) =
    contains known source ≡ true
IsFlatConstraint known (ConstraintKind.outlives _ _) = Unit
IsFlatConstraint known _ = ⊥

abbrev pub AllFlat : StringSet → List ScopeConstraint → Type 0
AllFlat known constraints = All (λ c. IsFlatConstraint known c.kind) constraints

-- the names in the scope 0 are the known ones, and there are no others
pub record IsFlat (known : StringSet) (tracker : ScopedLifetimeTracker) : Type 0 where
  pub opened : is_some (find_scope tracker.scopes 0) ≡ true
  pub flat :
      (x : String) → get tracker.variable_scope x ≡ (if contains known x then some 0 else none)
  pub sound : AllFlat known tracker.constraints

-- the errors of a block, and the names that are known after it
abbrev pub know_result : Option String → Option LifetimeAnnotation → StringSet → StringSet
know_result (some result_var) (some (LifetimeAnnotation.lifetime _)) known = known
know_result (some result_var) (some _) known = add known result_var
know_result _ _ known = known

abbrev pub know_call : Option String → Option FunctionSignature → StringSet → StringSet
know_call result none known = known
know_call result (some signature) known = know_result result signature.return_lifetime known

abbrev pub know_statement : HeaderCache → IrStatement → StringSet → List String × StringSet
know_statement cache (IrStatement.borrow from to _) known =
    if contains known from then ([], add known to) else (not_alive from ∷ [], known)
know_statement cache (IrStatement.call_expr func args result) known =
    ([], know_call result (get_signature cache func) known)
know_statement cache _ known = ([], known)

abbrev pub know_block : HeaderCache → Block → StringSet → List String × StringSet
know_block cache Block.nil known = ([], known)
know_block cache (Block.cons s b) known =
    let (errors, after) = know_statement cache s known in
    let (others, last) = know_block cache b after in (errors ++ others, last)

sound-add :
    (known : StringSet) (x : String) (c : ConstraintKind)
    → IsFlatConstraint known c
    → IsFlatConstraint (add known x) c
sound-add known x (ConstraintKind.borrowed_from reference source) h =
    ground (arith, h, contains-add known x source)
sound-add known x (ConstraintKind.outlives _ _) h = tt
sound-add known x (ConstraintKind.equal _ _) h = h
sound-add known x (ConstraintKind.must_live_until _ _) h = h

sound-all :
    (known : StringSet) (x : String) (cs : List ScopeConstraint)
    → AllFlat known cs
    → AllFlat (add known x) cs
sound-all known x [] h = tt
sound-all known x (c ∷ cs) (h, k) = (sound-add known x c.kind h, sound-all known x cs k)

put_scope-opened :
    (scopes : List (ℕ × Scope)) (id : ℕ) (s : Scope)
    → is_some (find_scope (put_scope scopes id s) id) ≡ true
unfolding find_scope put_scope
put_scope-opened [] id s = ground arith
put_scope-opened ((i, t) ∷ scopes) id s = ground (arith, put_scope-opened scopes id s)

declare_in-IsFlat :
    (known : StringSet) (tracker : ScopedLifetimeTracker) (name : String) (change : Scope → Scope)
    → IsFlat known tracker
    → IsFlat (add known name) (declare_in tracker name 0 change (find_scope tracker.scopes 0))
declare_in-IsFlat known tracker name change h = elim (Option-cases (find_scope tracker.scopes 0)) [
  | inl p ↦ let o = rw p at h.opened in absurd cc
  | inr (s, p) ↦ rw p (record {
    opened = put_scope-opened tracker.scopes 0 (change s);
    flat = λ x. ground (
      arith,
      eq_iff name x,
      h.flat x,
      contains-add known name x,
      get-insert tracker.variable_scope name x 0,
    );
    sound = sound-all known name tracker.constraints h.sound;
  })
]

pub declare_variable-IsFlat :
    (known : StringSet) (tracker : ScopedLifetimeTracker) (name : String)
    → IsFlat known tracker
    → IsFlat (add known name) (declare_variable tracker name 0)
unfolding declare_variable
declare_variable-IsFlat known tracker name h = declare_in-IsFlat known tracker name _ h

pub declare_reference-IsFlat :
    (known : StringSet) (tracker : ScopedLifetimeTracker) (name : String)
    → IsFlat known tracker
    → IsFlat (add known name) (declare_reference tracker name 0)
unfolding declare_reference
declare_reference-IsFlat known tracker name h = declare_in-IsFlat known tracker name _ h

pub add_constraint-IsFlat :
    (known : StringSet) (tracker : ScopedLifetimeTracker) (c : ScopeConstraint)
    → IsFlatConstraint known c.kind
    → IsFlat known tracker
    → IsFlat known (add_constraint tracker c)
unfolding add_constraint
add_constraint-IsFlat known tracker c k h = record {
  opened = h.opened;
  flat = h.flat;
  sound =
      All-append (λ d. IsFlatConstraint known d.kind) tracker.constraints (c ∷ []) h.sound (k, tt);
}

add_bounds-IsFlat :
    (known : StringSet) (func : String) (bounds : List LifetimeBound)
    (tracker : ScopedLifetimeTracker)
    → IsFlat known tracker
    → IsFlat known (add_bounds func bounds tracker)
unfolding add_bounds
add_bounds-IsFlat known func [] tracker h = h
add_bounds-IsFlat known func (bound ∷ bounds) tracker h =
    add_bounds-IsFlat known func bounds _ (add_constraint-IsFlat known tracker _ tt h)

declare_result-IsFlat :
    (known : StringSet) (result : Option String) (l : Option LifetimeAnnotation)
    (tracker : ScopedLifetimeTracker)
    → IsFlat known tracker
    → IsFlat (know_result result l known) (declare_result result l 0 tracker)
declare_result-IsFlat known (some x) (some (LifetimeAnnotation.ref _)) tracker h =
    declare_reference-IsFlat known tracker x h
declare_result-IsFlat known (some x) (some (LifetimeAnnotation.mut_ref _)) tracker h =
    declare_reference-IsFlat known tracker x h
declare_result-IsFlat known (some x) (some LifetimeAnnotation.owned) tracker h =
    declare_variable-IsFlat known tracker x h
declare_result-IsFlat known (some x) (some (LifetimeAnnotation.lifetime _)) tracker h = h
declare_result-IsFlat known (some x) none tracker h = h
declare_result-IsFlat known none l tracker h = h

pub check_call-IsFlat :
    (known : StringSet) (func : String) (result : Option String) (s : Option FunctionSignature)
    (tracker : ScopedLifetimeTracker)
    → IsFlat known tracker
    → IsFlat (know_call result s known) (check_call func result 0 s tracker)
check_call-IsFlat known func result none tracker h = h
check_call-IsFlat known func result (some s) tracker h =
    declare_result-IsFlat known result s.return_lifetime _
      (add_bounds-IsFlat known func s.lifetime_bounds tracker h)

pub alive_known :
    (known : StringSet) (tracker : ScopedLifetimeTracker) (x : String)
    → IsFlat known tracker
    → is_alive_in_scope tracker x 0 ≡ ok (contains known x)
unfolding is_alive_in_scope is_ancestor_scope
alive_known known tracker x h = elim (Bool-cases (contains known x)) [
  | inl p ↦ rw (h.flat x, p) refl
  | inr p ↦ rw (h.flat x, p) refl
]

pub check_return-nothing :
    (known : StringSet) (tracker : ScopedLifetimeTracker) (f : IrFunction) (x : String)
    → IsFlat known tracker
    → check_return f x (get tracker.variable_scope x) ≡ []
check_return-nothing known tracker f x h = elim (Bool-cases (contains known x)) [
  | inl p ↦ rw (h.flat x, p) refl
  | inr p ↦ rw (h.flat x, p) refl
]
