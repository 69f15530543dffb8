-- ===== src/Scopes/Total.antt =====
-- src/analysis/scope_lifetime.rs, `analyze_function_scopes` and `check_scoped_lifetimes`, from the
-- queue on to the constraints.
use rustycpp.Common.{
  String, true, Bool-cases, none, List, [], ◌∷◌, ◌++◌, ◌≡◌, refl, inl, inr, All, Map, get,
  StringSet, contains, add, ok,
}
use rustycpp.Ir.{IrProgram, BasicBlock, IrFunction, VariableInfo}
use rustycpp.Annotations.{HeaderCache}
use rustycpp.Scopes.{
  ScopedLifetimeTracker, ScopeKind, ConstraintKind, ScopeConstraint, find_scope, put_scope, new,
  push_scope, is_ancestor_scope, validate, validate_all, validate_constraints,
}
use rustycpp.Scopes.Functions.{
  analyze_block, check_functions, check_scoped_lifetimes, declare_parameter, declare_parameters,
  is_reference_type, analyze_function_scopes,
}
use rustycpp.Scopes.Known.{
  know_block, IsFlat, IsFlatConstraint, AllFlat, alive_known, declare_variable-IsFlat,
  declare_reference-IsFlat,
}
use rustycpp.Scopes.Queue.{HasClosedEdges, entries_keep}
use rustycpp.Scopes.Blocks.{analyze_block-know_block}

pub opened-IsFlat : IsFlat [] (push_scope new ScopeKind.function none).1
unfolding push_scope find_scope put_scope contains get
opened-IsFlat = record { opened = refl; flat = λ x. refl; sound = tt }

declare_parameter-IsFlat :
    (name : String) (info : VariableInfo) (known : StringSet) (tracker : ScopedLifetimeTracker)
    → IsFlat known tracker
    → (all : StringSet) × IsFlat all (declare_parameter name info 0 tracker)
unfolding declare_parameter
declare_parameter-IsFlat name info known tracker h =
    let declared = declare_variable-IsFlat known tracker name h in
    let twice = declare_reference-IsFlat _ _ name declared in
    elim (Bool-cases (is_reference_type info.ty)) [
      | inl p ↦ (
        add (add known name) name,
        rw p (record { opened = twice.opened; flat = twice.flat; sound = twice.sound }),
      )
      | inr p ↦ (add known name, rw p declared)
    ]

pub declare_parameters-IsFlat :
    (variables : Map VariableInfo) (known : StringSet) (tracker : ScopedLifetimeTracker)
    → IsFlat known tracker
    → (all : StringSet) × IsFlat all (declare_parameters variables 0 tracker)
unfolding declare_parameters
declare_parameters-IsFlat [] known tracker h = (known, h)
declare_parameters-IsFlat ((name, info) ∷ variables) known tracker h =
    let (more, k) = declare_parameter-IsFlat name info known tracker h in
    declare_parameters-IsFlat variables more _ k

ancestor_of_itself : (tracker : ScopedLifetimeTracker) → is_ancestor_scope tracker 0 0 ≡ ok true
unfolding is_ancestor_scope
ancestor_of_itself tracker = refl

validate_total :
    (known : StringSet) (tracker : ScopedLifetimeTracker) (location : String) (c : ConstraintKind)
    → IsFlat known tracker
    → IsFlatConstraint known c
    → (errors : List String) × (validate tracker location c ≡ ok errors)
unfolding validate
validate_total known tracker location (ConstraintKind.outlives a b) h k = (_, refl)
validate_total known tracker location (ConstraintKind.equal a b) h k = ([], refl)
validate_total known tracker location (ConstraintKind.must_live_until a b) h k = absurd k
validate_total known tracker location (ConstraintKind.borrowed_from reference source) h k =
    elim (Bool-cases (contains known reference)) [
      | inl p ↦ ([], rw (h.flat reference, p, alive_known known tracker source h, k) refl)
      | inr p ↦ ([], rw (h.flat reference, p) refl)
    ]

pub validate_all_total :
    (known : StringSet) (tracker : ScopedLifetimeTracker) (cs : List ScopeConstraint)
    → IsFlat known tracker
    → AllFlat known cs
    → (errors : List String) × (validate_all tracker cs ≡ ok errors)
unfolding validate_all
validate_all_total known tracker [] h k = ([], refl)
validate_all_total known tracker (c ∷ cs) h (k, ks) =
    let (errors, p) = validate_total known tracker c.location c.kind h k in
    let (others, q) = validate_all_total known tracker cs h ks in (errors ++ others, rw (p, q) refl)

abbrev IsFlatWithSome : ScopedLifetimeTracker → Type 0
IsFlatWithSome t = (known : StringSet) × IsFlat known t

block_keeps_flat :
    (f : IrFunction) (cache : HeaderCache) (b : BasicBlock) (t : ScopedLifetimeTracker)
    → IsFlatWithSome t
    → (errors : List String) × (t' : ScopedLifetimeTracker) × (analyze_block b.statements 0 t f
          cache
        ≡ ok (errors, t'))
      × Unit {0}
      × IsFlatWithSome t'
block_keeps_flat f cache b t (known, h) =
    let (t', p, k) = analyze_block-know_block b.statements known t f cache h in
    (
      (know_block cache b.statements known).0,
      t',
      p,
      tt,
      ((know_block cache b.statements known).1, k),
    )

-- A function whose edges end at its nodes is analysed to the end.
pub analyze_function_scopes_total :
    (f : IrFunction) (cache : HeaderCache)
    → HasClosedEdges f.cfg
    → (errors : List String) × (analyze_function_scopes f cache ≡ ok errors)
unfolding analyze_function_scopes validate_constraints push_scope
analyze_function_scopes_total f cache closed =
    let (known, h) = declare_parameters-IsFlat f.variables [] _ opened-IsFlat in
    let (found, t, p, _, (last, k)) =
      entries_keep f cache closed IsFlatWithSome (λ _. Unit {0}) tt (λ _ _ _ _. tt)
        (λ n b t _ k. block_keeps_flat f cache b t k) _ (known, h) in
    let (errors, q) = validate_all_total last t t.constraints k k.sound in
    (found ++ errors, rw (p, q) refl)

functions_total :
    (cache : HeaderCache) (fs : List IrFunction)
    → All (λ f. HasClosedEdges f.cfg) fs
    → (errors : List String) × (check_functions fs cache ≡ ok errors)
unfolding check_functions
functions_total cache [] h = ([], refl)
functions_total cache (f ∷ fs) (h, hs) =
    let (errors, p) = analyze_function_scopes_total f cache h in
    let (others, q) = functions_total cache fs hs in (errors ++ others, rw (p, q) refl)

-- Where the edges of every graph end at its nodes, the queue over the blocks of each function
-- ends, all constraints are validated, and a list of errors is returned.
pub check_scoped_lifetimes_total :
    (program : IrProgram) (cache : HeaderCache)
    → All (λ f. HasClosedEdges f.cfg) program.functions
    → (errors : List String) × (check_scoped_lifetimes program cache ≡ ok errors)
unfolding check_scoped_lifetimes
check_scoped_lifetimes_total program cache closed = functions_total cache program.functions closed
