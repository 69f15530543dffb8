-- ===== src/Scopes.antt =====
-- Lifetimes in nested scopes: src/analysis/scope_lifetime.rs, lines 8-208. The walk up the parents is
-- a `while let` loop without a bound; it takes fuel here, and `Scopes.Ancestors` shows that one more
-- than the number of scopes is enough where parents are older than their children.
pub mod Ancestors
pub mod Functions
pub mod Known
pub mod Blocks
pub mod Queue
pub mod Total
pub mod Quiet
pub mod Unknown
pub mod Reports
use rustycpp.Common.{
  ℕ, zero, suc, ◌+◌, leb, eqb, String, ◌==◌, Bool, true, false, not, ◌&&◌, Option, none, some, List,
  [], ◌∷◌, ◌++◌, concat, decimal, if◌then◌else◌, Map, get, insert, StringSet, add, Outcome, ok,
  out_of_fuel, ◌>>=◌,
}

pub data ScopeKind : Type 0 where
  function block loop conditional : ScopeKind

-- The entry and exit blocks of a scope are never set or read, and are left out.
pub record Scope : Type 0 where
  pub id : ℕ
  pub parent : Option ℕ
  pub kind : ScopeKind
  pub local_variables : StringSet
  pub local_references : StringSet

pub data ConstraintKind : Type 0 where
  outlives equal borrowed_from : String → String → ConstraintKind
  must_live_until : String → ℕ → ConstraintKind

-- `LifetimeConstraint` of the source
pub record ScopeConstraint : Type 0 where
  pub kind : ConstraintKind
  pub location : String

pub record ScopedLifetimeTracker : Type 0 where
  pub scopes : List (ℕ × Scope)
  pub variable_scope : Map ℕ
  pub lifetime_scopes : Map (ℕ × ℕ)
  pub constraints : List ScopeConstraint
  pub next_scope_id : ℕ

abbrev pub new : ScopedLifetimeTracker
new = record {
  scopes = [];
  variable_scope = [];
  lifetime_scopes = [];
  constraints = [];
  next_scope_id = 0;
}

-- `HashMap<usize, Scope>`
unfoldable pub find_scope : List (ℕ × Scope) → ℕ → Option Scope
find_scope [] id = none
find_scope ((i, s) ∷ scopes) id = if eqb i id then some s else find_scope scopes id

unfoldable pub put_scope : List (ℕ × Scope) → ℕ → Scope → List (ℕ × Scope)
put_scope [] id scope = (id, scope) ∷ []
put_scope ((i, s) ∷ scopes) id scope =
    let rest = put_scope scopes id scope in if eqb i id then (id, scope) ∷ scopes else (i, s) ∷ rest

abbrev pub fresh_scope : ℕ → ScopeKind → Option ℕ → Scope
fresh_scope id kind parent = record {
  id = id;
  parent = parent;
  kind = kind;
  local_variables = [];
  local_references = [];
}

-- the new identifier, and the tracker afterwards
unfoldable pub push_scope : ScopedLifetimeTracker → ScopeKind → Option ℕ → ℕ × ScopedLifetimeTracker
push_scope tracker kind parent =
    let id = tracker.next_scope_id in
    (
      id,
      record tracker {
        next_scope_id = id + 1;
        scopes = put_scope tracker.scopes id (fresh_scope id kind parent);
      },
    )

-- `if let Some(scope) = self.scopes.get_mut(&scope_id)`
abbrev pub declare_in :
    ScopedLifetimeTracker → String → ℕ → (Scope → Scope) → Option Scope → ScopedLifetimeTracker
declare_in tracker name scope_id change none = tracker
declare_in tracker name scope_id change (some scope) = record tracker {
  scopes = put_scope tracker.scopes scope_id (change scope);
  variable_scope = insert tracker.variable_scope name scope_id;
}

unfoldable pub declare_variable : ScopedLifetimeTracker → String → ℕ → ScopedLifetimeTracker
declare_variable tracker var scope_id =
    declare_in tracker var scope_id
      (λ scope. record scope { local_variables = add scope.local_variables var })
      (find_scope tracker.scopes scope_id)

unfoldable pub declare_reference : ScopedLifetimeTracker → String → ℕ → ScopedLifetimeTracker
declare_reference tracker ref_name scope_id =
    declare_in tracker ref_name scope_id
      (λ scope. record scope { local_references = add scope.local_references ref_name })
      (find_scope tracker.scopes scope_id)

abbrev pub range_outlives : Option (ℕ × ℕ) → Option (ℕ × ℕ) → Bool → Bool
range_outlives (some (l_start, l_end)) (some (s_start, s_end)) same =
    leb l_start s_start && leb s_end l_end
range_outlives _ _ same = same

unfoldable pub check_outlives : ScopedLifetimeTracker → String → String → Bool
check_outlives tracker longer shorter =
    range_outlives (get tracker.lifetime_scopes longer) (get tracker.lifetime_scopes shorter)
      (longer == shorter)

abbrev pub parent_of : Option Scope → Option ℕ
parent_of none = none
parent_of (some scope) = scope.parent

abbrev pub step_up : ℕ → (ℕ → Outcome Bool) → Option ℕ → Outcome Bool
step_up scope_a onward none = ok false
step_up scope_a onward (some parent) = if eqb parent scope_a then ok true else onward parent

-- the loop of `is_ancestor_scope`
unfoldable pub walk_up : List (ℕ × Scope) → ℕ → ℕ → ℕ → Outcome Bool
walk_up scopes scope_a zero current = out_of_fuel
walk_up scopes scope_a (suc fuel) current =
    step_up scope_a (walk_up scopes scope_a fuel) (parent_of (find_scope scopes current))

unfoldable pub is_ancestor_scope : ScopedLifetimeTracker → ℕ → ℕ → Outcome Bool
unfolding walk_up
is_ancestor_scope tracker scope_a scope_b =
    if eqb scope_a scope_b
    then ok true
    else walk_up tracker.scopes scope_a (suc tracker.next_scope_id) scope_b

abbrev pub alive_from : ScopedLifetimeTracker → ℕ → Option ℕ → Outcome Bool
alive_from tracker scope_id none = ok false
alive_from tracker scope_id (some var_scope) = is_ancestor_scope tracker var_scope scope_id

unfoldable pub is_alive_in_scope : ScopedLifetimeTracker → String → ℕ → Outcome Bool
is_alive_in_scope tracker var scope_id =
    alive_from tracker scope_id (get tracker.variable_scope var)

unfoldable pub add_constraint : ScopedLifetimeTracker → ScopeConstraint → ScopedLifetimeTracker
add_constraint tracker constraint = record tracker {
  constraints = tracker.constraints ++ constraint ∷ [];
}

pub not_outlived : String → String → String → String
not_outlived longer shorter location =
    concat ("Lifetime '" ∷ longer ∷ "' does not outlive '" ∷ shorter ∷ "' at " ∷ location ∷ [])

pub source_dead : String → String → String → String
source_dead reference source location = concat (
    "Reference '" ∷ reference ∷ "' borrows from '" ∷ source ∷ "' which is not alive at " ∷ location
    ∷ [])

pub ends_early : String → ℕ → ℕ → String → String
ends_early lifetime scope_id end_scope location = concat (
    "Lifetime '"
    ∷ lifetime
    ∷ "' must live until scope "
    ∷ decimal scope_id
    ∷ " but ends at scope "
    ∷ decimal end_scope
    ∷ " at "
    ∷ location
    ∷ [])

abbrev pub validate_borrow :
    ScopedLifetimeTracker → String → String → String → Option ℕ → Outcome (List String)
validate_borrow tracker reference source location none = ok []
validate_borrow tracker reference source location (some ref_scope) = do
  alive ← is_alive_in_scope tracker source ref_scope
  ok (if alive then [] else source_dead reference source location ∷ [])

abbrev pub validate_end :
    ScopedLifetimeTracker → String → ℕ → String → Option (ℕ × ℕ) → Outcome (List String)
validate_end tracker lifetime scope_id location none = ok []
validate_end tracker lifetime scope_id location (some (_, end_scope)) = do
  reached ← is_ancestor_scope tracker end_scope scope_id
  ok (
      if not reached && not (eqb end_scope scope_id)
      then ends_early lifetime scope_id end_scope location ∷ []
      else [])

unfoldable pub validate : ScopedLifetimeTracker → String → ConstraintKind → Outcome (List String)
validate tracker location (ConstraintKind.outlives longer shorter) = ok (
    if check_outlives tracker longer shorter then [] else not_outlived longer shorter location ∷ [])
validate tracker location (ConstraintKind.equal a b) = ok []
validate tracker location (ConstraintKind.borrowed_from reference source) =
    validate_borrow tracker reference source location (get tracker.variable_scope reference)
validate tracker location (ConstraintKind.must_live_until lifetime scope_id) =
    validate_end tracker lifetime scope_id location (get tracker.lifetime_scopes lifetime)

unfoldable pub validate_all : ScopedLifetimeTracker → List ScopeConstraint → Outcome (List String)
unfolding validate
validate_all tracker [] = ok []
validate_all tracker (c ∷ constraints) = do
  errors ← validate tracker c.location c.kind
  others ← validate_all tracker constraints
  ok (errors ++ others)

unfoldable pub validate_constraints : ScopedLifetimeTracker → Outcome (List String)
unfolding validate_all
validate_constraints tracker = validate_all tracker tracker.constraints
