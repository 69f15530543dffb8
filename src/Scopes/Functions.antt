-- ===== src/Scopes/Functions.antt =====
-- The scopes of a function over its control-flow graph: src/analysis/scope_lifetime.rs, lines
-- 211-422. The queue of blocks takes fuel here: one for each block and each edge, and one more.
-- `Scopes.Known` says what the analysis comes to, since the code opens one scope only.
use rustycpp.Common.{
  ℕ, zero, suc, ◌+◌, eqb, String, starts_with, Bool, true, false, not, ◌&&◌, ◌||◌, Option, none,
  some, List, [], ◌∷◌, ◌++◌, length, concat, if◌then◌else◌, Map, get, insert, Outcome, panic, ok,
  out_of_fuel, ◌>>=◌,
}
use rustycpp.Ir.{
  Block, VariableType, VariableInfo, OwnershipState, BasicBlock, IrFunction, IrProgram, IrStatement,
}
use rustycpp.Annotations.{
  LifetimeAnnotation, LifetimeBound, FunctionSignature, HeaderCache, get_signature,
}
use rustycpp.Scopes.{
  ScopeKind, ConstraintKind, ScopedLifetimeTracker, new, push_scope, declare_variable,
  declare_reference, is_alive_in_scope, add_constraint, validate_constraints,
}

pub not_alive : String → String
not_alive from =
    concat ("Cannot borrow from '" ∷ from ∷ "': variable is not alive in current scope" ∷ [])

pub dangling : String → String
dangling val =
    concat
      ("Returning reference to local variable '" ∷ val ∷ "' - will create dangling reference" ∷ [])

abbrev pub is_reference_type : VariableType → Bool
is_reference_type (VariableType.reference _) = true
is_reference_type (VariableType.mutable_reference _) = true
is_reference_type _ = false

abbrev pub is_owned_state : OwnershipState → Bool
is_owned_state OwnershipState.owned = true
is_owned_state _ = false

abbrev pub any_some : {A : Type 0} → (A → Bool) → Option A → Bool
any_some test none = false
any_some test (some x) = test x

abbrev pub is_parameter : String → IrFunction → Bool
is_parameter var_name function =
    starts_with var_name "param"
    || starts_with var_name "arg"
    || any_some (λ info. is_owned_state info.ownership) (get function.variables var_name)

-- the arm of `IrStatement::Return`
abbrev pub check_return : IrFunction → String → Option ℕ → List String
check_return function val none = []
check_return function val (some var_scope) =
    if not (eqb var_scope 0)
      && not (is_parameter val function)
      && any_some (λ info. is_reference_type info.ty) (get function.variables val)
    then dangling val ∷ []
    else []

unfoldable pub add_bounds :
    String → List LifetimeBound → ScopedLifetimeTracker → ScopedLifetimeTracker
add_bounds func_name [] tracker = tracker
add_bounds func_name (bound ∷ bounds) tracker = add_bounds func_name bounds (
    add_constraint tracker (record {
      kind = ConstraintKind.outlives bound.longer bound.shorter;
      location = concat ("call to " ∷ func_name ∷ []);
    }))

abbrev pub declare_result :
    Option String → Option LifetimeAnnotation → ℕ → ScopedLifetimeTracker → ScopedLifetimeTracker
declare_result (some result_var) (some (LifetimeAnnotation.ref _)) scope_id tracker =
    declare_reference tracker result_var scope_id
declare_result (some result_var) (some (LifetimeAnnotation.mut_ref _)) scope_id tracker =
    declare_reference tracker result_var scope_id
declare_result (some result_var) (some LifetimeAnnotation.owned) scope_id tracker =
    declare_variable tracker result_var scope_id
declare_result _ _ scope_id tracker = tracker

-- It reports nothing itself.
abbrev pub check_call_lifetimes :
    String → Option String → FunctionSignature → ℕ → ScopedLifetimeTracker → ScopedLifetimeTracker
check_call_lifetimes func_name result signature scope_id tracker =
    declare_result result signature.return_lifetime scope_id
      (add_bounds func_name signature.lifetime_bounds tracker)

abbrev pub check_call :
    String
    → Option String
    → ℕ
    → Option FunctionSignature
    → ScopedLifetimeTracker
    → ScopedLifetimeTracker
check_call func result scope_id none tracker = tracker
check_call func result scope_id (some signature) tracker =
    check_call_lifetimes func result signature scope_id tracker

-- the arm of `IrStatement::Borrow`
abbrev pub track_borrow :
    String → String → ℕ → ScopedLifetimeTracker → Bool → List String × ScopedLifetimeTracker
track_borrow from to scope_id tracker false = (not_alive from ∷ [], tracker)
track_borrow from to scope_id tracker true = (
  [],
  declare_reference
      (add_constraint tracker (record {
        kind = ConstraintKind.borrowed_from to from;
        location = concat ("borrow of " ∷ to ∷ " from " ∷ from ∷ []);
      }))
      to scope_id,
)

unfoldable pub analyze_statement :
    IrStatement
    → ℕ
    → ScopedLifetimeTracker
    → IrFunction
    → HeaderCache
    → Outcome (List String × ScopedLifetimeTracker)
analyze_statement (IrStatement.borrow from to _) scope_id tracker function cache = do
  alive ← is_alive_in_scope tracker from scope_id
  ok (track_borrow from to scope_id tracker alive)
analyze_statement (IrStatement.return (some val)) scope_id tracker function cache =
    ok (check_return function val (get tracker.variable_scope val), tracker)
analyze_statement (IrStatement.call_expr func args result) scope_id tracker function cache =
    ok ([], check_call func result scope_id (get_signature cache func) tracker)
analyze_statement _ scope_id tracker function cache = ok ([], tracker)

unfoldable pub analyze_block :
    Block
    → ℕ
    → ScopedLifetimeTracker
    → IrFunction
    → HeaderCache
    → Outcome (List String × ScopedLifetimeTracker)
unfolding analyze_statement
analyze_block Block.nil scope_id tracker function cache = ok ([], tracker)
analyze_block (Block.cons s b) scope_id tracker function cache = do
  here ← analyze_statement s scope_id tracker function cache
  others ← analyze_block b scope_id here.1 function cache
  ok (here.0 ++ others.0, others.1)

unfoldable pub declare_parameter :
    String → VariableInfo → ℕ → ScopedLifetimeTracker → ScopedLifetimeTracker
declare_parameter name info func_scope tracker =
    let declared = declare_variable tracker name func_scope in
    let as_reference = declare_reference declared name func_scope in
    if is_reference_type info.ty
    then record as_reference {
      lifetime_scopes =
          insert as_reference.lifetime_scopes (concat ("'param_" ∷ name ∷ []))
            (func_scope, func_scope);
    }
    else declared

unfoldable pub declare_parameters :
    Map VariableInfo → ℕ → ScopedLifetimeTracker → ScopedLifetimeTracker
declare_parameters [] func_scope tracker = tracker
declare_parameters ((name, info) ∷ variables) func_scope tracker =
    declare_parameters variables func_scope (declare_parameter name info func_scope tracker)

-- a `HashSet` of nodes
unfoldable pub has_node : List ℕ → ℕ → Bool
has_node [] n = false
has_node (m ∷ nodes) n = eqb m n || has_node nodes n

-- an index out of range is a panic
unfoldable pub block_at : List BasicBlock → ℕ → Outcome BasicBlock
block_at [] n = panic
block_at (b ∷ blocks) zero = ok b
block_at (b ∷ blocks) (suc n) = block_at blocks n

-- the nodes below `n` without incoming edges, in their order
unfoldable pub entries_below : (ℕ → ℕ) → ℕ → List ℕ
entries_below incoming zero = []
entries_below incoming (suc n) =
    entries_below incoming n ++ (if eqb (incoming n) 0 then n ∷ [] else [])

-- the edges out of the nodes below `n` that are not visited
unfoldable pub edges_left : (ℕ → List ℕ) → List ℕ → ℕ → ℕ
edges_left successors visited zero = 0
edges_left successors visited (suc n) =
    (if has_node visited n then 0 else length (successors n)) + edges_left successors visited n

abbrev pub Progress : Type 0
Progress = List String × ScopedLifetimeTracker

-- the loop over the queue, whose entries all carry the scope of the function
unfoldable pub analyze_queue :
    IrFunction → HeaderCache → ℕ → ℕ → List ℕ → List ℕ → ScopedLifetimeTracker → Outcome Progress
unfolding analyze_block
analyze_queue function cache scope_id zero queue visited tracker = out_of_fuel
analyze_queue function cache scope_id (suc fuel) [] visited tracker = ok ([], tracker)
analyze_queue function cache scope_id (suc fuel) (node ∷ queue) visited tracker =
    let seen = has_node visited node in
    do
      here ←
          if seen
          then ok ([], tracker)
          else block_at function.cfg.blocks node
            >>= (λ b. analyze_block b.statements scope_id tracker function cache)
      others ←
          analyze_queue function cache scope_id fuel
            (if seen then queue else queue ++ function.cfg.successors node)
            (if seen then visited else node ∷ visited) here.1
      ok (here.0 ++ others.0, others.1)

unfoldable pub analyze_function_scopes : IrFunction → HeaderCache → Outcome (List String)
unfolding declare_parameters analyze_queue entries_below edges_left
analyze_function_scopes function cache =
    let count = length function.cfg.blocks in
    let (func_scope, opened) = push_scope new ScopeKind.function none in
    let tracker = declare_parameters function.variables func_scope opened in
    let entries = entries_below function.cfg.incoming count in
    let fuel = suc (length entries + edges_left function.cfg.successors [] count) in
    do
      found ← analyze_queue function cache func_scope fuel entries [] tracker
      errors ← validate_constraints found.1
      ok (found.0 ++ errors)

unfoldable pub check_functions : List IrFunction → HeaderCache → Outcome (List String)
unfolding analyze_function_scopes
check_functions [] cache = ok []
check_functions (f ∷ functions) cache = do
  errors ← analyze_function_scopes f cache
  others ← check_functions functions cache
  ok (errors ++ others)

unfoldable pub check_scoped_lifetimes : IrProgram → HeaderCache → Outcome (List String)
unfolding check_functions
check_scoped_lifetimes program cache = check_functions program.functions cache
