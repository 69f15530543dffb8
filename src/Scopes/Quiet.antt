-- ===== src/Scopes/Quiet.antt =====
-- Functions that src/analysis/scope_lifetime.rs says nothing about. The test `*var_scope != 0` of
-- the return arm never holds, since 0 is the scope of the function and no other is opened.
use rustycpp.Common.{
  ◌∙◌, subst, ℕ, zero, suc, String, Bool-cases, Option, none, some, List, [], ◌∷◌, ◌≡◌, refl, inl,
  inr, All, Map, StringSet, ok,
}
use rustycpp.Ir.{Block, BasicBlock, IrFunction, IrStatement, VariableInfo}
use rustycpp.Annotations.{HeaderCache, get_signature}
use rustycpp.Scopes.{
  ScopedLifetimeTracker, Scope, ScopeKind, find_scope, new, push_scope, declare_in,
  declare_variable, declare_reference, validate_all, validate_constraints,
}
use rustycpp.Scopes.Functions.{
  block_at, analyze_statement, analyze_block, declare_parameter, declare_parameters,
  is_reference_type, analyze_function_scopes,
}
use rustycpp.Scopes.Known.{IsFlat, check_return-nothing}
use rustycpp.Scopes.Queue.{entries_keep, HasClosedEdges}
use rustycpp.Scopes.Total.{opened-IsFlat, declare_parameters-IsFlat}

-- no borrow, and no call of a function that the headers describe
abbrev pub IsQuiet : HeaderCache → Block → Type 0
IsQuiet cache Block.nil = Unit
IsQuiet cache (Block.cons (IrStatement.borrow _ _ _) b) = ⊥
IsQuiet cache (Block.cons (IrStatement.call_expr func _ _) b) =
    (get_signature cache func ≡ none) × IsQuiet cache b
IsQuiet cache (Block.cons _ b) = IsQuiet cache b

quiet_block :
    (b : Block) (known : StringSet) (tracker : ScopedLifetimeTracker) (f : IrFunction)
    (cache : HeaderCache)
    → IsFlat known tracker
    → IsQuiet cache b
    → analyze_block b 0 tracker f cache ≡ ok ([], tracker)
unfolding analyze_block analyze_statement
quiet_block Block.nil known tracker f cache h q = refl
quiet_block (Block.cons (IrStatement.borrow _ _ _) b) known tracker f cache h q = absurd q
quiet_block (Block.cons (IrStatement.call_expr func args result) b) known tracker f cache h (p, q) =
    rw (p, quiet_block b known tracker f cache h q) refl
quiet_block (Block.cons (IrStatement.return (some x)) b) known tracker f cache h q =
    rw (check_return-nothing known tracker f x h, quiet_block b known tracker f cache h q) refl
quiet_block (Block.cons _ b) known tracker f cache h q =
    rw (quiet_block b known tracker f cache h q) refl

abbrev pub AllQuiet : HeaderCache → List BasicBlock → Type 0
AllQuiet cache blocks = All (λ b. IsQuiet cache b.statements) blocks

block_at-IsQuiet :
    (cache : HeaderCache) (blocks : List BasicBlock) (n : ℕ) (b : BasicBlock)
    → AllQuiet cache blocks
    → block_at blocks n ≡ ok b
    → IsQuiet cache b.statements
unfolding block_at
block_at-IsQuiet cache [] n b h p = cc
block_at-IsQuiet cache (c ∷ blocks) zero b (h, k) p =
    let e : c ≡ b = cc in subst (λ d. IsQuiet cache d.statements) e h
block_at-IsQuiet cache (c ∷ blocks) (suc n) b (h, k) p = block_at-IsQuiet cache blocks n b k p

declare_in-constraints :
    (tracker : ScopedLifetimeTracker) (name : String) (id : ℕ) (change : Scope → Scope)
    (s : Option Scope)
    → (declare_in tracker name id change s).constraints ≡ tracker.constraints
declare_in-constraints tracker name id change none = refl
declare_in-constraints tracker name id change (some s) = refl

declare_parameter-constraints :
    (name : String) (info : VariableInfo) (tracker : ScopedLifetimeTracker)
    → (declare_parameter name info 0 tracker).constraints ≡ tracker.constraints
unfolding declare_parameter declare_variable declare_reference
declare_parameter-constraints name info tracker =
    let declared = declare_in-constraints tracker name 0 _ (find_scope tracker.scopes 0) in
    elim (Bool-cases (is_reference_type info.ty)) [
      | inl p ↦ rw p (declare_in-constraints _ name 0 _ _ ∙ declared)
      | inr p ↦ rw p declared
    ]

declare_parameters-constraints :
    (variables : Map VariableInfo) (tracker : ScopedLifetimeTracker)
    → (declare_parameters variables 0 tracker).constraints ≡ tracker.constraints
unfolding declare_parameters
declare_parameters-constraints [] tracker = refl
declare_parameters-constraints ((name, info) ∷ variables) tracker =
    declare_parameters-constraints variables _ ∙ declare_parameter-constraints name info tracker

-- A function whose edges end at its nodes, and which has no borrows and no calls of functions that
-- the headers describe, is analysed without an error, whatever it returns.
pub analyze_function_scopes-quiet :
    (f : IrFunction) (cache : HeaderCache)
    → HasClosedEdges f.cfg
    → AllQuiet cache f.cfg.blocks
    → analyze_function_scopes f cache ≡ ok []
unfolding analyze_function_scopes validate_constraints validate_all push_scope
analyze_function_scopes-quiet f cache closed quiet =
    let (known, h) = declare_parameters-IsFlat f.variables [] _ opened-IsFlat in
    let start = declare_parameters f.variables 0 (push_scope new ScopeKind.function none).1 in
    let (errors, t, p, none_here, same) =
      entries_keep f cache closed (λ t. t ≡ start) (λ errors. errors ≡ []) refl
        (λ a b p q. rw (p, q) refl)
        (λ n b t at same. (
          [],
          start,
          rw same (
              quiet_block b.statements known start f cache h
                (block_at-IsQuiet cache f.cfg.blocks n b quiet at)),
          refl,
          refl,
        ))
        start refl in
    let unconstrained : start.constraints ≡ [] = declare_parameters-constraints f.variables _ in
    rw (p, none_here, same, unconstrained) refl
