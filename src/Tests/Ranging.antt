-- ===== src/Tests/Ranging.antt =====
-- Ranges, scopes, constraints and owners: src/analysis/lifetime_inference.rs,
-- src/analysis/scope_lifetime.rs, src/analysis/lifetimes.rs, src/analysis/borrows.rs,
-- src/analysis/ownership.rs and src/analysis/lifetime_checker.rs.
use rustycpp.Common.{
  ℕ, ◌<◌, String, ◌≡◌, ◌≢◌, ◌↔◌, ◌⊎◌, inl, refl, arith, eq_iff, true, false, none, some, List, [],
  ◌∷◌, All, ok, err, get,
}
use rustycpp.Ir.{
  IrStatement, IrExpression, Block, nil, cons, BorrowKind, OwnershipState, IrFunction,
}
use rustycpp.Annotations.{LifetimeBound}
use rustycpp.Inference
use rustycpp.Inference.{
  LifetimeInferencer, InferredLifetime, infer_function_lifetimes, lifetimes_overlap, is_alive_at,
}
use rustycpp.Inference.Ranges.{
  AllOrdered, infer_function_lifetimes-AllOrdered, lifetimes_overlap_iff,
}
use rustycpp.Scopes
use rustycpp.Scopes.{
  ScopedLifetimeTracker, ScopeKind, ConstraintKind, push_scope, is_ancestor_scope,
  validate_constraints, find_scope, add_constraint,
}
use rustycpp.Scopes.Ancestors.{Ancestor, IsScoped, push_scope-IsScoped, is_ancestor_scope_decides}
use rustycpp.Lifetimes
use rustycpp.Lifetimes.{LifetimeAnalyzer, LifetimeConstraint, add_lifetime, check_constraints}
use rustycpp.Lifetimes.Holding.{Holds, check_constraints_iff}
use rustycpp.Borrows
use rustycpp.Borrows.{BorrowChecker, check_borrow, add_borrow}
use rustycpp.Borrows.Discipline.{AllExclusive, Request, serve_all, serve_all-AllExclusive}
use rustycpp.Ownership.{OwnershipAnalyzer, analyze_statement, get_state, already_moved}
use rustycpp.Ownership.Moved.{analyze_block, move_twice_reported}
use rustycpp.Outlives.{LifetimeScope}
use rustycpp.Common.{get}
use rustycpp.Calls.{check_bounds}
use rustycpp.Calls.Bounds.{AllBacked, check_bounds_iff}

abbrev lines : Block
lines = cons (IrStatement.assign "x" (IrExpression.new "int")) (
    cons (IrStatement.borrow "x" "r" BorrowKind.immutable)
      (cons (IrStatement.return (some "r")) nil))

abbrev reader : IrFunction
reader = record {
  name = "reader";
  cfg = record {
    blocks = record { id = 0; statements = lines; terminator = none } ∷ [];
    successors = λ _. [];
    incoming = λ _. 0;
  };
  variables = [];
}

infer_function_lifetimes-AllOrdered_example :
    AllOrdered (infer_function_lifetimes reader Inference.new).lifetimes
infer_function_lifetimes-AllOrdered_example = infer_function_lifetimes-AllOrdered reader

abbrev range : ℕ → ℕ → InferredLifetime
range first last = record { name = "'l"; start = first; end_point = last; dependencies = [] }

abbrev ranges : LifetimeInferencer
ranges = record {
  lifetimes = ("a", range 0 3) ∷ ("b", range 2 5) ∷ [];
  last_use = [];
  first_def = [];
  lifetime_counter = 2;
}

range_a : get ranges.lifetimes "a" ≡ some (range 0 3)
unfolding get
range_a = refl

range_b : get ranges.lifetimes "b" ≡ some (range 2 5)
unfolding get
range_b = refl

lifetimes_overlap_iff_example :
    (lifetimes_overlap ranges "a" "b" ≡ true)
    ↔ ((point : ℕ) × (is_alive_at ranges "a" point ≡ true) × (is_alive_at ranges "b" point ≡ true))
lifetimes_overlap_iff_example =
    lifetimes_overlap_iff ranges "a" "b" (range 0 3) (range 2 5) range_a range_b (omega arith)
      (omega arith)

new-IsScoped : IsScoped Scopes.new
unfolding find_scope
new-IsScoped = record { older = λ b p q. cc; below = λ b p q. cc }

abbrev outer : ScopedLifetimeTracker
outer = (push_scope Scopes.new ScopeKind.function none).1

abbrev inner : ScopedLifetimeTracker
inner = (push_scope outer ScopeKind.block (some 0)).1

outer-IsScoped : IsScoped outer
outer-IsScoped = push_scope-IsScoped Scopes.new ScopeKind.function none (λ p q. cc) new-IsScoped

parent_exists : (p : ℕ) → some 0 ≡ some p → p < outer.next_scope_id
unfolding push_scope
parent_exists p q = ground (arith, q)

inner-IsScoped : IsScoped inner
inner-IsScoped = push_scope-IsScoped outer ScopeKind.block (some 0) parent_exists outer-IsScoped

is_ancestor_scope_decides_example :
    ((is_ancestor_scope inner 0 1 ≡ ok true) × Ancestor inner.scopes 0 1)
    ⊎ ((is_ancestor_scope inner 0 1 ≡ ok false) × ¬ (Ancestor inner.scopes 0 1))
is_ancestor_scope_decides_example = is_ancestor_scope_decides inner 0 1 inner-IsScoped

abbrev analyzer : LifetimeAnalyzer
analyzer = record {
  lifetimes = (add_lifetime (add_lifetime Lifetimes.new "a" 0 9) "b" 2 5).lifetimes;
  constraints = LifetimeConstraint.outlives "a" "b" ∷ LifetimeConstraint.equal "a" "b" ∷ [];
}

check_constraints_iff_example :
    (check_constraints analyzer ≡ []) ↔ All (Holds analyzer.lifetimes) analyzer.constraints
check_constraints_iff_example = check_constraints_iff analyzer

abbrev one_reader : BorrowChecker
one_reader = add_borrow Borrows.new "x" "r" BorrowKind.immutable

new-AllExclusive : AllExclusive Borrows.new
unfolding get
new-AllExclusive target = inl refl

abbrev requests : List Request
requests =
    Request.borrow "x" "r" BorrowKind.immutable
    ∷ Request.borrow "x" "w" BorrowKind.mutable
    ∷ Request.release "x" "r"
    ∷ []

serve_all-AllExclusive_example : AllExclusive (serve_all requests Borrows.new)
serve_all-AllExclusive_example = serve_all-AllExclusive requests Borrows.new new-AllExclusive

abbrev owner : OwnershipAnalyzer
owner = record { states = ("a", OwnershipState.owned) ∷ [] }

owner_owns : get_state owner "a" ≡ some OwnershipState.owned
unfolding get
owner_owns = refl

b_not_a : ◌≢◌ {A = String} "b" "a"
b_not_a p = ground (arith, p, eq_iff "b" "a")

c_not_a : ◌≢◌ {A = String} "c" "a"
c_not_a p = ground (arith, p, eq_iff "c" "a")

abbrev renewed : Block
renewed = cons (IrStatement.assign "c" (IrExpression.new "int")) nil

move_twice_reported_example :
    let before =
      analyze_block owner (cons (IrStatement.assign "b" (IrExpression.move "a")) renewed) in
    (analyze_statement before (IrStatement.assign "d" (IrExpression.move "a"))).0
    ≡ err (already_moved "a")
move_twice_reported_example =
    move_twice_reported owner "a" "b" "d" renewed owner_owns b_not_a (c_not_a, tt)

abbrev bounded : LifetimeScope
bounded = record {
  variable_lifetimes = [];
  constraints = record { longer = "'r"; shorter = "'s" } ∷ [];
  owned_variables = [];
}

abbrev signature_bounds : List LifetimeBound
signature_bounds = record { longer = "a"; shorter = "b" } ∷ []

check_bounds_iff_example :
    (check_bounds bounded "f" (some "'r" ∷ some "'s" ∷ []) signature_bounds ≡ [])
    ↔ AllBacked bounded (some "'r" ∷ some "'s" ∷ []) signature_bounds
check_bounds_iff_example =
    check_bounds_iff bounded "f" (some "'r" ∷ some "'s" ∷ []) signature_bounds
