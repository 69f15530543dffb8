-- ===== src/Inference/LastUses.antt =====
-- The last use of a variable: src/analysis/lifetime_inference.rs, `process_statement`.
use rustycpp.Common.{
  ℕ, zero, suc, ◌+◌, ◌≤◌, leb, String, ◌==◌, eq_cases, ◌≡◌, Bool, true, false, Bool-cases, Option,
  none, some, inl, inr, List, [], ◌∷◌, arith, any, get, get-insert,
}
use rustycpp.Ir.{IrStatement, Block, nil, cons}
use rustycpp.Inference.{
  LifetimeInferencer, use_at, define_at, use_all, process_statement, first_pass,
}
use rustycpp.Inference.Uses.{uses, is_assignment, statement_at}

-- the last use is known and is no earlier than the index
abbrev pub is_from : ℕ → Option ℕ → Bool
is_from index none = false
is_from index (some last) = leb index last

use_at-from :
    (y : String) (index m : ℕ) (i : LifetimeInferencer) (x : String)
    → m ≤ index
    → is_from m (get i.last_use x) ≡ true
    → is_from m (get (use_at y index i).last_use x) ≡ true
use_at-from y index m i x le h = elim (eq_cases y x) [
  | inl (same, _) ↦ rw (get-insert i.last_use y x index, same) (ground arith)
  | inr (apart, _) ↦ rw (get-insert i.last_use y x index, apart) h
]

use_all-from :
    (args : List String) (index m : ℕ) (i : LifetimeInferencer) (x : String)
    → m ≤ index
    → is_from m (get i.last_use x) ≡ true
    → is_from m (get (use_all args index i).last_use x) ≡ true
unfolding use_all
use_all-from [] index m i x le h = h
use_all-from (y ∷ ys) index m i x le h =
    use_all-from ys index m (use_at y index i) x le (use_at-from y index m i x le h)

statement-from :
    (s : IrStatement) (index m : ℕ) (i : LifetimeInferencer) (x : String)
    → m ≤ index
    → is_from m (get i.last_use x) ≡ true
    → is_from m (get (process_statement s index i).last_use x) ≡ true
unfolding process_statement
statement-from (IrStatement.assign lhs rhs) index m i x le h =
    use_at-from lhs index m (define_at lhs index i) x le h
statement-from (IrStatement.move from to) index m i x le h =
    use_at-from to index m (use_at from index i) x le (use_at-from from index m i x le h)
statement-from (IrStatement.borrow from to kind) index m i x le h =
    use_at-from to index m (use_at from index i) x le (use_at-from from index m i x le h)
statement-from (IrStatement.call_expr func args none) index m i x le h =
    use_all-from args index m i x le h
statement-from (IrStatement.call_expr func args (some res)) index m i x le h =
    use_at-from res index m (use_all args index i) x le (use_all-from args index m i x le h)
statement-from (IrStatement.return none) index m i x le h = h
statement-from (IrStatement.return (some val)) index m i x le h = use_at-from val index m i x le h
statement-from _ index m i x le h = h

-- a variable that is read here is used last here or later
use_at-here :
    (y : String) (index : ℕ) (i : LifetimeInferencer) (x : String)
    → (y == x) ≡ true
    → is_from index (get (use_at y index i).last_use x) ≡ true
use_at-here y index i x same = rw (get-insert i.last_use y x index, same) (ground arith)

use_all-here :
    (args : List String) (index : ℕ) (i : LifetimeInferencer) (x : String)
    → any (λ arg. arg == x) args ≡ true
    → is_from index (get (use_all args index i).last_use x) ≡ true
unfolding use_all
use_all-here [] index i x h = cc
use_all-here (y ∷ ys) index i x h = elim (Bool-cases (y == x)) [
  | inl same ↦
      use_all-from ys index index (use_at y index i) x (omega arith) (use_at-here y index i x same)
  | inr apart ↦ use_all-here ys index (use_at y index i) x (rw apart at h)
]

statement-here :
    (s : IrStatement) (index : ℕ) (i : LifetimeInferencer) (x : String)
    → is_assignment s ≡ false
    → uses s x ≡ true
    → is_from index (get (process_statement s index i).last_use x) ≡ true
unfolding process_statement
statement-here (IrStatement.move from to) index i x n h =
    use_at-from to index index (use_at from index i) x (omega arith) (use_at-here from index i x h)
statement-here (IrStatement.borrow from to kind) index i x n h =
    use_at-from to index index (use_at from index i) x (omega arith) (use_at-here from index i x h)
statement-here (IrStatement.call_expr func args none) index i x n h = use_all-here args index i x h
statement-here (IrStatement.call_expr func args (some res)) index i x n h =
    use_at-from res index index (use_all args index i) x (omega arith)
      (use_all-here args index i x h)
statement-here (IrStatement.return none) index i x n h = cc
statement-here (IrStatement.return (some val)) index i x n h = use_at-here val index i x h
statement-here (IrStatement.assign lhs rhs) index i x n h = cc
statement-here _ index i x n h = cc

first_pass-from :
    (b : Block) (index m : ℕ) (i : LifetimeInferencer) (x : String)
    → m ≤ index
    → is_from m (get i.last_use x) ≡ true
    → is_from m (get (first_pass b index i).last_use x) ≡ true
unfolding first_pass
first_pass-from nil index m i x le h = h
first_pass-from (cons s b) index m i x le h =
    first_pass-from b (suc index) m (process_statement s index i) x (omega arith)
      (statement-from s index m i x le h)

pub first_pass-here :
    (b : Block) (index n m : ℕ) (i : LifetimeInferencer) (x : String) (s : IrStatement)
    → m ≡ n + index
    → statement_at b n ≡ some s
    → is_assignment s ≡ false
    → uses s x ≡ true
    → is_from m (get (first_pass b index i).last_use x) ≡ true
unfolding first_pass
first_pass-here nil index n m i x s at p k h = cc
first_pass-here (cons t b) index zero m i x s at p k h =
    let e : t ≡ s = cc in
    let here : m ≡ index = omega (arith, at) in
    first_pass-from b (suc index) m (process_statement t index i) x (omega (arith, at))
      (rw (here, e) (statement-here s index i x k h))
first_pass-here (cons t b) index (suc n) m i x s at p k h =
    first_pass-here b (suc index) n m (process_statement t index i) x s (omega (arith, at)) p k h
