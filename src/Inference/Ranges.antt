-- ===== src/Inference/Ranges.antt =====
-- The ranges of src/analysis/lifetime_inference.rs: a lifetime starts no later than it ends, and two
-- overlap where they have a statement in common.
use rustycpp.Common.{
  ◌∙◌, ◌⊎◌, IsMap, IsMap-insert, All, eq_cases, eq_refl, subst, max, eq_cases, max, ℕ, suc, ◌≤◌,
  String, ◌==◌, eq_iff, ◌≡◌, refl, ◌↔◌, true, Option, none, some, Option-cases, inl, inr, List, [],
  ◌∷◌, arith, Map, get, insert, get-insert, StringSet,
}
use rustycpp.Ir.{IrStatement, Block, nil, cons, IrFunction}
use rustycpp.Inference.{
  LifetimeInferencer, InferredLifetime, use_at, define_at, or_insert, use_all, process_statement,
  first_pass, second_pass, third_pass, infer_dependencies, depend_found, depend,
  infer_function_lifetimes, all_statements, lifetimes_overlap, is_alive_at, new,
}

-- a defined variable was used last where it was defined or later, and nothing comes after `index`
abbrev pub IsRecorded : ℕ → LifetimeInferencer → Type 0
IsRecorded index inferencer =
    (x : String) (first : ℕ)
    → get inferencer.first_def x ≡ some first
    → (last : ℕ) × (get inferencer.last_use x ≡ some last) × (first ≤ last) × (first ≤ index)

use_at-IsRecorded :
    (x : String) (index : ℕ) (i : LifetimeInferencer)
    → IsRecorded index i
    → IsRecorded index (use_at x index i)
use_at-IsRecorded x index i h y first p =
    let (last, q, le, lt) = h y first p in
    elim (eq_cases x y) [
      | inl (same, _) ↦ (index, rw (get-insert i.last_use x y index, same) refl, lt, lt)
      | inr (apart, _) ↦ (last, rw (get-insert i.last_use x y index, apart) q, le, lt)
    ]

define_cases :
    (m : Map ℕ) (x y : String) (index first : ℕ)
    → get (or_insert m x index (get m x)) y ≡ some first
    → (get m y ≡ some first) ⊎ ((x ≡ y) × (first ≡ index))
define_cases m x y index first p = elim (Option-cases (get m x)) [
  | inr (f, q) ↦ inl (rw q at p)
  | inl q ↦ elim (eq_cases x y) [
    | inl (same, e) ↦ inr (e, ground (arith, rw (q, get-insert m x y index, same) at p))
    | inr (apart, _) ↦ inl (rw (q, get-insert m x y index, apart) at p)
  ]
]

-- a definition together with its use
define_use-IsRecorded :
    (x : String) (index : ℕ) (i : LifetimeInferencer)
    → IsRecorded index i
    → IsRecorded index (use_at x index (define_at x index i))
define_use-IsRecorded x index i h y first p = elim (define_cases i.first_def x y index first p) [
  | inl old ↦ use_at-IsRecorded x index i h y first old
  | inr (e, now) ↦
      let same : (x == y) ≡ true = ground (arith, eq_iff x y, e) in
      (index, rw (get-insert i.last_use x y index, same) refl, omega arith, omega arith)
]

use_all-IsRecorded :
    (args : List String) (index : ℕ) (i : LifetimeInferencer)
    → IsRecorded index i
    → IsRecorded index (use_all args index i)
unfolding use_all
use_all-IsRecorded [] index i h = h
use_all-IsRecorded (x ∷ xs) index i h =
    use_all-IsRecorded xs index (use_at x index i) (use_at-IsRecorded x index i h)

statement-IsRecorded :
    (s : IrStatement) (index : ℕ) (i : LifetimeInferencer)
    → IsRecorded index i
    → IsRecorded index (process_statement s index i)
unfolding process_statement
statement-IsRecorded (IrStatement.assign lhs rhs) index i h = define_use-IsRecorded lhs index i h
statement-IsRecorded (IrStatement.move from to) index i h =
    define_use-IsRecorded to index (use_at from index i) (use_at-IsRecorded from index i h)
statement-IsRecorded (IrStatement.borrow from to kind) index i h =
    define_use-IsRecorded to index (use_at from index i) (use_at-IsRecorded from index i h)
statement-IsRecorded (IrStatement.call_expr func args none) index i h =
    use_all-IsRecorded args index i h
statement-IsRecorded (IrStatement.call_expr func args (some res)) index i h =
    define_use-IsRecorded res index (use_all args index i) (use_all-IsRecorded args index i h)
statement-IsRecorded (IrStatement.return none) index i h = h
statement-IsRecorded (IrStatement.return (some val)) index i h = use_at-IsRecorded val index i h
statement-IsRecorded _ index i h = h

define_at-IsMap :
    (x : String) (index : ℕ) (i : LifetimeInferencer)
    → IsMap i.first_def
    → IsMap (define_at x index i).first_def
define_at-IsMap x index i h = elim (Option-cases (get i.first_def x)) [
  | inl p ↦ rw p (IsMap-insert i.first_def x index h)
  | inr (f, p) ↦ rw p h
]

first_def-use_all :
    (args : List String) (index : ℕ) (i : LifetimeInferencer)
    → (use_all args index i).first_def ≡ i.first_def
unfolding use_all
first_def-use_all [] index i = refl
first_def-use_all (x ∷ xs) index i = first_def-use_all xs index (use_at x index i)

statement-IsMap :
    (s : IrStatement) (index : ℕ) (i : LifetimeInferencer)
    → IsMap i.first_def
    → IsMap (process_statement s index i).first_def
unfolding process_statement
statement-IsMap (IrStatement.assign lhs rhs) index i h = define_at-IsMap lhs index i h
statement-IsMap (IrStatement.move from to) index i h = define_at-IsMap to index i h
statement-IsMap (IrStatement.borrow from to kind) index i h = define_at-IsMap to index i h
statement-IsMap (IrStatement.call_expr func args none) index i h =
    rw (first_def-use_all args index i) h
statement-IsMap (IrStatement.call_expr func args (some res)) index i h =
    define_at-IsMap res index (use_all args index i) (rw (first_def-use_all args index i) h)
statement-IsMap (IrStatement.return none) index i h = h
statement-IsMap (IrStatement.return (some val)) index i h = h
statement-IsMap _ index i h = h

-- every definition has a last use, no earlier than itself
abbrev IsUsedLater : Map ℕ → String → ℕ → Type 0
IsUsedLater last_use x first = (last : ℕ) × (get last_use x ≡ some last) × (first ≤ last)

abbrev AllUsedLater : Map ℕ → Map ℕ → Type 0
AllUsedLater last_use = All (λ e. IsUsedLater last_use e.0 e.1)

pub record IsPassed (i : LifetimeInferencer) : Type 0 where
  pub defs_map : IsMap i.first_def
  pub used :
      (x : String) (first : ℕ) → get i.first_def x ≡ some first → IsUsedLater i.last_use x first

pub first_pass-IsPassed :
    (b : Block) (index : ℕ) (i : LifetimeInferencer)
    → IsMap i.first_def
    → IsRecorded index i
    → IsPassed (first_pass b index i)
unfolding first_pass
first_pass-IsPassed nil index i m h = record {
  defs_map = m;
  used = λ x first p. let (last, q, le, _) = h x first p in (last, q, le);
}
first_pass-IsPassed (cons s b) index i m h =
    let now = statement-IsRecorded s index i h in
    first_pass-IsPassed b (suc index) (process_statement s index i) (statement-IsMap s index i m)
      (λ x first p. let (last, q, le, lt) = now x first p in (last, q, le, omega arith))

-- what holds of all lookups holds of all entries
all_used :
    (defs : Map ℕ) (last_use : Map ℕ)
    → IsMap defs
    → ((x : String) (first : ℕ) → get defs x ≡ some first → IsUsedLater last_use x first)
    → AllUsedLater last_use defs
unfolding get
all_used [] last_use m h = tt
all_used ((k, v) ∷ defs) last_use (absent, m) h = (
  h k v (rw (eq_refl k) refl),
  all_used defs last_use m (λ x first p. elim (eq_cases k x) [
    | inl (_, e) ↦ cc (rw (← e, absent) at p)
    | inr (apart, _) ↦ h x first (rw apart p)
  ]),
)

abbrev pub AllOrdered : Map InferredLifetime → Type 0
AllOrdered lifetimes =
    (x : String) (l : InferredLifetime) → get lifetimes x ≡ some l → l.start ≤ l.end_point

insert-AllOrdered :
    (lifetimes : Map InferredLifetime) (x : String) (l : InferredLifetime)
    → l.start ≤ l.end_point
    → AllOrdered lifetimes
    → AllOrdered (insert lifetimes x l)
insert-AllOrdered lifetimes x l le h y l' p = elim (eq_cases x y) [
  | inl (same, _) ↦
      let e : some l ≡ some l' = rw (get-insert lifetimes x y l, same) at p in
      subst (λ o. Ordered o) e le
  | inr (apart, _) ↦ h y l' (rw (get-insert lifetimes x y l, apart) at p)
]
  where
    Ordered : Option InferredLifetime → Type 0
    Ordered none = Unit
    Ordered (some a) = a.start ≤ a.end_point

second_pass-AllOrdered :
    (defs : Map ℕ) (i : LifetimeInferencer)
    → AllUsedLater i.last_use defs
    → AllOrdered i.lifetimes
    → AllOrdered (second_pass defs i).lifetimes
unfolding second_pass
second_pass-AllOrdered [] i u h = h
second_pass-AllOrdered ((var, first) ∷ defs) i ((last, q, le), u) h =
    second_pass-AllOrdered defs _ u (insert-AllOrdered i.lifetimes var _ (rw q le) h)

depend_found-AllOrdered :
    (lifetimes : Map InferredLifetime) (to : String) (names : StringSet)
    → AllOrdered lifetimes
    → AllOrdered (depend_found lifetimes to names (get lifetimes to))
depend_found-AllOrdered lifetimes to names h = elim (Option-cases (get lifetimes to)) [
  | inl p ↦ rw p h
  | inr (l, p) ↦ rw p (insert-AllOrdered lifetimes to (depend names l) (h to l p) h)
]

infer-AllOrdered :
    (s : IrStatement) (lifetimes : Map InferredLifetime)
    → AllOrdered lifetimes
    → AllOrdered (infer_dependencies s lifetimes)
unfolding infer_dependencies
infer-AllOrdered (IrStatement.borrow from to kind) lifetimes h =
    depend_found-AllOrdered lifetimes to (from ∷ []) h
infer-AllOrdered (IrStatement.move from to) lifetimes h = elim (Option-cases (get lifetimes from)) [
  | inl p ↦ rw p h
  | inr (l, p) ↦ rw p (depend_found-AllOrdered lifetimes to l.dependencies h)
]
infer-AllOrdered _ lifetimes h = h

third_pass-AllOrdered :
    (b : Block) (lifetimes : Map InferredLifetime)
    → AllOrdered lifetimes
    → AllOrdered (third_pass b lifetimes)
unfolding third_pass
third_pass-AllOrdered nil lifetimes h = h
third_pass-AllOrdered (cons s b) lifetimes h =
    third_pass-AllOrdered b (infer_dependencies s lifetimes) (infer-AllOrdered s lifetimes h)

lifetimes-use_all :
    (args : List String) (index : ℕ) (i : LifetimeInferencer)
    → (use_all args index i).lifetimes ≡ i.lifetimes
unfolding use_all
lifetimes-use_all [] index i = refl
lifetimes-use_all (x ∷ xs) index i = lifetimes-use_all xs index (use_at x index i)

lifetimes-process_statement :
    (s : IrStatement) (index : ℕ) (i : LifetimeInferencer)
    → (process_statement s index i).lifetimes ≡ i.lifetimes
unfolding process_statement
lifetimes-process_statement (IrStatement.call_expr func args none) index i =
    lifetimes-use_all args index i
lifetimes-process_statement (IrStatement.call_expr func args (some res)) index i =
    lifetimes-use_all args index i
lifetimes-process_statement (IrStatement.return none) index i = refl
lifetimes-process_statement (IrStatement.return (some val)) index i = refl
lifetimes-process_statement _ index i = refl

pub lifetimes-first_pass :
    (b : Block) (index : ℕ) (i : LifetimeInferencer)
    → (first_pass b index i).lifetimes ≡ i.lifetimes
unfolding first_pass
lifetimes-first_pass nil index i = refl
lifetimes-first_pass (cons s b) index i =
    lifetimes-first_pass b (suc index) (process_statement s index i)
    ∙ lifetimes-process_statement s index i

-- Every lifetime that is inferred for a function starts no later than it ends.
pub infer_function_lifetimes-AllOrdered :
    (f : IrFunction) → AllOrdered (infer_function_lifetimes f new).lifetimes
unfolding infer_function_lifetimes get
infer_function_lifetimes-AllOrdered f =
    let b = all_statements f.cfg.blocks in
    let passed = first_pass b 0 new in
    let done = first_pass-IsPassed b 0 new tt (λ x first p. cc) in
    let lasting =
      second_pass-AllOrdered passed.first_def passed
        (all_used passed.first_def passed.last_use done.defs_map done.used)
        (rw (lifetimes-first_pass b 0 new) (λ x l p. cc)) in
    third_pass-AllOrdered b (second_pass passed.first_def passed).lifetimes lasting

-- Two inferred lifetimes that start no later than they end overlap exactly when both variables are
-- alive at some common statement.
pub lifetimes_overlap_iff :
    (inferencer : LifetimeInferencer) (a b : String) (la lb : InferredLifetime)
    → get inferencer.lifetimes a ≡ some la
    → get inferencer.lifetimes b ≡ some lb
    → la.start ≤ la.end_point
    → lb.start ≤ lb.end_point
    → (lifetimes_overlap inferencer a b ≡ true) ↔ (
        (point : ℕ) × (is_alive_at inferencer a point ≡ true)
        × (is_alive_at inferencer b point ≡ true))
unfolding lifetimes_overlap is_alive_at
lifetimes_overlap_iff inferencer a b la lb p q h k = (
  λ e.
      let o = rw (p, q) at e in
      (max la.start lb.start, rw p (ground (arith, o)), rw q (ground (arith, o))),
  λ (point, x, y). let u = rw p at x in let v = rw q at y in rw (p, q) (ground (arith, u, v)),
)
