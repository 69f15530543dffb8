-- ===== src/Inference/Uses.antt =====
-- When src/analysis/lifetime_inference.rs takes a used variable to be alive: against the statements
-- that define it.
use rustycpp.Common.{
  ◌∙◌, ℕ, zero, suc, ◌+◌, ◌≤◌, ◌<◌, leb, String, ◌==◌, eq_cases, ◌≡◌, refl, Bool, true, false, ◌||◌,
  Option, none, some, Option-cases, inl, inr, List, [], ◌∷◌, arith, any, Map, get, get-insert,
  if◌then◌else◌,
}
use rustycpp.Ir.{IrExpression, IrStatement, Block, nil, cons}
use rustycpp.Inference.{
  LifetimeInferencer, use_at, or_insert, use_all, process_statement, or_first, first_pass,
}

-- the variable that a statement defines
abbrev pub defines : IrStatement → String → Bool
defines (IrStatement.assign lhs _) x = lhs == x
defines (IrStatement.move _ to) x = to == x
defines (IrStatement.borrow _ to _) x = to == x
defines (IrStatement.call_expr _ _ (some res)) x = res == x
defines _ x = false

-- the variable that the right side of an assignment reads
abbrev pub mentions : IrExpression → String → Bool
mentions (IrExpression.variable y) x = y == x
mentions (IrExpression.move y) x = y == x
mentions (IrExpression.borrow y _) x = y == x
mentions (IrExpression.new _) x = false

abbrev pub is_assignment : IrStatement → Bool
is_assignment (IrStatement.assign _ _) = true
is_assignment _ = false

-- the variables that a statement reads
abbrev pub uses : IrStatement → String → Bool
uses (IrStatement.assign _ rhs) x = mentions rhs x
uses (IrStatement.move from _) x = from == x
uses (IrStatement.borrow from _ _) x = from == x
uses (IrStatement.call_expr _ args _) x = any (λ arg. arg == x) args
uses (IrStatement.return (some val)) x = val == x
uses _ x = false

abbrev pub statement_at : Block → ℕ → Option IrStatement
statement_at nil n = none
statement_at (cons s b) zero = some s
statement_at (cons s b) (suc n) = statement_at b n

-- whether one of the first statements, up to the one at the index, defines the variable
abbrev pub defined_by : Block → ℕ → String → Bool
defined_by nil n x = false
defined_by (cons s b) zero x = defines s x
defined_by (cons s b) (suc n) x = defines s x || defined_by b n x

-- the first definition is known and is no later than the index
abbrev pub is_by : ℕ → Option ℕ → Bool
is_by index none = false
is_by index (some first) = leb first index

use_all-first_def :
    (args : List String) (index : ℕ) (i : LifetimeInferencer)
    → (use_all args index i).first_def ≡ i.first_def
unfolding use_all
use_all-first_def [] index i = refl
use_all-first_def (x ∷ xs) index i = use_all-first_def xs index (use_at x index i)

define_at-first :
    (y : String) (index : ℕ) (m : Map ℕ) (x : String)
    → get (or_insert m y index (get m y)) x
      ≡ (if y == x then some (or_first (get m x) index) else get m x)
define_at-first y index m x = elim (Option-cases (get m y)) [
  | inl p ↦ elim (eq_cases y x) [
    | inl (same, e) ↦
        rw (p, get-insert m y x index, same) (let q : get m x ≡ none = rw e at p in rw q refl)
    | inr (apart, _) ↦ rw (p, get-insert m y x index, apart) refl
  ]
  | inr (f, p) ↦ elim (eq_cases y x) [
    | inl (same, e) ↦ let q : get m x ≡ some f = rw e at p in rw (p, same, q) refl
    | inr (apart, _) ↦ rw (p, apart) refl
  ]
]

-- the definition of a statement at its index
pub statement-first :
    (s : IrStatement) (index : ℕ) (i : LifetimeInferencer) (x : String)
    → get (process_statement s index i).first_def x
      ≡ (if defines s x then some (or_first (get i.first_def x) index) else get i.first_def x)
unfolding process_statement
statement-first (IrStatement.assign lhs rhs) index i x = define_at-first lhs index i.first_def x
statement-first (IrStatement.move from to) index i x = define_at-first to index i.first_def x
statement-first (IrStatement.borrow from to kind) index i x = define_at-first to index i.first_def x
statement-first (IrStatement.call_expr func args none) index i x =
    rw (use_all-first_def args index i) refl
statement-first (IrStatement.call_expr func args (some res)) index i x =
    rw (use_all-first_def args index i) (define_at-first res index i.first_def x)
statement-first (IrStatement.return none) index i x = refl
statement-first (IrStatement.return (some val)) index i x = refl
statement-first _ index i x = refl

-- definitions so far are before the index
abbrev IsBefore : ℕ → Option ℕ → Type 0
IsBefore index none = Unit
IsBefore index (some first) = first < index

abbrev define_once : Bool → Option ℕ → ℕ → Option ℕ
define_once d o index = if d then some (or_first o index) else o

define_once-IsBefore :
    (d : Bool) (o : Option ℕ) (index : ℕ)
    → IsBefore index o
    → IsBefore (suc index) (define_once d o index)
define_once-IsBefore true none index h = omega arith
define_once-IsBefore true (some f) index h = omega arith
define_once-IsBefore false none index h = tt
define_once-IsBefore false (some f) index h = omega arith

-- a definition after `m` says nothing about `m`
define_once-after :
    (d : Bool) (o : Option ℕ) (m index : ℕ)
    → m < index
    → is_by m (define_once d o index) ≡ is_by m o
define_once-after true none m index h = ground arith
define_once-after true (some f) m index h = refl
define_once-after false o m index h = refl

define_once-by :
    (d : Bool) (o : Option ℕ) (m index : ℕ)
    → index ≤ m
    → IsBefore index o
    → is_by m (define_once d o index) ≡ (is_by m o || d)
define_once-by true none m index h k = ground arith
define_once-by true (some f) m index h k = ground arith
define_once-by false none m index h k = refl
define_once-by false (some f) m index h k = ground arith

first_pass-after :
    (b : Block) (m index : ℕ) (i : LifetimeInferencer) (x : String)
    → m < index
    → is_by m (get (first_pass b index i).first_def x) ≡ is_by m (get i.first_def x)
unfolding first_pass
first_pass-after nil m index i x h = refl
first_pass-after (cons s b) m index i x h =
    let later = first_pass-after b m (suc index) (process_statement s index i) x (omega arith) in
    later
    ∙ rw (statement-first s index i x)
        (define_once-after (defines s x) (get i.first_def x) m index h)

pub first_pass-by :
    (b : Block) (index n m : ℕ) (i : LifetimeInferencer) (x : String)
    → m ≡ n + index
    → IsBefore index (get i.first_def x)
    → is_by m (get (first_pass b index i).first_def x)
      ≡ (is_by m (get i.first_def x) || defined_by b n x)
unfolding first_pass
first_pass-by nil index n m i x at h = ground arith
first_pass-by (cons s b) index zero m i x at h =
    first_pass-after b m (suc index) (process_statement s index i) x (omega (arith, at))
    ∙ rw (statement-first s index i x)
        (define_once-by (defines s x) (get i.first_def x) m index (omega (arith, at)) h)
first_pass-by (cons s b) index (suc n) m i x at h =
    let now = statement-first s index i x in
    let rest =
      first_pass-by b (suc index) n m (process_statement s index i) x (omega (arith, at))
        (rw now (define_once-IsBefore (defines s x) (get i.first_def x) index h)) in
    let here = define_once-by (defines s x) (get i.first_def x) m index (omega (arith, at)) h in
    let stepped = rw (now, here) at rest in ground (arith, stepped)
