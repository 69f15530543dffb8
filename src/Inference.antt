-- ===== src/Inference.antt =====
-- Inferred lifetimes of local variables, as ranges of statements: src/analysis/lifetime_inference.rs,
-- lines 4-182.
pub mod Ranges
pub mod Validation
pub mod Uses
pub mod LastUses
pub mod Alive
use rustycpp.Common.{
  ℕ, suc, ◌+◌, ltb, leb, String, Bool, false, not, ◌&&◌, ◌||◌, Option, none, some, List, [], ◌∷◌,
  concat, decimal, Map, get, insert, StringSet, add,
}
use rustycpp.Ir
use rustycpp.Ir.{IrStatement, Block, nil, cons, BasicBlock, IrFunction}

-- `end` of the source is `end_point`.
pub record InferredLifetime : Type 0 where
  pub name : String
  pub start : ℕ
  pub end_point : ℕ
  pub dependencies : StringSet

pub record LifetimeInferencer : Type 0 where
  pub lifetimes : Map InferredLifetime
  pub last_use : Map ℕ
  pub first_def : Map ℕ
  pub lifetime_counter : ℕ

abbrev pub new : LifetimeInferencer
new = record { lifetimes = []; last_use = []; first_def = []; lifetime_counter = 0 }

-- `last_use.insert(var, index)`
abbrev pub use_at : String → ℕ → LifetimeInferencer → LifetimeInferencer
use_at var index inferencer = record inferencer { last_use = insert inferencer.last_use var index }

abbrev pub or_insert : Map ℕ → String → ℕ → Option ℕ → Map ℕ
or_insert first_def var index none = insert first_def var index
or_insert first_def var index (some _) = first_def

-- `first_def.entry(var).or_insert(index)`
abbrev pub define_at : String → ℕ → LifetimeInferencer → LifetimeInferencer
define_at var index inferencer = record inferencer {
  first_def = or_insert inferencer.first_def var index (get inferencer.first_def var);
}

unfoldable pub use_all : List String → ℕ → LifetimeInferencer → LifetimeInferencer
use_all [] index inferencer = inferencer
use_all (arg ∷ args) index inferencer = use_all args index (use_at arg index inferencer)

abbrev pub define_result : Option String → ℕ → LifetimeInferencer → LifetimeInferencer
define_result none index inferencer = inferencer
define_result (some res) index inferencer = use_at res index (define_at res index inferencer)

abbrev pub use_value : Option String → ℕ → LifetimeInferencer → LifetimeInferencer
use_value none index inferencer = inferencer
use_value (some val) index inferencer = use_at val index inferencer

unfoldable pub process_statement : IrStatement → ℕ → LifetimeInferencer → LifetimeInferencer
unfolding use_all
process_statement (IrStatement.assign lhs rhs) index inferencer =
    use_at lhs index (define_at lhs index inferencer)
process_statement (IrStatement.move from to) index inferencer =
    use_at to index (define_at to index (use_at from index inferencer))
process_statement (IrStatement.borrow from to kind) index inferencer =
    use_at to index (define_at to index (use_at from index inferencer))
process_statement (IrStatement.call_expr func args result) index inferencer =
    define_result result index (use_all args index inferencer)
process_statement (IrStatement.return value) index inferencer = use_value value index inferencer
process_statement _ index inferencer = inferencer

-- the first pass over the statements of a block, from an index
unfoldable pub first_pass : Block → ℕ → LifetimeInferencer → LifetimeInferencer
first_pass nil index inferencer = inferencer
first_pass (cons s b) index inferencer =
    first_pass b (suc index) (process_statement s index inferencer)

abbrev pub lifetime_name : ℕ → String
lifetime_name counter = concat ("'inferred_" ∷ decimal counter ∷ [])

-- `unwrap_or`
abbrev pub or_first : Option ℕ → ℕ → ℕ
or_first none first = first
or_first (some last) first = last

-- the second pass, over the definitions
unfoldable pub second_pass : Map ℕ → LifetimeInferencer → LifetimeInferencer
second_pass [] inferencer = inferencer
second_pass ((var, first) ∷ defs) inferencer = second_pass defs (record inferencer {
  lifetimes = insert inferencer.lifetimes var (record {
    name = lifetime_name inferencer.lifetime_counter;
    start = first;
    end_point = or_first (get inferencer.last_use var) first;
    dependencies = [];
  });
  lifetime_counter = inferencer.lifetime_counter + 1;
})

abbrev pub add_all : StringSet → StringSet → StringSet
add_all s [] = s
add_all s (x ∷ xs) = add_all (add s x) xs

abbrev pub depend : StringSet → InferredLifetime → InferredLifetime
depend names lifetime = record lifetime { dependencies = add_all lifetime.dependencies names }

-- `if let Some(lifetime) = lifetimes.get_mut(to)`
abbrev pub depend_found :
    Map InferredLifetime → String → StringSet → Option InferredLifetime → Map InferredLifetime
depend_found lifetimes to names none = lifetimes
depend_found lifetimes to names (some lifetime) = insert lifetimes to (depend names lifetime)

abbrev pub inherit : Map InferredLifetime → String → Option InferredLifetime → Map InferredLifetime
inherit lifetimes to none = lifetimes
inherit lifetimes to (some source) =
    depend_found lifetimes to source.dependencies (get lifetimes to)

unfoldable pub infer_dependencies : IrStatement → Map InferredLifetime → Map InferredLifetime
infer_dependencies (IrStatement.borrow from to kind) lifetimes =
    depend_found lifetimes to (from ∷ []) (get lifetimes to)
infer_dependencies (IrStatement.move from to) lifetimes = inherit lifetimes to (get lifetimes from)
infer_dependencies _ lifetimes = lifetimes

-- the third pass over the statements of a block
unfoldable pub third_pass : Block → Map InferredLifetime → Map InferredLifetime
unfolding infer_dependencies
third_pass nil lifetimes = lifetimes
third_pass (cons s b) lifetimes = third_pass b (infer_dependencies s lifetimes)

-- the statements of all blocks of a function, in order
unfoldable pub all_statements : List BasicBlock → Block
all_statements [] = nil
all_statements (b ∷ blocks) = Ir.append b.statements (all_statements blocks)

unfoldable pub infer_function_lifetimes : IrFunction → LifetimeInferencer → LifetimeInferencer
infer_function_lifetimes f inferencer =
    let statements = all_statements f.cfg.blocks in
    let passed = first_pass statements 0 inferencer in
    let ranged = second_pass passed.first_def passed in
    record ranged { lifetimes = third_pass statements ranged.lifetimes }

abbrev pub overlap : Option InferredLifetime → Option InferredLifetime → Bool
overlap (some a) (some b) = not (ltb a.end_point b.start || ltb b.end_point a.start)
overlap _ _ = false

unfoldable pub lifetimes_overlap : LifetimeInferencer → String → String → Bool
lifetimes_overlap inferencer a b = overlap (get inferencer.lifetimes a) (get inferencer.lifetimes b)

abbrev pub is_within : ℕ → Option InferredLifetime → Bool
is_within point none = false
is_within point (some lifetime) = leb lifetime.start point && leb point lifetime.end_point

unfoldable pub is_alive_at : LifetimeInferencer → String → ℕ → Bool
is_alive_at inferencer var point = is_within point (get inferencer.lifetimes var)
