-- ===== src/Scopes/Queue.antt =====
-- The queue of src/analysis/scope_lifetime.rs, `analyze_function_scopes`: each turn takes one entry,
-- and the edges of a block enter once.
use rustycpp.Common.{
  if◌then◌else◌, ℕ, zero, suc, ◌+◌, ◌<◌, ◌≤◌, eqb, arith, String, false, Bool-cases, List, [], ◌∷◌,
  ◌++◌, ◌≡◌, refl, inl, inr, All, All-append, length, length-append, ok,
}
use rustycpp.Ir.{BasicBlock, ControlFlowGraph, IrFunction}
use rustycpp.Annotations.{HeaderCache}
use rustycpp.Scopes.{ScopedLifetimeTracker}
use rustycpp.Scopes.Functions.{
  analyze_block, entries_below, has_node, block_at, edges_left, analyze_queue,
}

-- petgraph: the edges of a graph end at its nodes
abbrev pub HasClosedEdges : ControlFlowGraph → Type 0
HasClosedEdges cfg =
    (n : ℕ) → n < length cfg.blocks → All (λ m. m < length cfg.blocks) (cfg.successors n)

pub block_at_total :
    (blocks : List BasicBlock) (n : ℕ)
    → n < length blocks
    → (b : BasicBlock) × (block_at blocks n ≡ ok b)
unfolding block_at
block_at_total [] n h = absurd (omega arith)
block_at_total (b ∷ blocks) zero h = (b, refl)
block_at_total (b ∷ blocks) (suc n) h = block_at_total blocks n (omega arith)

edges_left-above :
    (successors : ℕ → List ℕ) (visited : List ℕ) (node count : ℕ)
    → count ≤ node
    → edges_left successors (node ∷ visited) count ≡ edges_left successors visited count
unfolding edges_left has_node
edges_left-above successors visited node zero h = refl
edges_left-above successors visited node (suc n) h =
    let below = edges_left-above successors visited node n (omega arith) in ground (arith, below)

pub edges_left-visit :
    (successors : ℕ → List ℕ) (visited : List ℕ) (node count : ℕ)
    → node < count
    → has_node visited node ≡ false
    → edges_left successors visited count
      ≡ length (successors node) + edges_left successors (node ∷ visited) count
unfolding edges_left has_node
edges_left-visit successors visited node zero h fresh = absurd (omega arith)
edges_left-visit successors visited node (suc n) h fresh = elim (Bool-cases (eqb node n)) [
  | inl p ↦
      let e : node ≡ n = ground arith in
      let same = edges_left-above successors visited node n (omega (arith, e)) in
      ground (arith, e, fresh, same)
  | inr p ↦
      let below = edges_left-visit successors visited node n (ground arith) fresh in
      ground (arith, p, below)
]

pub entries_inside :
    (incoming : ℕ → ℕ) (n count : ℕ) → n ≤ count → All (λ m. m < count) (entries_below incoming n)
unfolding entries_below
entries_inside incoming zero count h = tt
entries_inside incoming (suc n) count h =
    All-append (λ m. m < count) (entries_below incoming n)
      (if eqb (incoming n) 0 then n ∷ [] else []) (entries_inside incoming n count (omega arith))
      (elim (Bool-cases (eqb (incoming n) 0)) [ inl p ↦ rw p (omega arith, tt) | inr p ↦ rw p tt ])

-- What each block keeps, and what its errors are, the loop keeps and its errors are.
module _ (f : IrFunction) (cache : HeaderCache) (closed : HasClosedEdges f.cfg)
    (Inv : ScopedLifetimeTracker → Type 0) (Good : List String → Type 0) (good_empty : Good [])
    (good_append : (a b : List String) → Good a → Good b → Good (a ++ b))
    (block_keeps : (n : ℕ) (b : BasicBlock) (t : ScopedLifetimeTracker)
      → block_at f.cfg.blocks n ≡ ok b
      → Inv t
      → (errors : List String) × (t' : ScopedLifetimeTracker) × (analyze_block b.statements 0 t f
            cache
          ≡ ok (errors, t'))
        × Good errors
        × Inv t') where
  pub queue_keeps :
      (fuel : ℕ) (queue visited : List ℕ) (tracker : ScopedLifetimeTracker)
      → All (λ n. n < length f.cfg.blocks) queue
      → length queue + edges_left f.cfg.successors visited (length f.cfg.blocks) < fuel
      → Inv tracker
      → (errors : List String) × (t : ScopedLifetimeTracker) × (analyze_queue f cache 0 fuel queue
            visited tracker
          ≡ ok (errors, t))
        × Good errors
        × Inv t
  unfolding analyze_queue
  queue_keeps zero queue visited tracker inside enough h = absurd (omega arith)
  queue_keeps (suc fuel) [] visited tracker inside enough h = ([], tracker, refl, good_empty, h)
  queue_keeps (suc fuel) (node ∷ queue) visited tracker (i, inside) enough h =
      elim (Bool-cases (has_node visited node)) [
        | inl seen ↦
            let (errors, t, p, g, k) =
              queue_keeps fuel queue visited tracker inside (omega arith) h in
            (errors, t, rw (seen, p) refl, g, k)
        | inr fresh ↦
            let (b, p) = block_at_total f.cfg.blocks node i in
            let (here, t, q, g, k) = block_keeps node b tracker p h in
            let less =
              edges_left-visit f.cfg.successors visited node (length f.cfg.blocks) i fresh in
            let longer = length-append queue (f.cfg.successors node) in
            let (others, t', r, g', l) =
              queue_keeps fuel (queue ++ f.cfg.successors node) (node ∷ visited) t
                (All-append (λ n. n < length f.cfg.blocks) queue (f.cfg.successors node) inside
                  (closed node i))
                (omega (arith, less, longer)) k in
            (here ++ others, t', rw (fresh, p, q, r) refl, good_append here others g g', l)
      ]

  -- from the entries, with the fuel of `analyze_function_scopes`
  pub entries_keep :
      (tracker : ScopedLifetimeTracker)
      → Inv tracker
      → (errors : List String) × (t : ScopedLifetimeTracker) × (analyze_queue f cache 0
            (suc (
              length (entries_below f.cfg.incoming (length f.cfg.blocks))
              + edges_left f.cfg.successors [] (length f.cfg.blocks)))
            (entries_below f.cfg.incoming (length f.cfg.blocks))
            []
            tracker
          ≡ ok (errors, t))
        × Good errors
        × Inv t
  entries_keep tracker h =
      let count = length f.cfg.blocks in
      queue_keeps _ (entries_below f.cfg.incoming count) [] tracker
        (entries_inside f.cfg.incoming count count (omega arith)) (omega arith) h
