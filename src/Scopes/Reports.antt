-- ===== src/Scopes/Reports.antt =====
-- The blocks that src/analysis/scope_lifetime.rs, `analyze_function_scopes`, gets to: all that edges
-- lead to from an entry, so that what one of them reports is reported for the function.
use rustycpp.Common.{
  ℕ, String, true, false, List, [], ◌≡◌, ◌⊎◌, All, length, ok, Outcome, StringSet,
}
use rustycpp.Ir.{BasicBlock, IrFunction}
use rustycpp.Annotations.{HeaderCache}
use rustycpp.Scopes.{ScopedLifetimeTracker}
use rustycpp.Scopes.Functions.{Progress, has_node, block_at, entries_below}
use rustycpp.Scopes.Known.{IsFlat}
use rustycpp.Scopes.Queue.{HasClosedEdges}
use rustycpp.Scopes.Unknown.{block_binds, block_borrows}

pub data Reaches (f : IrFunction) : ℕ → Type 0 where
  entry :
      (n : ℕ) → has_node (entries_below f.cfg.incoming (length f.cfg.blocks)) n ≡ true → Reaches f n
  step : (m n : ℕ) → Reaches f m → has_node (f.cfg.successors m) n ≡ true → Reaches f n

module _ (f : IrFunction) (cache : HeaderCache) (closed : HasClosedEdges f.cfg) (x : String)
    (unbound : (n : ℕ) (b : BasicBlock)
      → block_at f.cfg.blocks n ≡ ok b
      → block_binds b.statements x ≡ false) where
  abbrev BorrowsAt : ℕ → Type 0
  BorrowsAt n =
      (b : BasicBlock) × (block_at f.cfg.blocks n ≡ ok b) × (block_borrows b.statements x ≡ true)

  -- the blocks that a run gets to: the edges out of the new ones stay inside, and none borrows
  record IsCover (queue visited nodes : List ℕ) : Type 0 where
    queued : All (λ n. has_node nodes n ≡ true) queue
    kept : (n : ℕ) → has_node visited n ≡ true → has_node nodes n ≡ true
    inner :
        (n : ℕ)
        → has_node nodes n ≡ true
        → (has_node visited n ≡ true)
          ⊎ ((All (λ m. has_node nodes m ≡ true) (f.cfg.successors n)) × ¬ (BorrowsAt n))

  abbrev IsCovered : List ℕ → List ℕ → Outcome Progress → Type 0
  IsCovered queue visited m =
      (errors : List String) × (t : ScopedLifetimeTracker) × (known : StringSet) × (m
        ≡ ok (errors, t))
      × IsFlat known t
      × (errors ≡ [] → (nodes : List ℕ) × IsCover queue visited nodes)

abbrev pub NowhereBound : List BasicBlock → String → Type 0
NowhereBound blocks x = All (λ b. block_binds b.statements x ≡ false) blocks
