-- ===== src/Scopes/Blocks.antt =====
-- src/analysis/scope_lifetime.rs, `analyze_block`, against the names that are known.
use rustycpp.Common.{
  Outcome, String, true, Bool-cases, some, List, ◌≡◌, refl, inl, inr, contains, StringSet, ok,
}
use rustycpp.Ir.{Block, IrStatement, IrFunction}
use rustycpp.Annotations.{HeaderCache, get_signature}
use rustycpp.Scopes.{ScopedLifetimeTracker}
use rustycpp.Scopes.Functions.{track_borrow, analyze_statement, analyze_block}
use rustycpp.Scopes.Known.{
  IsFlat, know_statement, know_block, declare_reference-IsFlat, add_constraint-IsFlat,
  check_call-IsFlat, alive_known, check_return-nothing,
}

-- the errors and the known names of a statement or of a block
abbrev pub Result : Type 0
Result = List String × StringSet

abbrev IsKnownResult : Outcome (List String × ScopedLifetimeTracker) → Result → Type 0
IsKnownResult m r = (t : ScopedLifetimeTracker) × (m ≡ ok (r.0, t)) × IsFlat r.1 t

statement_known :
    (s : IrStatement) (known : StringSet) (tracker : ScopedLifetimeTracker) (f : IrFunction)
    (cache : HeaderCache)
    → IsFlat known tracker
    → IsKnownResult (analyze_statement s 0 tracker f cache) (know_statement cache s known)
unfolding analyze_statement
statement_known (IrStatement.borrow from to kind) known tracker f cache h =
    elim (Bool-cases (contains known from)) [
      | inl p ↦ rw p (
        (track_borrow from to 0 tracker true).1,
        rw (alive_known known tracker from h, p) refl,
        declare_reference-IsFlat known _ to (add_constraint-IsFlat known tracker _ p h),
      )
      | inr p ↦ rw p (tracker, rw (alive_known known tracker from h, p) refl, h)
    ]
statement_known (IrStatement.return (some x)) known tracker f cache h =
    (tracker, rw (check_return-nothing known tracker f x h) refl, h)
statement_known (IrStatement.call_expr func args result) known tracker f cache h =
    (_, refl, check_call-IsFlat known func result (get_signature cache func) tracker h)
statement_known _ known tracker f cache h = (tracker, refl, h)

pub analyze_block-know_block :
    (b : Block) (known : StringSet) (tracker : ScopedLifetimeTracker) (f : IrFunction)
    (cache : HeaderCache)
    → IsFlat known tracker
    → (t : ScopedLifetimeTracker) × (analyze_block b 0 tracker f cache
        ≡ ok ((know_block cache b known).0, t))
      × IsFlat (know_block cache b known).1 t
unfolding analyze_block
analyze_block-know_block Block.nil known tracker f cache h = (tracker, refl, h)
analyze_block-know_block (Block.cons s b) known tracker f cache h =
    let (t, p, k) = statement_known s known tracker f cache h in
    let (t', q, l) = analyze_block-know_block b (know_statement cache s known).1 t f cache k in
    (t', rw (p, q) refl, l)
