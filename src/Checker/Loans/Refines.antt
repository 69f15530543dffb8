-- ===== src/Checker/Loans/Refines.antt =====
-- The checker of src/analysis/mod.rs against the loans: what it accepts in straight-line code
-- respects every live loan.
use rustycpp.Common.{
  sym, String, eq_false, ◌≡◌, ◌≢◌, ◌∙◌, refl, false, List, [], ◌∷◌, arith, StringSet, contains, add,
  contains-add, All,
}
use rustycpp.Ir.{BorrowKind, immutable, mutable, IrStatement, Block, nil, cons}
use rustycpp.Tracker.{
  OwnershipTracker, BorrowInfo, ScopeInfo, get_borrows, add_borrow, exit_scope, pop_scope,
  enter_scope, mark_as_reference, note_local, forget_borrows, set_ownership,
}
use rustycpp.Tracker.Frame.{forget_borrows-SameFrame}
use rustycpp.Tracker.WellFormed.{IsTracker, forget_borrows-IsTracker}
use rustycpp.Checker.{
  Checker, process_statement, process_block, process_move, check_conflict, record_borrow,
}
use rustycpp.Checker.Messages.{already_mutable, already_immutable, mutable_twice}
use rustycpp.Checker.Growth.{
  error_count, error_count-push, process_statement-grows, process_block-grows,
}
use rustycpp.Checker.SafeCode.{IsSafeCode, process_assign-tracker, unsafe_depth-process_statement}
use rustycpp.Checker.Exclusive.{accepted_borrow, borrows-process_move}
use rustycpp.Checker.WellFormed.{process_statement-IsTracker}
use rustycpp.Checker.Loans.{
  Loan, Scopes, AllLoans, IsAllowed, lend, close, loans_after, IsAllowedNow, Respects, IsPlain,
  IsStraight, IsFresh, HasFreshNames,
}
use rustycpp.Checker.Loans.Recorded.{
  IsRecorded, IsCounted, add_borrow-IsRecorded, add_borrow-IsRecorded_new,
  forget_borrows-IsRecorded, drop_empty-IsRecorded,
}

-- what holds of each loan, for another reason
All-map : {P Q : Loan → Type 0} → ((l : Loan) → P l → Q l) → (ls : List Loan) → All P ls → All Q ls
All-map f [] h = tt
All-map f (l ∷ ls) (p, h) = (f l p, All-map f ls h)

AllLoans-map :
    {P Q : Loan → Type 0}
    → ((l : Loan) → P l → Q l)
    → (scopes : Scopes) → AllLoans P scopes
    → AllLoans Q scopes
AllLoans-map f [] h = tt
AllLoans-map f (ls ∷ scopes) (p, h) = (All-map f ls p, AllLoans-map f scopes h)

AllLoans-both :
    {P Q R : Loan → Type 0}
    → ((l : Loan) → P l → Q l → R l)
    → (scopes : Scopes) → AllLoans P scopes
    → AllLoans Q scopes
    → AllLoans R scopes
AllLoans-both f [] h k = tt
AllLoans-both f ([] ∷ scopes) (p, h) (q, k) = (tt, AllLoans-both f scopes h k)
AllLoans-both f ((l ∷ ls) ∷ scopes) ((p, ps), h) ((q, qs), k) =
    let (rest, more) = AllLoans-both f (ls ∷ scopes) (ps, h) (qs, k) in ((f l p q, rest), more)

-- The names that end with a scope belong to no loan of the scopes outside it.
abbrev pub IsAligned : List ScopeInfo → Scopes → Type 0
IsAligned [] [] = Unit
IsAligned (s ∷ stack) (_ ∷ scopes) =
    AllLoans (λ l. contains s.local_borrows l.borrower ≡ false) scopes × IsAligned stack scopes
IsAligned _ _ = ⊥

pub record Simulates (t : OwnershipTracker) (scopes : Scopes) : Type 0 where
  pub tables : IsTracker t
  pub recorded : AllLoans (IsRecorded t.borrows) scopes
  pub aligned : IsAligned t.scope_stack scopes

allowed_kinds :
    (from : String) (kind k : BorrowKind) (info : BorrowInfo) (c : Checker)
    → error_count (check_conflict from kind info c) ≡ error_count c
    → IsCounted k info
    → (kind ≡ immutable) × (k ≡ immutable)
unfolding check_conflict
allowed_kinds from immutable immutable info c quiet counted = (refl, refl)
allowed_kinds from immutable mutable info c quiet counted =
    absurd (ground (arith, error_count-push (already_mutable from) c))
allowed_kinds from mutable immutable info c quiet counted =
    absurd (ground (arith, error_count-push (already_immutable from) c))
allowed_kinds from mutable mutable info c quiet counted = absurd (
    ground
      (arith, error_count-push (already_immutable from) c, error_count-push (mutable_twice from) c))

-- an accepted borrow is allowed beside each recorded loan
IsAllowed-of_recorded :
    (from : String) (kind : BorrowKind) (c : Checker) (l : Loan)
    → error_count (check_conflict from kind (get_borrows c.tracker from) c) ≡ error_count c
    → IsRecorded c.tracker.borrows l
    → IsAllowed from kind l
IsAllowed-of_recorded from kind c l quiet h same =
    let info : get_borrows c.tracker from ≡ h.info = rw (← same, h.found) refl in
    allowed_kinds from kind l.kind h.info c (rw info at quiet) h.counted

IsRecorded-lend :
    (t : OwnershipTracker) (from to : String) (kind : BorrowKind) (scopes : Scopes)
    → AllLoans (IsRecorded t.borrows) scopes
    → AllLoans
        (IsRecorded (add_borrow t from to kind).borrows)
        (lend (record { source = from; borrower = to; kind = kind }) scopes)
IsRecorded-lend t from to kind [] h = tt
IsRecorded-lend t from to kind (ls ∷ scopes) h =
    let (top, rest) = AllLoans-map (add_borrow-IsRecorded t from to kind) (ls ∷ scopes) h in
    ((add_borrow-IsRecorded_new t from to kind, top), rest)

contains-add_other :
    (s : StringSet) (to x : String) → contains s x ≡ false → x ≢ to → contains (add s to) x ≡ false
contains-add_other s to x out ne = rw (contains-add, eq_false to x (λ e. ne (sym e))) out

IsAligned-lend :
    (l : Loan) (stack : List ScopeInfo) (scopes : Scopes)
    → AllLoans (λ k. k.borrower ≢ l.borrower) scopes
    → IsAligned stack scopes
    → IsAligned (note_local l.borrower stack) (lend l scopes)
IsAligned-lend l [] [] fresh h = tt
IsAligned-lend l [] (ls ∷ scopes) fresh h = absurd h
IsAligned-lend l (s ∷ stack) [] fresh h = absurd h
IsAligned-lend l (s ∷ stack) (ls ∷ scopes) (_, fresh) (out, h) = (
  AllLoans-both (λ k p q. contains-add_other s.local_borrows l.borrower k.borrower p q) scopes out
      fresh,
  h,
)

borrow-Simulates :
    (from to : String) (kind : BorrowKind) (c : Checker) (scopes : Scopes)
    → IsFresh (IrStatement.borrow from to kind) scopes
    → IsTracker (record_borrow c.tracker from to kind)
    → Simulates c.tracker scopes
    → Simulates
        (record_borrow c.tracker from to kind)
        (loans_after (IrStatement.borrow from to kind) scopes)
unfolding mark_as_reference add_borrow
borrow-Simulates from to kind c scopes fresh w h = record {
  tables = w;
  recorded = IsRecorded-lend c.tracker from to kind scopes h.recorded;
  aligned = aligned;
}
  where
    aligned :
        IsAligned
          (note_local to c.tracker.scope_stack)
          (loans_after (IrStatement.borrow from to kind) scopes)
    aligned =
        IsAligned-lend (record { source = from; borrower = to; kind = kind }) c.tracker.scope_stack
          scopes fresh h.aligned

pop_scope-Simulates :
    (t : OwnershipTracker) (stack : List ScopeInfo) (scopes : Scopes)
    → IsTracker t
    → IsTracker (pop_scope t stack)
    → AllLoans (IsRecorded t.borrows) scopes
    → IsAligned stack scopes
    → t.scope_stack ≡ stack
    → Simulates (pop_scope t stack) (close scopes)
pop_scope-Simulates t [] [] v w h a e = record { tables = w; recorded = tt; aligned = rw e tt }
pop_scope-Simulates t [] (ls ∷ scopes) v w h a e = absurd a
pop_scope-Simulates t (s ∷ stack) [] v w h a e = absurd a
pop_scope-Simulates t (s ∷ stack) (ls ∷ scopes) v w (_, h) (out, a) e =
    let t' = record t { scope_stack = stack } in
    let names = s.local_borrows in
    let w' = forget_borrows-IsTracker t' names v in
    record {
      tables = w;
      recorded =
          AllLoans-both
            (λ l p q.
              drop_empty-IsRecorded (forget_borrows t' names) l w'.borrows_map
                (forget_borrows-IsRecorded t' names l p q))
            scopes out h;
      aligned = rw ((forget_borrows-SameFrame t' names).scopes) a;
    }

scope_stack-process_move :
    (from to : String) (c : Checker)
    → (process_move from to c).tracker.scope_stack ≡ c.tracker.scope_stack
unfolding process_move set_ownership
scope_stack-process_move from to c = ground arith

-- One statement: it is allowed by the live loans, and the tracker goes on recording them.
statement-Simulates :
    (s : IrStatement) (c : Checker) (scopes : Scopes)
    → IsPlain s
    → IsFresh s scopes
    → c.tracker.unsafe_depth ≡ 0
    → error_count (process_statement s c) ≡ error_count c
    → Simulates c.tracker scopes
    → IsAllowedNow s scopes × Simulates (process_statement s c).tracker (loans_after s scopes)
unfolding process_statement enter_scope exit_scope contains
statement-Simulates (IrStatement.move from to) c scopes p f d e h = (
  tt,
  record {
    tables = process_statement-IsTracker (IrStatement.move from to) c h.tables;
    recorded = rw (borrows-process_move from to c) h.recorded;
    aligned = rw (scope_stack-process_move from to c) h.aligned;
  },
)
statement-Simulates (IrStatement.borrow from to kind) c scopes p f d e h =
    let (_, quiet, same) = accepted_borrow from to kind c d e in
    let w : IsTracker (record_borrow c.tracker from to kind) =
      rw same at (process_statement-IsTracker (IrStatement.borrow from to kind) c h.tables) in
    (
      AllLoans-map (λ l r. IsAllowed-of_recorded from kind c l quiet r) scopes h.recorded,
      rw same (borrow-Simulates from to kind c scopes f w h),
    )
statement-Simulates (IrStatement.assign lhs rhs) c scopes p f d e h =
    (tt, rw (process_assign-tracker lhs rhs c) h)
statement-Simulates IrStatement.enter_scope c scopes p f d e h = (
  tt,
  record {
    tables = record {
      ownership_map = h.tables.ownership_map;
      borrows_map = h.tables.borrows_map;
      references_map = h.tables.references_map;
    };
    recorded = (tt, h.recorded);
    aligned = (AllLoans-map (λ l r. refl) scopes h.recorded, h.aligned);
  },
)
statement-Simulates IrStatement.exit_scope c scopes p f d e h = (
  tt,
  pop_scope-Simulates c.tracker c.tracker.scope_stack scopes h.tables
      (process_statement-IsTracker IrStatement.exit_scope c h.tables) h.recorded h.aligned refl,
)
statement-Simulates (IrStatement.if_else _ _) c scopes p f d e h = absurd p
statement-Simulates IrStatement.enter_unsafe c scopes p f d e h = absurd p
statement-Simulates IrStatement.exit_unsafe c scopes p f d e h = absurd p
statement-Simulates _ c scopes p f d e h = (tt, h)

IsPlain-IsSafeCode : (s : IrStatement) → IsPlain s → IsSafeCode s
unfolding IsSafeCode
IsPlain-IsSafeCode (IrStatement.if_else _ _) p = absurd p
IsPlain-IsSafeCode IrStatement.enter_unsafe p = absurd p
IsPlain-IsSafeCode IrStatement.exit_unsafe p = absurd p
IsPlain-IsSafeCode _ p = tt

pub block-Respects :
    (b : Block) (c : Checker) (scopes : Scopes)
    → IsStraight b
    → HasFreshNames scopes b
    → c.tracker.unsafe_depth ≡ 0
    → error_count (process_block b c) ≡ error_count c
    → Simulates c.tracker scopes
    → Respects scopes b
unfolding process_block
block-Respects nil c scopes p f d e h = tt
block-Respects (cons s rest) c scopes (p, ps) (f, fs) d e h =
    let c' = process_statement s c in
    let grows = process_statement-grows s c in
    let grows' = process_block-grows rest c' in
    let (allowed, h') = statement-Simulates s c scopes p f d (omega arith) h in
    let d' = unsafe_depth-process_statement s c (IsPlain-IsSafeCode s p) ∙ d in
    (allowed, block-Respects rest c' (loans_after s scopes) ps fs d' (omega arith) h')
