-- ===== src/Checker/Loans.antt =====
-- An independent account of borrows in straight-line code, to hold against src/analysis/mod.rs:
-- the live loans of each open scope, in place of the counts that the tracker keeps.
mod Recorded
pub mod Refines
pub mod Initial
use rustycpp.Common.{String, ◌≡◌, ◌≢◌, List, [], ◌∷◌, All}
use rustycpp.Ir.{BorrowKind, immutable, IrStatement, Block, nil, cons}

pub record Loan : Type 0 where
  pub source : String
  pub borrower : String
  pub kind : BorrowKind

-- the innermost scope first
abbrev pub Scopes : Type 0
Scopes = List (List Loan)

abbrev pub AllLoans : (Loan → Type 0) → Scopes → Type 0
AllLoans P = All (All P)

-- many readers or one writer
abbrev pub IsAllowed : String → BorrowKind → Loan → Type 0
IsAllowed from kind l = l.source ≡ from → (kind ≡ immutable) × (l.kind ≡ immutable)

abbrev pub lend : Loan → Scopes → Scopes
lend l [] = []
lend l (loans ∷ scopes) = (l ∷ loans) ∷ scopes

abbrev pub close : Scopes → Scopes
close [] = []
close (loans ∷ scopes) = scopes

-- the loans after a statement
abbrev pub loans_after : IrStatement → Scopes → Scopes
loans_after (IrStatement.borrow from to kind) scopes =
    lend (record { source = from; borrower = to; kind = kind }) scopes
loans_after IrStatement.enter_scope scopes = [] ∷ scopes
loans_after IrStatement.exit_scope scopes = close scopes
loans_after _ scopes = scopes

-- what a statement asks of the live loans
abbrev pub IsAllowedNow : IrStatement → Scopes → Type 0
IsAllowedNow (IrStatement.borrow from to kind) scopes = AllLoans (IsAllowed from kind) scopes
IsAllowedNow _ scopes = Unit

-- every borrow is allowed by the loans that live when it is made
abbrev pub Respects : Scopes → Block → Type 0
Respects scopes nil = Unit
Respects scopes (cons s rest) = IsAllowedNow s scopes × Respects (loans_after s scopes) rest

-- neither conditionals nor unsafe blocks
abbrev pub IsPlain : IrStatement → Type 0
IsPlain (IrStatement.if_else _ _) = ⊥
IsPlain IrStatement.enter_unsafe = ⊥
IsPlain IrStatement.exit_unsafe = ⊥
IsPlain _ = Unit

abbrev pub IsStraight : Block → Type 0
IsStraight nil = Unit
IsStraight (cons s rest) = IsPlain s × IsStraight rest

-- a reference is named differently from the live ones
abbrev pub IsFresh : IrStatement → Scopes → Type 0
IsFresh (IrStatement.borrow from to kind) scopes = AllLoans (λ l. l.borrower ≢ to) scopes
IsFresh _ scopes = Unit

abbrev pub HasFreshNames : Scopes → Block → Type 0
HasFreshNames scopes nil = Unit
HasFreshNames scopes (cons s rest) = IsFresh s scopes × HasFreshNames (loans_after s scopes) rest
