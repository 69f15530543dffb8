-- ===== src/Checker/Loans/Initial.antt =====
-- A function from its start: src/analysis/mod.rs, lines 162-180, and the loans.
use rustycpp.Common.{String, ◌≡◌, refl, Bool, [], ◌∷◌, Map}
use rustycpp.Ir.{Block, VariableInfo, VariableType, OwnershipState}
use rustycpp.Tracker
use rustycpp.Tracker.{OwnershipTracker, set_ownership, mark_as_reference}
use rustycpp.Tracker.WellFormed.{IsTracker, set_ownership-IsTracker, mark_as_reference-IsTracker}
use rustycpp.Checker.{Checker, process_block, declare, declare_all, mark_type}
use rustycpp.Checker.Loans.{Respects, IsStraight, HasFreshNames}
use rustycpp.Checker.Loans.Refines.{block-Respects}

-- the tracker after the declarations of a function: no borrow, one scope
pub record IsInitial (t : OwnershipTracker) : Type 0 where
  pub tables : IsTracker t
  pub no_loans : t.borrows ≡ []
  pub one_scope : t.scope_stack ≡ Tracker.empty_scope ∷ []
  pub outside : t.unsafe_depth ≡ 0

set_ownership-IsInitial :
    (t : OwnershipTracker) (name : String) (s : OwnershipState)
    → IsInitial t
    → IsInitial (set_ownership t name s)
unfolding set_ownership
set_ownership-IsInitial t name s h = record {
  tables = set_ownership-IsTracker t name s h.tables;
  no_loans = h.no_loans;
  one_scope = h.one_scope;
  outside = h.outside;
}

mark_as_reference-IsInitial :
    (t : OwnershipTracker) (name : String) (b : Bool)
    → IsInitial t
    → IsInitial (mark_as_reference t name b)
unfolding mark_as_reference
mark_as_reference-IsInitial t name b h = record {
  tables = mark_as_reference-IsTracker t name b h.tables;
  no_loans = h.no_loans;
  one_scope = h.one_scope;
  outside = h.outside;
}

mark_type-IsInitial :
    (t : OwnershipTracker) (name : String) (ty : VariableType)
    → IsInitial t
    → IsInitial (mark_type t name ty)
mark_type-IsInitial t name (VariableType.reference _) h = mark_as_reference-IsInitial t name _ h
mark_type-IsInitial t name (VariableType.mutable_reference _) h =
    mark_as_reference-IsInitial t name _ h
mark_type-IsInitial t name _ h = h

pub declare_all-IsInitial :
    (t : OwnershipTracker) (variables : Map VariableInfo)
    → IsInitial t
    → IsInitial (declare_all t variables)
unfolding declare_all declare
declare_all-IsInitial t [] h = h
declare_all-IsInitial t ((name, info) ∷ variables) h =
    declare_all-IsInitial (declare t name info) variables (
      mark_type-IsInitial (set_ownership t name info.ownership) name info.ty
        (set_ownership-IsInitial t name info.ownership h))

pub new-IsInitial : IsInitial Tracker.new
new-IsInitial = record {
  tables = record { ownership_map = tt; borrows_map = tt; references_map = tt };
  no_loans = refl;
  one_scope = refl;
  outside = refl;
}

-- the checker at the start of `check_function`
abbrev pub start : Map VariableInfo → Checker
start variables = record { tracker = declare_all Tracker.new variables; errors = [] }

pub start-IsInitial : (variables : Map VariableInfo) → IsInitial (start variables).tracker
start-IsInitial variables = declare_all-IsInitial Tracker.new variables new-IsInitial

-- Straight-line code, in which no reference takes the name of a live one, that is checked from the
-- start of a function without an error makes only borrows that the live loans allow: many readers
-- or one writer for each source, scopes taken into account.
pub accepted-Respects :
    (variables : Map VariableInfo) (b : Block)
    → IsStraight b
    → HasFreshNames ([] ∷ []) b
    → (process_block b (start variables)).errors ≡ []
    → Respects ([] ∷ []) b
accepted-Respects variables b straight fresh accepted =
    let h = start-IsInitial variables in
    block-Respects b (start variables) ([] ∷ []) straight fresh h.outside (rw accepted)
      (record { tables = h.tables; recorded = (tt, tt); aligned = rw h.one_scope (tt, tt) })
