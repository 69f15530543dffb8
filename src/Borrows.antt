-- ===== src/Borrows.antt =====
-- Active borrows: src/analysis/borrows.rs, `BorrowChecker`.
pub mod Discipline
use rustycpp.Common.{
  String, ◌==◌, Bool, ◌&&◌, Option, none, some, List, [], ◌∷◌, length, is_empty, is_some, not,
  concat, decimal, if◌then◌else◌, Map, get, insert, remove, StringSet, add, discard, Outcome, ok,
  err,
}
use rustycpp.Ir.{BorrowKind}

-- `immutable` and `mutable` of the source are `readers` and `writer`.
pub record ActiveBorrows : Type 0 where
  pub readers : StringSet
  pub writer : Option String

pub record BorrowChecker : Type 0 where
  pub active_borrows : Map ActiveBorrows

-- `ActiveBorrows::default()`
abbrev pub no_active : ActiveBorrows
no_active = record { readers = []; writer = none }

abbrev pub new : BorrowChecker
new = record { active_borrows = [] }

pub immutable_while_mutable : String → String
immutable_while_mutable target =
    concat ("Cannot borrow '" ∷ target ∷ "' as immutable while it's mutably borrowed" ∷ [])

pub mutable_while_immutable : String → StringSet → String
mutable_while_immutable target readers = concat (
    "Cannot borrow '"
    ∷ target
    ∷ "' as mutable while it has "
    ∷ decimal (length readers)
    ∷ " immutable borrow(s)"
    ∷ [])

pub mutable_while_mutable : String → String
mutable_while_mutable target =
    concat ("Cannot borrow '" ∷ target ∷ "' as mutable while it's already mutably borrowed" ∷ [])

abbrev pub check_active : String → BorrowKind → ActiveBorrows → Outcome (Unit {0})
check_active target BorrowKind.immutable borrows =
    if is_some borrows.writer then err (immutable_while_mutable target) else ok tt
check_active target BorrowKind.mutable borrows =
    if not (is_empty borrows.readers)
    then err (mutable_while_immutable target borrows.readers)
    else if is_some borrows.writer
    then err (mutable_while_mutable target)
    else ok tt

abbrev pub check_found : String → BorrowKind → Option ActiveBorrows → Outcome (Unit {0})
check_found target kind none = ok tt
check_found target kind (some borrows) = check_active target kind borrows

unfoldable pub check_borrow : BorrowChecker → String → BorrowKind → Outcome (Unit {0})
check_borrow checker target kind = check_found target kind (get checker.active_borrows target)

-- `entry(target).or_default()`
abbrev pub or_no_active : Option ActiveBorrows → ActiveBorrows
or_no_active none = no_active
or_no_active (some borrows) = borrows

abbrev pub with_borrower : String → BorrowKind → ActiveBorrows → ActiveBorrows
with_borrower borrower BorrowKind.immutable borrows = record borrows {
  readers = add borrows.readers borrower;
}
with_borrower borrower BorrowKind.mutable borrows = record borrows { writer = some borrower }

unfoldable pub add_borrow : BorrowChecker → String → String → BorrowKind → BorrowChecker
add_borrow checker target borrower kind =
    let borrows = or_no_active (get checker.active_borrows target) in
    record {
      active_borrows = insert checker.active_borrows target (with_borrower borrower kind borrows);
    }

-- `if borrows.mutable.as_ref() == Some(&borrower)`
abbrev pub release_writer : String → Option String → Option String
release_writer borrower none = none
release_writer borrower (some writer) = if writer == borrower then none else some writer

abbrev pub without : String → ActiveBorrows → ActiveBorrows
without borrower borrows = record {
  readers = discard borrows.readers borrower;
  writer = release_writer borrower borrows.writer;
}

abbrev pub put_back : Map ActiveBorrows → String → ActiveBorrows → Map ActiveBorrows
put_back active target borrows =
    if is_empty borrows.readers && not (is_some borrows.writer)
    then remove active target
    else insert active target borrows

abbrev pub release_found :
    Map ActiveBorrows → String → String → Option ActiveBorrows → Map ActiveBorrows
release_found active target borrower none = active
release_found active target borrower (some borrows) =
    put_back active target (without borrower borrows)

unfoldable pub release_borrow : BorrowChecker → String → String → BorrowChecker
release_borrow checker target borrower = record {
  active_borrows =
      release_found checker.active_borrows target borrower (get checker.active_borrows target);
}
