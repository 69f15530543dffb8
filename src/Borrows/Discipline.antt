-- ===== src/Borrows/Discipline.antt =====
-- A client of src/analysis/borrows.rs that asks `check_borrow` before `add_borrow`.
use rustycpp.Common.{
  panic, out_of_fuel, discard, if◌then◌else◌, Option-cases, Option-cases, ◌⊎◌, String, ◌==◌,
  eq_cases, eq_iff, ◌≡◌, refl, ◌↔◌, inl, inr, Option, none, some, List, [], ◌∷◌, arith, Map, get,
  get-insert, get-remove, StringSet, Outcome, ok, err,
}
use rustycpp.Ir.{BorrowKind}
use rustycpp.Borrows.{
  put_back, discard, BorrowChecker, ActiveBorrows, check_borrow, check_found, check_active,
  add_borrow, release_borrow, or_no_active, with_borrower, without, no_active,
}

-- many readers or one writer
abbrev pub IsExclusive : ActiveBorrows → Type 0
IsExclusive borrows = (borrows.readers ≡ []) ⊎ (borrows.writer ≡ none)

abbrev pub active : BorrowChecker → String → ActiveBorrows
active checker target = or_no_active (get checker.active_borrows target)

abbrev pub AllExclusive : BorrowChecker → Type 0
AllExclusive checker = (target : String) → IsExclusive (active checker target)

-- A borrow is allowed: no writer for a reader, nobody for a writer.
abbrev pub IsAllowed : BorrowKind → ActiveBorrows → Type 0
IsAllowed BorrowKind.immutable borrows = borrows.writer ≡ none
IsAllowed BorrowKind.mutable borrows = (borrows.readers ≡ []) × (borrows.writer ≡ none)

pub data Request : Type 0 where
  borrow : String → String → BorrowKind → Request
  release : String → String → Request

abbrev add_if : Outcome (Unit {0}) → BorrowChecker → BorrowChecker → BorrowChecker
add_if (ok _) before after = after
add_if _ before after = before

unfoldable pub serve : Request → BorrowChecker → BorrowChecker
serve (Request.borrow target borrower kind) checker =
    add_if (check_borrow checker target kind) checker (add_borrow checker target borrower kind)
serve (Request.release target borrower) checker = release_borrow checker target borrower

unfoldable pub serve_all : List Request → BorrowChecker → BorrowChecker
unfolding serve
serve_all [] checker = checker
serve_all (r ∷ requests) checker = serve_all requests (serve r checker)

check_parts :
    (target : String) (kind : BorrowKind) (readers : StringSet) (writer : Option String)
    → (check_active target kind (record { readers = readers; writer = writer }) ≡ ok tt)
      ↔ IsAllowed kind (record { readers = readers; writer = writer })
check_parts target BorrowKind.immutable readers none = (λ _. refl, λ _. refl)
check_parts target BorrowKind.immutable readers (some w) = (λ h. cc, λ h. cc)
check_parts target BorrowKind.mutable [] none = (λ _. (refl, refl), λ _. refl)
check_parts target BorrowKind.mutable [] (some w) = (λ h. cc, λ h. cc)
check_parts target BorrowKind.mutable (r ∷ rs) writer = (λ h. cc, λ h. cc)

-- A borrow passes the check exactly when the active borrows of its target allow it.
pub check_borrow_iff :
    (checker : BorrowChecker) (target : String) (kind : BorrowKind)
    → (check_borrow checker target kind ≡ ok tt) ↔ IsAllowed kind (active checker target)
unfolding check_borrow
check_borrow_iff checker target kind = elim (Option-cases (get checker.active_borrows target)) [
  | inl p ↦ rw p (vacant kind)
  | inr (borrows, p) ↦ rw p (check_parts target kind borrows.readers borrows.writer)
]
  where
    vacant : (k : BorrowKind) → (check_found target k none ≡ ok tt) ↔ IsAllowed k no_active
    vacant BorrowKind.immutable = (λ _. refl, λ _. refl)
    vacant BorrowKind.mutable = (λ _. (refl, refl), λ _. refl)

with_borrower-IsExclusive :
    (borrower : String) (kind : BorrowKind) (borrows : ActiveBorrows)
    → IsAllowed kind borrows
    → IsExclusive (with_borrower borrower kind borrows)
with_borrower-IsExclusive borrower BorrowKind.immutable borrows h = inr h
with_borrower-IsExclusive borrower BorrowKind.mutable borrows h = inl h.0

without-IsExclusive :
    (borrower : String) (borrows : ActiveBorrows)
    → IsExclusive borrows
    → IsExclusive (without borrower borrows)
unfolding discard
without-IsExclusive borrower borrows (inl p) = inl (rw p refl)
without-IsExclusive borrower borrows (inr p) = inr (rw p refl)

active-add :
    (checker : BorrowChecker) (target borrower : String) (kind : BorrowKind) (other : String)
    → active (add_borrow checker target borrower kind) other ≡ (
        if target == other
        then with_borrower borrower kind (active checker target)
        else active checker other)
unfolding add_borrow
active-add checker target borrower kind other = ground (
  arith,
  get-insert checker.active_borrows target other
      (with_borrower borrower kind (active checker target)),
  eq_iff target other,
)

put_back_lem :
    (m : Map ActiveBorrows) (target other : String) (borrows : ActiveBorrows)
    → or_no_active (get (put_back m target borrows) other)
      ≡ (if target == other then borrows else or_no_active (get m other))
put_back_lem m target other borrows = go borrows.readers borrows.writer
  where
    go :
        (readers : StringSet) (writer : Option String)
        → or_no_active
            (get (put_back m target (record { readers = readers; writer = writer })) other)
          ≡ (if target == other
              then record { readers = readers; writer = writer }
              else or_no_active (get m other))
    go [] none = ground (arith, get-remove m target other)
    go [] (some w) =
        ground (arith, get-insert m target other (record { readers = []; writer = some w }))
    go (r ∷ rs) writer =
        ground (arith, get-insert m target other (record { readers = r ∷ rs; writer = writer }))

active-release :
    (checker : BorrowChecker) (target borrower other : String)
    → active (release_borrow checker target borrower) other
      ≡ (if target == other then without borrower (active checker target) else active checker other)
unfolding release_borrow discard
active-release checker target borrower other =
    elim (Option-cases (get checker.active_borrows target)) [
      | inl p ↦ ground (arith, p, eq_iff target other)
      | inr (borrows, p) ↦
          rw p (put_back_lem checker.active_borrows target other (without borrower borrows))
    ]

added :
    (o : Outcome (Unit {0})) (before after : BorrowChecker)
    → (o ≡ ok tt → AllExclusive after)
    → AllExclusive before
    → AllExclusive (add_if o before after)
added (ok tt) before after h k = h refl
added (err message) before after h k = k
added panic before after h k = k
added out_of_fuel before after h k = k

add_borrow-AllExclusive :
    (checker : BorrowChecker) (target borrower : String) (kind : BorrowKind)
    → IsAllowed kind (active checker target)
    → AllExclusive checker
    → AllExclusive (add_borrow checker target borrower kind)
add_borrow-AllExclusive checker target borrower kind allowed h other =
    let now = active-add checker target borrower kind other in
    elim (eq_cases target other) [
      | inl (same, _) ↦
          rw (now, same) (with_borrower-IsExclusive borrower kind (active checker target) allowed)
      | inr (apart, _) ↦ rw (now, apart) (h other)
    ]

-- Any sequence of borrows, each checked before it is added, and of releases keeps every target
-- with many readers or one writer.
pub serve_all-AllExclusive :
    (requests : List Request) (checker : BorrowChecker)
    → AllExclusive checker
    → AllExclusive (serve_all requests checker)
unfolding serve_all
serve_all-AllExclusive [] checker h = h
serve_all-AllExclusive (r ∷ requests) checker h =
    serve_all-AllExclusive requests (serve r checker) (each r)
  where
    each : (r : Request) → AllExclusive (serve r checker)
    each (Request.borrow target borrower kind) =
        added (check_borrow checker target kind) checker (add_borrow checker target borrower kind)
          (λ p.
            add_borrow-AllExclusive checker target borrower kind
              ((check_borrow_iff checker target kind).0 p) h)
          h
    each (Request.release target borrower) = λ other.
        let now = active-release checker target borrower other in
        elim (eq_cases target other) [
          | inl (same, _) ↦
              rw (now, same) (without-IsExclusive borrower (active checker target) (h target))
          | inr (apart, _) ↦ rw (now, apart) (h other)
        ]
