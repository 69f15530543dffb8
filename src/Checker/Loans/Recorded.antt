-- ===== src/Checker/Loans/Recorded.antt =====
-- A loan in the tables of the tracker: src/analysis/mod.rs, lines 558-595.
use rustycpp.Common.{
  ◌<◌, String, eq_iff, eq_cases, eq_false, ◌≡◌, ◌≢◌, refl, true, false, some, [], ◌∷◌, is_empty,
  arith, Map, get, get-insert, get-map_values, get-retain, IsMap, StringSet, contains, add,
  contains-add, contains-discard, inl, inr,
}
use rustycpp.Ir.{BorrowKind, immutable, mutable}
use rustycpp.Tracker.{
  OwnershipTracker, BorrowInfo, get_borrows, add_borrow, count_borrow, forget_borrows,
  forget_borrow, without_borrower, has_borrowers, drop_empty,
}
use rustycpp.Checker.Loans.{Loan}

abbrev pub IsCounted : BorrowKind → BorrowInfo → Type 0
IsCounted immutable info = 0 < info.immutable_count
IsCounted mutable info = info.has_mutable ≡ true

pub record IsRecorded (borrows : Map BorrowInfo) (l : Loan) : Type 0 where
  pub info : BorrowInfo
  pub found : get borrows l.source ≡ some info
  pub named : contains info.borrowers l.borrower ≡ true
  pub counted : IsCounted l.kind info

IsCounted-count_borrow :
    (to : String) (kind k : BorrowKind) (info : BorrowInfo)
    → IsCounted k info
    → IsCounted k (count_borrow to kind info)
IsCounted-count_borrow to immutable immutable info h = omega arith
IsCounted-count_borrow to immutable mutable info h = h
IsCounted-count_borrow to mutable immutable info h = h
IsCounted-count_borrow to mutable mutable info h = refl

IsCounted-new :
    (to : String) (kind : BorrowKind) (info : BorrowInfo)
    → IsCounted kind (count_borrow to kind info)
IsCounted-new to immutable info = omega arith
IsCounted-new to mutable info = refl

borrowers-count_borrow :
    (to : String) (kind : BorrowKind) (info : BorrowInfo)
    → (count_borrow to kind info).borrowers ≡ add info.borrowers to
borrowers-count_borrow to immutable info = refl
borrowers-count_borrow to mutable info = refl

-- the loan that a borrow makes
pub add_borrow-IsRecorded_new :
    (t : OwnershipTracker) (from to : String) (kind : BorrowKind)
    → IsRecorded
        (add_borrow t from to kind).borrows
        (record { source = from; borrower = to; kind = kind })
unfolding add_borrow
add_borrow-IsRecorded_new t from to kind =
    let info = count_borrow to kind (get_borrows t from) in
    record {
      info = info;
      found = ground (arith, get-insert t.borrows from from info, eq_iff from from);
      named =
          rw (borrowers-count_borrow to kind (get_borrows t from), contains-add)
            (ground (arith, eq_iff to to));
      counted = IsCounted-new to kind (get_borrows t from);
    }

-- a loan of before
pub add_borrow-IsRecorded :
    (t : OwnershipTracker) (from to : String) (kind : BorrowKind) (l : Loan)
    → IsRecorded t.borrows l
    → IsRecorded (add_borrow t from to kind).borrows l
unfolding add_borrow
add_borrow-IsRecorded t from to kind l h =
    let info = count_borrow to kind (get_borrows t from) in
    let step = get-insert t.borrows from l.source info in
    elim (eq_cases from l.source) [
      | inl (same, e) ↦
          let before : get_borrows t from ≡ h.info = rw (e, h.found) refl in
          record {
            info = info;
            found = ground arith;
            named =
                rw (borrowers-count_borrow to kind (get_borrows t from), contains-add, before)
                  (ground (arith, h.named));
            counted =
                IsCounted-count_borrow to kind l.kind (get_borrows t from) (rw before h.counted);
          }
      | inr (other, e) ↦ record {
        info = h.info;
        found = ground (arith, h.found);
        named = h.named;
        counted = h.counted;
      }
    ]

IsCounted-without_borrower :
    (name : String) (k : BorrowKind) (info : BorrowInfo)
    → IsCounted k info
    → IsCounted k (without_borrower name info)
IsCounted-without_borrower name immutable info h = h
IsCounted-without_borrower name mutable info h = h

forget_borrow-IsRecorded :
    (t : OwnershipTracker) (name : String) (l : Loan)
    → name ≢ l.borrower
    → IsRecorded t.borrows l
    → IsRecorded (forget_borrow t name).borrows l
forget_borrow-IsRecorded t name l ne h = record {
  info = without_borrower name h.info;
  found = rw (get-map_values (without_borrower name) t.borrows l.source, h.found);
  named =
      rw (contains-discard h.info.borrowers name l.borrower, eq_false name l.borrower ne) (h.named);
  counted = IsCounted-without_borrower name l.kind h.info h.counted;
}

pub forget_borrows-IsRecorded :
    (t : OwnershipTracker) (names : StringSet) (l : Loan)
    → contains names l.borrower ≡ false
    → IsRecorded t.borrows l
    → IsRecorded (forget_borrows t names).borrows l
unfolding forget_borrows contains
forget_borrows-IsRecorded t [] l out h = h
forget_borrows-IsRecorded t (name ∷ names) l out h =
    let ne : name ≢ l.borrower = λ e. ground (arith, eq_iff name l.borrower) in
    let rest : contains names l.borrower ≡ false = ground arith in
    forget_borrows-IsRecorded (forget_borrow t name) names l rest
      (forget_borrow-IsRecorded t name l ne h)

not-empty_of_contains : (s : StringSet) (x : String) → contains s x ≡ true → is_empty s ≡ false
unfolding contains
not-empty_of_contains [] x h = cc
not-empty_of_contains (y ∷ s) x h = refl

pub drop_empty-IsRecorded :
    (t : OwnershipTracker) (l : Loan)
    → IsMap t.borrows
    → IsRecorded t.borrows l
    → IsRecorded (drop_empty t).borrows l
drop_empty-IsRecorded t l m h =
    let used = not-empty_of_contains h.info.borrowers l.borrower h.named in
    record {
      info = h.info;
      found = rw (get-retain has_borrowers t.borrows l.source m, h.found, used) refl;
      named = h.named;
      counted = h.counted;
    }
