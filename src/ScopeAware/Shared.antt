-- ===== src/ScopeAware/Shared.antt =====
-- Many readers or one writer: the statements of src/analysis/scope_aware.rs.
use rustycpp.Common.{
  String, ◌==◌, eq_iff, eq_cases, ◌≡◌, ◌≢◌, refl, sym, ap, ◌∙◌, Bool, false, ◌&&◌, Bool-cases,
  Option, none, some, inl, inr, [], ◌∷◌, any, Map, get, insert, get-insert, arith, Outcome, ok,
}
use rustycpp.Ir.{BorrowKind, OwnershipState, IrStatement}
use rustycpp.ScopeAware.{
  BorrowInfo, ScopeAwareOwnershipTracker, is_borrowed, is_mutably_borrowed, is_mutable_kind,
  insert_borrow, borrow_owned, borrow_from, create_borrow, move_from, process_statement,
}

-- of two borrows of the same source, the first is immutable, and so by symmetry is the second
abbrev pub IsShared : Map BorrowInfo → Type 0
IsShared borrows =
    (a b : String) (x y : BorrowInfo)
    → a ≢ b
    → get borrows a ≡ some x
    → get borrows b ≡ some y
    → x.from ≡ y.from
    → is_mutable_kind x.kind ≡ false

some_injective : {u v : BorrowInfo} → some u ≡ some v → u ≡ v
some_injective e = cc

any-get :
    (test : String × BorrowInfo → Bool) (m : Map BorrowInfo) (k : String) (v : BorrowInfo)
    → any test m ≡ false
    → get m k ≡ some v
    → (j : String) × (test (j, v) ≡ false)
unfolding get
any-get test [] k v h p = cc
any-get test ((j, w) ∷ m) k v h p = elim (Bool-cases (j == k)) [
  | inl same ↦
      let e : w ≡ v = some_injective (rw same at p) in
      let t : test (j, w) ≡ false = ground (arith, h) in (j, rw e at t)
  | inr apart ↦
      let rest : any test m ≡ false = ground (arith, h) in any-get test m k v rest (rw apart at p)
]

not_borrowed :
    (from : String) (m : Map BorrowInfo) (k : String) (v : BorrowInfo)
    → is_borrowed from m ≡ false
    → get m k ≡ some v
    → v.from ≢ from
unfolding is_borrowed
not_borrowed from m k v h p e =
    let (j, q) = any-get (λ entry. entry.1.from == from) m k v h p in
    ground (arith, q, eq_iff v.from from, e)

not_mutable :
    (from : String) (m : Map BorrowInfo) (k : String) (v : BorrowInfo)
    → is_mutably_borrowed from m ≡ false
    → get m k ≡ some v
    → v.from ≡ from
    → is_mutable_kind v.kind ≡ false
unfolding is_mutably_borrowed
not_mutable from m k v h p e =
    let (j, q) =
      any-get (λ entry. entry.1.from == from && is_mutable_kind entry.1.kind) m k v h p in
    ground (arith, q, eq_iff v.from from, e)

-- a new borrow that the others allow
abbrev Allows : Map BorrowInfo → BorrowInfo → Type 0
Allows m new =
    (k : String) (v : BorrowInfo)
    → get m k ≡ some v
    → v.from ≡ new.from
    → (is_mutable_kind v.kind ≡ false) × (is_mutable_kind new.kind ≡ false)

insert-IsShared :
    (m : Map BorrowInfo) (to : String) (new : BorrowInfo)
    → Allows m new
    → IsShared m
    → IsShared (insert m to new)
insert-IsShared m to new allowed h a b x y apart p q e = elim (eq_cases to a) [
  | inl (same, at_a) ↦
      let ne : (to == b) ≡ false = ground (arith, eq_iff to b, at_a, apart) in
      let here : new ≡ x = some_injective (rw (get-insert m to a new, same) at p) in
      let old = rw (get-insert m to b new, ne) at q in
      rw (← here) ((allowed b y old (sym e ∙ ap (λ z. z.from) (sym here))).1)
  | inr (other, _) ↦
      let old = rw (get-insert m to a new, other) at p in
      elim (eq_cases to b) [
        | inl (same, _) ↦
            let here : new ≡ y = some_injective (rw (get-insert m to b new, same) at q) in
            (allowed a x old (e ∙ ap (λ z. z.from) (sym here))).0
        | inr (other_b, _) ↦ h a b x y apart old (rw (get-insert m to b new, other_b) at q) e
      ]
]

insert_borrow-mutable :
    (t : ScopeAwareOwnershipTracker) (from to : String)
    → is_borrowed from t.borrows ≡ false
    → IsShared t.borrows
    → IsShared (insert_borrow t from to BorrowKind.mutable).borrows
unfolding insert_borrow
insert_borrow-mutable t from to free h =
    insert-IsShared t.borrows to _ (λ k v p e. absurd (not_borrowed from t.borrows k v free p e)) h

insert_borrow-immutable :
    (t : ScopeAwareOwnershipTracker) (from to : String)
    → is_mutably_borrowed from t.borrows ≡ false
    → IsShared t.borrows
    → IsShared (insert_borrow t from to BorrowKind.immutable).borrows
unfolding insert_borrow
insert_borrow-immutable t from to free h =
    insert-IsShared t.borrows to _ (λ k v p e. (not_mutable from t.borrows k v free p e, refl)) h

-- what a call leaves, where it succeeds
abbrev pub Keeps : Outcome ScopeAwareOwnershipTracker → Type 0
Keeps (ok t) = IsShared t.borrows
Keeps _ = Unit

borrow_owned-Keeps :
    (t : ScopeAwareOwnershipTracker) (from to : String) (kind : BorrowKind)
    → IsShared t.borrows
    → Keeps (borrow_owned t from to kind)
borrow_owned-Keeps t from to BorrowKind.mutable h = elim (Bool-cases (is_borrowed from t.borrows)) [
  | inl p ↦ rw p tt
  | inr p ↦ rw p (insert_borrow-mutable t from to p h)
]
borrow_owned-Keeps t from to BorrowKind.immutable h =
    elim (Bool-cases (is_mutably_borrowed from t.borrows)) [
      | inl p ↦ rw p tt
      | inr p ↦ rw p (insert_borrow-immutable t from to p h)
    ]

borrow_from-Keeps :
    (t : ScopeAwareOwnershipTracker) (from to : String) (kind : BorrowKind)
    (state : Option OwnershipState)
    → IsShared t.borrows
    → Keeps (borrow_from t from to kind state)
borrow_from-Keeps t from to kind (some OwnershipState.owned) h = borrow_owned-Keeps t from to kind h
borrow_from-Keeps t from to kind (some OwnershipState.moved) h = tt
borrow_from-Keeps t from to kind (some OwnershipState.uninitialized) h = tt
borrow_from-Keeps t from to kind (some (OwnershipState.borrowed _)) h = tt
borrow_from-Keeps t from to kind none h = tt

move_from-Keeps :
    (t : ScopeAwareOwnershipTracker) (from to : String) (state : Option OwnershipState)
    → IsShared t.borrows
    → Keeps (move_from t from to state)
move_from-Keeps t from to (some OwnershipState.owned) h = h
move_from-Keeps t from to (some OwnershipState.moved) h = tt
move_from-Keeps t from to (some OwnershipState.uninitialized) h = tt
move_from-Keeps t from to (some (OwnershipState.borrowed _)) h = tt
move_from-Keeps t from to none h = tt

pub statement-Keeps :
    (s : IrStatement) (t : ScopeAwareOwnershipTracker)
    → IsShared t.borrows
    → Keeps (process_statement s t)
unfolding process_statement create_borrow
statement-Keeps (IrStatement.borrow from to kind) t h =
    borrow_from-Keeps t from to kind (get t.ownership from) h
statement-Keeps (IrStatement.move from to) t h = move_from-Keeps t from to (get t.ownership from) h
statement-Keeps _ t h = h
