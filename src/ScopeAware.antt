-- ===== src/ScopeAware.antt =====
-- A tracker of ownership with a stack of scopes: src/analysis/scope_aware.rs, lines 1-233. No module
-- of the crate declares the file. The stack is a list with the innermost scope first, and what is
-- printed is left out. A call that fails leaves the tracker as it was, so its result is an
-- `Outcome` of the tracker.
pub mod Shared
pub mod Runs
use rustycpp.Common.{
  ℕ, String, ◌==◌, Bool, true, false, ◌&&◌, Option, none, some, List, [], ◌∷◌, ◌++◌, any, length,
  concat, if◌then◌else◌, Map, get, insert, remove, StringSet, add, Outcome, ok, err,
}
use rustycpp.Ir.{BorrowKind, OwnershipState, IrStatement, Block, nil, cons, ElseBranch}

pub record Scope : Type 0 where
  pub id : ℕ
  pub local_variables : StringSet
  pub local_borrows : StringSet

pub record BorrowInfo : Type 0 where
  pub from : String
  pub kind : BorrowKind
  pub scope_id : ℕ

pub record ScopeAwareOwnershipTracker : Type 0 where
  pub scope_stack : List Scope
  pub ownership : Map OwnershipState
  pub borrows : Map BorrowInfo

unfoldable pub enter_scope : ScopeAwareOwnershipTracker → ScopeAwareOwnershipTracker
enter_scope tracker = record tracker {
  scope_stack =
      record { id = length tracker.scope_stack; local_variables = []; local_borrows = [] }
      ∷ tracker.scope_stack;
}

unfoldable pub new : ScopeAwareOwnershipTracker
unfolding enter_scope
new = enter_scope (record { scope_stack = []; ownership = []; borrows = [] })

unfoldable pub remove_all : {V : Type 0} → StringSet → Map V → Map V
remove_all [] m = m
remove_all (x ∷ names) m = remove_all names (remove m x)

abbrev pub pop_scope : List Scope → ScopeAwareOwnershipTracker → ScopeAwareOwnershipTracker
pop_scope [] tracker = tracker
pop_scope (scope ∷ outer) tracker = record {
  scope_stack = outer;
  ownership = remove_all scope.local_variables tracker.ownership;
  borrows = remove_all scope.local_borrows tracker.borrows;
}

unfoldable pub exit_scope : ScopeAwareOwnershipTracker → ScopeAwareOwnershipTracker
unfolding remove_all
exit_scope tracker = pop_scope tracker.scope_stack tracker

-- `if let Some(current_scope) = self.scope_stack.last_mut()`
abbrev pub with_innermost : (Scope → Scope) → List Scope → List Scope
with_innermost change [] = []
with_innermost change (scope ∷ outer) = change scope ∷ outer

unfoldable pub declare_variable :
    ScopeAwareOwnershipTracker → String → OwnershipState → ScopeAwareOwnershipTracker
declare_variable tracker name state = record tracker {
  scope_stack =
      with_innermost (λ s. record s { local_variables = add s.local_variables name })
        tracker.scope_stack;
  ownership = insert tracker.ownership name state;
}

abbrev pub innermost_id : List Scope → ℕ
innermost_id [] = 0
innermost_id (scope ∷ outer) = scope.id

abbrev pub is_mutable_kind : BorrowKind → Bool
is_mutable_kind BorrowKind.mutable = true
is_mutable_kind BorrowKind.immutable = false

-- `values().filter(|b| b.from == from)` has an element, or a mutable one
unfoldable pub is_borrowed : String → Map BorrowInfo → Bool
is_borrowed from borrows = any (λ entry. entry.1.from == from) borrows

unfoldable pub is_mutably_borrowed : String → Map BorrowInfo → Bool
is_mutably_borrowed from borrows =
    any (λ entry. entry.1.from == from && is_mutable_kind entry.1.kind) borrows

unfoldable pub insert_borrow :
    ScopeAwareOwnershipTracker → String → String → BorrowKind → ScopeAwareOwnershipTracker
insert_borrow tracker from to kind = record tracker {
  borrows =
      insert tracker.borrows to
        (record { from = from; kind = kind; scope_id = innermost_id tracker.scope_stack });
  scope_stack =
      with_innermost (λ s. record s { local_borrows = add s.local_borrows to }) tracker.scope_stack;
}

abbrev pub borrow_owned :
    ScopeAwareOwnershipTracker → String → String → BorrowKind → Outcome ScopeAwareOwnershipTracker
borrow_owned tracker from to BorrowKind.mutable =
    if is_borrowed from tracker.borrows
    then err (concat ("Cannot mutably borrow " ∷ from ∷ ": already borrowed" ∷ []))
    else ok (insert_borrow tracker from to BorrowKind.mutable)
borrow_owned tracker from to BorrowKind.immutable =
    if is_mutably_borrowed from tracker.borrows
    then err (concat ("Cannot immutably borrow " ∷ from ∷ ": already mutably borrowed" ∷ []))
    else ok (insert_borrow tracker from to BorrowKind.immutable)

abbrev pub borrow_from :
    ScopeAwareOwnershipTracker
    → String
    → String
    → BorrowKind
    → Option OwnershipState
    → Outcome ScopeAwareOwnershipTracker
borrow_from tracker from to kind (some OwnershipState.owned) = borrow_owned tracker from to kind
borrow_from tracker from to kind (some OwnershipState.moved) =
    err (concat ("Cannot borrow " ∷ from ∷ ": value has been moved" ∷ []))
borrow_from tracker from to kind _ = err (concat ("Cannot borrow " ∷ from ∷ ": not available" ∷ []))

unfoldable pub create_borrow :
    ScopeAwareOwnershipTracker → String → String → BorrowKind → Outcome ScopeAwareOwnershipTracker
unfolding is_borrowed is_mutably_borrowed insert_borrow
create_borrow tracker from to kind = borrow_from tracker from to kind (get tracker.ownership from)

abbrev pub move_from :
    ScopeAwareOwnershipTracker
    → String
    → String
    → Option OwnershipState
    → Outcome ScopeAwareOwnershipTracker
move_from tracker from to (some OwnershipState.owned) = ok (record tracker {
  ownership = insert (insert tracker.ownership from OwnershipState.moved) to OwnershipState.owned;
})
move_from tracker from to (some OwnershipState.moved) =
    err (concat ("Use after move: " ∷ from ∷ []))
move_from tracker from to _ = err (concat ("Cannot move " ∷ from ∷ ": not owned" ∷ []))

unfoldable pub process_statement :
    IrStatement → ScopeAwareOwnershipTracker → Outcome ScopeAwareOwnershipTracker
unfolding create_borrow
process_statement (IrStatement.borrow from to kind) tracker = create_borrow tracker from to kind
process_statement (IrStatement.move from to) tracker =
    move_from tracker from to (get tracker.ownership from)
process_statement _ tracker = ok tracker

-- `if let Err(e) = ... { errors.push(...) }`
abbrev pub note :
    String
    → ScopeAwareOwnershipTracker
    → Outcome ScopeAwareOwnershipTracker
    → List String × ScopeAwareOwnershipTracker
note label tracker (ok after) = ([], after)
note label tracker (err message) = (concat (label ∷ message ∷ []) ∷ [], tracker)
note label tracker _ = ([], tracker)

unfoldable pub process_statements :
    String → Block → ScopeAwareOwnershipTracker → List String × ScopeAwareOwnershipTracker
unfolding process_statement
process_statements label nil tracker = ([], tracker)
process_statements label (cons s b) tracker =
    let (here, after) = note label tracker (process_statement s tracker) in
    let (others, last) = process_statements label b after in (here ++ others, last)

-- a block in a scope of its own
unfoldable pub process_scoped :
    String → Block → ScopeAwareOwnershipTracker → List String × ScopeAwareOwnershipTracker
unfolding enter_scope exit_scope process_statements
process_scoped label b tracker =
    let (errors, after) = process_statements label b (enter_scope tracker) in
    (errors, exit_scope after)

abbrev pub process_else :
    ElseBranch → ScopeAwareOwnershipTracker → List String × ScopeAwareOwnershipTracker
process_else ElseBranch.absent tracker = ([], tracker)
process_else (ElseBranch.present b) tracker = process_scoped "" b tracker

unfoldable pub process_if_statement :
    Block → ElseBranch → ScopeAwareOwnershipTracker → List String × ScopeAwareOwnershipTracker
unfolding process_scoped
process_if_statement then_branch else_branch tracker =
    let (errors, after) = process_scoped "" then_branch tracker in
    let (others, last) = process_else else_branch after in (errors ++ others, last)

abbrev pub same_kind : BorrowKind → BorrowKind → Bool
same_kind BorrowKind.mutable BorrowKind.mutable = true
same_kind BorrowKind.immutable BorrowKind.immutable = true
same_kind _ _ = false

-- `==` on `OwnershipState`
abbrev pub same_state : OwnershipState → OwnershipState → Bool
same_state OwnershipState.owned OwnershipState.owned = true
same_state OwnershipState.moved OwnershipState.moved = true
same_state OwnershipState.uninitialized OwnershipState.uninitialized = true
same_state (OwnershipState.borrowed a) (OwnershipState.borrowed b) = same_kind a b
same_state _ _ = false

abbrev pub mark_changed :
    Map OwnershipState → String → OwnershipState → Option OwnershipState → Map OwnershipState
mark_changed ownership var state none = ownership
mark_changed ownership var state (some after) =
    if same_state state after then ownership else insert ownership var OwnershipState.moved

-- the loop over the states before the loop
unfoldable pub mark_all_changed : Map OwnershipState → Map OwnershipState → Map OwnershipState
mark_all_changed [] ownership = ownership
mark_all_changed ((var, state) ∷ initial) ownership =
    mark_all_changed initial (mark_changed ownership var state (get ownership var))

unfoldable pub process_loop :
    Block → ScopeAwareOwnershipTracker → List String × ScopeAwareOwnershipTracker
unfolding enter_scope exit_scope process_statements process_scoped mark_all_changed
process_loop body tracker =
    let (first, inside) = process_statements "First iteration: " body (enter_scope tracker) in
    let again = record (exit_scope inside) { ownership = inside.ownership } in
    let (second, after) = process_scoped "Second iteration: " body again in
    (
      first ++ second,
      record after { ownership = mark_all_changed tracker.ownership after.ownership },
    )
