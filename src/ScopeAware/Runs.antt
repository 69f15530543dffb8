-- ===== src/ScopeAware/Runs.antt =====
-- Many readers or one writer: any sequence of operations of src/analysis/scope_aware.rs.
use rustycpp.Common.{
  String, ◌≡◌, some, List, [], ◌∷◌, Map, get, remove, get-remove, StringSet, arith, Outcome, ok,
  err, panic, out_of_fuel,
}
use rustycpp.Ir.{OwnershipState, IrStatement, Block, nil, cons, ElseBranch}
use rustycpp.ScopeAware.{
  BorrowInfo, ScopeAwareOwnershipTracker, Scope, enter_scope, exit_scope, pop_scope, remove_all,
  declare_variable, process_statement, note, process_statements, process_scoped,
  process_if_statement, process_loop,
}
use rustycpp.ScopeAware.Shared.{IsShared, Keeps, statement-Keeps}

note-IsShared :
    (label : String) (t : ScopeAwareOwnershipTracker) (m : Outcome ScopeAwareOwnershipTracker)
    → IsShared t.borrows
    → Keeps m
    → IsShared (note label t m).1.borrows
note-IsShared label t (ok after) h k = k
note-IsShared label t (err message) h k = h
note-IsShared label t panic h k = h
note-IsShared label t out_of_fuel h k = h

statements-IsShared :
    (label : String) (b : Block) (t : ScopeAwareOwnershipTracker)
    → IsShared t.borrows
    → IsShared (process_statements label b t).1.borrows
unfolding process_statements
statements-IsShared label nil t h = h
statements-IsShared label (cons s b) t h =
    statements-IsShared label b _
      (note-IsShared label t (process_statement s t) h (statement-Keeps s t h))

get-remove_all :
    (names : StringSet) (m : Map BorrowInfo) (k : String) (v : BorrowInfo)
    → get (remove_all names m) k ≡ some v
    → get m k ≡ some v
unfolding remove_all
get-remove_all [] m k v p = p
get-remove_all (x ∷ names) m k v p =
    let kept = get-remove_all names (remove m x) k v p in ground (arith, get-remove m x k, kept)

pop_scope-IsShared :
    (scopes : List Scope) (t : ScopeAwareOwnershipTracker)
    → IsShared t.borrows
    → IsShared (pop_scope scopes t).borrows
pop_scope-IsShared [] t h = h
pop_scope-IsShared (scope ∷ outer) t h = λ a b x y apart p q e.
    h a b x y apart (get-remove_all scope.local_borrows t.borrows a x p)
      (get-remove_all scope.local_borrows t.borrows b y q) e

scoped-IsShared :
    (label : String) (b : Block) (t : ScopeAwareOwnershipTracker)
    → IsShared t.borrows
    → IsShared (process_scoped label b t).1.borrows
unfolding process_scoped enter_scope exit_scope
scoped-IsShared label b t h =
    let after = (process_statements label b (enter_scope t)).1 in
    pop_scope-IsShared after.scope_stack after (statements-IsShared label b (enter_scope t) h)

-- a call of one of the operations
pub data Operation : Type 0 where
  enter leave : Operation
  declare : String → OwnershipState → Operation
  statement : IrStatement → Operation
  conditional : Block → ElseBranch → Operation
  loop : Block → Operation

abbrev pub perform : Operation → ScopeAwareOwnershipTracker → ScopeAwareOwnershipTracker
perform Operation.enter t = enter_scope t
perform Operation.leave t = exit_scope t
perform (Operation.declare name state) t = declare_variable t name state
perform (Operation.statement s) t = (note "" t (process_statement s t)).1
perform (Operation.conditional a b) t = (process_if_statement a b t).1
perform (Operation.loop body) t = (process_loop body t).1

unfoldable pub perform_all :
    List Operation → ScopeAwareOwnershipTracker → ScopeAwareOwnershipTracker
perform_all [] t = t
perform_all (o ∷ operations) t = perform_all operations (perform o t)

perform-IsShared :
    (o : Operation) (t : ScopeAwareOwnershipTracker)
    → IsShared t.borrows
    → IsShared (perform o t).borrows
unfolding enter_scope exit_scope declare_variable process_if_statement process_loop
perform-IsShared Operation.enter t h = h
perform-IsShared Operation.leave t h = pop_scope-IsShared t.scope_stack t h
perform-IsShared (Operation.declare name state) t h = h
perform-IsShared (Operation.statement s) t h =
    note-IsShared "" t (process_statement s t) h (statement-Keeps s t h)
perform-IsShared (Operation.conditional a ElseBranch.absent) t h = scoped-IsShared "" a t h
perform-IsShared (Operation.conditional a (ElseBranch.present b)) t h =
    scoped-IsShared "" b _ (scoped-IsShared "" a t h)
perform-IsShared (Operation.loop body) t h =
    let inside = (process_statements "First iteration: " body (enter_scope t)).1 in
    scoped-IsShared "Second iteration: " body
      (record (exit_scope inside) { ownership = inside.ownership })
      (pop_scope-IsShared inside.scope_stack inside
        (statements-IsShared "First iteration: " body (enter_scope t) h))

-- From a tracker in which every source has many readers or one writer, any sequence of scopes,
-- declarations, statements, conditionals and loops ends in such a tracker.
pub perform_all-IsShared :
    (operations : List Operation) (t : ScopeAwareOwnershipTracker)
    → IsShared t.borrows
    → IsShared (perform_all operations t).borrows
unfolding perform_all
perform_all-IsShared [] t h = h
perform_all-IsShared (o ∷ operations) t h =
    perform_all-IsShared operations (perform o t) (perform-IsShared o t h)
