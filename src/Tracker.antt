-- ===== src/Tracker.antt =====
-- `OwnershipTracker`: src/analysis/mod.rs, lines 482-754. Each method returns the new tracker.
-- The stacks have their top at the head. What is printed to stderr is left out.
pub mod Exclusive
pub mod Frame
pub mod WellFormed
pub mod Merge
use rustycpp.Common.{
  ℕ, ◌+◌, ◌-◌, min, ltb, String, Bool, true, false, not, ◌&&◌, Option, none, some, List, [], ◌∷◌,
  is_empty, if◌then◌else◌, Map, get, insert, remove, retain, map_values, is_some, StringSet, add,
  discard, retain_common,
}
use rustycpp.Ir.{BorrowKind, immutable, mutable, OwnershipState}

pub record BorrowInfo : Type 0 where
  pub immutable_count : ℕ
  pub has_mutable : Bool
  pub borrowers : StringSet

pub record ReferenceInfo : Type 0 where
  pub is_reference : Bool
  pub is_mutable : Bool

pub record ScopeInfo : Type 0 where
  pub local_borrows : StringSet

pub record LoopEntryState : Type 0 where
  pub ownership : Map OwnershipState
  pub borrows : Map BorrowInfo

pub record TrackerState : Type 0 where
  pub ownership : Map OwnershipState
  pub borrows : Map BorrowInfo
  pub reference_info : Map ReferenceInfo

pub record OwnershipTracker : Type 0 where
  pub ownership : Map OwnershipState
  pub borrows : Map BorrowInfo
  pub reference_info : Map ReferenceInfo
  pub scope_stack : List ScopeInfo
  pub loop_depth : ℕ
  pub loop_entry_states : List LoopEntryState
  pub unsafe_depth : ℕ

-- `BorrowInfo::default()`
abbrev pub no_borrows : BorrowInfo
no_borrows = record { immutable_count = 0; has_mutable = false; borrowers = [] }

abbrev pub empty_scope : ScopeInfo
empty_scope = record { local_borrows = [] }

abbrev pub new : OwnershipTracker
new = record {
  ownership = [];
  borrows = [];
  reference_info = [];
  scope_stack = empty_scope ∷ [];
  loop_depth = 0;
  loop_entry_states = [];
  unsafe_depth = 0;
}

-- `state == OwnershipState::Moved`
abbrev pub is_moved : OwnershipState → Bool
is_moved OwnershipState.moved = true
is_moved _ = false

abbrev pub is_in_unsafe_block : OwnershipTracker → Bool
is_in_unsafe_block t = ltb 0 t.unsafe_depth

unfoldable pub set_ownership : OwnershipTracker → String → OwnershipState → OwnershipTracker
set_ownership t var state = record t { ownership = insert t.ownership var state }

abbrev pub get_ownership : OwnershipTracker → String → Option OwnershipState
get_ownership t var = get t.ownership var

-- `unwrap_or_default()`
abbrev pub or_default : Option BorrowInfo → BorrowInfo
or_default none = no_borrows
or_default (some info) = info

abbrev pub get_borrows : OwnershipTracker → String → BorrowInfo
get_borrows t var = or_default (get t.borrows var)

-- the borrow itself, on the entry of its source
abbrev pub count_borrow : String → BorrowKind → BorrowInfo → BorrowInfo
count_borrow to immutable info = record info {
  immutable_count = info.immutable_count + 1;
  borrowers = add info.borrowers to;
}
count_borrow to mutable info = record info { has_mutable = true; borrowers = add info.borrowers to }

-- `scope_stack.last_mut()`
abbrev pub note_local : String → List ScopeInfo → List ScopeInfo
note_local to [] = []
note_local to (s ∷ stack) = record { local_borrows = add s.local_borrows to } ∷ stack

unfoldable pub add_borrow : OwnershipTracker → String → String → BorrowKind → OwnershipTracker
add_borrow t from to kind = record t {
  borrows = insert t.borrows from (count_borrow to kind (get_borrows t from));
  scope_stack = note_local to t.scope_stack;
}

unfoldable pub enter_scope : OwnershipTracker → OwnershipTracker
enter_scope t = record t { scope_stack = empty_scope ∷ t.scope_stack }

abbrev pub without_borrower : String → BorrowInfo → BorrowInfo
without_borrower name info = record info { borrowers = discard info.borrowers name }

-- the body of the loop in `exit_scope`
abbrev pub forget_borrow : OwnershipTracker → String → OwnershipTracker
forget_borrow t name = record t {
  reference_info = remove t.reference_info name;
  borrows = map_values (without_borrower name) t.borrows;
}

unfoldable pub forget_borrows : OwnershipTracker → StringSet → OwnershipTracker
forget_borrows t [] = t
forget_borrows t (name ∷ names) = forget_borrows (forget_borrow t name) names

abbrev pub has_borrowers : String → BorrowInfo → Bool
has_borrowers _ info = not (is_empty info.borrowers)

abbrev pub drop_empty : OwnershipTracker → OwnershipTracker
drop_empty t = record t { borrows = retain has_borrowers t.borrows }

abbrev pub pop_scope : OwnershipTracker → List ScopeInfo → OwnershipTracker
pop_scope t [] = t
pop_scope t (scope ∷ stack) =
    drop_empty (forget_borrows (record t { scope_stack = stack }) scope.local_borrows)

unfoldable pub exit_scope : OwnershipTracker → OwnershipTracker
unfolding forget_borrows
exit_scope t = pop_scope t t.scope_stack

unfoldable pub mark_as_reference : OwnershipTracker → String → Bool → OwnershipTracker
mark_as_reference t var is_mutable = record t {
  reference_info =
      insert t.reference_info var (record { is_reference = true; is_mutable = is_mutable });
}

abbrev pub flag_of : Option ReferenceInfo → (ReferenceInfo → Bool) → Bool
flag_of none p = false
flag_of (some info) p = p info

abbrev pub is_reference : OwnershipTracker → String → Bool
is_reference t var = flag_of (get t.reference_info var) (λ info. info.is_reference)

abbrev pub is_mutable_reference : OwnershipTracker → String → Bool
is_mutable_reference t var =
    flag_of (get t.reference_info var) (λ info. info.is_reference && info.is_mutable)

unfoldable pub enter_loop : OwnershipTracker → OwnershipTracker
enter_loop t = record t {
  loop_entry_states = record { ownership = t.ownership; borrows = t.borrows } ∷ t.loop_entry_states;
  loop_depth = t.loop_depth + 1;
}

abbrev pop_loop_entry : List LoopEntryState → List LoopEntryState
pop_loop_entry [] = []
pop_loop_entry (_ ∷ states) = states

-- The loop over the ownership map at the end of `exit_loop` has no effect.
unfoldable pub exit_loop : OwnershipTracker → OwnershipTracker
exit_loop t =
    if ltb 0 t.loop_depth
    then record t {
      loop_depth = t.loop_depth - 1;
      loop_entry_states = pop_loop_entry t.loop_entry_states;
    }
    else t

abbrev pub clone_state : OwnershipTracker → TrackerState
clone_state t = record {
  ownership = t.ownership;
  borrows = t.borrows;
  reference_info = t.reference_info;
}

unfoldable pub restore_state : OwnershipTracker → TrackerState → OwnershipTracker
restore_state t s = record t {
  ownership = s.ownership;
  borrows = s.borrows;
  reference_info = s.reference_info;
}

-- the ownership after a conditional of a variable that both branches know
abbrev pub merge_ownership : OwnershipState → OwnershipState → OwnershipState
merge_ownership a b =
    if is_moved a && is_moved b
    then OwnershipState.moved
    else if is_moved a
    then OwnershipState.owned
    else if is_moved b
    then OwnershipState.owned
    else a

abbrev pub merge_entry :
    Map OwnershipState → String → OwnershipState → Option OwnershipState → Map OwnershipState
merge_entry own var a none = own
merge_entry own var a (some b) = insert own var (merge_ownership a b)

-- `for (var, then_ownership) in &then_state.ownership`
unfoldable pub merge_ownerships :
    Map OwnershipState → Map OwnershipState → Map OwnershipState → Map OwnershipState
merge_ownerships own [] others = own
merge_ownerships own ((var, a) ∷ thens) others =
    merge_ownerships (merge_entry own var a (get others var)) thens others

abbrev pub merge_info : BorrowInfo → BorrowInfo → BorrowInfo
merge_info a b = record {
  immutable_count = min a.immutable_count b.immutable_count;
  has_mutable = a.has_mutable && b.has_mutable;
  borrowers = retain_common a.borrowers b.borrowers;
}

abbrev pub insert_common : Map BorrowInfo → String → BorrowInfo → Option BorrowInfo → Map BorrowInfo
insert_common merged var a none = merged
insert_common merged var a (some b) =
    let both = merge_info a b in if is_empty both.borrowers then merged else insert merged var both

unfoldable pub merge_borrows : Map BorrowInfo → Map BorrowInfo → Map BorrowInfo → Map BorrowInfo
merge_borrows merged [] others = merged
merge_borrows merged ((var, a) ∷ thens) others =
    merge_borrows (insert_common merged var a (get others var)) thens others

unfoldable pub merge_states : OwnershipTracker → TrackerState → TrackerState → OwnershipTracker
unfolding merge_ownerships merge_borrows
merge_states t then_state else_state = record t {
  ownership = merge_ownerships t.ownership then_state.ownership else_state.ownership;
  borrows = merge_borrows [] then_state.borrows else_state.borrows;
  reference_info =
      retain
        (λ var _.
          is_some (get then_state.reference_info var)
          && is_some (get else_state.reference_info var))
        t.reference_info;
}

-- the body of the first loop in `clear_loop_locals`
abbrev pub clear_local : OwnershipTracker → String → OwnershipTracker
clear_local t var = record t {
  reference_info = remove t.reference_info var;
  borrows = map_values (without_borrower var) t.borrows;
  ownership = remove t.ownership var;
}

unfoldable pub clear_locals : OwnershipTracker → StringSet → OwnershipTracker
clear_locals t [] = t
clear_locals t (var ∷ vars) = clear_locals (clear_local t var) vars

abbrev pub reset_empty : BorrowInfo → BorrowInfo
reset_empty info =
    if is_empty info.borrowers
    then record info { immutable_count = 0; has_mutable = false }
    else info

unfoldable pub clear_loop_locals : OwnershipTracker → StringSet → OwnershipTracker
unfolding clear_locals
clear_loop_locals t vars =
    let t' = clear_locals t vars in
    drop_empty (record t' { borrows = map_values reset_empty t'.borrows })
