-- ===== src/Checker/Messages.antt =====
-- The texts of the errors that src/analysis/mod.rs pushes, each of the variable that it names.
use rustycpp.Common.{String, [], ◌∷◌, concat}

pub cannot_move : String → String
cannot_move x = concat ("Cannot move out of '" ∷ x ∷ "' because it is behind a reference" ∷ [])

pub use_after_move : String → String
use_after_move x = concat ("Use after move: variable '" ∷ x ∷ "' has already been moved" ∷ [])

pub cannot_borrow_moved : String → String
cannot_borrow_moved x = concat ("Cannot borrow '" ∷ x ∷ "' because it has been moved" ∷ [])

pub already_mutable : String → String
already_mutable x =
    concat ("Cannot create immutable reference to '" ∷ x ∷ "': already mutably borrowed" ∷ [])

pub already_immutable : String → String
already_immutable x =
    concat ("Cannot create mutable reference to '" ∷ x ∷ "': already immutably borrowed" ∷ [])

pub mutable_twice : String → String
mutable_twice x =
    concat ("Cannot create mutable reference to '" ∷ x ∷ "': already mutably borrowed" ∷ [])

pub const_assign : String → String
const_assign x = concat ("Cannot assign to '" ∷ x ∷ "' through const reference" ∷ [])

pub use_of_moved : String → String
use_of_moved x = concat ("Use after move: variable '" ∷ x ∷ "' has been moved" ∷ [])

pub moved_in_loop : String → String
moved_in_loop x =
    let used : String = "' was moved in first iteration and used again in second iteration" in
    concat ("Use after move in loop: variable '" ∷ x ∷ used ∷ [])
