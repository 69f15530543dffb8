-- ===== src/Inference/Validation.antt =====
-- The check of the inferred lifetimes: src/analysis/lifetime_inference.rs, lines 184-274.
use Prim.Native.String.{len}
use rustycpp.Common.{
  ℕ, suc, eqb, String, ◌==◌, starts_with, Bool, not, ◌&&◌, ◌||◌, Option, none, some, List, [], ◌∷◌,
  ◌++◌, concat, if◌then◌else◌, is_some, Map, get, StringSet, contains,
}
use rustycpp.Ir.{BorrowKind, VariableType, VariableInfo, IrStatement, Block, nil, cons, IrFunction}
use rustycpp.Inference.{
  InferredLifetime, LifetimeInferencer, new, all_statements, infer_function_lifetimes,
  lifetimes_overlap, is_alive_at,
}

pub cannot_borrow : String → String
cannot_borrow from =
    concat ("Cannot borrow '" ∷ from ∷ "': variable is not alive at this point" ∷ [])

pub cannot_move : String → String
cannot_move from = concat ("Cannot move '" ∷ from ∷ "': variable is not alive at this point" ∷ [])

pub already_borrowed : String → String → String → String
already_borrowed to from other = concat (
    "Cannot create mutable borrow '" ∷ to ∷ "': '" ∷ from ∷ "' is already borrowed by '" ∷ other
    ∷ "'" ∷ [])

pub depends_on_local : String → String → String
depends_on_local val dep = concat (
    "Potential dangling reference: returning '" ∷ val ∷ "' which depends on local variable '" ∷ dep
    ∷ "'" ∷ [])

unfoldable pub is_likely_parameter : String → Bool
is_likely_parameter var_name =
    starts_with var_name "param" || starts_with var_name "arg" || eqb (len var_name) 1

module _ (inferencer : LifetimeInferencer) where
  -- the loop over the other borrows of the variable
  unfoldable pub conflicts : String → String → Map InferredLifetime → List String
  conflicts from to [] = []
  conflicts from to ((other, lifetime) ∷ lifetimes) =
      (if not (other == to)
          && contains lifetime.dependencies from
          && lifetimes_overlap inferencer to other
        then already_borrowed to from other ∷ []
        else [])
      ++ conflicts from to lifetimes

  abbrev pub mutable_conflicts : String → String → BorrowKind → List String
  mutable_conflicts from to BorrowKind.mutable = conflicts from to inferencer.lifetimes
  mutable_conflicts from to BorrowKind.immutable = []

  abbrev pub local_dependencies : String → StringSet → List String
  local_dependencies val [] = []
  local_dependencies val (dep ∷ deps) =
      (if is_likely_parameter dep then [] else depends_on_local val dep ∷ [])
      ++ local_dependencies val deps

  abbrev pub dependencies_of : String → Option InferredLifetime → List String
  dependencies_of val none = []
  dependencies_of val (some lifetime) = local_dependencies val lifetime.dependencies

  abbrev pub returned_type : String → VariableType → List String
  returned_type val (VariableType.reference _) = dependencies_of val (get inferencer.lifetimes val)
  returned_type val (VariableType.mutable_reference _) =
      dependencies_of val (get inferencer.lifetimes val)
  returned_type val _ = []

  abbrev pub check_returned : String → Option VariableInfo → List String
  check_returned val none = []
  check_returned val (some var_info) = returned_type val var_info.ty

  unfoldable pub validate_statement : IrFunction → IrStatement → ℕ → List String
  unfolding is_alive_at
  validate_statement function (IrStatement.borrow from to kind) index =
      (if is_some (get inferencer.lifetimes from) && not (is_alive_at inferencer from index)
        then cannot_borrow from ∷ []
        else [])
      ++ mutable_conflicts from to kind
  validate_statement function (IrStatement.move from to) index =
      if is_alive_at inferencer from index then [] else cannot_move from ∷ []
  validate_statement function (IrStatement.return (some val)) index =
      check_returned val (get function.variables val)
  validate_statement function _ index = []

  unfoldable pub validate_statements : IrFunction → Block → ℕ → List String
  unfolding validate_statement
  validate_statements function nil index = []
  validate_statements function (cons s b) index =
      validate_statement function s index ++ validate_statements function b (suc index)

unfoldable pub infer_and_validate_lifetimes : IrFunction → List String
unfolding validate_statements
infer_and_validate_lifetimes function =
    validate_statements (infer_function_lifetimes function new) function
      (all_statements function.cfg.blocks) 0
