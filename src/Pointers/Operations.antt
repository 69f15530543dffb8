-- ===== src/Pointers/Operations.antt =====
-- What src/analysis/pointer_safety.rs, `contains_pointer_operation`, finds: dereferences and
-- addresses in the arguments of calls and in the operands of operators.
use rustycpp.Common.{
  true, is_some, or_else_left, or_else_right, or_else_cases, String, ◌≡◌, refl, ◌↔◌, inl, inr, none,
  some, Option-cases,
}
use rustycpp.Ast.{Expression, Args, arg}
use rustycpp.Pointers.{contains_pointer_operation, first_pointer_operation}

-- A dereference or an address stands where it is evaluated outside a `std::move`.
mutual
  pub data Operates : Expression → Type 0 where
    dereferences : (e : Expression) → Operates (Expression.dereference e)
    addresses : (e : Expression) → Operates (Expression.address_of e)
    passes :
        (name : String) {args : Args}
        → ArgOperates args
        → Operates (Expression.function_call name args)
    left :
        {l : Expression} (op : String) (r : Expression)
        → Operates l
        → Operates (Expression.binary_op l op r)
    right :
        (l : Expression) (op : String) {r : Expression}
        → Operates r
        → Operates (Expression.binary_op l op r)

  pub data ArgOperates : Args → Type 0 where
    first : {e : Expression} (args : Args) → Operates e → ArgOperates (arg e args)
    later : (e : Expression) {args : Args} → ArgOperates args → ArgOperates (arg e args)

mutual
  unfolding contains_pointer_operation

  finds : {e : Expression} → Operates e → is_some (contains_pointer_operation e) ≡ true
  finds (dereferences e) = refl
  finds (addresses e) = refl
  finds (passes name h) = arg_finds h
  finds (left {l = l} op r h) =
      or_else_left (contains_pointer_operation l) (contains_pointer_operation r) (finds h)
  finds (right l op {r = r} h) =
      or_else_right (contains_pointer_operation l) (contains_pointer_operation r) (finds h)

  arg_finds : {args : Args} → ArgOperates args → is_some (first_pointer_operation args) ≡ true
  arg_finds (first {e = e} args h) =
      or_else_left (contains_pointer_operation e) (first_pointer_operation args) (finds h)
  arg_finds (later e {args = args} h) =
      or_else_right (contains_pointer_operation e) (first_pointer_operation args) (arg_finds h)

mutual
  unfolding contains_pointer_operation

  found : (e : Expression) {op : String} → contains_pointer_operation e ≡ some op → Operates e
  found (Expression.variable _) h = cc
  found (Expression.move _) h = cc
  found (Expression.dereference e) h = dereferences e
  found (Expression.address_of e) h = addresses e
  found (Expression.function_call name args) h = passes name (arg_found args h)
  found (Expression.literal _) h = cc
  found (Expression.binary_op l op r) h =
      elim (or_else_cases (contains_pointer_operation l) (contains_pointer_operation r) h) [
        | inl p ↦ left op r (found l p)
        | inr p ↦ right l op (found r p)
      ]

  arg_found :
      (args : Args) {op : String} → first_pointer_operation args ≡ some op → ArgOperates args
  arg_found Args.none h = cc
  arg_found (arg e args) h =
      elim (or_else_cases (contains_pointer_operation e) (first_pointer_operation args) h) [
        | inl p ↦ first args (found e p)
        | inr p ↦ later e (arg_found args p)
      ]

-- The search finds nothing exactly when no dereference and no address stands in the expression
-- itself, in the arguments of a call or in an operand.
pub contains_pointer_operation_iff :
    (e : Expression) → ¬ (Operates e) ↔ (contains_pointer_operation e ≡ none)
contains_pointer_operation_iff e = (
  λ h. elim (Option-cases (contains_pointer_operation e)) [
    | inl p ↦ p
    | inr (op, p) ↦ absurd (h (found e p))
  ],
  λ p h. cc (rw p at (finds h)),
)
