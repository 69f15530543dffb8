-- ===== src/Propagation/Calls.antt =====
-- Which calls src/analysis/unsafe_propagation.rs, `find_unsafe_function_call`, finds: those at any
-- depth of an expression.
use rustycpp.Common.{
  String, ◌≡◌, inl, inr, true, false, Option, none, some, arith, is_some, or_else_left,
  or_else_right, or_else_cases, Bool-cases, StringSet, if◌then◌else◌,
}
use rustycpp.Ast.{Expression, Args, arg}
use rustycpp.Safety.{SafetyContext}
use rustycpp.Propagation.{is_function_safe, find_unsafe_function_call, find_unsafe_argument}

-- the functions that an expression calls
mutual
  pub data Calls : Expression → String → Type 0 where
    itself : (name : String) (args : Args) → Calls (Expression.function_call name args) name
    argument :
        (name : String) {args : Args} {f : String}
        → ArgCalls args f
        → Calls (Expression.function_call name args) f
    left :
        {l : Expression} (op : String) (r : Expression) {f : String}
        → Calls l f
        → Calls (Expression.binary_op l op r) f
    right :
        (l : Expression) (op : String) {r : Expression} {f : String}
        → Calls r f
        → Calls (Expression.binary_op l op r) f
    moved : {e : Expression} {f : String} → Calls e f → Calls (Expression.move e) f
    dereferenced : {e : Expression} {f : String} → Calls e f → Calls (Expression.dereference e) f
    addressed : {e : Expression} {f : String} → Calls e f → Calls (Expression.address_of e) f

  pub data ArgCalls : Args → String → Type 0 where
    first : {e : Expression} (args : Args) {f : String} → Calls e f → ArgCalls (arg e args) f
    later : (e : Expression) {args : Args} {f : String} → ArgCalls args f → ArgCalls (arg e args) f

module _ (context : SafetyContext) (known : StringSet) where
  abbrev IsUnsafe : String → Type 0
  IsUnsafe f = is_function_safe context known f ≡ false

  abbrev find : Expression → Option String
  find = find_unsafe_function_call context known

  abbrev find_arg : Args → Option String
  find_arg = find_unsafe_argument context known

  own_call_found :
      (name : String)
      → IsUnsafe name
      → is_some {A = String} (if is_function_safe context known name then none else some name)
        ≡ true
  own_call_found name h = rw h

  own_call_sound :
      (name : String) {f : String}
      → (if is_function_safe context known name then none else some name) ≡ some f
      → (name ≡ f) × IsUnsafe name
  own_call_sound name h = ground arith

  mutual
    unfolding find_unsafe_function_call

    finds : {e : Expression} {f : String} → Calls e f → IsUnsafe f → is_some (find e) ≡ true
    finds (itself name args) u = or_else_left _ (find_arg args) (own_call_found name u)
    finds (argument name {args = args} h) u = or_else_right _ (find_arg args) (arg_finds h u)
    finds (left {l = l} op r h) u = or_else_left (find l) (find r) (finds h u)
    finds (right l op {r = r} h) u = or_else_right (find l) (find r) (finds h u)
    finds (moved h) u = finds h u
    finds (dereferenced h) u = finds h u
    finds (addressed h) u = finds h u

    arg_finds :
        {args : Args} {f : String} → ArgCalls args f → IsUnsafe f → is_some (find_arg args) ≡ true
    arg_finds (first {e = e} args h) u = or_else_left (find e) (find_arg args) (finds h u)
    arg_finds (later e {args = args} h) u = or_else_right (find e) (find_arg args) (arg_finds h u)

  mutual
    unfolding find_unsafe_function_call

    found : (e : Expression) {f : String} → find e ≡ some f → Calls e f × IsUnsafe f
    found (Expression.variable _) h = cc
    found (Expression.literal _) h = cc
    found (Expression.move e) h = let (c, u) = found e h in (moved c, u)
    found (Expression.dereference e) h = let (c, u) = found e h in (dereferenced c, u)
    found (Expression.address_of e) h = let (c, u) = found e h in (addressed c, u)
    found (Expression.function_call name args) h = elim (or_else_cases _ (find_arg args) h) [
      | inl p ↦
          let (same, u) = own_call_sound name p in (rw (← same) (itself name args), rw (← same) u)
      | inr p ↦ let (c, u) = arg_found args p in (argument name c, u)
    ]
    found (Expression.binary_op l op r) h = elim (or_else_cases (find l) (find r) h) [
      | inl p ↦ let (c, u) = found l p in (left op r c, u)
      | inr p ↦ let (c, u) = found r p in (right l op c, u)
    ]

    arg_found : (args : Args) {f : String} → find_arg args ≡ some f → ArgCalls args f × IsUnsafe f
    arg_found Args.none h = cc
    arg_found (arg e args) h = elim (or_else_cases (find e) (find_arg args) h) [
      | inl p ↦ let (c, u) = found e p in (first args c, u)
      | inr p ↦ let (c, u) = arg_found args p in (later e c, u)
    ]

  -- An unsafe call that is found is a call in the expression, of a function that is not safe.
  pub find_unsafe_function_call_sound :
      (e : Expression) {f : String}
      → find_unsafe_function_call context known e ≡ some f
      → Calls e f × (is_function_safe context known f ≡ false)
  find_unsafe_function_call_sound e h = found e h

  -- If no unsafe call is found, every function called at any depth of the expression is safe.
  pub find_unsafe_function_call_complete :
      (e : Expression) {f : String}
      → find_unsafe_function_call context known e ≡ none
      → Calls e f
      → is_function_safe context known f ≡ true
  find_unsafe_function_call_complete e {f} h c =
      elim (Bool-cases (is_function_safe context known f)) [
        | inl safe ↦ safe
        | inr unsafe ↦ cc (rw h at (finds c unsafe))
      ]
