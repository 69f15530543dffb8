-- ===== src/Propagation/Statements.antt =====
-- Which statements src/analysis/unsafe_propagation.rs, `check_unsafe_propagation`, reports.
use mathlib.Core.Option
use rustycpp.Common.{
  ap, String, ◌≤◌, ◌<◌, ◌≡◌, refl, inl, inr, true, false, Option, none, some, arith, is_some,
  or_else, or_else_left, or_else_right, Option-cases, Bool-cases, StringSet, List, [], ◌∷◌, length,
  length-append,
}
use rustycpp.Ast.{
  Expression, Args, Statement, Body, nil, cons, ElseBody, present, Function, SourceLocation,
}
use rustycpp.Pointers.{push_found, in_function}
use rustycpp.Safety.{SafetyContext}
use rustycpp.Propagation.{
  is_function_safe, find_unsafe_function_call, check_statement_for_unsafe_calls, check_body,
  check_each, check_unsafe_propagation,
}
use rustycpp.Propagation.Calls.{Calls, find_unsafe_function_call_complete}

-- The calls in the places that the checker looks at: the callee of a call statement, assigned and
-- returned expressions, conditions, and all these in branches and blocks. The arguments of a call
-- statement and the targets of reference bindings are not among them.
mutual
  pub data Performs : Statement → String → Type 0 where
    calls :
        (name : String) (args : Args) (l : SourceLocation)
        → Performs (Statement.function_call name args l) name
    assigns :
        (lhs : String) {e : Expression} (l : SourceLocation) {f : String}
        → Calls e f
        → Performs (Statement.assignment lhs e l) f
    returns : {e : Expression} {f : String} → Calls e f → Performs (Statement.return (some e)) f
    tests :
        {e : Expression} (t : Body) (o : ElseBody) (l : SourceLocation) {f : String}
        → Calls e f
        → Performs (Statement.if_else e t o l) f
    thens :
        (e : Expression) {t : Body} (o : ElseBody) (l : SourceLocation) {f : String}
        → BodyPerforms t f
        → Performs (Statement.if_else e t o l) f
    elses :
        (e : Expression) (t : Body) {b : Body} (l : SourceLocation) {f : String}
        → BodyPerforms b f
        → Performs (Statement.if_else e t (present b) l) f
    nested : {b : Body} {f : String} → BodyPerforms b f → Performs (Statement.block b) f

  pub data BodyPerforms : Body → String → Type 0 where
    first : {s : Statement} (rest : Body) {f : String} → Performs s f → BodyPerforms (cons s rest) f
    later :
        (s : Statement) {rest : Body} {f : String}
        → BodyPerforms rest f
        → BodyPerforms (cons s rest) f

is_some-map : {A B : Type 0} (f : A → B) (o : Option A) → is_some (Option.map f o) ≡ is_some o
is_some-map f none = refl
is_some-map f (some a) = refl

or_else-map :
    {A B : Type 0} (f : A → B) (o : Option A) (b : Option B)
    → is_some o ≡ true
    → is_some (or_else (Option.map f o) b) ≡ true
or_else-map f none b h = cc
or_else-map f (some a) b h = refl

module _ (context : SafetyContext) (known : StringSet) where
  abbrev find : Expression → Option String
  find = find_unsafe_function_call context known

  find-is_some :
      {e : Expression} {f : String}
      → Calls e f
      → is_function_safe context known f ≡ false
      → is_some (find e) ≡ true
  find-is_some {e} c u = elim (Option-cases (find e)) [
    | inl p ↦ cc (find_unsafe_function_call_complete context known e p c)
    | inr (g, p) ↦ rw p
  ]

  mutual
    unfolding check_statement_for_unsafe_calls

    reported :
        {s : Statement} {f : String}
        → Performs s f
        → is_function_safe context known f ≡ false
        → is_some (check_statement_for_unsafe_calls context known s) ≡ true
    reported (calls name args l) u = rw u
    reported (assigns lhs {e = e} l c) u = rw (is_some-map _ (find e)) (find-is_some c u)
    reported (returns {e = e} c) u = rw (is_some-map _ (find e)) (find-is_some c u)
    reported (tests {e = e} t o l c) u = or_else-map _ (find e) _ (find-is_some c u)
    reported (thens e {t = t} o l h) u =
        or_else_right _ _ (or_else_left (check_body context known t) _ (body_reported h u))
    reported (elses e t {b = b} l h) u = or_else_right _ _ (
        or_else_right (check_body context known t) (check_body context known b) (body_reported h u))
    reported (nested h) u = body_reported h u

    body_reported :
        {b : Body} {f : String}
        → BodyPerforms b f
        → is_function_safe context known f ≡ false
        → is_some (check_body context known b) ≡ true
    body_reported (first {s = s} rest h) u =
        or_else_left (check_statement_for_unsafe_calls context known s)
          (check_body context known rest) (reported h u)
    body_reported (later s {rest = rest} h) u =
        or_else_right (check_statement_for_unsafe_calls context known s)
          (check_body context known rest) (body_reported h u)

  push_found-grows :
      (name : String) (found : Option String) (errors : List String)
      → length errors ≤ length (push_found name found errors)
  push_found-grows name none errors = omega arith
  push_found-grows name (some e) errors =
      omega (arith, length-append errors (in_function name e ∷ []))

  push_found-pushes :
      (name : String) (found : Option String) (errors : List String)
      → is_some found ≡ true
      → length errors < length (push_found name found errors)
  push_found-pushes name none errors h = cc
  push_found-pushes name (some e) errors h =
      omega (arith, length-append errors (in_function name e ∷ []))

  check_each-grows :
      (name : String) (b : Body) (errors : List String)
      → length errors ≤ length (check_each context known name b errors)
  unfolding check_each
  check_each-grows name nil errors = omega arith
  check_each-grows name (cons s rest) errors =
      let found = check_statement_for_unsafe_calls context known s in
      omega (
        arith,
        push_found-grows name found errors,
        check_each-grows name rest (push_found name found errors),
      )

  check_each-reports :
      (name : String) {b : Body} (errors : List String) {f : String}
      → BodyPerforms b f
      → is_function_safe context known f ≡ false
      → length errors < length (check_each context known name b errors)
  unfolding check_each
  check_each-reports name errors (first {s = s} rest h) u =
      let found = check_statement_for_unsafe_calls context known s in
      omega (
        arith,
        push_found-pushes name found errors (reported h u),
        check_each-grows name rest (push_found name found errors),
      )
  check_each-reports name errors (later s h) u =
      let found = check_statement_for_unsafe_calls context known s in
      omega (
        arith,
        push_found-grows name found errors,
        check_each-reports name (push_found name found errors) h u,
      )

  -- A function that is reported for nothing calls only safe functions in all the places that the
  -- checker looks at, nested branches and blocks among them.
  pub check_unsafe_propagation_complete :
      (fn : Function) {f : String}
      → check_unsafe_propagation context known fn ≡ []
      → BodyPerforms fn.body f
      → is_function_safe context known f ≡ true
  unfolding check_unsafe_propagation
  check_unsafe_propagation_complete fn {f} clean h =
      elim (Bool-cases (is_function_safe context known f)) [
        | inl safe ↦ safe
        | inr unsafe ↦
            absurd (omega (arith, check_each-reports fn.name [] h unsafe, ap length clean))
      ]
