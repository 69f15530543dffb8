-- ===== src/Extraction/Nested.antt =====
-- The markers of loops that src/parser/ast_visitor.rs, `extract_compound_statement`, emits.
use rustycpp.Common.{
  ◌>>=◌, String, ℕ, zero, suc, ◌≡◌, refl, true, Bool, false, Option, none, some, inl, inr,
  Bool-cases, ok, Outcome, if◌then◌else◌,
}
use rustycpp.Entities.{EntityKind, Entity, Children, entity, child, kind_of}
use rustycpp.Ast.{Variable, Expression, Statement, Body, Function, SourceLocation}
use rustycpp.Build.Markers.{IsNestedBody}
use rustycpp.Extraction.{
  append_body, one, extract_location, location_of, initialise, initialiser, extract_declaration,
  extract_declarations, is_var_decl, children_of, assign_both, is_compound, is_condition, IfParts,
  no_parts, with_branch, with_condition, extract_statement, extract_statements,
  extract_compound_statement, extract_compounds, extract_if, extract_function, result_name,
}
use rustycpp.Expressions.{first_expression, extract_expression, extract_call, or_text}
use rustycpp.Extraction.Answered.{
  IsAnswered, AllAnswered, location_of_total, extract_location_total, extract_variable_total,
  extract_parameters_total, variable-HasType,
}

-- `a` open loops on top of `b`
abbrev on_top : ℕ → ℕ → ℕ
on_top zero b = b
on_top (suc a) b = suc (on_top a b)

append-IsNestedBody :
    (depth base : ℕ) (a b : Body)
    → IsNestedBody depth a
    → IsNestedBody base b
    → IsNestedBody (on_top depth base) (append_body a b)
append-IsNestedBody zero base Body.nil b h k = k
append-IsNestedBody (suc depth) base Body.nil b h k = absurd h
append-IsNestedBody depth base (Body.cons Statement.enter_loop a) b h k =
    append-IsNestedBody (suc depth) base a b h k
append-IsNestedBody zero base (Body.cons Statement.exit_loop a) b h k = absurd h
append-IsNestedBody (suc depth) base (Body.cons Statement.exit_loop a) b h k =
    append-IsNestedBody depth base a b h k
append-IsNestedBody depth base (Body.cons s a) b h k = append-IsNestedBody depth base a b h k

-- a result, with nested markers
abbrev IsExtracted : Outcome Body → Type 0
IsExtracted m = (b : Body) × (m ≡ ok b) × IsNestedBody 0 b

nothing : IsExtracted (ok Body.nil)
nothing = (Body.nil, refl, tt)

if-IsExtracted :
    (t : Bool) (m : Outcome Body)
    → (t ≡ true → IsExtracted m)
    → IsExtracted (if t then m else ok Body.nil)
if-IsExtracted true m h = h refl
if-IsExtracted false m h = nothing

initialise-IsNestedBody :
    (v : Variable) (e : Expression) (at : SourceLocation) → IsNestedBody 0 (one (initialise v e at))
initialise-IsNestedBody v e at = elim (Bool-cases v.is_reference) [
  | inl p ↦ rw p tt
  | inr p ↦ rw p tt
]

initialiser-IsExtracted :
    (v : Variable) (d : Entity) (e : Option Expression)
    → IsAnswered d
    → IsExtracted (initialiser v (extract_location d) e)
initialiser-IsExtracted v d none h = nothing
initialiser-IsExtracted v d (some e) h =
    let (at, p) = extract_location_total d h in
    (one (initialise v e at), rw p refl, initialise-IsNestedBody v e at)

declaration-IsExtracted :
    (d : Entity)
    → IsAnswered d
    → is_var_decl (kind_of d) ≡ true
    → IsExtracted (extract_declaration d)
unfolding extract_declaration
declaration-IsExtracted d h k =
    let (v, p) = extract_variable_total d h (variable-HasType d h k) in
    let (b, q, n) = initialiser-IsExtracted v d (first_expression (children_of d)) h in
    (Body.cons (Statement.variable_decl v) b, rw (p, q) refl, n)

declarations-IsExtracted : (cs : Children) → AllAnswered cs → IsExtracted (extract_declarations cs)
unfolding extract_declarations
declarations-IsExtracted Children.none h = nothing
declarations-IsExtracted (child d rest) (h, k) =
    let (a, p, m) =
      if-IsExtracted (is_var_decl (kind_of d)) (extract_declaration d)
        (declaration-IsExtracted d h) in
    let (b, q, n) = declarations-IsExtracted rest k in
    (append_body a b, rw (p, q) refl, append-IsNestedBody 0 0 a b m n)

module _ (debug : Expression → String) where
  assign-IsExtracted :
      (l : Outcome SourceLocation) (at : SourceLocation) (a b : Option Expression)
      → l ≡ ok at
      → IsExtracted (assign_both debug l a b)
  assign-IsExtracted l at (some a) (some b) p =
      (one (Statement.assignment (debug a) b at), rw p refl, tt)
  assign-IsExtracted l at none b p = nothing
  assign-IsExtracted l at (some a) none p = nothing

  in_loop :
      (m : Outcome Body)
      → IsExtracted m
      → IsExtracted (
          m >>= λ inner.
          ok (Body.cons Statement.enter_loop (append_body inner (one Statement.exit_loop))))
  in_loop m (b, p, n) = (
    Body.cons Statement.enter_loop (append_body b (one Statement.exit_loop)),
    rw p refl,
    append-IsNestedBody 0 1 b (one Statement.exit_loop) n tt,
  )

  mutual
    unfolding extract_statement

    statement-IsExtracted : (e : Entity) → IsAnswered e → IsExtracted (extract_statement debug e)
    statement-IsExtracted (entity EntityKind.decl_stmt answers children) h =
        declarations-IsExtracted children h.2
    statement-IsExtracted
          (entity EntityKind.binary_operator answers (child l (child r Children.none))) h =
        let (at, p) = location_of_total answers.location h.0 in
        assign-IsExtracted (location_of answers.location) at (extract_expression l)
          (extract_expression r) p
    statement-IsExtracted (entity EntityKind.call_expr answers children) h =
        let (at, p) = location_of_total answers.location h.0 in
        let (name, args) = extract_call children "unknown" in
        (one (Statement.function_call name args at), rw p refl, tt)
    statement-IsExtracted (entity EntityKind.return_stmt answers children) h =
        (one (Statement.return none), refl, tt)
    statement-IsExtracted (entity EntityKind.compound_stmt answers children) h =
        let (b, p, n) = statements-IsExtracted children h.2 in
        (
          Body.cons Statement.enter_scope (append_body b (one Statement.exit_scope)),
          rw p refl,
          append-IsNestedBody 0 0 b (one Statement.exit_scope) n tt,
        )
    statement-IsExtracted (entity EntityKind.for_stmt answers children) h =
        in_loop (extract_compounds debug children) (compounds-IsExtracted children h.2)
    statement-IsExtracted (entity EntityKind.while_stmt answers children) h =
        in_loop (extract_compounds debug children) (compounds-IsExtracted children h.2)
    statement-IsExtracted (entity EntityKind.do_stmt answers children) h =
        in_loop (extract_compounds debug children) (compounds-IsExtracted children h.2)
    statement-IsExtracted (entity EntityKind.if_stmt answers children) h =
        let (parts, p) = if_total children no_parts h.2 in
        let (at, q) = location_of_total answers.location h.0 in
        (
          one (Statement.if_else parts.condition parts.then_branch parts.else_branch at),
          rw (p, q) refl,
          tt,
        )
    statement-IsExtracted (entity _ answers children) h = nothing

    statements-IsExtracted :
        (cs : Children) → AllAnswered cs → IsExtracted (extract_statements debug cs)
    statements-IsExtracted Children.none h = nothing
    statements-IsExtracted (child c rest) (h, k) =
        let (a, p, m) = statement-IsExtracted c h in
        let (b, q, n) = statements-IsExtracted rest k in
        (append_body a b, rw (p, q) refl, append-IsNestedBody 0 0 a b m n)

    compound-IsExtracted :
        (e : Entity) → IsAnswered e → IsExtracted (extract_compound_statement debug e)
    compound-IsExtracted (entity kind answers children) h = statements-IsExtracted children h.2

    compounds-IsExtracted :
        (cs : Children) → AllAnswered cs → IsExtracted (extract_compounds debug cs)
    compounds-IsExtracted Children.none h = nothing
    compounds-IsExtracted (child c rest) (h, k) =
        let (a, p, m) =
          if-IsExtracted (is_compound (kind_of c)) (extract_compound_statement debug c)
            (λ _. compound-IsExtracted c h) in
        let (b, q, n) = compounds-IsExtracted rest k in
        (append_body a b, rw (p, q) refl, append-IsNestedBody 0 0 a b m n)

    if_total :
        (cs : Children) (parts : IfParts)
        → AllAnswered cs
        → (parts' : IfParts) × (extract_if debug cs parts ≡ ok parts')
    if_total Children.none parts h = (parts, refl)
    if_total (child c rest) parts (h, k) = elim (Bool-cases (is_condition (kind_of c))) [
      | inl p ↦
          let (last, q) = if_total rest (with_condition (extract_expression c) parts) k in
          (last, rw p q)
      | inr p ↦ elim (Bool-cases (is_compound (kind_of c))) [
        | inl q ↦
            let (b, r, n) = compound-IsExtracted c h in
            let (last, s) = if_total rest (with_branch b parts) k in (last, rw (p, q, r) s)
        | inr q ↦ let (last, s) = if_total rest parts k in (last, rw (p, q) s)
      ]
    ]

  -- A function entity for which libclang answers with a location for every entity and a type for
  -- every variable is extracted without a panic, and the markers of loops in the statements are
  -- nested.
  pub extract_function-IsNested :
      (e : Entity)
      → IsAnswered e
      → (f : Function) × (extract_function debug e ≡ ok f) × IsNestedBody 0 f.body
  unfolding extract_function
  extract_function-IsNested (entity kind answers children) h =
      let (at, p) = extract_location_total (entity kind answers children) h in
      let (vs, q) = extract_parameters_total children h.2 in
      let (b, r, n) = compounds-IsExtracted children h.2 in
      (
        record {
          name = or_text answers.name "anonymous";
          parameters = vs;
          return_type = result_name answers.result_type;
          body = b;
          location = at;
        },
        rw (p, q, r) refl,
        n,
      )
