-- ===== src/Visiting/Checked.antt =====
-- From the entities of libclang to the errors of the borrow checker: src/parser/mod.rs,
-- src/ir/mod.rs and src/analysis/mod.rs one after the other.
use rustycpp.Common.{
  String, ◌≡◌, refl, Bool, true, false, Bool-cases, inl, inr, List, [], ◌∷◌, All, All-append, ok,
}
use rustycpp.Entities.{EntityKind, Answers, Entity, Children, entity, child}
use rustycpp.Ast.{Expression, CppAst}
use rustycpp.Build.Markers.{IsNestedBody}
use rustycpp.Annotations.{HeaderCache}
use rustycpp.Safety.{SafetyContext}
use rustycpp.Pipeline.Contexts.{analyze_ast}
use rustycpp.Pipeline.Analysis.{analyze_ast_total}
use rustycpp.Extraction.Answered.{IsAnswered, extract_variable_total}
use rustycpp.Extraction.Nested.{extract_function-IsNested}
use rustycpp.Visiting.{
  Visit, new, enter_location, push_function, push_variable, visit_definition, visit_kind,
  visit_entity, visit_children,
}

abbrev pub AllNested : CppAst → Type 0
AllNested ast = All (λ f. IsNestedBody 0 f.body) ast.functions

-- What is asked of an entity outside definitions: the definition of a function and a variable are
-- answered. Others may have no location, as the unit itself and what libclang declares implicitly.
abbrev pub IsReady : EntityKind → Bool → Entity → Type 0
IsReady EntityKind.function_decl true e = IsAnswered e
IsReady EntityKind.method true e = IsAnswered e
IsReady EntityKind.var_decl is_definition e = IsAnswered e
IsReady _ is_definition e = Unit

abbrev mutual
  pub IsReadable : Entity → Type 0
  IsReadable (entity kind answers children) =
      IsReady kind answers.is_definition (entity kind answers children) × AllReadable children

  pub AllReadable : Children → Type 0
  AllReadable Children.none = Unit
  AllReadable (child c rest) = IsReadable c × AllReadable rest

module _ (debug : Expression → String) where
  definition-AllNested :
      (e : Entity) (v : Visit)
      → IsAnswered e
      → AllNested v.ast
      → (v' : Visit) × (visit_definition debug e true v ≡ ok v') × AllNested v'.ast
  definition-AllNested e v h k =
      let (f, p, n) = extract_function-IsNested debug e h in
      (
        push_function v f,
        rw p refl,
        All-append (λ f. IsNestedBody 0 f.body) v.ast.functions (f ∷ []) k (n, tt),
      )

  kind-AllNested :
      (kind : EntityKind) (answers : Answers) (children : Children) (is_definition : Bool)
      (v : Visit)
      → IsReady kind is_definition (entity kind answers children)
      → AllNested v.ast
      → (v' : Visit) × (visit_kind debug kind (entity kind answers children) is_definition v
          ≡ ok v')
        × AllNested v'.ast
  kind-AllNested EntityKind.function_decl answers children true v h k =
      definition-AllNested (entity EntityKind.function_decl answers children) v h k
  kind-AllNested EntityKind.function_decl answers children false v h k = (v, refl, k)
  kind-AllNested EntityKind.method answers children true v h k =
      definition-AllNested (entity EntityKind.method answers children) v h k
  kind-AllNested EntityKind.method answers children false v h k = (v, refl, k)
  kind-AllNested EntityKind.var_decl answers children d v h k =
      let (var, p) = extract_variable_total (entity EntityKind.var_decl answers children) h h.1 in
      (push_variable v var, rw p refl, k)
  kind-AllNested _ answers children d v h k = (v, refl, k)

  mutual
    unfolding visit_entity

    entity-AllNested :
        (e : Entity) (v : Visit)
        → IsReadable e
        → AllNested v.ast
        → (v' : Visit) × (visit_entity debug e v ≡ ok v') × AllNested v'.ast
    entity-AllNested (entity kind answers children) v h k =
        let (enters, visited) = enter_location answers.location v.visited_files in
        let entered : Visit = record v { visited_files = visited } in
        elim (Bool-cases enters) [
          | inr p ↦ (entered, rw p refl, k)
          | inl p ↦
              let (found, q, n) =
                kind-AllNested kind answers children answers.is_definition entered h.0 k in
              let (last, r, m) = children-AllNested children found h.1 n in (last, rw (p, q) r, m)
        ]

    children-AllNested :
        (cs : Children) (v : Visit)
        → AllReadable cs
        → AllNested v.ast
        → (v' : Visit) × (visit_children debug cs v ≡ ok v') × AllNested v'.ast
    children-AllNested Children.none v h k = (v, refl, k)
    children-AllNested (child c rest) v (h, hs) k =
        let (v', p, n) = entity-AllNested c v h k in
        let (last, q, m) = children-AllNested rest v' hs n in (last, rw p q, m)

  -- Where libclang answers with locations and types for the definitions of functions and for
  -- variables, the walk over a unit ends with a tree, and the analysis of that tree, with any headers and any
  -- safety context, ends with a list of errors: nothing panics.
  pub visit_entity-checked :
      (header_cache : HeaderCache) (context : SafetyContext) (root : Entity)
      → IsReadable root
      → (v : Visit) × (errors : List String) × (visit_entity debug root new ≡ ok v)
        × (analyze_ast header_cache context v.ast ≡ ok errors)
  visit_entity-checked header_cache context root h =
      let (v, p, n) = entity-AllNested root new h tt in
      let (errors, q) = analyze_ast_total header_cache context v.ast n in (v, errors, p, q)
