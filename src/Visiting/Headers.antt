-- ===== src/Visiting/Headers.antt =====
-- What the rule "each header once" of `visit_entity` in src/parser/mod.rs, lines 130-142, leaves of
-- a header: the file counts as visited from its first entity on.
use rustycpp.Common.{
  ◌∙◌, Bool, false, ◌||◌, add, if◌then◌else◌, eq_iff, contains-add, String, true, false, ◌≡◌, refl,
  Bool-cases, inl, inr, Option, some, contains, StringSet, ok, arith,
}
use rustycpp.Entities.{EntityKind, FileLocation, Answers, Entity, Children, entity, child}
use rustycpp.Ast.{Expression}
use rustycpp.Visiting.{
  Visit, is_system_header, is_third_party, visit_kind, enter_file, enter_location, visit_entity,
  visit_children,
}

-- an entity whose location is in the header `path`
abbrev pub IsInHeader : String → Option FileLocation → Type 0
IsInHeader path (some l) = (l.file ≡ some path) × (l.is_in_main_file ≡ false)
IsInHeader path _ = ⊥

abbrev pub AllInHeader : String → Children → Type 0
AllInHeader path Children.none = Unit
AllInHeader path (child (entity kind answers children) rest) =
    IsInHeader path answers.location × AllInHeader path rest

visited_skips :
    (path : String) (visited : StringSet)
    → contains visited path ≡ true
    → enter_file path false visited ≡ (false, visited)
unfolding enter_file
visited_skips path visited h = ground (arith, h)

entered_contains :
    (path : String) (visited : StringSet)
    → (enter_file path false visited).0 ≡ true
    → contains (enter_file path false visited).1 path ≡ true
unfolding enter_file
entered_contains path visited h =
    ground (arith, h, contains-add visited path path, eq_iff path path)

location_enters :
    (path : String) (l : Option FileLocation) (visited : StringSet)
    → IsInHeader path l
    → enter_location l visited ≡ enter_file path false visited
location_enters path (some l) visited (p, q) = rw (p, q) refl
location_enters path Option.none visited h = absurd h

-- no function, method or variable
abbrev pub IsOther : EntityKind → Type 0
IsOther EntityKind.function_decl = ⊥
IsOther EntityKind.method = ⊥
IsOther EntityKind.var_decl = ⊥
IsOther _ = Unit

-- the visited files after an entity of a header
abbrev pub with_header : String → StringSet → StringSet
with_header path visited =
    if is_system_header path || is_third_party path then visited else add visited path

enter_file-with_header :
    (path : String) (visited : StringSet)
    → (enter_file path false visited).1 ≡ with_header path visited
unfolding enter_file add
enter_file-with_header path visited =
    elim (Bool-cases (is_system_header path || is_third_party path)) [
      | inl p ↦ rw p refl
      | inr p ↦ elim (Bool-cases (contains visited path)) [
        | inl q ↦ rw (p, q) refl
        | inr q ↦ rw (p, q) refl
      ]
    ]

module _ (debug : Expression → String) where
  children-skipped :
      (path : String) (cs : Children) (v : Visit)
      → AllInHeader path cs
      → contains v.visited_files path ≡ true
      → visit_children debug cs v ≡ ok v
  unfolding visit_entity
  children-skipped path Children.none v h seen = refl
  children-skipped path (child (entity kind answers children) rest) v (h, k) seen =
      rw
        (
          location_enters path answers.location v.visited_files h,
          visited_skips path v.visited_files seen,
        )
        (children-skipped path rest v k seen)

  visit_kind-other :
      (kind : EntityKind) (e : Entity) (is_definition : Bool) (v : Visit)
      → IsOther kind
      → visit_kind debug kind e is_definition v ≡ ok v
  visit_kind-other EntityKind.function_decl e d v h = absurd h
  visit_kind-other EntityKind.method e d v h = absurd h
  visit_kind-other EntityKind.var_decl e d v h = absurd h
  visit_kind-other _ e d v h = refl

  -- An entity of a header that is no function, method or variable, with children that are all in
  -- the same header, adds nothing to the tree: the files that count as visited stay the same where
  -- the header is one of the system or of a third party, and else grow by the header alone.
  pub visit_entity-header :
      (path : String) (kind : EntityKind) (answers : Answers) (children : Children) (v : Visit)
      → IsOther kind
      → IsInHeader path answers.location
      → AllInHeader path children
      → visit_entity debug (entity kind answers children) v
        ≡ ok (record v { visited_files = with_header path v.visited_files })
  unfolding visit_entity
  visit_entity-header path kind answers children v other h k =
      let (enters, visited) = enter_file path false v.visited_files in
      let inside : Visit = record v { visited_files = visited } in
      let nothing =
        visit_kind-other kind (entity kind answers children) answers.is_definition inside other in
      let marked = enter_file-with_header path v.visited_files in
      elim (Bool-cases enters) [
        | inl p ↦
            rw (location_enters path answers.location v.visited_files h, p, nothing)
              (children-skipped path children inside k (entered_contains path v.visited_files p)
                ∙ rw marked refl)
        | inr p ↦ rw (location_enters path answers.location v.visited_files h, p, marked) refl
      ]
