-- ===== src/Extraction/Answered.antt =====
-- Entities for which libclang answers what src/parser/ast_visitor.rs unwraps: a location, and the
-- type of a variable.
use rustycpp.Common.{
  String, [], ◌∷◌, ◌≡◌, refl, true, Option, none, some, is_some, ok, Bool-cases, inl, inr, List,
}
use rustycpp.Entities.{
  EntityKind, TypeInfo, FileLocation, Answers, Entity, Children, entity, child, kind_of, answers_of,
}
use rustycpp.Ast.{Variable, SourceLocation}
use rustycpp.Extraction.{
  is_var_decl, location_of, extract_location, extract_variable, variable_of, extract_parameters,
  is_parameter_kind,
}
use rustycpp.Expressions.{or_text}

-- variables have types
abbrev pub HasType : EntityKind → Answers → Type 0
HasType EntityKind.var_decl answers = is_some answers.type_info ≡ true
HasType EntityKind.parm_decl answers = is_some answers.type_info ≡ true
HasType _ answers = Unit

abbrev mutual
  pub IsAnswered : Entity → Type 0
  IsAnswered (entity kind answers children) =
      (is_some answers.location ≡ true) × HasType kind answers × AllAnswered children

  pub AllAnswered : Children → Type 0
  AllAnswered Children.none = Unit
  AllAnswered (child c rest) = IsAnswered c × AllAnswered rest

pub location_of_total :
    (l : Option FileLocation) → is_some l ≡ true → (at : SourceLocation) × (location_of l ≡ ok at)
location_of_total none h = cc
location_of_total (some l) h = (_, refl)

pub extract_location_total :
    (e : Entity) → IsAnswered e → (at : SourceLocation) × (extract_location e ≡ ok at)
extract_location_total (entity kind answers children) h = location_of_total answers.location h.0

variable_of_total :
    (name : String) (at : SourceLocation) (info : Option TypeInfo)
    → is_some info ≡ true
    → (v : Variable) × (variable_of name at info ≡ ok v)
variable_of_total name at none h = cc
variable_of_total name at (some info) h = (_, refl)

pub extract_variable_total :
    (e : Entity)
    → IsAnswered e
    → is_some (answers_of e).type_info ≡ true
    → (v : Variable) × (extract_variable e ≡ ok v)
unfolding extract_variable
extract_variable_total e h k =
    let (at, p) = extract_location_total e h in
    let (v, q) =
      variable_of_total (or_text (answers_of e).name "anonymous") at (answers_of e).type_info k in
    (v, rw (p, q) refl)

pub parameter-HasType :
    (e : Entity)
    → IsAnswered e
    → is_parameter_kind (kind_of e) ≡ true
    → is_some (answers_of e).type_info ≡ true
parameter-HasType (entity EntityKind.parm_decl answers children) h p = h.1
parameter-HasType (entity _ answers children) h p = cc

pub variable-HasType :
    (e : Entity)
    → IsAnswered e
    → is_var_decl (kind_of e) ≡ true
    → is_some (answers_of e).type_info ≡ true
variable-HasType (entity EntityKind.var_decl answers children) h p = h.1
variable-HasType (entity _ answers children) h p = cc

pub extract_parameters_total :
    (cs : Children) → AllAnswered cs → (vs : List Variable) × (extract_parameters cs ≡ ok vs)
unfolding extract_parameters
extract_parameters_total Children.none h = ([], refl)
extract_parameters_total (child c rest) (h, k) =
    let (vs, p) = extract_parameters_total rest k in
    elim (Bool-cases (is_parameter_kind (kind_of c))) [
      | inl yes_parameter ↦
          let (v, q) = extract_variable_total c h (parameter-HasType c h yes_parameter) in
          (v ∷ vs, rw (yes_parameter, q, p) refl)
      | inr other ↦ (vs, rw (other, p) refl)
    ]
