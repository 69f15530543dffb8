-- ===== src/Extraction.antt =====
-- From the entities of libclang to the syntax tree: src/parser/ast_visitor.rs, lines 114-461.
-- `unwrap` of a missing location or type is a panic. The derived text of an expression,
-- `format!("{:?}", ...)`, is the parameter `debug`.
pub mod Answered
pub mod Nested
use mathlib.Core.Option
use rustycpp.Common.{
  ◌++◌, String, ◌==◌, contains_text, ends_with, Bool, true, false, not, ◌&&◌, ◌||◌, Option, none,
  some, or_else, List, [], ◌∷◌, if◌then◌else◌, Outcome, ok, panic, ◌>>=◌,
}
use rustycpp.Expressions.{or_text, extract_expression, extract_call, first_expression}
use rustycpp.Entities.{
  EntityKind, TypeKind, TypeInfo, FileLocation, Entity, Children, entity, child, kind_of,
  answers_of,
}
use rustycpp.Ast.{Variable, Expression, Args, Statement, Body, ElseBody, Function, SourceLocation}

abbrev pub location_of : Option FileLocation → Outcome SourceLocation
location_of none = panic
location_of (some l) =
    ok (record { file = or_text l.file "unknown"; line = l.line; column = l.column })

abbrev pub extract_location : Entity → Outcome SourceLocation
extract_location e = location_of (answers_of e).location

abbrev pub is_reference_kind : TypeKind → Bool
is_reference_kind TypeKind.l_value_reference = true
is_reference_kind TypeKind.r_value_reference = true
is_reference_kind _ = false

abbrev pub is_pointer_kind : TypeKind → Bool
is_pointer_kind TypeKind.pointer = true
is_pointer_kind _ = false

-- for a reference, whether what it refers to is const
abbrev pub is_const_type : Bool → TypeInfo → Option Bool → Bool
is_const_type true info (some pointee_const) = pointee_const
is_const_type _ info _ = info.is_const_qualified

abbrev pub variable_of : String → SourceLocation → Option TypeInfo → Outcome Variable
variable_of name location none = panic
variable_of name location (some info) =
    let is_ref = is_reference_kind info.kind in
    ok (record {
      name = name;
      type_name = info.display_name;
      is_reference = is_ref;
      is_pointer = is_pointer_kind info.kind;
      is_const = is_const_type is_ref info info.pointee;
      is_unique_ptr = contains_text info.display_name "unique_ptr";
      is_shared_ptr = contains_text info.display_name "shared_ptr";
      location = location;
    })

unfoldable pub extract_variable : Entity → Outcome Variable
extract_variable e = do
  location ← extract_location e
  variable_of (or_text (answers_of e).name "anonymous") location (answers_of e).type_info

-- `Vec::extend`
abbrev pub append_body : Body → Body → Body
append_body Body.nil b = b
append_body (Body.cons s a) b = Body.cons s (append_body a b)

abbrev pub one : Statement → Body
one s = Body.cons s Body.nil

abbrev pub initialise : Variable → Expression → SourceLocation → Statement
initialise var expr location =
    if var.is_reference
    then Statement.reference_binding var.name expr (not var.is_const) location
    else Statement.assignment var.name expr location

-- the statement of the first initialiser that is an expression
abbrev pub initialiser : Variable → Outcome SourceLocation → Option Expression → Outcome Body
initialiser var location none = ok Body.nil
initialiser var location (some expr) = do at ← location; ok (one (initialise var expr at))

abbrev pub children_of : Entity → Children
children_of (entity kind answers children) = children

unfoldable pub extract_declaration : Entity → Outcome Body
unfolding extract_variable
extract_declaration d = do
  var ← extract_variable d
  init ← initialiser var (extract_location d) (first_expression (children_of d))
  ok (Body.cons (Statement.variable_decl var) init)

abbrev pub is_var_decl : EntityKind → Bool
is_var_decl EntityKind.var_decl = true
is_var_decl _ = false

unfoldable pub extract_declarations : Children → Outcome Body
unfolding extract_declaration
extract_declarations Children.none = ok Body.nil
extract_declarations (child d rest) = do
  here ← if is_var_decl (kind_of d) then extract_declaration d else ok Body.nil
  others ← extract_declarations rest
  ok (append_body here others)

-- The parts of an `if` found so far. A branch goes to `then` while that is empty.
pub record IfParts : Type 0 where
  pub condition : Expression
  pub then_branch : Body
  pub else_branch : ElseBody

abbrev pub no_parts : IfParts
no_parts = record {
  condition = Expression.literal "true";
  then_branch = Body.nil;
  else_branch = ElseBody.absent;
}

abbrev pub is_condition : EntityKind → Bool
is_condition EntityKind.unexposed_expr = true
is_condition EntityKind.binary_operator = true
is_condition _ = false

abbrev pub is_compound : EntityKind → Bool
is_compound EntityKind.compound_stmt = true
is_compound _ = false

abbrev pub with_condition : Option Expression → IfParts → IfParts
with_condition none parts = parts
with_condition (some e) parts = record parts { condition = e }

abbrev pub is_empty_body : Body → Bool
is_empty_body Body.nil = true
is_empty_body _ = false

abbrev pub with_branch : Body → IfParts → IfParts
with_branch b parts =
    if is_empty_body parts.then_branch
    then record parts { then_branch = b }
    else record parts { else_branch = ElseBody.present b }

abbrev pub is_parameter_kind : EntityKind → Bool
is_parameter_kind EntityKind.parm_decl = true
is_parameter_kind _ = false

unfoldable pub extract_parameters : Children → Outcome (List Variable)
unfolding extract_variable
extract_parameters Children.none = ok []
extract_parameters (child c rest) = do
  here ← if is_parameter_kind (kind_of c) then extract_variable c >>= (λ v. ok (v ∷ [])) else ok []
  others ← extract_parameters rest
  ok (here ++ others)

abbrev pub result_name : Option TypeInfo → String
result_name none = "void"
result_name (some info) = info.display_name

module _ (debug : Expression → String) where
  abbrev pub assign_both :
      Outcome SourceLocation → Option Expression → Option Expression → Outcome Body
  assign_both location (some lhs) (some rhs) = do
    at ← location
    ok (one (Statement.assignment (debug lhs) rhs at))
  assign_both location _ _ = ok Body.nil

  unfoldable mutual
    -- one child of a compound statement
    pub extract_statement : Entity → Outcome Body
    extract_statement (entity EntityKind.decl_stmt answers children) = extract_declarations children
    extract_statement
          (entity EntityKind.binary_operator answers (child l (child r Children.none))) =
        assign_both (location_of answers.location) (extract_expression l) (extract_expression r)
    extract_statement (entity EntityKind.call_expr answers children) =
        let (name, args) = extract_call children "unknown" in
        do at ← location_of answers.location; ok (one (Statement.function_call name args at))
    extract_statement (entity EntityKind.return_stmt answers children) =
        ok (one (Statement.return none))
    extract_statement (entity EntityKind.compound_stmt answers children) = do
      inner ← extract_statements children
      ok (Body.cons Statement.enter_scope (append_body inner (one Statement.exit_scope)))
    extract_statement (entity EntityKind.for_stmt answers children) = do
      inner ← extract_compounds children
      ok (Body.cons Statement.enter_loop (append_body inner (one Statement.exit_loop)))
    extract_statement (entity EntityKind.while_stmt answers children) = do
      inner ← extract_compounds children
      ok (Body.cons Statement.enter_loop (append_body inner (one Statement.exit_loop)))
    extract_statement (entity EntityKind.do_stmt answers children) = do
      inner ← extract_compounds children
      ok (Body.cons Statement.enter_loop (append_body inner (one Statement.exit_loop)))
    extract_statement (entity EntityKind.if_stmt answers children) = do
      parts ← extract_if children no_parts
      at ← location_of answers.location
      ok (one (Statement.if_else parts.condition parts.then_branch parts.else_branch at))
    extract_statement _ = ok Body.nil

    -- the loop over the children of a compound statement
    pub extract_statements : Children → Outcome Body
    extract_statements Children.none = ok Body.nil
    extract_statements (child c rest) = do
      here ← extract_statement c
      others ← extract_statements rest
      ok (append_body here others)

    pub extract_compound_statement : Entity → Outcome Body
    extract_compound_statement (entity kind answers children) = extract_statements children

    -- the compound statements among the children, one after the other
    pub extract_compounds : Children → Outcome Body
    extract_compounds Children.none = ok Body.nil
    extract_compounds (child c rest) = do
      here ← if is_compound (kind_of c) then extract_compound_statement c else ok Body.nil
      others ← extract_compounds rest
      ok (append_body here others)

    -- the loop over the children of an `if`
    pub extract_if : Children → IfParts → Outcome IfParts
    extract_if Children.none parts = ok parts
    extract_if (child c rest) parts = do
      next ←
          if is_condition (kind_of c)
          then ok (with_condition (extract_expression c) parts)
          else if is_compound (kind_of c)
          then extract_compound_statement c >>= (λ b. ok (with_branch b parts))
          else ok parts
      extract_if rest next

  unfoldable pub extract_function : Entity → Outcome Function
  extract_function e = do
    location ← extract_location e
    parameters ← extract_parameters (children_of e)
    body ← extract_compounds (children_of e)
    ok (record {
      name = or_text (answers_of e).name "anonymous";
      parameters = parameters;
      return_type = result_name (answers_of e).result_type;
      body = body;
      location = location;
    })
