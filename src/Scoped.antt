-- ===== src/Scoped.antt =====
-- Statements that keep their nesting, and their conversion to statements with markers:
-- src/parser/block_scope_tracker.rs, lines 1-220. No module of the crate declares the file. What
-- the code itself calls placeholders is translated as it stands.
pub mod Reading
use rustycpp.Common.{String, Option, none, some, or_else, List, [], ◌∷◌, ◌++◌, if◌then◌else◌}
use rustycpp.Entities.{EntityKind, Entity, Children, entity, child, kind_of}
use rustycpp.Ast.{Expression, Statement, Body}
use rustycpp.Ir.{IrStatement}
use rustycpp.Extraction.{is_compound}

-- `do_while` is never made
pub data LoopKind : Type 0 where
  for while do_while : LoopKind

-- `ScopedStatements` is `Vec<ScopedStatement>`, and `OptionalStatement` is an option of a box.
mutual
  pub data ScopedStatement : Type 0 where
    statement : Statement → ScopedStatement
    block : ScopedStatements → ScopedStatement
    conditional : Expression → ScopedStatement → OptionalStatement → ScopedStatement
    loop : LoopKind → Option Expression → ScopedStatement → ScopedStatement

  pub data ScopedStatements : Type 0 where
    nil : ScopedStatements
    cons : ScopedStatement → ScopedStatements → ScopedStatements

  pub data OptionalStatement : Type 0 where
    absent : OptionalStatement
    present : ScopedStatement → OptionalStatement

pub data IrScopedStatement : Type 0 where
  statement : IrStatement → IrScopedStatement
  enter_scope exit_scope : IrScopedStatement
  begin_conditional end_conditional : IrScopedStatement
  begin_loop end_loop : IrScopedStatement

abbrev pub extract_expression : Entity → Option Expression
extract_expression (entity EntityKind.decl_ref_expr answers _) = name_of answers.name
  where
    name_of : Option String → Option Expression
    name_of none = none
    name_of (some name) = some (Expression.variable name)
extract_expression _ = some (Expression.literal "unknown")

abbrev pub extract_regular_statement : EntityKind → Option Statement
extract_regular_statement EntityKind.decl_stmt = some (Statement.block Body.nil)
extract_regular_statement _ = none

abbrev pub or_empty : Option ScopedStatement → ScopedStatement
or_empty none = ScopedStatement.block ScopedStatements.nil
or_empty (some s) = s

abbrev pub or_true : Option Expression → Expression
or_true none = Expression.literal "true"
or_true (some e) = e

abbrev pub push_some : Option ScopedStatement → ScopedStatements → ScopedStatements
push_some none statements = statements
push_some (some s) statements = ScopedStatements.cons s statements

abbrev pub wrap : Option Statement → Option ScopedStatement
wrap none = none
wrap (some s) = some (ScopedStatement.statement s)

abbrev pub first_condition : Children → Option Expression
first_condition Children.none = none
first_condition (child c rest) = extract_expression c

unfoldable mutual
  pub extract_scoped_statement : Entity → Option ScopedStatement
  extract_scoped_statement (entity EntityKind.compound_stmt answers children) =
      some (ScopedStatement.block (extract_scoped_statements children))
  extract_scoped_statement (entity EntityKind.if_stmt answers (child c (child t Children.none))) =
      some (
        ScopedStatement.conditional (or_true (extract_expression c))
          (or_empty (extract_scoped_statement t)) OptionalStatement.absent)
  extract_scoped_statement (entity EntityKind.if_stmt answers (child c (child t (child e _)))) =
      some (
        ScopedStatement.conditional (or_true (extract_expression c))
          (or_empty (extract_scoped_statement t))
          (OptionalStatement.present (or_empty (extract_scoped_statement e))))
  extract_scoped_statement (entity EntityKind.if_stmt answers _) = none
  extract_scoped_statement (entity EntityKind.for_stmt answers children) =
      some (ScopedStatement.loop LoopKind.for none (or_empty (last_compound children)))
  extract_scoped_statement (entity EntityKind.while_stmt answers children) = some (
      ScopedStatement.loop LoopKind.while (first_condition children)
        (or_empty (second_statement children)))
  extract_scoped_statement (entity kind answers children) = wrap (extract_regular_statement kind)

  pub extract_scoped_statements : Children → ScopedStatements
  extract_scoped_statements Children.none = ScopedStatements.nil
  extract_scoped_statements (child c rest) =
      push_some (extract_scoped_statement c) (extract_scoped_statements rest)

  -- the last compound statement among the children
  pub last_compound : Children → Option ScopedStatement
  last_compound Children.none = none
  last_compound (child c rest) =
      let here = extract_scoped_statement c in
      or_else (last_compound rest) (if is_compound (kind_of c) then here else none)

  pub second_statement : Children → Option ScopedStatement
  second_statement (child _ (child c _)) = extract_scoped_statement c
  second_statement _ = none

-- `convert_statement`
abbrev pub convert_statement : Statement → IrStatement
convert_statement s = IrStatement.drop "placeholder"

abbrev pub in_scope : List IrScopedStatement → List IrScopedStatement
in_scope statements =
    IrScopedStatement.enter_scope ∷ (statements ++ IrScopedStatement.exit_scope ∷ [])

unfoldable mutual
  pub convert_scoped_to_ir : ScopedStatement → List IrScopedStatement
  convert_scoped_to_ir (ScopedStatement.statement s) =
      IrScopedStatement.statement (convert_statement s) ∷ []
  convert_scoped_to_ir (ScopedStatement.block statements) = in_scope (convert_all statements)
  convert_scoped_to_ir (ScopedStatement.conditional _ then_branch else_branch) =
      IrScopedStatement.begin_conditional
      ∷ (in_scope (convert_scoped_to_ir then_branch)
          ++ (convert_else else_branch ++ IrScopedStatement.end_conditional ∷ []))
  convert_scoped_to_ir (ScopedStatement.loop _ _ body) =
      IrScopedStatement.begin_loop
      ∷ (in_scope (convert_scoped_to_ir body) ++ IrScopedStatement.end_loop ∷ [])

  pub convert_all : ScopedStatements → List IrScopedStatement
  convert_all ScopedStatements.nil = []
  convert_all (ScopedStatements.cons s statements) =
      convert_scoped_to_ir s ++ convert_all statements

  pub convert_else : OptionalStatement → List IrScopedStatement
  convert_else OptionalStatement.absent = []
  convert_else (OptionalStatement.present s) = in_scope (convert_scoped_to_ir s)
