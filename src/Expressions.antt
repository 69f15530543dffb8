-- ===== src/Expressions.antt =====
-- Expressions from the entities of libclang: src/parser/ast_visitor.rs, `extract_expression`, lines
-- 338-443.
use mathlib.Core.Option
use rustycpp.Common.{
  String, ◌==◌, contains_text, ends_with, Bool, true, false, not, ◌&&◌, ◌||◌, Option, none, some,
  or_else, if◌then◌else◌,
}
use rustycpp.Entities.{EntityKind, TypeInfo, Entity, Children, entity, child, kind_of, answers_of}
use rustycpp.Ast.{Expression, Args}

abbrev pub or_text : Option String → String → String
or_text none otherwise = otherwise
or_text (some s) otherwise = s

-- a child that may name the callee of a call
abbrev pub may_name : EntityKind → Bool
may_name EntityKind.decl_ref_expr = true
may_name EntityKind.unexposed_expr = true
may_name _ = false

abbrev pub names_callee : Entity → String → Bool
names_callee c name = may_name (kind_of c) && name == "unknown"

abbrev pub push_arg : Option Expression → Args → Args
push_arg none args = args
push_arg (some e) args = Args.arg e args

unfoldable pub is_move_name : String → Bool
is_move_name name =
    name == "move" || name == "std::move" || ends_with name "::move" || contains_text name "move"

-- a call, or a `std::move` of one argument
abbrev pub call_or_move : String → Args → Expression
call_or_move name (Args.arg e Args.none) =
    if is_move_name name
    then Expression.move e
    else Expression.function_call name (Args.arg e Args.none)
call_or_move name args = Expression.function_call name args

abbrev pub binary : String → Option Expression → Option Expression → Option Expression
binary op (some left) (some right) = some (Expression.binary_op left op right)
binary op _ _ = none

abbrev pub by_types : Expression → Option TypeInfo → Option TypeInfo → Expression
by_types inner (some result) (some operand) =
    if contains_text operand.display_name "*" && not (contains_text result.display_name "*")
    then Expression.dereference inner
    else Expression.address_of inner
by_types inner _ _ = Expression.address_of inner

unfoldable mutual
  pub extract_expression : Entity → Option Expression
  extract_expression (entity EntityKind.decl_ref_expr answers _) =
      Option.map Expression.variable answers.name
  extract_expression (entity EntityKind.call_expr answers children) =
      let (name, args) = extract_call children "unknown" in some (call_or_move name args)
  extract_expression (entity EntityKind.unexposed_expr answers children) = first_expression children
  extract_expression (entity EntityKind.binary_operator answers (child l (child r Children.none))) =
      binary (or_text answers.name "==") (extract_expression l) (extract_expression r)
  extract_expression (entity EntityKind.integer_literal answers _) =
      Option.map Expression.literal answers.name
  extract_expression (entity EntityKind.unary_operator answers (child c _)) =
      Option.map (λ inner. by_types inner answers.type_info (answers_of c).type_info)
        (extract_expression c)
  extract_expression _ = none

  -- the name and the arguments of a call, from the name that is known so far
  pub extract_call : Children → String → String × Args
  extract_call Children.none name = (name, Args.none)
  extract_call (child c rest) name =
      let named = names_callee c name in
      let next = if named then or_text (answers_of c).name name else name in
      let (final, args) = extract_call rest next in
      (final, if named then args else push_arg (extract_expression c) args)

  -- the first child that is an expression
  pub first_expression : Children → Option Expression
  first_expression Children.none = none
  first_expression (child c rest) = or_else (extract_expression c) (first_expression rest)
