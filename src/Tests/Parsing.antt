-- ===== src/Tests/Parsing.antt =====
-- From entities to errors: src/parser/ast_visitor.rs, src/parser/mod.rs and src/main.rs.
use rustycpp.Common.{String, ◌≡◌, refl, true, false, none, some, [], ◌∷◌, ok, get}
use rustycpp.Entities.{EntityKind, FileLocation, Answers, Entity, Children, entity, child}
use rustycpp.Ast.{Expression, Function, CppAst}
use rustycpp.Ir.{IrProgram}
use rustycpp.Build.{build_ir}
use rustycpp.Build.Markers.{IsNestedBody}
use rustycpp.Annotations.{HeaderCache}
use rustycpp.Extraction.{extract_function}
use rustycpp.Extraction.Answered.{IsAnswered}
use rustycpp.Extraction.Nested.{extract_function-IsNested}
use rustycpp.Visiting
use rustycpp.Visiting.{Visit, visit_entity}
use rustycpp.Visiting.Headers.{with_header, visit_entity-header}
use rustycpp.Pipeline.Contexts.{check_borrows_with_annotations, check_borrows_with_safety_context}
use rustycpp.Pipeline.Analysis.{everything_checked, NoneUnsafe, check_borrows_with_annotations-safe}

abbrev at_line : String → FileLocation
at_line path = record { file = some path; line = 1; column = 1; is_in_main_file = true }

abbrev named : String → Answers
named name = record {
  name = some name;
  location = some (at_line "/work/a.cpp");
  type_info = none;
  result_type = none;
  comment = none;
  is_definition = true;
}

abbrev text_of : Expression → String
text_of _ = "e"

-- `void f() { for (...) { { g(); } } }`
abbrev call_g : Entity
call_g = entity EntityKind.call_expr (named "g") Children.none

abbrev loop_body : Entity
loop_body =
    entity EntityKind.compound_stmt (named "") (
      child (entity EntityKind.compound_stmt (named "") (child call_g Children.none)) Children.none)

abbrev definition_f : Entity
definition_f = entity EntityKind.function_decl (named "f") (
    child
      (entity EntityKind.compound_stmt (named "") (
        child (entity EntityKind.for_stmt (named "") (child loop_body Children.none))
          Children.none))
      Children.none)

definition-IsAnswered : IsAnswered definition_f
definition-IsAnswered = (
  refl,
  tt,
  ((refl, tt, ((refl, tt, ((refl, tt, ((refl, tt, ((refl, tt, tt), tt)), tt)), tt)), tt)), tt),
)

extract_function-IsNested_example :
    (f : Function) × (extract_function text_of definition_f ≡ ok f) × IsNestedBody 0 f.body
extract_function-IsNested_example =
    extract_function-IsNested text_of definition_f definition-IsAnswered

abbrev no_headers : HeaderCache
no_headers = record { signatures = []; processed_headers = []; include_paths = [] }

abbrev in_header : Answers
in_header = record {
  name = some "shapes";
  location =
      some (record { file = some "/work/shapes.h"; line = 1; column = 1; is_in_main_file = false });
  type_info = none;
  result_type = none;
  comment = none;
  is_definition = true;
}

abbrev earlier : Visit
earlier = record Visiting.new { visited_files = "/work/points.h" ∷ [] }

visit_entity-header_example :
    visit_entity text_of
      (entity EntityKind.decl_stmt in_header
        (child (entity EntityKind.method in_header Children.none) Children.none))
      earlier
    ≡ ok (record earlier { visited_files = with_header "/work/shapes.h" earlier.visited_files })
visit_entity-header_example =
    visit_entity-header text_of "/work/shapes.h" EntityKind.decl_stmt in_header
      (child (entity EntityKind.method in_header Children.none) Children.none) earlier tt
      (refl, refl) ((refl, refl), tt)

abbrev tree_of_f : CppAst
tree_of_f = record {
  functions =
      record {
        name = "f";
        parameters = [];
        return_type = "void";
        body = rustycpp.Ast.Body.nil;
        location = record { file = "/work/a.cpp"; line = 1; column = 1 };
      }
      ∷ [];
  global_variables = [];
}

abbrev program_of_f : IrProgram
unfolding build_ir
program_of_f = build_ir tree_of_f

f-NoneUnsafe : NoneUnsafe no_headers program_of_f.functions
unfolding get build_ir
f-NoneUnsafe = (refl, tt)

check_borrows_with_annotations-safe_example :
    check_borrows_with_annotations program_of_f no_headers
    ≡ check_borrows_with_safety_context program_of_f no_headers everything_checked
check_borrows_with_annotations-safe_example =
    check_borrows_with_annotations-safe program_of_f no_headers f-NoneUnsafe
