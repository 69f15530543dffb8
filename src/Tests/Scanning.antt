-- ===== src/Tests/Scanning.antt =====
-- Annotations of files, and the tracker and the markers of the files that no module declares:
-- src/parser/safety_annotations.rs, src/analysis/scope_aware.rs, src/parser/block_scope_tracker.rs.
use rustycpp.Common.{
  String, true, ◌≢◌, String, ◌≤◌, trim, split_whitespace, trim_start_matches, concat, ◌≡◌, ◌↔◌,
  refl, false, none, some, List, [], ◌∷◌, length, get, ok,
}
use rustycpp.Ast.{SourceLocation, Variable, Body, Expression, Statement, CppAst}
use rustycpp.Ir.{BorrowKind, OwnershipState, IrStatement, nil, cons}
use rustycpp.Build.{build_ir}
use rustycpp.Annotations.{SafetyAnnotation, HeaderCache}
use rustycpp.Safety
use rustycpp.Safety.{SafetyMode, SafetyContext, is_safe, first_override, should_check_function}
use rustycpp.Safety.Scan.{
  Line, SourceFile, annotation_in, extract_function_name, is_function_declaration, is_namespace,
  is_complete, scan_trimmed, parse_safety_annotations,
}
use rustycpp.Safety.Annotated.{
  annotations_in, IsReadable, parse_safety_annotations-IsReadable,
  parse_safety_annotations-overrides,
}
use rustycpp.Safety.Applied
use rustycpp.Safety.Applied.{IsAnnotation, IsDeclaration, idle, scan_trimmed-override}
use rustycpp.Pipeline.{has_any_safe_functions}
use rustycpp.Pipeline.Contexts.{analyze_ast}
use rustycpp.Pipeline.Unannotated.{analyze_ast-unannotated}
use rustycpp.Scoped.{
  ScopedStatement, ScopedStatements, OptionalStatement, LoopKind, convert_scoped_to_ir,
}
use rustycpp.Scoped.Reading.{Shapes, one, shape_of, read, read-convert_scoped_to_ir}
use rustycpp.ScopeAware
use rustycpp.ScopeAware.{ScopeAwareOwnershipTracker, enter_scope}
use rustycpp.ScopeAware.Shared.{IsShared}
use rustycpp.ScopeAware.Runs.{Operation, perform_all, perform_all-IsShared}

abbrev annotated : List Line
annotated = Line.content "// @safe" ∷ Line.content "void f() {" ∷ Line.content "}" ∷ []

parse_safety_annotations-IsReadable_example :
    ((context : SafetyContext) × (parse_safety_annotations (SourceFile.opened annotated)
        ≡ ok context))
    ↔ IsReadable (SourceFile.opened annotated)
parse_safety_annotations-IsReadable_example =
    parse_safety_annotations-IsReadable (SourceFile.opened annotated)

abbrev f_safe : SafetyContext
f_safe = record {
  file_default = SafetyMode.default;
  function_overrides = ("f", SafetyMode.safe) ∷ [];
}

annotated_parses : parse_safety_annotations (SourceFile.opened annotated) ≡ ok f_safe
unfolding parse_safety_annotations trim split_whitespace trim_start_matches concat
annotated_parses = refl

parse_safety_annotations-overrides_example :
    length f_safe.function_overrides ≤ annotations_in annotated
parse_safety_annotations-overrides_example =
    parse_safety_annotations-overrides annotated f_safe annotated_parses

safe-IsAnnotation : IsAnnotation "// @safe" SafetyMode.safe
unfolding annotation_in
safe-IsAnnotation = record { starts = refl; no_block = refl; annotates = refl }

f-IsDeclaration : IsDeclaration "void f() {" "f"
unfolding is_complete is_namespace is_function_declaration extract_function_name split_whitespace
    trim_start_matches
f-IsDeclaration = record {
  no_line_comment = refl;
  no_block = refl;
  code = refl;
  complete = refl;
  no_namespace = refl;
  declares = refl;
  named = refl;
}

abbrev g_unsafe : SafetyContext
g_unsafe = record {
  file_default = SafetyMode.safe;
  function_overrides = ("g", SafetyMode.unsafe) ∷ [];
}

scan_trimmed-override_example :
    (scan_trimmed (scan_trimmed (idle g_unsafe "") "// @safe") "void f() {"
      ≡ idle (Applied.annotated g_unsafe "f" SafetyMode.safe) "")
    × (should_check_function (Applied.annotated g_unsafe "f" SafetyMode.safe) "f"
        ≡ first_override g_unsafe.function_overrides "f" (is_safe SafetyMode.safe))
    × ((other : String)
        → "f" ≢ other
        → should_check_function (Applied.annotated g_unsafe "f" SafetyMode.safe) other
          ≡ should_check_function g_unsafe other)
scan_trimmed-override_example =
    scan_trimmed-override g_unsafe "" "// @safe" "void f() {" "f" SafetyMode.safe safe-IsAnnotation
      f-IsDeclaration

abbrev bare : List Line
bare = Line.content "#include <vector>" ∷ Line.content "int g();" ∷ []

bare_parses : parse_safety_annotations (SourceFile.opened bare) ≡ ok Safety.new
unfolding parse_safety_annotations trim
bare_parses = refl

bare_counts : annotations_in bare ≡ 0
unfolding annotation_in trim
bare_counts = refl

-- `f` moves twice out of `a`, and the headers mark it as unsafe
abbrev marked_headers : HeaderCache
marked_headers = record {
  signatures =
      (
        "f",
        record {
          name = "f";
          return_lifetime = none;
          param_lifetimes = [];
          lifetime_bounds = [];
          safety = some SafetyAnnotation.unsafe;
        },
      )
      ∷ [];
  processed_headers = "/work/f.h" ∷ [];
  include_paths = [];
}

abbrev here : SourceLocation
here = record { file = "/work/a.cpp"; line = 1; column = 1 }

abbrev pointer : Variable
pointer = record {
  name = "a";
  type_name = "std::unique_ptr<int>";
  is_reference = false;
  is_pointer = false;
  is_const = false;
  is_unique_ptr = true;
  is_shared_ptr = false;
  location = here;
}

abbrev move_out : String → Statement
move_out to = Statement.assignment to (Expression.move (Expression.variable "a")) here

abbrev moves_twice : CppAst
moves_twice = record {
  functions =
      record {
        name = "f";
        parameters = pointer ∷ [];
        return_type = "void";
        body = Body.cons (move_out "b") (Body.cons (move_out "c") Body.nil);
        location = here;
      }
      ∷ [];
  global_variables = [];
}

nothing_marked : has_any_safe_functions (build_ir moves_twice) marked_headers ≡ false
unfolding has_any_safe_functions build_ir get
nothing_marked = refl

analyze_ast-unannotated_example : analyze_ast marked_headers Safety.new moves_twice ≡ ok []
analyze_ast-unannotated_example =
    analyze_ast-unannotated bare Safety.new marked_headers moves_twice bare_parses bare_counts
      nothing_marked

abbrev nested : ScopedStatement
nested =
    ScopedStatement.conditional (Expression.literal "true")
      (ScopedStatement.block (
        ScopedStatements.cons (ScopedStatement.statement Statement.enter_scope)
          ScopedStatements.nil))
      (OptionalStatement.present
        (ScopedStatement.loop LoopKind.while none (ScopedStatement.block ScopedStatements.nil)))

read-convert_scoped_to_ir_example :
    read (convert_scoped_to_ir nested) [] Shapes.empty ≡ some (one (shape_of nested))
read-convert_scoped_to_ir_example = read-convert_scoped_to_ir nested

abbrev operations : List Operation
operations =
    Operation.declare "x" OwnershipState.owned
    ∷ Operation.statement (IrStatement.borrow "x" "r" BorrowKind.immutable)
    ∷ Operation.enter
    ∷ Operation.statement (IrStatement.borrow "x" "w" BorrowKind.mutable)
    ∷ Operation.loop (cons (IrStatement.move "x" "y") nil)
    ∷ Operation.leave
    ∷ []

new-IsShared : IsShared ScopeAware.new.borrows
unfolding ScopeAware.new get
new-IsShared a b x y apart p q e = cc

perform_all-IsShared_example : IsShared (perform_all operations ScopeAware.new).borrows
perform_all-IsShared_example = perform_all-IsShared operations ScopeAware.new new-IsShared
