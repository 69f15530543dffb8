-- ===== src/Pipeline/Unannotated.antt =====
-- From the lines of a file to no errors: src/parser/safety_annotations.rs and src/main.rs,
-- `analyze_file`, one after the other.
use rustycpp.Common.{◌≡◌, false, List, [], ok}
use rustycpp.Ast.{CppAst}
use rustycpp.Build.{build_ir}
use rustycpp.Annotations.{HeaderCache}
use rustycpp.Safety.{SafetyContext, new}
use rustycpp.Safety.Scan.{Line, SourceFile, parse_safety_annotations}
use rustycpp.Safety.Annotated.{annotations_in}
use rustycpp.Safety.Applied.{parse_safety_annotations-unannotated}
use rustycpp.Pipeline.{has_any_safe_functions}
use rustycpp.Pipeline.Contexts.{anything_safe, analyze_ast}
use rustycpp.Pipeline.Analysis.{analyze_ast-unmarked}

new-unmarked :
    (header_cache : HeaderCache) (ast : CppAst)
    → has_any_safe_functions (build_ir ast) header_cache ≡ false
    → anything_safe (build_ir ast) header_cache new ≡ false
unfolding anything_safe
new-unmarked header_cache ast h = h

-- Where the lines of a file hold no annotation, and no header marks a function of the tree as
-- safe, the analysis of the tree with the context that the lines give finds nothing and reports
-- nothing.
pub analyze_ast-unannotated :
    (lines : List Line) (context : SafetyContext) (header_cache : HeaderCache) (ast : CppAst)
    → parse_safety_annotations (SourceFile.opened lines) ≡ ok context
    → annotations_in lines ≡ 0
    → has_any_safe_functions (build_ir ast) header_cache ≡ false
    → analyze_ast header_cache context ast ≡ ok []
analyze_ast-unannotated lines context header_cache ast parsed bare unmarked =
    rw (parse_safety_annotations-unannotated lines context bare parsed)
      (analyze_ast-unmarked header_cache new ast (new-unmarked header_cache ast unmarked))
