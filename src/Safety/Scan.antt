-- ===== src/Safety/Scan.antt =====
-- The scan of the lines of a source file for annotations: src/parser/safety_annotations.rs, lines
-- 45-211. What opening and reading the file comes to is a `SourceFile`.
use Prim.Native.String
use rustycpp.Common.{
  ◌≡◌, refl, ◌≡◌, ℕ, String, concat, contains_text, starts_with, trim, trim_start_matches,
  split_whitespace, is_blank, Bool, true, false, not, ◌&&◌, ◌||◌, Option, none, some, is_some, List,
  [], ◌∷◌, ◌++◌, if◌then◌else◌, Outcome, ok, err,
}
use text.Mathlib.Text.{find?}
use rustycpp.Entities.{Entity, answers_of}
use rustycpp.Safety.{SafetyMode, SafetyContext, new}

-- a line that is read, or the error of reading it
pub data Line : Type 0 where
  content failed : String → Line

pub data SourceFile : Type 0 where
  unopened : String → SourceFile
  opened : List Line → SourceFile

pub record Scan : Type 0 where
  pub context : SafetyContext
  pub pending_annotation : Option SafetyMode
  pub in_comment_block : Bool
  pub accumulated_line : String
  pub accumulating_for_annotation : Bool

abbrev pub start : Scan
start = record {
  context = new;
  pending_annotation = none;
  in_comment_block = false;
  accumulated_line = "";
  accumulating_for_annotation = false;
}

unfoldable pub annotation_in : String → Option SafetyMode → Option SafetyMode
annotation_in text pending =
    if contains_text text "@safe"
    then some SafetyMode.safe
    else if contains_text text "@unsafe"
    then some SafetyMode.unsafe
    else pending

unfoldable pub is_function_declaration : String → Bool
is_function_declaration line =
    let has_parens = contains_text line "(" && contains_text line ")" in
    let has_type =
      contains_text line "void"
      || contains_text line "int"
      || contains_text line "bool"
      || contains_text line "auto"
      || contains_text line "const"
      || contains_text line "static" in
    has_parens && (has_type || contains_text line "::")

abbrev pub last_word : List String → Option String
last_word [] = none
last_word (w ∷ []) = some w
last_word (w ∷ v ∷ words) = last_word (v ∷ words)

-- without the leading `*` (42) and then the leading `&` (38)
unfoldable pub name_of_word : Option String → Option String
name_of_word none = none
name_of_word (some last) =
    let name = trim_start_matches 38 (trim_start_matches 42 last) in
    if is_blank name then none else some name

abbrev pub name_before : String → Option ℕ → Option String
name_before line none = none
name_before line (some paren_pos) =
    name_of_word (last_word (split_whitespace (String.slice line 0 paren_pos)))

unfoldable pub extract_function_name : String → Option String
unfolding name_of_word
extract_function_name line = name_before line (find? line "(")

abbrev pub override : SafetyContext → SafetyMode → Option String → SafetyContext
override context annotation none = context
override context annotation (some func_name) = record context {
  function_overrides = context.function_overrides ++ (func_name, annotation) ∷ [];
}

unfoldable pub is_namespace : String → Bool
is_namespace line =
    starts_with line "namespace"
    || contains_text line "namespace" && not (contains_text line "using")

-- what an annotation applies to
unfoldable pub apply_annotation : SafetyContext → SafetyMode → String → SafetyContext
unfolding is_namespace is_function_declaration extract_function_name
apply_annotation context annotation line =
    if is_namespace line
    then record context { file_default = annotation }
    else if is_function_declaration line
    then override context annotation (extract_function_name line)
    else context

unfoldable pub is_complete : String → Bool
is_complete line = contains_text line "(" && (contains_text line ")" || contains_text line "{")

abbrev pub consume : Scan → Option SafetyMode → Scan
consume scan none = scan
consume scan (some annotation) = record {
  context = apply_annotation scan.context annotation scan.accumulated_line;
  pending_annotation = none;
  in_comment_block = scan.in_comment_block;
  accumulated_line = "";
  accumulating_for_annotation = false;
}

unfoldable pub accumulate : Scan → String → Scan
unfolding is_complete apply_annotation
accumulate scan trimmed =
    let longer =
      if is_blank scan.accumulated_line
      then trimmed
      else concat (scan.accumulated_line ∷ " " ∷ trimmed ∷ []) in
    let grown : Scan = record scan { accumulated_line = longer } in
    if is_complete longer then consume grown scan.pending_annotation else grown

-- a line of code
unfoldable pub scan_code : Scan → String → Scan
unfolding accumulate
scan_code scan trimmed =
    let begins = is_some scan.pending_annotation && not scan.accumulating_for_annotation in
    let begun : Scan =
      if begins
      then record scan { accumulated_line = ""; accumulating_for_annotation = true }
      else scan in
    if begun.accumulating_for_annotation then accumulate begun trimmed else begun

unfoldable pub scan_trimmed : Scan → String → Scan
unfolding annotation_in scan_code
scan_trimmed scan trimmed =
    let noted = annotation_in trimmed scan.pending_annotation in
    if scan.in_comment_block
    then record scan {
      in_comment_block = not (contains_text trimmed "*/");
      pending_annotation = noted;
    }
    else if starts_with trimmed "/*"
    then record scan { in_comment_block = true; pending_annotation = noted }
    else if starts_with trimmed "//"
    then record scan { pending_annotation = noted }
    else if is_blank trimmed || starts_with trimmed "#"
    then scan
    else scan_code scan trimmed

unfoldable pub scan_lines : Scan → List Line → Outcome SafetyContext
unfolding scan_trimmed
scan_lines scan [] = ok scan.context
scan_lines scan (Line.failed e ∷ lines) = err (concat ("Failed to read line: " ∷ e ∷ []))
scan_lines scan (Line.content line ∷ lines) = scan_lines (scan_trimmed scan (trim line)) lines

unfoldable pub parse_safety_annotations : SourceFile → Outcome SafetyContext
unfolding scan_lines
parse_safety_annotations (SourceFile.unopened e) =
    err (concat ("Failed to open file for safety parsing: " ∷ e ∷ []))
parse_safety_annotations (SourceFile.opened lines) = scan_lines start lines

abbrev pub mode_of : Option String → Option SafetyMode
mode_of none = none
mode_of (some comment) = annotation_in comment none

unfoldable pub parse_entity_safety : Entity → Option SafetyMode
unfolding annotation_in
parse_entity_safety e = mode_of (answers_of e).comment

-- the test `test_function_safe_annotation` of the source
abbrev annotated : List Line
annotated =
    Line.content "void unsafe_func() {}"
    ∷ Line.content ""
    ∷ Line.content "// @safe"
    ∷ Line.content "void safe_func() {"
    ∷ Line.content "    int x = 42;"
    ∷ Line.content "}"
    ∷ Line.content "// @unsafe"
    ∷ Line.content "void explicit_unsafe() {}"
    ∷ []

annotated_test :
    parse_safety_annotations (SourceFile.opened annotated)
    ≡ ok (record {
      file_default = SafetyMode.default;
      function_overrides =
          ("safe_func", SafetyMode.safe) ∷ ("explicit_unsafe", SafetyMode.unsafe) ∷ [];
    })
unfolding parse_safety_annotations trim split_whitespace trim_start_matches concat
annotated_test = refl
