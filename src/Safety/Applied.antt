-- ===== src/Safety/Applied.antt =====
-- Which functions an annotation is for: src/parser/safety_annotations.rs, `parse_safety_annotations`.
use rustycpp.Common.{
  ◌≢◌, arith, String, ◌==◌, eq_iff, trim, starts_with, is_blank, ◌≡◌, refl, Bool, true, false, ◌||◌,
  Bool-cases, Option, none, some, is_some, inl, inr, List, [], ◌∷◌, ◌++◌, ok,
}
use rustycpp.Safety.{SafetyMode, SafetyContext, is_safe, new, first_override, should_check_function}
use rustycpp.Safety.Scan.{
  Line, SourceFile, Scan, start, annotation_in, is_function_declaration, extract_function_name,
  override, is_namespace, apply_annotation, is_complete, accumulate, scan_code, scan_trimmed,
  scan_lines, parse_safety_annotations,
}
use rustycpp.Safety.Annotated.{annotations_in, if_keeps}

-- no annotation waits
abbrev pub IsIdle : Scan → Type 0
IsIdle scan = (scan.pending_annotation ≡ none) × (scan.accumulating_for_annotation ≡ false)

-- nothing was annotated so far
abbrev IsUntouched : Scan → Type 0
IsUntouched scan = IsIdle scan × (scan.context ≡ new)

unannotated :
    (line : String) (pending : Option SafetyMode)
    → is_some (annotation_in line none) ≡ false
    → pending ≡ none
    → annotation_in line pending ≡ none
unfolding annotation_in
unannotated line pending h p = ground (arith, h, p)

scan_code-IsUntouched :
    (scan : Scan) (line : String) → IsUntouched scan → IsUntouched (scan_code scan line)
unfolding scan_code
scan_code-IsUntouched scan line ((p, q), c) = rw (p, q) ((refl, refl), c)

scan_trimmed-IsUntouched :
    (scan : Scan) (line : String)
    → is_some (annotation_in line none) ≡ false
    → IsUntouched scan
    → IsUntouched (scan_trimmed scan line)
unfolding scan_trimmed
scan_trimmed-IsUntouched scan line h ((p, q), c) =
    let still = unannotated line scan.pending_annotation h p in
    if_keeps IsUntouched scan.in_comment_block _ _ ((still, q), c)
      (if_keeps IsUntouched (starts_with line "/*") _ _ ((still, q), c)
        (if_keeps IsUntouched (starts_with line "//") _ _ ((still, q), c)
          (if_keeps IsUntouched (is_blank line || starts_with line "#") scan (scan_code scan line)
            ((p, q), c) (scan_code-IsUntouched scan line ((p, q), c)))))

scan_lines-IsUntouched :
    (scan : Scan) (lines : List Line) (context : SafetyContext)
    → annotations_in lines ≡ 0
    → IsUntouched scan
    → scan_lines scan lines ≡ ok context
    → context ≡ new
unfolding scan_lines
scan_lines-IsUntouched scan [] context h ((p, q), c) e = cc
scan_lines-IsUntouched scan (Line.failed m ∷ lines) context h u e = cc
scan_lines-IsUntouched scan (Line.content line ∷ lines) context h u e =
    let here : is_some (annotation_in (trim line) none) ≡ false = ground (arith, h) in
    scan_lines-IsUntouched (scan_trimmed scan (trim line)) lines context (omega (arith, h))
      (scan_trimmed-IsUntouched scan (trim line) here u) e

-- A file whose lines hold no annotation gives the context that a scan starts from.
pub parse_safety_annotations-unannotated :
    (lines : List Line) (context : SafetyContext)
    → annotations_in lines ≡ 0
    → parse_safety_annotations (SourceFile.opened lines) ≡ ok context
    → context ≡ new
unfolding parse_safety_annotations
parse_safety_annotations-unannotated lines context h e =
    scan_lines-IsUntouched start lines context h ((refl, refl), refl) e

-- a comment of one line with an annotation
pub record IsAnnotation (line : String) (mode : SafetyMode) : Type 0 where
  pub starts : starts_with line "//" ≡ true
  pub no_block : starts_with line "/*" ≡ false
  pub annotates : annotation_in line none ≡ some mode

-- a line that declares a function
pub record IsDeclaration (line func : String) : Type 0 where
  pub no_line_comment : starts_with line "//" ≡ false
  pub no_block : starts_with line "/*" ≡ false
  pub code : (is_blank line || starts_with line "#") ≡ false
  pub complete : is_complete line ≡ true
  pub no_namespace : is_namespace line ≡ false
  pub declares : is_function_declaration line ≡ true
  pub named : extract_function_name line ≡ some func

-- outside comments, while no annotation waits
abbrev pub idle : SafetyContext → String → Scan
idle context left = record {
  context = context;
  pending_annotation = none;
  in_comment_block = false;
  accumulated_line = left;
  accumulating_for_annotation = false;
}

abbrev pub waiting : SafetyContext → String → SafetyMode → Scan
waiting context left mode = record (idle context left) { pending_annotation = some mode }

comment-waiting :
    (context : SafetyContext) (left comment : String) (mode : SafetyMode)
    → IsAnnotation comment mode
    → scan_trimmed (idle context left) comment ≡ waiting context left mode
unfolding scan_trimmed
comment-waiting context left comment mode a = rw (a.no_block, a.starts, a.annotates) refl

apply_annotation-override :
    (context : SafetyContext) (line func : String) (mode : SafetyMode)
    → IsDeclaration line func
    → apply_annotation context mode line ≡ override context mode (some func)
unfolding apply_annotation
apply_annotation-override context line func mode d = rw (d.no_namespace, d.declares, d.named) refl

accumulate-override :
    (context : SafetyContext) (line func : String) (mode : SafetyMode)
    → IsDeclaration line func
    → accumulate (record (waiting context "" mode) { accumulating_for_annotation = true }) line
      ≡ idle (override context mode (some func)) ""
unfolding accumulate
accumulate-override context line func mode d =
    rw (d.complete, apply_annotation-override context line func mode d) refl

declaration-idle :
    (context : SafetyContext) (left line func : String) (mode : SafetyMode)
    → IsDeclaration line func
    → scan_trimmed (waiting context left mode) line ≡ idle (override context mode (some func)) ""
unfolding scan_trimmed scan_code
declaration-idle context left line func mode d =
    rw (d.no_block, d.no_line_comment, d.code) (accumulate-override context line func mode d)

first_override-append :
    (overrides : List (String × SafetyMode)) (func : String) (mode : SafetyMode) (otherwise : Bool)
    → first_override (overrides ++ (func, mode) ∷ []) func otherwise
      ≡ first_override overrides func (is_safe mode)
unfolding first_override
first_override-append [] func mode otherwise = ground (arith, eq_iff func func)
first_override-append ((name, m) ∷ overrides) func mode otherwise =
    elim (Bool-cases (name == func)) [
      | inl p ↦ rw p refl
      | inr p ↦ rw p (first_override-append overrides func mode otherwise)
    ]

-- the context with one more override, at the end
abbrev pub annotated : SafetyContext → String → SafetyMode → SafetyContext
annotated context func mode = record {
  file_default = context.file_default;
  function_overrides = context.function_overrides ++ (func, mode) ∷ [];
}

first_override-other :
    (overrides : List (String × SafetyMode)) (func other : String) (mode : SafetyMode)
    (otherwise : Bool)
    → func ≢ other
    → first_override (overrides ++ (func, mode) ∷ []) other otherwise
      ≡ first_override overrides other otherwise
unfolding first_override
first_override-other [] func other mode otherwise ne = ground (arith, eq_iff func other)
first_override-other ((name, m) ∷ overrides) func other mode otherwise ne =
    elim (Bool-cases (name == other)) [
      | inl p ↦ rw p refl
      | inr p ↦ rw p (first_override-other overrides func other mode otherwise ne)
    ]

-- Outside comments and while no annotation waits, a line comment with an annotation and then a
-- line that declares a function, neither of them of a namespace, leave the scan as it was but for
-- the text accumulated so far, which is emptied, and one override at the end of the list: where
-- the function has no earlier override, it is checked exactly when the annotation is safe, and
-- every other function is checked as before.
pub scan_trimmed-override :
    (context : SafetyContext) (left comment line func : String) (mode : SafetyMode)
    → IsAnnotation comment mode
    → IsDeclaration line func
    → (scan_trimmed (scan_trimmed (idle context left) comment) line
        ≡ idle (annotated context func mode) "")
      × (should_check_function (annotated context func mode) func
          ≡ first_override context.function_overrides func (is_safe mode))
      × ((other : String)
          → func ≢ other
          → should_check_function (annotated context func mode) other
            ≡ should_check_function context other)
unfolding should_check_function
scan_trimmed-override context left comment line func mode a d = (
  rw (comment-waiting context left comment mode a) (declaration-idle context left line func mode d),
  first_override-append context.function_overrides func mode (is_safe context.file_default),
  λ other ne.
      first_override-other context.function_overrides func other mode (is_safe context.file_default)
        ne,
)
