-- ===== src/Safety/Annotated.antt =====
-- What the annotations of a file come to: src/parser/safety_annotations.rs, `parse_safety_annotations`.
use rustycpp.Common.{
  concat, ℕ, suc, ◌+◌, ◌≤◌, arith, String, trim, starts_with, is_blank, ◌≡◌, refl, ◌↔◌, Bool, true,
  false, not, ◌&&◌, ◌||◌, Bool-cases, Option, none, some, is_some, inl, inr, List, [], ◌∷◌, length,
  length-append, All, ok, if◌then◌else◌,
}
use rustycpp.Safety.{SafetyMode, SafetyContext}
use rustycpp.Safety.Scan.{
  Line, SourceFile, Scan, start, annotation_in, is_function_declaration, extract_function_name,
  override, is_namespace, apply_annotation, is_complete, consume, accumulate, scan_code,
  scan_trimmed, scan_lines, parse_safety_annotations,
}

abbrev pub IsRead : Line → Type 0
IsRead (Line.content _) = Unit
IsRead (Line.failed _) = ⊥

-- the file is opened, and every line of it is read
abbrev pub IsReadable : SourceFile → Type 0
IsReadable (SourceFile.unopened _) = ⊥
IsReadable (SourceFile.opened lines) = All IsRead lines

scan_lines-IsRead :
    (scan : Scan) (lines : List Line)
    → ((context : SafetyContext) × (scan_lines scan lines ≡ ok context)) ↔ All IsRead lines
unfolding scan_lines
scan_lines-IsRead scan [] = (λ _. tt, λ _. (scan.context, refl))
scan_lines-IsRead scan (Line.failed e ∷ lines) = (λ (context, p). cc, λ (h, _). absurd h)
scan_lines-IsRead scan (Line.content line ∷ lines) =
    let (there, back) = scan_lines-IsRead (scan_trimmed scan (trim line)) lines in
    (λ h. (tt, there h), λ (_, h). back h)

-- A context is returned exactly when the file opens and all of its lines can be read; otherwise
-- there is none.
pub parse_safety_annotations-IsReadable :
    (file : SourceFile)
    → ((context : SafetyContext) × (parse_safety_annotations file ≡ ok context)) ↔ IsReadable file
unfolding parse_safety_annotations
parse_safety_annotations-IsReadable (SourceFile.unopened e) = (λ (context, p). cc, λ h. absurd h)
parse_safety_annotations-IsReadable (SourceFile.opened lines) = scan_lines-IsRead start lines

abbrev pub weight : Bool → ℕ
weight b = if b then 1 else 0

-- an unread line counts as none
abbrev pub annotations_in : List Line → ℕ
annotations_in [] = 0
annotations_in (Line.failed _ ∷ lines) = annotations_in lines
annotations_in (Line.content line ∷ lines) =
    weight (is_some (annotation_in (trim line) none)) + annotations_in lines

-- the annotations that were applied to functions, and the one that waits
abbrev used : Scan → ℕ
used scan = length scan.context.function_overrides + weight (is_some scan.pending_annotation)

annotation_in-pending :
    (text : String) (pending : Option SafetyMode)
    → is_some (annotation_in text pending) ≡ (is_some (annotation_in text none) || is_some pending)
unfolding annotation_in
annotation_in-pending s pending = ground arith

apply_annotation-length :
    (context : SafetyContext) (annotation : SafetyMode) (line : String)
    → length (apply_annotation context annotation line).function_overrides
      ≤ suc (length context.function_overrides)
unfolding apply_annotation
apply_annotation-length context annotation line = elim (Bool-cases (is_namespace line)) [
  | inl p ↦ rw p (omega arith)
  | inr p ↦ elim (Bool-cases (is_function_declaration line)) [
    | inl q ↦ rw (p, q) (override-length (extract_function_name line))
    | inr q ↦ rw (p, q) (omega arith)
  ]
]
  where
    override-length :
        (name : Option String)
        → length (override context annotation name).function_overrides
          ≤ suc (length context.function_overrides)
    override-length none = omega arith
    override-length (some f) =
        omega (arith, length-append context.function_overrides ((f, annotation) ∷ []))

consume-used :
    (scan : Scan) (pending : Option SafetyMode)
    → scan.pending_annotation ≡ pending
    → used (consume scan pending) ≤ used scan
consume-used scan none h = omega arith
consume-used scan (some a) h =
    rw h (omega (arith, apply_annotation-length scan.context a scan.accumulated_line))

settle-used :
    (grown : Scan) (complete : Bool)
    → used (if complete then consume grown grown.pending_annotation else grown) ≤ used grown
settle-used grown true = consume-used grown grown.pending_annotation refl
settle-used grown false = omega arith

accumulate-used : (scan : Scan) (line : String) → used (accumulate scan line) ≤ used scan
unfolding accumulate
accumulate-used scan line =
    let longer =
      if is_blank scan.accumulated_line
      then line
      else concat (scan.accumulated_line ∷ " " ∷ line ∷ []) in
    settle-used (record scan { accumulated_line = longer }) (is_complete longer)

grow-used :
    (begun : Scan) (line : String) (accumulating : Bool)
    → used (if accumulating then accumulate begun line else begun) ≤ used begun
grow-used begun line true = accumulate-used begun line
grow-used begun line false = omega arith

scan_code-used : (scan : Scan) (line : String) → used (scan_code scan line) ≤ used scan
unfolding scan_code
scan_code-used scan line =
    elim (Bool-cases (is_some scan.pending_annotation && not scan.accumulating_for_annotation)) [
      | inl p ↦ rw p (
          accumulate-used
            (record scan { accumulated_line = ""; accumulating_for_annotation = true }) line)
      | inr p ↦ rw p (grow-used scan line scan.accumulating_for_annotation)
    ]

noted-weight :
    (line : String) (pending : Option SafetyMode)
    → weight (is_some (annotation_in line pending))
      ≤ weight (is_some pending) + weight (is_some (annotation_in line none))
noted-weight line pending =
    rw (annotation_in-pending line pending)
      (either (is_some (annotation_in line none)) (is_some pending))
  where
    either : (a b : Bool) → weight (a || b) ≤ weight b + weight a
    either true true = omega arith
    either true false = omega arith
    either false true = omega arith
    either false false = omega arith

-- what holds of both branches
pub if_keeps :
    (P : Scan → Type 0) (test : Bool) (a b : Scan) → P a → P b → P (if test then a else b)
if_keeps P true a b h k = h
if_keeps P false a b h k = k

scan_trimmed-used :
    (scan : Scan) (line : String)
    → used (scan_trimmed scan line) ≤ used scan + weight (is_some (annotation_in line none))
unfolding scan_trimmed
scan_trimmed-used scan line =
    let noted = noted-weight line scan.pending_annotation in
    let code = scan_code-used scan line in
    let bounded : Scan → Type 0 =
      λ s. used s ≤ used scan + weight (is_some (annotation_in line none)) in
    if_keeps bounded scan.in_comment_block _ _ (omega (arith, noted)) (
      if_keeps bounded (starts_with line "/*") _ _ (omega (arith, noted)) (
        if_keeps bounded (starts_with line "//") _ _ (omega (arith, noted)) (
          if_keeps bounded (is_blank line || starts_with line "#") scan (scan_code scan line)
            (omega arith) (omega (arith, code)))))

scan_lines-used :
    (scan : Scan) (lines : List Line) (context : SafetyContext)
    → scan_lines scan lines ≡ ok context
    → length context.function_overrides ≤ used scan + annotations_in lines
unfolding scan_lines
scan_lines-used scan [] context p = let e : scan.context ≡ context = cc in rw (← e) (omega arith)
scan_lines-used scan (Line.failed e ∷ lines) context p = cc
scan_lines-used scan (Line.content line ∷ lines) context p =
    let rest = scan_lines-used (scan_trimmed scan (trim line)) lines context p in
    omega (arith, rest, scan_trimmed-used scan (trim line))

-- A file gives at most as many overrides of functions as it has lines with an annotation.
pub parse_safety_annotations-overrides :
    (lines : List Line) (context : SafetyContext)
    → parse_safety_annotations (SourceFile.opened lines) ≡ ok context
    → length context.function_overrides ≤ annotations_in lines
unfolding parse_safety_annotations
parse_safety_annotations-overrides lines context p =
    omega (arith, scan_lines-used start lines context p)
