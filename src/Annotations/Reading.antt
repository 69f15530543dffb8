-- ===== src/Annotations/Reading.antt =====
-- The reading of annotations in comments: src/parser/annotations.rs, lines 37-184. The regex crate
-- is a parameter: what its patterns, which the code gives as constants, find in a text.
use rustycpp.Common.{
  ◌≡◌, refl, ◌≡◌, String, ◌==◌, contains_text, starts_with, trim, trim_start_matches,
  trim_end_matches, split, Bool, true, false, ◌&&◌, Option, none, some, List, [], ◌∷◌, map,
  if◌then◌else◌,
}
use rustycpp.Entities.{Entity, answers_of}
use rustycpp.Annotations.{LifetimeAnnotation, SafetyAnnotation, LifetimeBound, FunctionSignature}

-- `is_safe` and `is_unsafe` are `@safe\b` and `@unsafe\b`, `lifetime` is the group of
-- `@lifetime:\s*(.+)`, `lifetime_name` that of `'([a-z][a-z0-9]*)`, and `bounds` are the two groups
-- of each match of `'([a-z][a-z0-9]*)\s*:\s*'([a-z][a-z0-9]*)`.
pub record Regexes : Type 0 where
  pub is_safe : String → Bool
  pub is_unsafe : String → Bool
  pub lifetime : String → Option String
  pub lifetime_name : String → Option String
  pub bounds : String → List (String × String)

abbrev pub map_some : {A B : Type 0} → (A → B) → Option A → Option B
map_some f none = none
map_some f (some a) = some (f a)

abbrev pub safety_of : Bool → Bool → Option SafetyAnnotation
safety_of true _ = some SafetyAnnotation.safe
safety_of false true = some SafetyAnnotation.unsafe
safety_of false false = none

abbrev pub bare_signature : String → Option SafetyAnnotation → FunctionSignature
bare_signature func_name safety = record {
  name = func_name;
  return_lifetime = none;
  param_lifetimes = [];
  lifetime_bounds = [];
  safety = safety;
}

module _ (re : Regexes) where
  abbrev pub extract_lifetime_name : String → Option String
  extract_lifetime_name s = re.lifetime_name s

  unfoldable pub parse_single_lifetime : String → Option LifetimeAnnotation
  parse_single_lifetime lifetime_str =
      let trimmed = trim lifetime_str in
      if trimmed == "owned"
      then some LifetimeAnnotation.owned
      else if starts_with trimmed "&'" && contains_text trimmed "mut"
      then map_some LifetimeAnnotation.mut_ref (extract_lifetime_name trimmed)
      else if starts_with trimmed "&'"
      then map_some LifetimeAnnotation.ref (extract_lifetime_name trimmed)
      else if starts_with trimmed "'"
      then some (LifetimeAnnotation.lifetime trimmed)
      else none

  -- without the leading `(` (40) and the trailing `)` (41)
  unfoldable pub parse_param_lifetimes : String → List (Option LifetimeAnnotation)
  unfolding parse_single_lifetime
  parse_param_lifetimes params_str =
      let cleaned = trim_end_matches 41 (trim_start_matches 40 params_str) in
      map (λ param. parse_single_lifetime (trim param)) (split cleaned ",")

  unfoldable pub parse_lifetime_bounds : String → List LifetimeBound
  parse_lifetime_bounds bounds_str =
      map (λ b. record { longer = b.0; shorter = b.1 }) (re.bounds bounds_str)

  -- the parameters and the result, from the parts at `->`
  abbrev pub with_arrow : FunctionSignature → List String → FunctionSignature
  with_arrow signature (params_str ∷ return_str ∷ []) = record signature {
    param_lifetimes = parse_param_lifetimes (trim params_str);
    return_lifetime = parse_single_lifetime (trim return_str);
  }
  with_arrow signature _ = signature

  unfoldable pub with_main_part : FunctionSignature → String → FunctionSignature
  unfolding parse_param_lifetimes
  with_main_part signature main_part =
      if contains_text main_part "->"
      then with_arrow signature (split main_part "->")
      else record signature { return_lifetime = parse_single_lifetime main_part }

  -- the parts at `where`: there is at least one, and those after the second are ignored
  abbrev pub with_parts : FunctionSignature → List String → FunctionSignature
  with_parts signature [] = signature
  with_parts signature (main_part ∷ []) = with_main_part signature (trim main_part)
  with_parts signature (main_part ∷ bounds_str ∷ _) =
      with_main_part
        (record signature { lifetime_bounds = parse_lifetime_bounds (trim bounds_str) })
        (trim main_part)

  abbrev pub signature_of :
      String → Option SafetyAnnotation → Option String → Option FunctionSignature
  signature_of func_name safety (some annotation_str) =
      some (with_parts (bare_signature func_name safety) (split annotation_str "where"))
  signature_of func_name (some annotation) none = some (bare_signature func_name (some annotation))
  signature_of func_name none none = none

  unfoldable pub parse_lifetime_annotations : String → String → Option FunctionSignature
  unfolding with_main_part parse_lifetime_bounds
  parse_lifetime_annotations comment func_name =
      signature_of func_name (safety_of (re.is_safe comment) (re.is_unsafe comment))
        (re.lifetime comment)

  abbrev pub annotate : Option String → Option String → Option FunctionSignature
  annotate (some comment) (some name) = parse_lifetime_annotations comment name
  annotate _ _ = none

  unfoldable pub extract_annotations : Entity → Option FunctionSignature
  unfolding parse_lifetime_annotations
  extract_annotations e = annotate (answers_of e).comment (answers_of e).name

-- the test `test_parse_with_params` of the source, with what its patterns find
abbrev found : Regexes
found = record {
  is_safe = λ _. false;
  is_unsafe = λ _. false;
  lifetime = λ _. some "(&'a, &'b) -> &'a where 'a: 'b";
  lifetime_name = λ s. some (if contains_text s "'b" then "b" else "a");
  bounds = λ _. ("a", "b") ∷ [];
}

with_params_test :
    parse_lifetime_annotations found "// @lifetime: (&'a, &'b) -> &'a where 'a: 'b" "test"
    ≡ some (record {
      name = "test";
      return_lifetime = some (LifetimeAnnotation.ref "a");
      param_lifetimes = some (LifetimeAnnotation.ref "a") ∷ some (LifetimeAnnotation.ref "b") ∷ [];
      lifetime_bounds = record { longer = "a"; shorter = "b" } ∷ [];
      safety = none;
    })
unfolding parse_lifetime_annotations parse_param_lifetimes parse_single_lifetime split trim
    trim_start_matches trim_end_matches
with_params_test = refl
