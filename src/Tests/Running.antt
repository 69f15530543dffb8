-- ===== src/Tests/Running.antt =====
-- Include paths, headers and a whole run: src/main.rs and src/parser/header_cache.rs.
use rustycpp.Common.{
  String, ◌==◌, concat, split, components, split_whitespace, trim_start_matches, same_path, insert,
  trim, ◌≡◌, refl, true, false, Option, none, some, List, [], ◌∷◌, ok,
}
use rustycpp.Entities.{EntityKind, Entity, Children, entity, child}
use rustycpp.Annotations.{FunctionSignature, HeaderCache}
use rustycpp.Annotations.Reading.{Regexes, extract_annotations}
use rustycpp.Extraction.Answered.{IsAnswered}
use rustycpp.Safety
use rustycpp.Safety.Scan.{Line, SourceFile, parse_safety_annotations}
use rustycpp.Visiting.Checked.{IsReadable}
use rustycpp.Headers
use rustycpp.Headers.{Surroundings, set_include_paths, parse_includes_from_source}
use rustycpp.Headers.Processed.{IsCache}
use rustycpp.Headers.Includes.{parse_includes_from_source-IsCache}
use rustycpp.CommandLine.{
  Environment, TranslationUnit, include_words, extract_include_paths_from_env, analyze_file,
}
use rustycpp.CommandLine.Flags.{Flag, words_of, paths_of, include_words-words_of}
use rustycpp.CommandLine.Files.{
  AreSearchable, all_paths, extract_include_paths_from_env-AreSearchable, analyze_file_total,
}

abbrev flags : List Flag
flags = Flag.other "g++" ∷ Flag.separate "include" ∷ Flag.joined "l" "ib" ∷ Flag.other "-c" ∷ []

include_words-words_of_example : include_words (words_of flags) ≡ paths_of flags
include_words-words_of_example = include_words-words_of flags (refl, (tt, (tt, (refl, tt))))

abbrev named : EntityKind → String → Option String → Children → Entity
named kind name comment children =
    entity kind
      (record {
        name = some name;
        location =
            some
              (record { file = some "/work/a.cpp"; line = 1; column = 1; is_in_main_file = true });
        type_info = none;
        result_type = none;
        comment = comment;
        is_definition = true;
      })
      children

abbrev function_g : Entity
function_g = named EntityKind.function_decl "g" (some "// @safe") Children.none

abbrev regexes : Regexes
regexes = record {
  is_safe = λ comment. comment == "// @safe";
  is_unsafe = λ comment. comment == "// @unsafe";
  lifetime = λ _. none;
  lifetime_name = λ _. none;
  bounds = λ _. [];
}

abbrev world : Surroundings
world = record {
  regexes = regexes;
  path_exists = λ p. p == "/work/g.h";
  parent = λ _. some "/work";
  join = λ dir file. concat (dir ∷ "/" ∷ file ∷ []);
  read_to_string = λ _. ok "#include \"g.h\"";
  includes = λ _. ("g.h" ∷ "g.h" ∷ [], "vector" ∷ []);
  parse = λ _ _. ok function_g;
}

abbrev g_signature : FunctionSignature
g_signature = record {
  name = "g";
  return_lifetime = none;
  param_lifetimes = [];
  lifetime_bounds = [];
  safety = some rustycpp.Annotations.SafetyAnnotation.safe;
}

abbrev filled : HeaderCache
filled = record {
  signatures = ("g", g_signature) ∷ [];
  processed_headers = "/work/g.h" ∷ [];
  include_paths = [];
}

new-IsCache : IsCache world Headers.new
unfolding Headers.new
new-IsCache = record { distinct = tt; keyed = tt; existing = tt }

new_fills : parse_includes_from_source world Headers.new "/work/a.cpp" ≡ ok filled
unfolding Headers.new parse_includes_from_source extract_annotations concat split components
    same_path insert
new_fills = refl

parse_includes_from_source-IsCache_example : IsCache world filled
parse_includes_from_source-IsCache_example =
    parse_includes_from_source-IsCache world Headers.new filled "/work/a.cpp" new-IsCache new_fills

-- the unit and an implicit declaration have no location
abbrev without_location : EntityKind → String → Children → Entity
without_location kind name children =
    entity kind
      (record {
        name = some name;
        location = none;
        type_info = none;
        result_type = none;
        comment = none;
        is_definition = false;
      })
      children

abbrev unit_of_f : TranslationUnit
unit_of_f = record {
  root = without_location EntityKind.other "/work/a.cpp" (
      child (without_location EntityKind.other "__int128_t" Children.none) (
        child
          (named EntityKind.function_decl "f" none
            (child (named EntityKind.compound_stmt "" none Children.none) Children.none))
          Children.none));
  fatal = false;
}

abbrev environment : Environment
environment = record {
  world = world;
  env_var = λ _. none;
  compile_commands = λ _. ok [];
  translate = λ _ _. ok unit_of_f;
  source = λ _. SourceFile.opened (Line.content "// @safe" ∷ Line.content "void f() {}" ∷ []);
  debug = λ _. "e";
}

f-IsAnswered : IsAnswered (
    named EntityKind.function_decl "f" none
      (child (named EntityKind.compound_stmt "" none Children.none) Children.none))
f-IsAnswered = (refl, tt, ((refl, tt, tt), tt))

unit-IsReadable : IsReadable unit_of_f.root
unit-IsReadable = (tt, ((tt, tt), ((f-IsAnswered, ((tt, tt), tt)), tt)))

run_fills :
    parse_includes_from_source environment.world
      (set_include_paths Headers.new (all_paths environment [] []))
      "/work/a.cpp"
    ≡ ok filled
unfolding Headers.new set_include_paths extract_include_paths_from_env parse_includes_from_source
    extract_annotations concat split components same_path insert
run_fills = refl

source_parses :
    parse_safety_annotations (environment.source "/work/a.cpp")
    ≡ ok (record {
      file_default = Safety.SafetyMode.default;
      function_overrides = ("f", Safety.SafetyMode.safe) ∷ [];
    })
unfolding parse_safety_annotations trim split_whitespace trim_start_matches concat
source_parses = refl

analyze_file_total_example :
    (errors : List String) × (analyze_file environment "/work/a.cpp" [] [] none ≡ ok errors)
analyze_file_total_example =
    analyze_file_total environment "/work/a.cpp" [] [] [] none filled unit_of_f
      (record {
        file_default = Safety.SafetyMode.default;
        function_overrides = ("f", Safety.SafetyMode.safe) ∷ [];
      })
      refl run_fills refl refl unit-IsReadable source_parses

-- a path twice, one that is missing and a blank one
abbrev searched : Environment
searched = record environment { env_var = λ _. some "/work/g.h: :/missing:/work/g.h" }

extract_include_paths_from_env-AreSearchable_example :
    AreSearchable searched (extract_include_paths_from_env searched)
extract_include_paths_from_env-AreSearchable_example =
    extract_include_paths_from_env-AreSearchable searched
