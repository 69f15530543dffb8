-- ===== src/CommandLine.antt =====
-- The include paths of a run, and the analysis of a file: src/main.rs, lines 76-221, and the
-- translation of a file in src/parser/mod.rs, lines 27-94. Files, the environment, serde_json and
-- libclang are parameters; the separator of paths is that of Unix.
pub mod Flags
pub mod Files
use Prim.Native.String
use rustycpp.Common.{
  String, ◌==◌, concat, starts_with, ends_with, trim, split, split_whitespace, same_path, is_blank,
  Bool, true, false, not, ◌&&◌, ◌||◌, Option, none, some, List, [], ◌∷◌, ◌++◌, any, if◌then◌else◌,
  Outcome, ok, err, ◌>>=◌,
}
use rustycpp.Entities.{Entity}
use rustycpp.Ast.{Expression, CppAst}
use rustycpp.Safety.Scan.{SourceFile, parse_safety_annotations}
use rustycpp.Visiting
use rustycpp.Visiting.{visit_entity}
use rustycpp.Headers
use rustycpp.Headers.{Surroundings, set_include_paths, parse_includes_from_source}
use rustycpp.Pipeline.Contexts.{analyze_ast}

-- an entry of `compile_commands.json`, with what `as_str` gives of its two fields
pub record CompileCommand : Type 0 where
  pub file : Option String
  pub command : Option String

-- `fatal` says whether libclang reports an error of that severity.
pub record TranslationUnit : Type 0 where
  pub root : Entity
  pub fatal : Bool

pub record Environment : Type 0 where
  pub world : Surroundings
  pub env_var : String → Option String
  pub compile_commands : String → Outcome (List CompileCommand)
  pub translate : String → List String → Outcome TranslationUnit
  pub source : String → SourceFile
  pub debug : Expression → String

-- a test of which only the branch that is taken is computed
abbrev pub either : Bool → (Unit {0} → List String) → (Unit {0} → List String) → List String
either true first second = first tt
either false first second = second tt

-- `-I` alone takes the next word; as the last word it is an empty path.
unfoldable pub include_words : List String → List String
include_words [] = []
include_words (word ∷ []) =
    if starts_with word "-I" then String.slice word 2 (String.len word) ∷ [] else []
include_words (word ∷ next ∷ words) =
    either (word == "-I") (λ _. next ∷ include_words words)
      (λ _.
        let after = include_words (next ∷ words) in
        if starts_with word "-I" then String.slice word 2 (String.len word) ∷ after else after)

unfoldable pub extract_include_paths_from_command : String → List String
unfolding include_words
extract_include_paths_from_command command = include_words (split_whitespace command)

abbrev pub names_file : Option String → String → Bool
names_file none source = false
names_file (some file) source = ends_with file source || ends_with source file

abbrev pub command_of : Bool → Option String → Option String
command_of true command = command
command_of false command = none

abbrev pub paths_or : Option String → List String → List String
paths_or none others = others
paths_or (some command) others = extract_include_paths_from_command command

-- the loop over the entries: the first one of the file that has a command decides
unfoldable pub find_command : List CompileCommand → String → List String
unfolding extract_include_paths_from_command
find_command [] source = []
find_command (entry ∷ commands) source =
    paths_or (command_of (names_file entry.file source) entry.command)
      (find_command commands source)

abbrev pub env_vars : List String
env_vars = "CPLUS_INCLUDE_PATH" ∷ "C_INCLUDE_PATH" ∷ "CPATH" ∷ "CPP_INCLUDE_PATH" ∷ []

abbrev pub clang_options : List String
clang_options =
    "-std=c++17" ∷ "-xc++" ∷ "-fno-delayed-template-parsing" ∷ "-fparse-all-comments"
    ∷ "-Wno-everything" ∷ "-Wno-error" ∷ []

abbrev pub prefix_all : String → List String → List String
prefix_all prefix [] = []
prefix_all prefix (x ∷ xs) = concat (prefix ∷ x ∷ []) ∷ prefix_all prefix xs

module _ (env : Environment) where
  unfoldable pub extract_include_paths_from_compile_commands :
      String → String → Outcome (List String)
  unfolding find_command
  extract_include_paths_from_compile_commands cc_path source_file = do
    commands ← env.compile_commands cc_path
    ok (find_command commands source_file)

  -- one part of a variable's value
  abbrev pub add_path : List String → String → List String
  add_path paths path =
      if is_blank path
      then paths
      else if env.world.path_exists path && not (any (λ p. same_path p path) paths)
      then paths ++ path ∷ []
      else paths

  unfoldable pub add_parts : List String → List String → List String
  add_parts paths [] = paths
  add_parts paths (part ∷ parts) = add_parts (add_path paths (trim part)) parts

  abbrev pub add_value : List String → Option String → List String
  add_value paths none = paths
  add_value paths (some env_value) = add_parts paths (split env_value ":")

  unfoldable pub add_variables : List String → List String → List String
  unfolding add_parts
  add_variables paths [] = paths
  add_variables paths (var_name ∷ names) =
      add_variables (add_value paths (env.env_var var_name)) names

  unfoldable pub extract_include_paths_from_env : List String
  unfolding add_variables
  extract_include_paths_from_env = add_variables [] env_vars

  abbrev pub visit_unit : TranslationUnit → Outcome CppAst
  visit_unit tu =
      if tu.fatal
      then err "Fatal parsing errors encountered"
      else (do v ← visit_entity env.debug tu.root Visiting.new; ok v.ast)

  unfoldable pub parse_cpp_file_with_includes_and_defines :
      String → List String → List String → Outcome CppAst
  parse_cpp_file_with_includes_and_defines path include_paths defines = do
    tu ←
        env.translate path
          (clang_options ++ (prefix_all "-I" include_paths ++ prefix_all "-D" defines))
    visit_unit tu

  abbrev pub extracted_paths : Option String → String → Outcome (List String)
  extracted_paths none path = ok []
  extracted_paths (some cc_path) path = extract_include_paths_from_compile_commands cc_path path

  unfoldable pub analyze_file :
      String → List String → List String → Option String → Outcome (List String)
  unfolding extract_include_paths_from_env extract_include_paths_from_compile_commands
      parse_cpp_file_with_includes_and_defines
  analyze_file path include_paths defines compile_commands = do
    extracted ← extracted_paths compile_commands path
    let all_include_paths = include_paths ++ (extract_include_paths_from_env ++ extracted)
    header_cache ←
        parse_includes_from_source env.world (set_include_paths Headers.new all_include_paths) path
    ast ← parse_cpp_file_with_includes_and_defines path all_include_paths defines
    safety_context ← parse_safety_annotations (env.source path)
    analyze_ast header_cache safety_context ast
