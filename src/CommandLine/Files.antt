-- ===== src/CommandLine/Files.antt =====
-- The include paths of the environment, and the analysis of a file from its name to its errors:
-- src/main.rs, `extract_include_paths_from_env` and `analyze_file`.
use rustycpp.Common.{
  String, same_path, trim, split, is_blank, ◌≡◌, true, false, Bool-cases, Option, none, some, inl,
  inr, List, [], ◌∷◌, ◌++◌, any, All, All-append, ok,
}
use rustycpp.Annotations.{HeaderCache}
use rustycpp.Safety.{SafetyContext}
use rustycpp.Safety.Scan.{parse_safety_annotations}
use rustycpp.Headers
use rustycpp.Headers.{Surroundings, set_include_paths, parse_includes_from_source}
use rustycpp.Headers.Processed.{IsDistinct, append-IsDistinct}
use rustycpp.Visiting.Checked.{IsReadable, visit_entity-checked}
use rustycpp.CommandLine.{
  Environment, TranslationUnit, add_path, add_parts, add_value, add_variables, env_vars,
  extract_include_paths_from_env, clang_options, prefix_all, extracted_paths,
  parse_cpp_file_with_includes_and_defines, analyze_file,
}

module _ (env : Environment) where
  -- paths that exist, none of them twice
  abbrev pub AreSearchable : List String → Type 0
  AreSearchable paths = IsDistinct paths × All (λ p. env.world.path_exists p ≡ true) paths

  add_path-AreSearchable :
      (paths : List String) (path : String)
      → AreSearchable paths
      → AreSearchable (add_path env paths path)
  add_path-AreSearchable paths path (d, e) = elim (Bool-cases (is_blank path)) [
    | inl p ↦ rw p (d, e)
    | inr p ↦ elim (Bool-cases (env.world.path_exists path)) [
      | inr absent ↦ rw (p, absent) (d, e)
      | inl there ↦ elim (Bool-cases (any (λ q. same_path q path) paths)) [
        | inl known ↦ rw (p, there, known) (d, e)
        | inr fresh ↦
            rw (p, there, fresh)
              (
                append-IsDistinct paths path fresh d,
                All-append (λ q. env.world.path_exists q ≡ true) paths (path ∷ []) e (there, tt),
              )
      ]
    ]
  ]

  add_parts-AreSearchable :
      (paths parts : List String) → AreSearchable paths → AreSearchable (add_parts env paths parts)
  unfolding add_parts
  add_parts-AreSearchable paths [] h = h
  add_parts-AreSearchable paths (part ∷ parts) h =
      add_parts-AreSearchable (add_path env paths (trim part)) parts
        (add_path-AreSearchable paths (trim part) h)

  add_value-AreSearchable :
      (paths : List String) (value : Option String)
      → AreSearchable paths
      → AreSearchable (add_value env paths value)
  add_value-AreSearchable paths none h = h
  add_value-AreSearchable paths (some value) h = add_parts-AreSearchable paths (split value ":") h

  add_variables-AreSearchable :
      (paths names : List String)
      → AreSearchable paths
      → AreSearchable (add_variables env paths names)
  unfolding add_variables
  add_variables-AreSearchable paths [] h = h
  add_variables-AreSearchable paths (name ∷ names) h =
      add_variables-AreSearchable (add_value env paths (env.env_var name)) names
        (add_value-AreSearchable paths (env.env_var name) h)

  -- The include paths that are read from the environment all exist, and none of them is the same
  -- path as another.
  pub extract_include_paths_from_env-AreSearchable :
      AreSearchable (extract_include_paths_from_env env)
  unfolding extract_include_paths_from_env
  extract_include_paths_from_env-AreSearchable = add_variables-AreSearchable [] env_vars (tt, tt)

  abbrev pub all_paths : List String → List String → List String
  all_paths include_paths extracted =
      include_paths ++ (extract_include_paths_from_env env ++ extracted)

  -- Where the include paths and the headers are read, libclang translates the file without a fatal
  -- error and answers with locations and types for variables and for all of a function definition,
  -- and the annotations are read, the analysis of the file ends with a list of errors: nothing
  -- panics.
  pub analyze_file_total :
      (path : String) (include_paths defines extracted : List String)
      (compile_commands : Option String) (cache : HeaderCache) (tu : TranslationUnit)
      (context : SafetyContext)
      → extracted_paths env compile_commands path ≡ ok extracted
      → parse_includes_from_source env.world
          (set_include_paths Headers.new (all_paths include_paths extracted))
          path
        ≡ ok cache
      → env.translate path (
          clang_options
          ++ (prefix_all "-I" (all_paths include_paths extracted) ++ prefix_all "-D" defines))
        ≡ ok tu
      → tu.fatal ≡ false
      → IsReadable tu.root
      → parse_safety_annotations (env.source path) ≡ ok context
      → (errors : List String) × (analyze_file env path include_paths defines compile_commands
          ≡ ok errors)
  unfolding analyze_file parse_cpp_file_with_includes_and_defines
  analyze_file_total path include_paths defines extracted cc cache tu context p q r healthy answered
        s =
      let (v, errors, visited, analysed) =
        visit_entity-checked env.debug cache context tu.root answered in
      (errors, rw (p, q, r, healthy, visited, s) analysed)
