-- ===== src/Visiting.antt =====
-- Which entities of a translation unit become functions: src/parser/mod.rs, `visit_entity`, lines
-- 96-164. The set of visited files and the tree are the state.
pub mod Checked
pub mod Headers
use rustycpp.Common.{
  ℕ, ltb, String, contains_text, starts_with, Bool, true, false, not, ◌&&◌, ◌||◌, Option, none,
  some, List, [], ◌∷◌, ◌++◌, any, length, if◌then◌else◌, StringSet, contains, add, Outcome, ok,
  ◌>>=◌,
}
use rustycpp.Entities.{EntityKind, FileLocation, Answers, Entity, Children, entity, child}
use rustycpp.Ast.{Variable, Function, Expression, CppAst}
use rustycpp.Extraction.{extract_function, extract_variable}

pub record Visit : Type 0 where
  pub ast : CppAst
  pub visited_files : StringSet

abbrev pub new : Visit
new = record { ast = record { functions = []; global_variables = [] }; visited_files = [] }

abbrev pub system_prefixes : List String
system_prefixes =
    "/usr/include" ∷ "/usr/lib" ∷ "/usr/local/include" ∷ "/System" ∷ "/Library/Developer"
    ∷ "/Applications/Xcode" ∷ "/opt/" ∷ []

abbrev pub system_parts : List String
system_parts = "/bits/" ∷ "/c++/" ∷ "/__" ∷ "/stdlib" ∷ "/sys/" ∷ "/linux/" ∷ "/asm/" ∷ "/gnu/" ∷ []

unfoldable pub is_system_header : String → Bool
is_system_header path =
    any (starts_with path) system_prefixes || any (contains_text path) system_parts

unfoldable pub is_third_party : String → Bool
is_third_party path =
    contains_text path "/third-party/"
    && not (contains_text path "/third-party/rustycpp")
    && not (contains_text path "/third-party/erpc/src/rpc.h")

-- whether the entity is looked at, and the files that are visited then
unfoldable pub enter_file : String → Bool → StringSet → Bool × StringSet
enter_file path is_in_main_file visited =
    if is_system_header path || is_third_party path
    then (false, visited)
    else if is_in_main_file
    then (true, visited)
    else if contains visited path
    then (false, visited)
    else (not (ltb 100 (length (add visited path))), add visited path)

abbrev pub enter_named : Option String → Bool → StringSet → Bool × StringSet
enter_named none is_in_main_file visited = (true, visited)
enter_named (some path) is_in_main_file visited = enter_file path is_in_main_file visited

abbrev pub enter_location : Option FileLocation → StringSet → Bool × StringSet
enter_location none visited = (true, visited)
enter_location (some l) visited = enter_named l.file l.is_in_main_file visited

abbrev pub push_function : Visit → Function → Visit
push_function v f = record v {
  ast = record { functions = v.ast.functions ++ f ∷ []; global_variables = v.ast.global_variables };
}

abbrev pub push_variable : Visit → Variable → Visit
push_variable v var = record v {
  ast = record {
    functions = v.ast.functions;
    global_variables = v.ast.global_variables ++ var ∷ [];
  };
}

module _ (debug : Expression → String) where
  abbrev pub visit_definition : Entity → Bool → Visit → Outcome Visit
  visit_definition e false v = ok v
  visit_definition e true v = do f ← extract_function debug e; ok (push_function v f)

  abbrev pub visit_kind : EntityKind → Entity → Bool → Visit → Outcome Visit
  visit_kind EntityKind.function_decl e is_definition v = visit_definition e is_definition v
  visit_kind EntityKind.method e is_definition v = visit_definition e is_definition v
  visit_kind EntityKind.var_decl e is_definition v = do
    var ← extract_variable e
    ok (push_variable v var)
  visit_kind _ e is_definition v = ok v

  unfoldable mutual
    pub visit_entity : Entity → Visit → Outcome Visit
    visit_entity (entity kind answers children) v =
        let (enters, visited) = enter_location answers.location v.visited_files in
        let entered : Visit = record v { visited_files = visited } in
        let looked_at = (do
          found ← visit_kind kind (entity kind answers children) answers.is_definition entered
          visit_children children found) in
        if enters then looked_at else ok entered

    pub visit_children : Children → Visit → Outcome Visit
    visit_children Children.none v = ok v
    visit_children (child c rest) v = do v' ← visit_entity c v; visit_children rest v'
