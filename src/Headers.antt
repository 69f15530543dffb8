-- ===== src/Headers.antt =====
-- The cache of signatures from header files: src/parser/header_cache.rs, lines 20-142. Paths are
-- texts. The file system, the regex crate and libclang are parameters.
pub mod Processed
pub mod Includes
use rustycpp.Common.{
  same_path, String, ◌==◌, concat, Bool, true, false, Option, none, some, List, [], ◌∷◌, ◌++◌, any,
  if◌then◌else◌, insert, Outcome, ok, ◌>>=◌,
}
use rustycpp.Entities.{EntityKind, Entity, Children, entity, child}
use rustycpp.Annotations.{FunctionSignature, HeaderCache}
use rustycpp.Annotations.Reading.{Regexes, extract_annotations}

-- `parse` is what libclang makes of a header with the arguments: its root entity, or an error.
-- `includes` are the quoted and the other includes that the patterns of `extract_includes` find.
pub record Surroundings : Type 0 where
  pub regexes : Regexes
  pub path_exists : String → Bool
  pub parent : String → Option String
  pub join : String → String → String
  pub read_to_string : String → Outcome String
  pub includes : String → List String × List String
  pub parse : String → List String → Outcome Entity

unfoldable pub new : HeaderCache
new = record { signatures = []; processed_headers = []; include_paths = [] }

unfoldable pub set_include_paths : HeaderCache → List String → HeaderCache
set_include_paths cache paths = record cache { include_paths = paths }

-- `-std=c++17`, `-xc++` and the include paths
abbrev pub clang_arguments : List String → List String
clang_arguments [] = []
clang_arguments (path ∷ paths) = concat ("-I" ∷ path ∷ []) ∷ clang_arguments paths

abbrev pub insert_signature : HeaderCache → Option FunctionSignature → HeaderCache
insert_signature cache none = cache
insert_signature cache (some sig) = record cache {
  signatures = insert cache.signatures sig.name sig;
}

abbrev pub push_processed : HeaderCache → String → HeaderCache
push_processed cache header_path = record cache {
  processed_headers = cache.processed_headers ++ header_path ∷ [];
}

unfoldable pub is_processed : HeaderCache → String → Bool
is_processed cache header_path = any (λ p. same_path p header_path) cache.processed_headers

module _ (world : Surroundings) where
  abbrev pub signature_here : EntityKind → Entity → HeaderCache → HeaderCache
  signature_here EntityKind.function_decl e cache =
      insert_signature cache (extract_annotations world.regexes e)
  signature_here EntityKind.method e cache =
      insert_signature cache (extract_annotations world.regexes e)
  signature_here _ e cache = cache

  unfoldable mutual
    pub visit_entity_for_signatures : Entity → HeaderCache → HeaderCache
    visit_entity_for_signatures (entity kind answers children) cache =
        visit_children_for_signatures children
          (signature_here kind (entity kind answers children) cache)

    pub visit_children_for_signatures : Children → HeaderCache → HeaderCache
    visit_children_for_signatures Children.none cache = cache
    visit_children_for_signatures (child c rest) cache =
        visit_children_for_signatures rest (visit_entity_for_signatures c cache)

  unfoldable pub parse_header : HeaderCache → String → Outcome HeaderCache
  unfolding visit_entity_for_signatures is_processed
  parse_header cache header_path = if is_processed cache header_path then ok cache else (do
    root ← world.parse header_path ("-std=c++17" ∷ "-xc++" ∷ clang_arguments cache.include_paths)
    ok (push_processed (visit_entity_for_signatures root cache) header_path))

  -- the first of the candidates that exists
  unfoldable pub first_existing : List String → Option String
  first_existing [] = none
  first_existing (path ∷ paths) = if world.path_exists path then some path else first_existing paths

  abbrev pub local_paths : Option String → String → Bool → List String
  local_paths (some parent) include_path true = world.join parent include_path ∷ []
  local_paths _ include_path _ = []

  abbrev pub join_all : List String → String → List String
  join_all [] include_path = []
  join_all (dir ∷ dirs) include_path = world.join dir include_path ∷ join_all dirs include_path

  -- next to the source file, in the include paths, and as it stands
  unfoldable pub resolve_include : HeaderCache → String → String → Bool → Option String
  unfolding first_existing
  resolve_include cache include_path source_file search_source_dir = first_existing (
      local_paths (world.parent source_file) include_path search_source_dir
      ++ (join_all cache.include_paths include_path ++ include_path ∷ []))

  abbrev pub parse_resolved : HeaderCache → Option String → Outcome HeaderCache
  parse_resolved cache none = ok cache
  parse_resolved cache (some resolved) = parse_header cache resolved

  -- the loop over the includes of one kind
  unfoldable pub parse_includes : List String → String → Bool → HeaderCache → Outcome HeaderCache
  unfolding resolve_include parse_header
  parse_includes [] cpp_file search_source_dir cache = ok cache
  parse_includes (include_path ∷ paths) cpp_file search_source_dir cache = do
    after ← parse_resolved cache (resolve_include cache include_path cpp_file search_source_dir)
    parse_includes paths cpp_file search_source_dir after

  unfoldable pub parse_includes_from_source : HeaderCache → String → Outcome HeaderCache
  unfolding parse_includes
  parse_includes_from_source cache cpp_file = do
    content ← world.read_to_string cpp_file
    after ← parse_includes (world.includes content).0 cpp_file true cache
    parse_includes (world.includes content).1 cpp_file false after
