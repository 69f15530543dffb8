-- ===== src/Headers/Includes.antt =====
-- From the includes of a source file to the cache: src/parser/header_cache.rs, lines 35-119.
use rustycpp.Common.{
  same_path, subst, String, ◌≡◌, refl, Bool, true, false, Bool-cases, Option, none, some, inl, inr,
  List, [], ◌∷◌, any, Outcome, ok, err, panic, out_of_fuel, ◌>>=◌,
}
use rustycpp.Entities.{Entity}
use rustycpp.Annotations.{HeaderCache}
use rustycpp.Headers.{
  Surroundings, visit_entity_for_signatures, push_processed, is_processed, parse_header,
  first_existing, resolve_include, parse_resolved, parse_includes, parse_includes_from_source,
}
use rustycpp.Headers.Processed.{IsCache, pushed-IsCache, visit-IsCache, visit-processed}

module _ (world : Surroundings) where
  -- what a call leaves, where it succeeds
  abbrev Keeps : Outcome HeaderCache → Type 0
  Keeps m = (after : HeaderCache) → m ≡ ok after → IsCache world after

  ok-Keeps : (cache : HeaderCache) → IsCache world cache → Keeps (ok cache)
  ok-Keeps cache h after e = let same : cache ≡ after = cc in subst (IsCache world) same h

  parsed-Keeps :
      (cache : HeaderCache) (path : String) (m : Outcome Entity)
      → any (λ p. same_path p path) cache.processed_headers ≡ false
      → world.path_exists path ≡ true
      → IsCache world cache
      → Keeps
          (m >>= λ root. ok (push_processed (visit_entity_for_signatures world root cache) path))
  parsed-Keeps cache path (ok root) fresh there h =
      let visited = visit_entity_for_signatures world root cache in
      ok-Keeps (push_processed visited path) (
        pushed-IsCache world visited path (rw (visit-processed world root cache) fresh) there
          (visit-IsCache world root cache h))
  parsed-Keeps cache path (err message) fresh there h = λ after e. cc
  parsed-Keeps cache path panic fresh there h = λ after e. cc
  parsed-Keeps cache path out_of_fuel fresh there h = λ after e. cc

  parse_header-Keeps :
      (cache : HeaderCache) (path : String)
      → world.path_exists path ≡ true
      → IsCache world cache
      → Keeps (parse_header world cache path)
  unfolding parse_header is_processed
  parse_header-Keeps cache path there h =
      elim (Bool-cases (any (λ p. same_path p path) cache.processed_headers)) [
        | inl p ↦ rw p (ok-Keeps cache h)
        | inr p ↦ rw p (parsed-Keeps cache path _ p there h)
      ]

  first_existing-exists :
      (paths : List String) (p : String)
      → first_existing world paths ≡ some p
      → world.path_exists p ≡ true
  unfolding first_existing
  first_existing-exists [] p e = cc
  first_existing-exists (x ∷ xs) p e = elim (Bool-cases (world.path_exists x)) [
    | inl there ↦
        let here : some x ≡ some p = rw there at e in let same : x ≡ p = cc in rw (← same) there
    | inr absent ↦ first_existing-exists xs p (rw absent at e)
  ]

  resolved-Keeps :
      (cache : HeaderCache) (resolved : Option String)
      → ((p : String) → resolved ≡ some p → world.path_exists p ≡ true)
      → IsCache world cache
      → Keeps (parse_resolved world cache resolved)
  resolved-Keeps cache none there h = ok-Keeps cache h
  resolved-Keeps cache (some path) there h = parse_header-Keeps cache path (there path refl) h

  then-Keeps :
      (m : Outcome HeaderCache) (next : HeaderCache → Outcome HeaderCache)
      → Keeps m
      → ((c : HeaderCache) → IsCache world c → Keeps (next c))
      → Keeps (m >>= next)
  then-Keeps (ok c) next h k = k c (h c refl)
  then-Keeps (err message) next h k = λ after e. cc
  then-Keeps panic next h k = λ after e. cc
  then-Keeps out_of_fuel next h k = λ after e. cc

  includes-Keeps :
      (paths : List String) (source : String) (nearby : Bool) (cache : HeaderCache)
      → IsCache world cache
      → Keeps (parse_includes world paths source nearby cache)
  unfolding parse_includes resolve_include
  includes-Keeps [] source nearby cache h = ok-Keeps cache h
  includes-Keeps (path ∷ paths) source nearby cache h =
      then-Keeps (parse_resolved world cache (resolve_include world cache path source nearby)) _
        (resolved-Keeps cache _ (λ p e. first_existing-exists _ p e) h)
        (λ c k. includes-Keeps paths source nearby c k)

  content-Keeps :
      (content : Outcome String) (source : String) (cache : HeaderCache)
      → IsCache world cache
      → Keeps (
          content >>= λ c. parse_includes world (world.includes c).0 source true cache >>= λ after.
          parse_includes world (world.includes c).1 source false after)
  content-Keeps (ok c) source cache h =
      then-Keeps (parse_includes world (world.includes c).0 source true cache) _
        (includes-Keeps (world.includes c).0 source true cache h)
        (λ after k. includes-Keeps (world.includes c).1 source false after k)
  content-Keeps (err message) source cache h = λ after e. cc
  content-Keeps panic source cache h = λ after e. cc
  content-Keeps out_of_fuel source cache h = λ after e. cc

  -- If the includes of a source file are parsed without an error, the cache still has no header
  -- twice, only headers that exist, and each signature under its own name, as it had before.
  pub parse_includes_from_source-IsCache :
      (cache after : HeaderCache) (source : String)
      → IsCache world cache
      → parse_includes_from_source world cache source ≡ ok after
      → IsCache world after
  unfolding parse_includes_from_source
  parse_includes_from_source-IsCache cache after source h e =
      content-Keeps (world.read_to_string source) source cache h after e
