-- ===== src/Headers/Processed.antt =====
-- What the cache of src/parser/header_cache.rs keeps: each header once, each signature under its name.
use rustycpp.Common.{
  same_path, same_path-symmetric, ◌∙◌, ◌∙◌, String, ◌==◌, arith, ◌≡◌, refl, Bool, true, false, ◌||◌,
  Bool-cases, Option, none, some, inl, inr, List, [], ◌∷◌, ◌++◌, any, All, All-append, Map, insert,
}
use rustycpp.Entities.{EntityKind, Entity, Children, entity, child}
use rustycpp.Annotations.{FunctionSignature, HeaderCache}
use rustycpp.Annotations.Reading.{extract_annotations}
use rustycpp.Headers.{
  Surroundings, insert_signature, signature_here, visit_entity_for_signatures,
  visit_children_for_signatures, push_processed,
}

-- no path stands twice
abbrev pub IsDistinct : List String → Type 0
IsDistinct [] = Unit
IsDistinct (path ∷ paths) = (any (λ p. same_path p path) paths ≡ false) × IsDistinct paths

abbrev pub IsKeyed : Map FunctionSignature → Type 0
IsKeyed signatures = All (λ entry. entry.0 ≡ entry.1.name) signatures

pub record IsCache (world : Surroundings) (cache : HeaderCache) : Type 0 where
  pub distinct : IsDistinct cache.processed_headers
  pub keyed : IsKeyed cache.signatures
  pub existing : All (λ p. world.path_exists p ≡ true) cache.processed_headers

insert-IsKeyed :
    (m : Map FunctionSignature) (sig : FunctionSignature)
    → IsKeyed m
    → IsKeyed (insert m sig.name sig)
unfolding insert
insert-IsKeyed [] sig h = (refl, tt)
insert-IsKeyed ((k, v) ∷ m) sig (p, h) = elim (Bool-cases (k == sig.name)) [
  | inl same ↦ rw same (refl, h)
  | inr apart ↦ rw apart (p, insert-IsKeyed m sig h)
]

any-append : (p : String → Bool) (xs ys : List String) → any p (xs ++ ys) ≡ (any p xs || any p ys)
any-append p [] ys = refl
any-append p (x ∷ xs) ys = ground (arith, any-append p xs ys)

pub append-IsDistinct :
    (paths : List String) (path : String)
    → any (λ p. same_path p path) paths ≡ false
    → IsDistinct paths
    → IsDistinct (paths ++ path ∷ [])
append-IsDistinct [] path h d = (refl, tt)
append-IsDistinct (x ∷ xs) path h (fresh, d) = (
  rw (any-append (λ p. same_path p x) xs (path ∷ []))
      (ground (arith, fresh, h, same_path-symmetric x path)),
  append-IsDistinct xs path (ground (arith, h)) d,
)

module _ (world : Surroundings) where
  insert_signature-IsCache :
      (cache : HeaderCache) (sig : Option FunctionSignature)
      → IsCache world cache
      → IsCache world (insert_signature cache sig)
  insert_signature-IsCache cache none h = h
  insert_signature-IsCache cache (some sig) h = record {
    distinct = h.distinct;
    keyed = insert-IsKeyed cache.signatures sig h.keyed;
    existing = h.existing;
  }

  signature_here-IsCache :
      (kind : EntityKind) (e : Entity) (cache : HeaderCache)
      → IsCache world cache
      → IsCache world (signature_here world kind e cache)
  signature_here-IsCache EntityKind.function_decl e cache h =
      insert_signature-IsCache cache (extract_annotations world.regexes e) h
  signature_here-IsCache EntityKind.method e cache h =
      insert_signature-IsCache cache (extract_annotations world.regexes e) h
  signature_here-IsCache _ e cache h = h

  mutual
    unfolding visit_entity_for_signatures

    pub visit-IsCache :
        (e : Entity) (cache : HeaderCache)
        → IsCache world cache
        → IsCache world (visit_entity_for_signatures world e cache)
    visit-IsCache (entity kind answers children) cache h =
        visit_children-IsCache children _
          (signature_here-IsCache kind (entity kind answers children) cache h)

    visit_children-IsCache :
        (cs : Children) (cache : HeaderCache)
        → IsCache world cache
        → IsCache world (visit_children_for_signatures world cs cache)
    visit_children-IsCache Children.none cache h = h
    visit_children-IsCache (child c rest) cache h =
        visit_children-IsCache rest _ (visit-IsCache c cache h)

  insert_signature-processed :
      (cache : HeaderCache) (sig : Option FunctionSignature)
      → (insert_signature cache sig).processed_headers ≡ cache.processed_headers
  insert_signature-processed cache none = refl
  insert_signature-processed cache (some sig) = refl

  signature_here-processed :
      (kind : EntityKind) (e : Entity) (cache : HeaderCache)
      → (signature_here world kind e cache).processed_headers ≡ cache.processed_headers
  signature_here-processed EntityKind.function_decl e cache = insert_signature-processed cache _
  signature_here-processed EntityKind.method e cache = insert_signature-processed cache _
  signature_here-processed _ e cache = refl

  mutual
    unfolding visit_entity_for_signatures

    pub visit-processed :
        (e : Entity) (cache : HeaderCache)
        → (visit_entity_for_signatures world e cache).processed_headers ≡ cache.processed_headers
    visit-processed (entity kind answers children) cache =
        visit_children-processed children _
        ∙ signature_here-processed kind (entity kind answers children) cache

    visit_children-processed :
        (cs : Children) (cache : HeaderCache)
        → (visit_children_for_signatures world cs cache).processed_headers ≡ cache.processed_headers
    visit_children-processed Children.none cache = refl
    visit_children-processed (child c rest) cache =
        visit_children-processed rest _ ∙ visit-processed c cache

  pub pushed-IsCache :
      (cache : HeaderCache) (path : String)
      → any (λ p. same_path p path) cache.processed_headers ≡ false
      → world.path_exists path ≡ true
      → IsCache world cache
      → IsCache world (push_processed cache path)
  pushed-IsCache cache path fresh there h = record {
    distinct = append-IsDistinct cache.processed_headers path fresh h.distinct;
    keyed = h.keyed;
    existing =
        All-append (λ p. world.path_exists p ≡ true) cache.processed_headers (path ∷ []) h.existing
          (there, tt);
  }
