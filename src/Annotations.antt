-- ===== src/Annotations.antt =====
-- Lifetime and safety annotations of functions, and the cache of those found in headers:
-- src/parser/annotations.rs, lines 4-37, and src/parser/header_cache.rs, lines 9-36. `Headers` fills
-- the cache.
pub mod Reading
use rustycpp.Common.{String, Bool, not, Option, List, is_empty, Map, get}

pub data LifetimeAnnotation : Type 0 where
  lifetime ref mut_ref : String → LifetimeAnnotation
  owned : LifetimeAnnotation

pub data SafetyAnnotation : Type 0 where
  safe unsafe : SafetyAnnotation

pub record LifetimeBound : Type 0 where
  pub longer : String
  pub shorter : String

pub record FunctionSignature : Type 0 where
  pub name : String
  pub return_lifetime : Option LifetimeAnnotation
  pub param_lifetimes : List (Option LifetimeAnnotation)
  pub lifetime_bounds : List LifetimeBound
  pub safety : Option SafetyAnnotation

pub record HeaderCache : Type 0 where
  pub signatures : Map FunctionSignature
  pub processed_headers : List String
  pub include_paths : List String

abbrev pub get_signature : HeaderCache → String → Option FunctionSignature
get_signature cache func_name = get cache.signatures func_name

abbrev pub has_signatures : HeaderCache → Bool
has_signatures cache = not (is_empty cache.signatures)
