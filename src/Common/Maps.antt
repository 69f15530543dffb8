-- ===== src/Common/Maps.antt =====
-- `HashMap<String, V>` as an association list, in the order of insertion. A hash map has one entry
-- for each key, which `IsMap` states; the order of entries is not specified by the code.
use Prim.Native.String.{String}
use mathlib.Core.Path.{◌≡◌, refl, subst}
use mathlib.Core.Logic.{inl, inr}
use mathlib.Core.Bool.{Bool}
use mathlib.Core.Option
use mathlib.Core.Option.{Option, none, some}
use mathlib.Core.List.{List, [], ◌∷◌}
use native.Mathlib.Omega.{arith}
use text.Mathlib.Text.{◌==◌}
use text.Mathlib.TextEquality.{eq_iff}
use rustycpp.Common.Tests.{if◌then◌else◌, Bool-cases}

abbrev pub Map {ℓ} : Type ℓ → Type ℓ
Map V = List (String × V)

module _ {ℓ} {V : Type ℓ} where
  unfoldable pub get : Map V → String → Option V
  get [] k = none
  get ((j, v) ∷ m) k = if j == k then some v else get m k

  unfoldable pub insert : Map V → String → V → Map V
  insert [] k v = (k, v) ∷ []
  insert ((j, w) ∷ m) k v = if j == k then (k, v) ∷ m else (j, w) ∷ insert m k v

  unfoldable pub remove : Map V → String → Map V
  remove [] k = []
  remove ((j, w) ∷ m) k = let rest = remove m k in if j == k then rest else (j, w) ∷ rest

  unfoldable pub retain : (String → V → Bool) → Map V → Map V
  retain p [] = []
  retain p ((j, w) ∷ m) = let rest = retain p m in if p j w then (j, w) ∷ rest else rest

  unfoldable pub map_values : (V → V) → Map V → Map V
  map_values f [] = []
  map_values f ((j, w) ∷ m) = (j, f w) ∷ map_values f m

  abbrev pub keep_if : (V → Bool) → Option V → Option V
  keep_if p none = none
  keep_if p (some v) = if p v then some v else none

  -- one entry for each key
  abbrev pub IsMap : Map V → Type ℓ
  IsMap [] = Unit
  IsMap ((k, v) ∷ m) = (get m k ≡ none) × IsMap m

  pub get-insert :
      (m : Map V) (k j : String) (v : V)
      → get (insert m k v) j ≡ (if k == j then some v else get m j)
  unfolding get insert
  get-insert [] k j v = refl
  get-insert ((i, w) ∷ m) k j v =
      ground (arith, eq_iff k j, eq_iff i k, eq_iff i j, get-insert m k j v)

  pub get-remove :
      (m : Map V) (k j : String) → get (remove m k) j ≡ (if k == j then none else get m j)
  unfolding get remove
  get-remove [] k j = ground arith
  get-remove ((i, w) ∷ m) k j = ground (arith, eq_iff k j, eq_iff i k, eq_iff i j, get-remove m k j)

  pub get-map_values :
      (f : V → V) (m : Map V) (j : String) → get (map_values f m) j ≡ Option.map f (get m j)
  unfolding get map_values
  get-map_values f [] j = refl
  get-map_values f ((i, w) ∷ m) j = ground (arith, get-map_values f m j)

  pub get-retain :
      (p : String → V → Bool) (m : Map V) (j : String)
      → IsMap m
      → get (retain p m) j ≡ keep_if (p j) (get m j)
  unfolding get retain
  get-retain p [] j h = refl
  get-retain p ((i, w) ∷ m) j h = ground (arith, eq_iff i j, get-retain p m j)

  pub IsMap-insert : (m : Map V) (k : String) (v : V) → IsMap m → IsMap (insert m k v)
  unfolding get insert
  IsMap-insert [] k v h = (refl, tt)
  IsMap-insert ((i, w) ∷ m) k v h =
      ground (arith, eq_iff i k, eq_iff k i, get-insert m k i v, IsMap-insert m k v)

  pub IsMap-remove : (m : Map V) (k : String) → IsMap m → IsMap (remove m k)
  unfolding get remove
  IsMap-remove [] k h = tt
  IsMap-remove ((i, w) ∷ m) k h = ground (arith, get-remove m k i, IsMap-remove m k)

  pub IsMap-retain : (p : String → V → Bool) (m : Map V) → IsMap m → IsMap (retain p m)
  unfolding get retain
  IsMap-retain p [] h = tt
  IsMap-retain p ((i, w) ∷ m) h = ground (arith, get-retain p m i, IsMap-retain p m)

  pub IsMap-map_values : (f : V → V) (m : Map V) → IsMap m → IsMap (map_values f m)
  unfolding get map_values
  IsMap-map_values f [] h = tt
  IsMap-map_values f ((i, w) ∷ m) h = ground (arith, get-map_values f m i, IsMap-map_values f m)

-- What holds of every value of a map.
module _ {ℓ κ} {V : Type ℓ} (P : V → Type κ) where
  abbrev pub AllValues : Map V → Type κ
  AllValues [] = Unit
  AllValues ((k, v) ∷ m) = P v × AllValues m

  pub AllValues-get : (m : Map V) (k : String) {v : V} → AllValues m → get m k ≡ some v → P v
  unfolding get
  AllValues-get [] k h e = cc
  AllValues-get ((i, w) ∷ m) k {v} (p, h) e = elim (Bool-cases (i == k)) [
    | inl same ↦ let same_value : w ≡ v = ground arith in subst P same_value p
    | inr other ↦ AllValues-get m k h (rw other at e)
  ]

  pub AllValues-insert :
      (m : Map V) (k : String) (v : V) → AllValues m → P v → AllValues (insert m k v)
  unfolding insert
  AllValues-insert [] k v h p = (p, tt)
  AllValues-insert ((i, w) ∷ m) k v (q, h) p = elim (Bool-cases (i == k)) [
    | inl same ↦ rw same (p, h)
    | inr other ↦ rw other (q, AllValues-insert m k v h p)
  ]

  pub AllValues-retain : (p : String → V → Bool) (m : Map V) → AllValues m → AllValues (retain p m)
  unfolding retain
  AllValues-retain p [] h = tt
  AllValues-retain p ((i, w) ∷ m) (q, h) = elim (Bool-cases (p i w)) [
    | inl kept ↦ rw kept (q, AllValues-retain p m h)
    | inr gone ↦ rw gone (AllValues-retain p m h)
  ]

  pub AllValues-map_values :
      (f : V → V)
      → ((v : V) → P v → P (f v))
      → (m : Map V) → AllValues m
      → AllValues (map_values f m)
  unfolding map_values
  AllValues-map_values f keep [] h = tt
  AllValues-map_values f keep ((i, w) ∷ m) (q, h) = (keep w q, AllValues-map_values f keep m h)
