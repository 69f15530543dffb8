-- ===== src/Common/Sets.antt =====
-- `HashSet<String>` as a list; `insert` of a member changes nothing.
use Prim.Native.String.{String}
use mathlib.Core.Path.{◌≡◌, refl}
use mathlib.Core.Bool.{Bool, false, not, ◌&&◌, ◌||◌}
use mathlib.Core.List.{List, [], ◌∷◌}
use native.Mathlib.Omega.{arith}
use text.Mathlib.Text.{◌==◌}
use text.Mathlib.TextEquality.{eq_iff}
use rustycpp.Common.Tests.{if◌then◌else◌}

abbrev pub StringSet : Type 0
StringSet = List String

unfoldable pub contains : StringSet → String → Bool
contains [] x = false
contains (y ∷ s) x = y == x || contains s x

unfoldable pub add : StringSet → String → StringSet
add s x = if contains s x then s else x ∷ s

unfoldable pub discard : StringSet → String → StringSet
discard [] x = []
discard (y ∷ s) x = let rest = discard s x in if y == x then rest else y ∷ rest

-- `retain(|b| other.contains(b))`
unfoldable pub retain_common : StringSet → StringSet → StringSet
retain_common [] other = []
retain_common (y ∷ s) other =
    let rest = retain_common s other in if contains other y then y ∷ rest else rest

pub contains-add :
    (s : StringSet) (x y : String) → contains (add s x) y ≡ ((x == y) || contains s y)
unfolding contains add
contains-add s x y = ground (arith, eq_iff x y)

pub contains-discard :
    (s : StringSet) (x y : String) → contains (discard s x) y ≡ (not (x == y) && contains s y)
unfolding contains discard
contains-discard [] x y = ground arith
contains-discard (z ∷ s) x y =
    ground (arith, eq_iff z x, eq_iff z y, eq_iff x y, contains-discard s x y)

pub contains-retain_common :
    (s other : StringSet) (y : String)
    → contains (retain_common s other) y ≡ (contains s y && contains other y)
unfolding contains retain_common
contains-retain_common [] other y = refl
contains-retain_common (z ∷ s) other y =
    ground (arith, eq_iff z y, contains-retain_common s other y)
