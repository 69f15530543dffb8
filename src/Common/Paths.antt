-- ===== src/Common/Paths.antt =====
-- `==` on `Path`, where `/` separates: paths are equal when their components are. Repeated
-- separators and the parts `.` behind the first one do not count.
use Prim.Native.String.{String}
use mathlib.Core.Path.{◌≡◌, refl}
use mathlib.Core.Bool.{Bool, true, false, ◌&&◌, ◌||◌}
use mathlib.Core.List.{List, [], ◌∷◌}
use native.Mathlib.Omega.{arith}
use text.Mathlib.Text.{◌==◌, starts_with}
use text.Mathlib.TextEquality.{eq_iff}
use rustycpp.Common.Tests.{if◌then◌else◌}
use rustycpp.Common.Words.{split}

abbrev named_parts : List String → List String
named_parts [] = []
named_parts (part ∷ parts) =
    let rest = named_parts parts in if part == "" || part == "." then rest else part ∷ rest

-- a relative path that begins with `.` has it as its first component
abbrev relative_parts : List String → List String
relative_parts [] = []
relative_parts (part ∷ parts) =
    let rest = named_parts parts in
    if part == "." then "." ∷ rest else if part == "" then rest else part ∷ rest

unfoldable pub components : String → List String
components path =
    let parts = split path "/" in
    if starts_with path "/" then "/" ∷ named_parts parts else relative_parts parts

abbrev pub same_words : List String → List String → Bool
same_words [] [] = true
same_words (x ∷ xs) (y ∷ ys) = x == y && same_words xs ys
same_words _ _ = false

unfoldable pub same_path : String → String → Bool
unfolding components
same_path p q = same_words (components p) (components q)

same_words-symmetric : (xs ys : List String) → same_words xs ys ≡ same_words ys xs
same_words-symmetric [] [] = refl
same_words-symmetric [] (y ∷ ys) = refl
same_words-symmetric (x ∷ xs) [] = refl
same_words-symmetric (x ∷ xs) (y ∷ ys) =
    ground (arith, eq_iff x y, eq_iff y x, same_words-symmetric xs ys)

pub same_path-symmetric : (p q : String) → same_path p q ≡ same_path q p
unfolding same_path
same_path-symmetric p q = same_words-symmetric (components p) (components q)

same_path_test : same_path "include//a/./b.h" "include/a/b.h/" ≡ true
unfolding same_path components split
same_path_test = refl
