-- ===== src/Common/Words.antt =====
-- Rust's `char::is_whitespace`, `trim`, `trim_start_matches` of a character, `push` and
-- `split_whitespace`, character by character.
use Prim.Native.Char.{Char, code}
use Prim.Native.Nat.{ℕ, zero, suc, ◌+◌}
use mathlib.Core.Option.{Option, none, some}
use text.Mathlib.Text.{find?}
use Prim.Native.String
use Prim.Native.String.{String}
use mathlib.Core.Path.{◌≡◌, refl}
use mathlib.Core.Bool.{Bool, true, false, not, ◌&&◌, ◌||◌}
use mathlib.Core.List.{List, [], ◌∷◌}
use rustycpp.Common.Tests.{leb, eqb, if◌then◌else◌}

-- the characters with the property White_Space of Unicode
unfoldable pub is_whitespace : Char → Bool
is_whitespace c =
    let n = code c in
    leb 9 n && leb n 13
    || eqb n 32
    || eqb n 133
    || eqb n 160
    || eqb n 5760
    || leb 8192 n && leb n 8202
    || eqb n 8232
    || eqb n 8233
    || eqb n 8239
    || eqb n 8287
    || eqb n 12288

abbrev pub is_blank : String → Bool
is_blank String.[] = true
is_blank (String.◌∷◌ c s) = false

unfoldable pub trim_start : String → String
unfolding is_whitespace
trim_start String.[] = String.[]
trim_start (String.◌∷◌ c s) =
    let rest = trim_start s in if is_whitespace c then rest else String.◌∷◌ c s

unfoldable pub trim_end : String → String
unfolding is_whitespace
trim_end String.[] = String.[]
trim_end (String.◌∷◌ c s) =
    let rest = trim_end s in
    if is_whitespace c && is_blank rest then String.[] else String.◌∷◌ c rest

unfoldable pub trim : String → String
unfolding trim_start trim_end
trim s = trim_start (trim_end s)

unfoldable pub trim_start_matches : ℕ → String → String
trim_start_matches n String.[] = String.[]
trim_start_matches n (String.◌∷◌ c s) =
    let rest = trim_start_matches n s in if eqb (code c) n then rest else String.◌∷◌ c s

-- `word` is what was read of a word so far
unfoldable pub words_from : String → String → List String
unfolding is_whitespace
words_from String.[] word = if is_blank word then [] else word ∷ []
words_from (String.◌∷◌ c s) word =
    let space = is_whitespace c in
    let rest =
      words_from s (if space then String.[] else String.◌++◌ word (String.◌∷◌ c String.[])) in
    if space && not (is_blank word) then word ∷ rest else rest

unfoldable pub split_whitespace : String → List String
unfolding words_from
split_whitespace s = words_from s String.[]

trim_test : trim "  @safe \t" ≡ "@safe"
unfolding trim
trim_test = refl

split_whitespace_test : split_whitespace " void  f( int" ≡ "void" ∷ "f(" ∷ "int" ∷ []
unfolding split_whitespace
split_whitespace_test = refl

unfoldable pub trim_end_matches : ℕ → String → String
trim_end_matches n String.[] = String.[]
trim_end_matches n (String.◌∷◌ c s) =
    let rest = trim_end_matches n s in
    if eqb (code c) n && is_blank rest then String.[] else String.◌∷◌ c rest

abbrev split_here : String → String → (String → List String) → Option ℕ → List String
split_here s separator onward none = s ∷ []
split_here s separator onward (some i) =
    String.slice s 0 i ∷ onward (String.slice s (i + String.len separator) (String.len s))

unfoldable pub split_fuel : ℕ → String → String → List String
split_fuel zero s separator = s ∷ []
split_fuel (suc fuel) s separator =
    split_here s separator (λ rest. split_fuel fuel rest separator) (find? s separator)

-- `split` at a text that is not empty: there are fewer parts than bytes, and one more
unfoldable pub split : String → String → List String
unfolding split_fuel
split s separator = split_fuel (suc (String.len s)) s separator

split_test : split "a, b,,c" "," ≡ "a" ∷ " b" ∷ "" ∷ "c" ∷ []
unfolding split
split_test = refl
