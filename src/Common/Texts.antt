-- ===== src/Common/Texts.antt =====
-- `format!`: texts put together from parts, and numbers in decimal.
use Prim.Native.Nat.{◌-◌, ℕ, zero, suc, ◌/◌, ◌%◌}
use Prim.Native.String
use Prim.Native.String.{String}
use mathlib.Core.Path.{◌≡◌, refl}
use mathlib.Core.List.{List, [], ◌∷◌}
use mathlib.Core.Bool.{Bool, true, false, ◌&&◌}
use text.Mathlib.Text.{find?, ◌==◌}
use rustycpp.Common.Tests.{is_some, leb, if◌then◌else◌, ltb}

unfoldable pub concat : List String → String
concat [] = ""
concat (s ∷ parts) = String.◌++◌ s (concat parts)

abbrev digit : ℕ → String
digit zero = "0"
digit (suc zero) = "1"
digit (suc (suc zero)) = "2"
digit (suc (suc (suc zero))) = "3"
digit (suc (suc (suc (suc zero)))) = "4"
digit (suc (suc (suc (suc (suc zero))))) = "5"
digit (suc (suc (suc (suc (suc (suc zero)))))) = "6"
digit (suc (suc (suc (suc (suc (suc (suc zero))))))) = "7"
digit (suc (suc (suc (suc (suc (suc (suc (suc zero)))))))) = "8"
digit _ = "9"

decimal_from : ℕ → ℕ → String → String
decimal_from zero n tail = tail
decimal_from (suc fuel) n tail =
    let longer = decimal_from fuel (n / 10) (String.◌++◌ (digit (n % 10)) tail) in
    if ltb n 10 then String.◌++◌ (digit n) tail else longer

-- A number has at most as many digits as its successor counts.
unfoldable pub decimal : ℕ → String
unfolding decimal_from
decimal n = decimal_from (suc n) n ""

decimal_test : decimal 2048 ≡ "2048"
unfolding decimal
decimal_test = refl

-- `contains`
abbrev pub contains_text : String → String → Bool
contains_text s t = is_some (find? s t)

-- `ends_with`: as many bytes at the end of `s` as `t` has are `t`
abbrev pub ends_with : String → String → Bool
ends_with s t =
    leb (String.len t) (String.len s)
    && String.slice s (String.len s - String.len t) (String.len s) == t

contains_text_test : contains_text "std::move" "move" ≡ true
contains_text_test = refl

ends_with_test : (ends_with "std::move" "::move" ≡ true) × (ends_with "moved" "move" ≡ false)
ends_with_test = (refl, refl)
