-- ===== src/CommandLine/Flags.antt =====
-- The `-I` flags of a command: src/main.rs, `extract_include_paths_from_command`, lines 162-183.
use Prim.Native.Char.{Char}
use Prim.Native.String
use text.Mathlib.TextPositions.{slice-append_left, slice-append_right, len-append}
use text.Mathlib.TextLemmas.{append_cancel_left, append-nil, cons-ne-nil}
use rustycpp.Common.{
  sym, ◌∙◌, eq_cases, eq_false, String, ◌==◌, starts_with, ◌≡◌, refl, true, false, inl, inr, List,
  [], ◌∷◌, All,
}
use rustycpp.CommandLine.{include_words}

-- `-I path`, `-Ipath` with a path of one character or more, and any other word
pub data Flag : Type 0 where
  separate : String → Flag
  joined : Char → String → Flag
  other : String → Flag

abbrev pub words_of : List Flag → List String
words_of [] = []
words_of (Flag.separate path ∷ flags) = "-I" ∷ path ∷ words_of flags
words_of (Flag.joined c s ∷ flags) = String.◌++◌ "-I" (String.◌∷◌ c s) ∷ words_of flags
words_of (Flag.other word ∷ flags) = word ∷ words_of flags

abbrev pub paths_of : List Flag → List String
paths_of [] = []
paths_of (Flag.separate path ∷ flags) = path ∷ paths_of flags
paths_of (Flag.joined c s ∷ flags) = String.◌∷◌ c s ∷ paths_of flags
paths_of (Flag.other word ∷ flags) = paths_of flags

-- any other word does not begin with `-I`
abbrev pub IsPlain : Flag → Type 0
IsPlain (Flag.other word) = starts_with word "-I" ≡ false
IsPlain _ = Unit

joined_starts : (p : String) → starts_with (String.◌++◌ "-I" p) "-I" ≡ true
joined_starts p = rw (slice-append_left "-I" p) refl

joined_apart : (c : Char) (s : String) → (String.◌++◌ "-I" (String.◌∷◌ c s) == "-I") ≡ false
joined_apart c s = eq_false (String.◌++◌ "-I" (String.◌∷◌ c s)) "-I" (λ e.
    cons-ne-nil c s
      (append_cancel_left "-I" (String.◌∷◌ c s) String.[] (e ∙ sym (append-nil "-I"))))

joined_path :
    (p : String) → String.slice (String.◌++◌ "-I" p) 2 (String.len (String.◌++◌ "-I" p)) ≡ p
joined_path p = rw (len-append "-I" p) (slice-append_right "-I" p)

plain_apart : (word : String) → starts_with word "-I" ≡ false → (word == "-I") ≡ false
plain_apart word h = elim (eq_cases word "-I") [
  | inl (_, e) ↦ cc (rw e at h)
  | inr (apart, _) ↦ apart
]

include_joined :
    (c : Char) (s : String) (words : List String)
    → include_words (String.◌++◌ "-I" (String.◌∷◌ c s) ∷ words)
      ≡ String.◌∷◌ c s ∷ include_words words
unfolding include_words
include_joined c s [] = rw (joined_starts (String.◌∷◌ c s), joined_path (String.◌∷◌ c s)) refl
include_joined c s (next ∷ words) =
    rw (joined_apart c s, joined_starts (String.◌∷◌ c s), joined_path (String.◌∷◌ c s)) refl

include_plain :
    (word : String) (words : List String)
    → starts_with word "-I" ≡ false
    → include_words (word ∷ words) ≡ include_words words
unfolding include_words
include_plain word [] h = rw h refl
include_plain word (next ∷ words) h = rw (plain_apart word h, h) refl

-- From the words of a list of flags, `-I path`, `-Ipath` with a path that is not empty, and others
-- that do not begin with `-I`, the paths are read back in their order.
pub include_words-words_of :
    (flags : List Flag) → All IsPlain flags → include_words (words_of flags) ≡ paths_of flags
unfolding include_words
include_words-words_of [] h = refl
include_words-words_of (Flag.separate path ∷ flags) (_, h) =
    rw (include_words-words_of flags h) refl
include_words-words_of (Flag.joined c s ∷ flags) (_, h) =
    include_joined c s (words_of flags) ∙ rw (include_words-words_of flags h) refl
include_words-words_of (Flag.other word ∷ flags) (p, h) =
    include_plain word (words_of flags) p ∙ include_words-words_of flags h
