-- ===== src/Inference/Alive.antt =====
-- Which uses of a variable src/analysis/lifetime_inference.rs takes to be alive: the second and the
-- third pass keep the first definition and the last use.
use rustycpp.Common.{ℕ, leb, Bool, false, ◌&&◌, Option, none, some}
use rustycpp.Inference.{InferredLifetime, or_first}

-- the statements of a lifetime
abbrev range_of : Option InferredLifetime → Option (ℕ × ℕ)
range_of none = none
range_of (some l) = some (l.start, l.end_point)

abbrev ranged : Option ℕ → Option ℕ → Option (ℕ × ℕ)
ranged none last = none
ranged (some first) last = some (first, or_first last first)

abbrev inside : ℕ → Option (ℕ × ℕ) → Bool
inside point none = false
inside point (some (from, to)) = leb from point && leb point to
