-- ===== src/Safety.antt =====
-- Which functions are checked: src/parser/safety_annotations.rs, lines 6-42, and the set of known
-- safe functions of src/main.rs, lines 100-106.
pub mod Lookup
pub mod Scan
pub mod Annotated
pub mod Applied
use rustycpp.Common.{String, ◌==◌, Bool, true, false, List, [], ◌∷◌, if◌then◌else◌, StringSet, add}

pub data SafetyMode : Type 0 where
  safe unsafe default : SafetyMode

pub record SafetyContext : Type 0 where
  pub file_default : SafetyMode
  pub function_overrides : List (String × SafetyMode)

abbrev pub new : SafetyContext
new = record { file_default = SafetyMode.default; function_overrides = [] }

-- `mode == SafetyMode::Safe`
abbrev pub is_safe : SafetyMode → Bool
is_safe SafetyMode.safe = true
is_safe _ = false

-- The first override of a name decides, and `otherwise` where there is none.
unfoldable pub first_override : List (String × SafetyMode) → String → Bool → Bool
first_override [] func_name otherwise = otherwise
first_override ((name, mode) ∷ overrides) func_name otherwise =
    if name == func_name then is_safe mode else first_override overrides func_name otherwise

unfoldable pub should_check_function : SafetyContext → String → Bool
unfolding first_override
should_check_function context func_name =
    first_override context.function_overrides func_name (is_safe context.file_default)

-- the loop over the overrides in `analyze_file`
unfoldable pub known_safe : List (String × SafetyMode) → StringSet → StringSet
known_safe [] known = known
known_safe ((name, mode) ∷ overrides) known =
    known_safe overrides (if is_safe mode then add known name else known)
