-- ===== src/Common/Outcomes.antt =====
-- What a call comes to: a value, the text of an error, or a panic. `out_of_fuel` is none of the
-- code's results: it says that a recursion was given too little fuel.
use Prim.Native.String.{String}

pub data Outcome {ℓ} (Value : Type ℓ) : Type ℓ where
  panic out_of_fuel : Outcome Value
  err : (message : String) → Outcome Value
  ok : (value : Value) → Outcome Value

module _ {ℓ κ} {Value : Type ℓ} {Next : Type κ} where
  infixl 5 ◌>>=◌
  abbrev pub ◌>>=◌ : Outcome Value → (Value → Outcome Next) → Outcome Next
  panic >>= next = panic
  out_of_fuel >>= next = out_of_fuel
  err message >>= next = err message
  ok value >>= next = next value
