-- ===== src/Uuid.antt =====
-- Identifiers: src/common/uuid.hpp and src/common/uuid.cpp. The draws of the generator, numbers of 32 bits, are
-- an argument: `draws i` is the i-th. `std::hex` prints a number without leading zeros, and `std::setw`, with
-- `setfill('0')`, fills it up on the left.
use hump.Prelude.{
  ℕ, zero, suc, ◌+◌, ◌-◌, ◌*◌, ◌/◌, ◌%◌, ◌^◌, List, [], ◌∷◌, ◌++◌, ltb, if◌then◌else◌, length,
  replicate, String, to_text,
}
pub mod Digits
pub mod Fields
mod Examples

-- 0 to 9 and a to f.
unfoldable pub hex_char : ℕ → ℕ
hex_char d = if ltb d 10 then 48 + d else 87 + d

-- The digits of a number, on fuel for as many.
unfoldable pub hex_loop : ℕ → ℕ → List ℕ
hex_loop zero n = []
hex_loop (suc fuel) n =
    let rest = hex_loop fuel (n / 16) in
    if ltb n 16 then hex_char n ∷ [] else rest ++ hex_char (n % 16) ∷ []

-- A number of 32 bits has 8 digits at most.
abbrev pub hex : ℕ → List ℕ
hex n = hex_loop 8 n

unfoldable pub setw : ℕ → List ℕ → List ℕ
setw width cs = replicate (width - length cs) 48 ++ cs

abbrev pub dash : ℕ
dash = 45

abbrev pub chars : (ℕ → ℕ) → List ℕ
chars draws =
    setw 8 (hex (draws 0))
    ++ dash
      ∷ (setw 4 (hex (draws 1 % 2 ^ 16))
          ++ dash
            ∷ (setw 4 (hex (draws 2 % 2 ^ 16))
                ++ dash ∷ (setw 4 (hex (draws 3 % 2 ^ 16)) ++ dash ∷ setw 12 (hex (draws 4)))))

unfoldable pub generate : (ℕ → ℕ) → String
generate draws = to_text (chars draws)
