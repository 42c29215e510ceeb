-- ===== src/Uuid/Examples.antt =====
-- An identifier.
use hump.Prelude.{ℕ, zero, suc, ◌<◌, ◌≡◌, ◌^◌, refl, [], ◌∷◌, map, arith, length, codes, All}
use hump.Uuid.{hex_char, hex_loop, setw, generate}
use hump.Uuid.Digits.{value_of}
use hump.Uuid.Fields.{IsHex, cut, joined, values-generate}

abbrev some_draws : ℕ → ℕ
some_draws zero = 3735928559
some_draws (suc zero) = 65551
some_draws (suc (suc n)) = 255

first_id : generate some_draws ≡ "deadbeef-000f-00ff-00ff-0000000000ff"
unfolding hex_char hex_loop setw generate
first_id = refl

some_draws-lt : (i : ℕ) → some_draws i < 2 ^ 32
some_draws-lt zero = omega arith
some_draws-lt (suc zero) = omega arith
some_draws-lt (suc (suc n)) = omega arith

values-generate_example :
    let fields = cut (8 ∷ 4 ∷ 4 ∷ 4 ∷ []) (codes (generate some_draws)) in
    (codes (generate some_draws) ≡ joined b'-' fields)
    × All (λ field. All IsHex field) fields
    × (map value_of fields ≡ 3735928559 ∷ 15 ∷ 255 ∷ 255 ∷ 255 ∷ [])
    × (map length fields ≡ 8 ∷ 4 ∷ 4 ∷ 4 ∷ 12 ∷ [])
values-generate_example = values-generate some_draws some_draws-lt
