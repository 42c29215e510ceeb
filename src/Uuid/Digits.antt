-- ===== src/Uuid/Digits.antt =====
-- Hexadecimal digits.
use native.Mathlib.Nat.{pow-suc}
use hump.Prelude.{
  ℕ, zero, suc, ◌+◌, ◌-◌, ◌*◌, ◌/◌, ◌%◌, ◌^◌, ◌<◌, ◌≤◌, ◌≡◌, refl, ◌∙◌, List, [], ◌∷◌, ◌++◌, arith,
  ltb, false, if◌then◌else◌, length, length-append, length-replicate, replicate, Bool-cases, inl,
  inr,
}
use hump.Uuid.{hex_char, hex_loop, hex, setw}

-- The value of a hexadecimal digit, and of a row of them.
abbrev pub digit_value : ℕ → ℕ
digit_value c = if ltb c 58 then c - 48 else c - 87

abbrev pub value_from : ℕ → List ℕ → ℕ
value_from n [] = n
value_from n (c ∷ cs) = value_from (n * 16 + digit_value c) cs

abbrev pub value_of : List ℕ → ℕ
value_of cs = value_from 0 cs

digit_value-hex_char : (d : ℕ) → d < 16 → digit_value (hex_char d) ≡ d
unfolding hex_char
digit_value-hex_char d h = ground arith

value_from-append :
    (n : ℕ) (xs : List ℕ) (c : ℕ)
    → value_from n (xs ++ c ∷ []) ≡ value_from n xs * 16 + digit_value c
value_from-append n [] c = refl
value_from-append n (x ∷ xs) c = value_from-append (n * 16 + digit_value x) xs c

value_from-zeros : (k : ℕ) (cs : List ℕ) → value_of (replicate k 48 ++ cs) ≡ value_of cs
value_from-zeros zero cs = refl
value_from-zeros (suc k) cs = value_from-zeros k cs

-- One digit fewer.
div_lt : (n k : ℕ) → n < 16 ^ suc k → n / 16 < 16 ^ k
div_lt n k h = let h' : n < 16 ^ k * 16 = rw (← pow-suc 16 k) h in omega arith

more_digits : (n k : ℕ) → ltb n 16 ≡ false → n < 16 ^ suc k → 0 < k
more_digits n zero e h = absurd (ground arith)
more_digits n (suc k) e h = omega arith

-- With enough fuel, the digits have the number's value, and there are no more than that.
value-hex_loop : (k n : ℕ) → 0 < k → n < 16 ^ k → value_of (hex_loop k n) ≡ n
unfolding hex_loop
value-hex_loop zero n p h = absurd (omega arith)
value-hex_loop (suc k) n p h = elim (Bool-cases (ltb n 16)) [
  | inl e ↦ rw e (omega (arith, digit_value-hex_char n (ground arith)))
  | inr e ↦
      rw
        (
          e,
          value_from-append 0 (hex_loop k (n / 16)) (hex_char (n % 16)),
          value-hex_loop k (n / 16) (more_digits n k e h) (div_lt n k h),
          digit_value-hex_char (n % 16) (omega arith),
        )
        (omega arith)
]

more_digits_le :
    (n m : ℕ)
    → ((k : ℕ) → n / 16 < 16 ^ suc k → m ≤ suc k)
    → (k : ℕ) → ltb n 16 ≡ false
    → n < 16 ^ suc k
    → m + 1 ≤ suc k
more_digits_le n m h zero e l = absurd (ground arith)
more_digits_le n m h (suc k) e l = omega (arith, h k (div_lt n (suc k) l))

pub length-hex_loop : (fuel n k : ℕ) → n < 16 ^ suc k → length (hex_loop fuel n) ≤ suc k
unfolding hex_loop
length-hex_loop zero n k h = omega arith
length-hex_loop (suc fuel) n k h = elim (Bool-cases (ltb n 16)) [
  | inl e ↦ rw e (omega arith)
  | inr e ↦
      rw (e, length-append (hex_loop fuel (n / 16)) (hex_char (n % 16) ∷ []))
        (more_digits_le n (length (hex_loop fuel (n / 16))) (length-hex_loop fuel (n / 16)) k e h)
]

pub length-setw : (width : ℕ) (cs : List ℕ) → length cs ≤ width → length (setw width cs) ≡ width
unfolding setw
length-setw width cs h = omega (
  arith,
  length-append (replicate (width - length cs) 48) cs,
  length-replicate {A = ℕ} (width - length cs) 48,
)

pub value-setw : (width n : ℕ) → n < 2 ^ 32 → value_of (setw width (hex n)) ≡ n
unfolding setw
value-setw width n h =
    value_from-zeros (width - length (hex n)) (hex n)
    ∙ value-hex_loop 8 n (omega arith) (omega arith)
