-- ===== src/Uuid/Fields.antt =====
-- The fields of an identifier, as they are read.

use hump.Prelude.{
  ℕ, zero, suc, ◌-◌, ◌/◌, ◌%◌, ◌^◌, ◌<◌, ◌≤◌, ◌≡◌, ◌⊎◌, refl, sym, subst, ap, ◌∙◌, List, [], ◌∷◌,
  ◌++◌, map, arith, ltb, length, take, drop, replicate, codes, codes-to_text, All, Bool-cases, inl,
  inr,
}
use hump.Uuid.{hex_char, hex_loop, hex, setw, dash, chars, generate}
use hump.Uuid.Digits.{value_of, value-setw, length-setw, length-hex_loop}

-- The fields of these widths, with one character between two.
abbrev pub cut : List ℕ → List ℕ → List (List ℕ)
cut [] t = t ∷ []
cut (width ∷ widths) t = take width t ∷ cut widths (drop (suc width) t)

-- A field at the front is cut off with the character behind it.
take-exact : (n : ℕ) (xs ys : List ℕ) → length xs ≡ n → take n (xs ++ ys) ≡ xs
take-exact zero [] ys h = refl
take-exact zero (x ∷ xs) ys h = absurd (omega arith)
take-exact (suc n) [] ys h = absurd (omega arith)
take-exact (suc n) (x ∷ xs) ys h = ap (λ zs. x ∷ zs) (take-exact n xs ys (omega arith))

drop-past :
    (n : ℕ) (xs : List ℕ) (c : ℕ) (ys : List ℕ) → length xs ≡ n → drop (suc n) (xs ++ c ∷ ys) ≡ ys
drop-past zero [] c ys h = refl
drop-past zero (x ∷ xs) c ys h = absurd (omega arith)
drop-past (suc n) [] c ys h = absurd (omega arith)
drop-past (suc n) (x ∷ xs) c ys h = drop-past n xs c ys (omega arith)

cut-field :
    (width : ℕ) (widths xs : List ℕ) (c : ℕ) (ys : List ℕ)
    → length xs ≡ width
    → cut (width ∷ widths) (xs ++ c ∷ ys) ≡ xs ∷ cut widths ys
cut-field width widths xs c ys h =
    rw (take-exact width xs (c ∷ ys) h, drop-past width xs c ys h) refl

-- All characters are ASCII.
IsText : List ℕ → Type 0
IsText cs = All (λ c. c < 55296) cs

IsText-append : (xs ys : List ℕ) → IsText xs → IsText ys → IsText (xs ++ ys)
unfolding IsText
IsText-append [] ys h k = k
IsText-append (x ∷ xs) ys h k = (h.0, IsText-append xs ys h.1 k)

hex_char-lt : (d : ℕ) → d < 16 → hex_char d < 55296
unfolding hex_char
hex_char-lt d h = ground arith

hex_loop-IsText : (fuel n : ℕ) → IsText (hex_loop fuel n)
unfolding hex_loop IsText
hex_loop-IsText zero n = tt
hex_loop-IsText (suc fuel) n = elim (Bool-cases (ltb n 16)) [
  | inl e ↦ rw e (hex_char-lt n (ground arith), tt)
  | inr e ↦ rw e (
      IsText-append (hex_loop fuel (n / 16)) (hex_char (n % 16) ∷ [])
        (hex_loop-IsText fuel (n / 16)) (hex_char-lt (n % 16) (omega arith), tt))
]

zeros-IsText : (k : ℕ) → IsText (replicate k 48)
unfolding IsText
zeros-IsText zero = tt
zeros-IsText (suc k) = (omega arith, zeros-IsText k)

setw-IsText : (width n : ℕ) → IsText (setw width (hex n))
unfolding setw
setw-IsText width n =
    IsText-append (replicate (width - length (hex n)) 48) (hex n)
      (zeros-IsText (width - length (hex n))) (hex_loop-IsText 8 n)

dash-IsText : (cs : List ℕ) → IsText cs → IsText (dash ∷ cs)
unfolding IsText
dash-IsText cs h = (omega arith, h)

codes-generate : (draws : ℕ → ℕ) → codes (generate draws) ≡ chars draws
unfolding generate
codes-generate draws =
    let with_dash = λ (width n : ℕ) (rest : List ℕ) (h : IsText rest).
      IsText-append (setw width (hex n)) (dash ∷ rest) (setw-IsText width n) (dash-IsText rest h) in
    codes-to_text (chars draws) (
      unfold IsText in
      with_dash 8 (draws 0) _ (
        with_dash 4 (draws 1 % 2 ^ 16) _ (
          with_dash 4 (draws 2 % 2 ^ 16) _
            (with_dash 4 (draws 3 % 2 ^ 16) _ (setw-IsText 12 (draws 4))))))

length-four : (n : ℕ) → length (setw 4 (hex (n % 2 ^ 16))) ≡ 4
length-four n = length-setw 4 (hex (n % 2 ^ 16)) (length-hex_loop 8 (n % 2 ^ 16) 3 (omega arith))

length-eight : (n : ℕ) → n < 2 ^ 32 → length (setw 8 (hex n)) ≡ 8
length-eight n h = length-setw 8 (hex n) (length-hex_loop 8 n 7 (omega arith))

cut-chars :
    (draws : ℕ → ℕ)
    → draws 0 < 2 ^ 32
    → cut (8 ∷ 4 ∷ 4 ∷ 4 ∷ []) (chars draws)
      ≡ setw 8 (hex (draws 0))
        ∷ setw 4 (hex (draws 1 % 2 ^ 16))
        ∷ setw 4 (hex (draws 2 % 2 ^ 16))
        ∷ setw 4 (hex (draws 3 % 2 ^ 16))
        ∷ setw 12 (hex (draws 4))
        ∷ []
cut-chars draws h =
    let field = λ (i : ℕ). setw 4 (hex (draws i % 2 ^ 16)) in
    let last = setw 12 (hex (draws 4)) in
    let after_2 = field 3 ++ dash ∷ last in
    let after_1 = field 2 ++ dash ∷ after_2 in
    let after_0 = field 1 ++ dash ∷ after_1 in
    let four = λ (i : ℕ) (widths ys : List ℕ).
      cut-field 4 widths (field i) dash ys (length-four (draws i)) in
    cut-field 8 (4 ∷ 4 ∷ 4 ∷ []) (setw 8 (hex (draws 0))) dash after_0 (length-eight (draws 0) h)
    ∙ ap (λ t. setw 8 (hex (draws 0)) ∷ t)
        (four 1 (4 ∷ 4 ∷ []) after_1
          ∙ ap (λ t. field 1 ∷ t)
              (four 2 (4 ∷ []) after_2 ∙ ap (λ t. field 2 ∷ t) (four 3 [] last)))

-- 0 to 9 or a to f.
abbrev pub IsHex : ℕ → Type 0
IsHex c = ((48 ≤ c) × (c ≤ 57)) ⊎ ((97 ≤ c) × (c ≤ 102))

hex_char-IsHex : (d : ℕ) → d < 16 → IsHex (hex_char d)
unfolding hex_char
hex_char-IsHex d h = elim (Bool-cases (ltb d 10)) [
  | inl e ↦ rw e (inl (omega arith, ground arith))
  | inr e ↦ rw e (inr (ground arith, omega arith))
]

AllHex-append : (xs ys : List ℕ) → All IsHex xs → All IsHex ys → All IsHex (xs ++ ys)
AllHex-append [] ys h k = k
AllHex-append (x ∷ xs) ys h k = (h.0, AllHex-append xs ys h.1 k)

hex_loop-AllHex : (fuel n : ℕ) → All IsHex (hex_loop fuel n)
unfolding hex_loop
hex_loop-AllHex zero n = tt
hex_loop-AllHex (suc fuel) n = elim (Bool-cases (ltb n 16)) [
  | inl e ↦ rw e (hex_char-IsHex n (ground arith), tt)
  | inr e ↦ rw e (
      AllHex-append (hex_loop fuel (n / 16)) (hex_char (n % 16) ∷ [])
        (hex_loop-AllHex fuel (n / 16)) (hex_char-IsHex (n % 16) (omega arith), tt))
]

zeros-AllHex : (k : ℕ) → All IsHex (replicate k 48)
zeros-AllHex zero = tt
zeros-AllHex (suc k) = (inl (omega arith, omega arith), zeros-AllHex k)

setw-AllHex : (width n : ℕ) → All IsHex (setw width (hex n))
unfolding setw
setw-AllHex width n =
    AllHex-append (replicate (width - length (hex n)) 48) (hex n)
      (zeros-AllHex (width - length (hex n))) (hex_loop-AllHex 8 n)

-- Some texts with a character between two.
abbrev pub joined : ℕ → List (List ℕ) → List ℕ
joined c [] = []
joined c (t ∷ []) = t
joined c (t ∷ u ∷ ts) = t ++ c ∷ joined c (u ∷ ts)

-- From draws of 32 bits, an identifier is five fields of 8, 4, 4, 4 and 12 characters with a dash between two: the
-- characters of the fields are hexadecimal digits in lower case, and, read as numbers, the fields are the first draw, the next
-- three without their upper halves, and the last.
pub values-generate :
    (draws : ℕ → ℕ)
    → ((i : ℕ) → draws i < 2 ^ 32)
    → let fields = cut (8 ∷ 4 ∷ 4 ∷ 4 ∷ []) (codes (generate draws)) in
      (codes (generate draws) ≡ joined b'-' fields)
      × All (λ field. All IsHex field) fields
      × (map value_of fields
          ≡ draws 0 ∷ draws 1 % 2 ^ 16 ∷ draws 2 % 2 ^ 16 ∷ draws 3 % 2 ^ 16 ∷ draws 4 ∷ [])
      × (map length fields ≡ 8 ∷ 4 ∷ 4 ∷ 4 ∷ 12 ∷ [])
values-generate draws h =
    let fields =
      ap (λ t. cut (8 ∷ 4 ∷ 4 ∷ 4 ∷ []) t) (codes-generate draws) ∙ cut-chars draws (h 0) in
    let v_0 = value-setw 8 (draws 0) (h 0) in
    let v_1 = value-setw 4 (draws 1 % 2 ^ 16) (omega arith) in
    let v_2 = value-setw 4 (draws 2 % 2 ^ 16) (omega arith) in
    let v_3 = value-setw 4 (draws 3 % 2 ^ 16) (omega arith) in
    let v_4 = value-setw 12 (draws 4) (h 4) in
    let l_0 = length-eight (draws 0) (h 0) in
    let l_1 = length-four (draws 1) in
    let l_2 = length-four (draws 2) in
    let l_3 = length-four (draws 3) in
    let l_4 =
      length-setw 12 (hex (draws 4))
        (omega (arith, length-hex_loop 8 (draws 4) 7 (omega (arith, h 4)))) in
    let four = λ (i : ℕ). setw-AllHex 4 (draws i % 2 ^ 16) in
    (
      codes-generate draws ∙ sym (ap (λ t. joined 45 t) fields),
      subst (λ t. All (λ field. All IsHex field) t) (sym fields)
          (setw-AllHex 8 (draws 0), (four 1, (four 2, (four 3, (setw-AllHex 12 (draws 4), tt))))),
      ap (λ t. map value_of t) fields ∙ cc,
      ap (λ t. map length t) fields ∙ cc,
    )
