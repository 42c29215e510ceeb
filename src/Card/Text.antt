-- ===== src/Card/Text.antt =====
-- The text form of a card against its value.
use hump.Prelude.{
  ℕ, zero, suc, ◌+◌, ◌<◌, ◌≡◌, refl, ◌↔◌, inl, inr, Bool, not, true, false, ◌&&◌, List, [], ◌∷◌,
  arith, ◌==◌, Bool-cases, get_or, length, all_below, all_below_sound, Error, invalid_argument,
  Result, ok, err, >>=-eq-ok, if-err-eq-ok,
}
use hump.Card.{
  Rank, Suit, Card, num_ranks, num_suits, make, rank, suit, from_string, to_string, equals,
  rank_to_char, suit_to_char, char_to_rank, char_to_suit, find_char, rank_chars, suit_chars,
  is_print,
}

-- A card that the constructors make.
abbrev pub IsValid : Card → Type 0
IsValid c = c.value < 52

-- The constructor stores the rank and the suit that the accessors give back, for every enumerator.
rank-suit-make :
    (r : Rank) (s : Suit)
    → r < num_ranks
    → s < num_suits
    → (rank (make r s) ≡ r) × (suit (make r s) ≡ s) × IsValid (make r s)
unfolding make rank suit
rank-suit-make r s h k = omega arith

pub equals_iff : (a b : Card) → (equals a b ≡ true) ↔ (a ≡ b)
unfolding equals
equals_iff a b = ground arith

abbrev gives : Result Card → ℕ → Bool
gives (ok c) v = c.value == v
gives (err e) v = false

ok_of_gives : (r : Result Card) (v : ℕ) → gives r v ≡ true → r ≡ ok (record { value = v })
ok_of_gives (ok c) v h = ground arith
ok_of_gives (err e) v h = cc

text_table : all_below 52 (λ v. gives (from_string (to_string (record { value = v }))) v) ≡ true
unfolding all_below from_string to_string is_print char_to_rank char_to_suit rank_to_char
    suit_to_char make rank suit
text_table = refl

-- Printing a card and parsing the text gives the card back.
pub from_string-to_string : (c : Card) → IsValid c → from_string (to_string c) ≡ ok c
from_string-to_string c h = ok_of_gives (from_string (to_string c)) c.value (
    all_below_sound 52 (λ v. gives (from_string (to_string (record { value = v }))) v) c.value
      text_table h)

-- What a successful search for a character says.
find_char_inv :
    (c : ℕ) (ds : List ℕ) (i : ℕ) (e : Error) (d : ℕ) {r : ℕ}
    → find_char c ds i e ≡ ok r
    → (k : ℕ) × (r ≡ i + k) × (k < length ds) × (get_or ds k d ≡ c)
find_char_inv c [] i e d h = cc
find_char_inv c (x ∷ ds) i e d h = elim (Bool-cases (c == x)) [
  | inl hit ↦ (zero, ground arith, ground arith, ground arith)
  | inr miss ↦
      let (k, p, q, s) = find_char_inv c ds (i + 1) e d (rw miss at h) in
      (suc k, omega arith, omega arith, s)
]

rank_inv : (c : ℕ) {r : ℕ} → char_to_rank c ≡ ok r → (r < 13) × (rank_to_char r ≡ c)
unfolding char_to_rank rank_to_char
rank_inv c {r} h =
    let (k, p, q, s) =
      find_char_inv c rank_chars 0 (invalid_argument "Invalid rank character") b'?' h in
    let e : r ≡ k = omega (arith, p) in rw e (q, s)

suit_inv : (c : ℕ) {r : ℕ} → char_to_suit c ≡ ok r → (r < 4) × (suit_to_char r ≡ c)
unfolding char_to_suit suit_to_char
suit_inv c {r} h =
    let (k, p, q, s) =
      find_char_inv c suit_chars 0 (invalid_argument "Invalid suit character") b'?' h in
    let e : r ≡ k = omega (arith, p) in rw e (q, s)

-- The two characters of an accepted text are those of a rank and a suit.
from_string_inv :
    (a b : ℕ) (c : Card)
    → from_string (a ∷ b ∷ []) ≡ ok c
    → (r : ℕ) × (s : ℕ) × (char_to_rank a ≡ ok r) × (char_to_suit b ≡ ok s) × (make r s ≡ c)
unfolding from_string
from_string_inv a b c h =
    let (r, p, h') =
      >>=-eq-ok (char_to_rank a) _ (if-err-eq-ok (not (is_print a && is_print b)) _ _ h) in
    let (s, q, h'') = >>=-eq-ok (char_to_suit b) _ h' in (r, s, p, q, ground (arith, h''))

-- Only the printed text of a card is accepted, and it is read as that card.
to_string-from_string :
    (str : List ℕ) (c : Card) → from_string str ≡ ok c → IsValid c × (to_string c ≡ str)
unfolding from_string to_string
to_string-from_string [] c h = cc
to_string-from_string (a ∷ []) c h = cc
to_string-from_string (a ∷ b ∷ x ∷ r) c h = ground arith
to_string-from_string (a ∷ b ∷ []) c h =
    let (r, s, p, q, e) = from_string_inv a b c h in
    let (v, w) = rank_inv a p in
    let (v', w') = suit_inv b q in
    let (x, y, z) = rank-suit-make r s v v' in rw (← e) (z, rw (x, y, w, w'))
