-- ===== src/Card.antt =====
-- Cards: src/core/card.hpp and src/core/card.cpp. `std::string` is the list of its bytes, and an
-- exception is an `err`. `Rank` and `Suit` are the underlying integers of the two enumerations: the
-- code makes them by `static_cast` from arithmetic, and its `switch` has a default for the others.
use hump.Prelude.{
  ℕ, ◌+◌, ◌*◌, ◌/◌, ◌%◌, Bool, ◌&&◌, not, List, [], ◌∷◌, leb, ◌==◌, if◌then◌else◌, length, get_or,
  Error, invalid_argument, Result, ok, err, ◌>>=◌,
}
pub mod Text
mod Examples

abbrev pub Rank : Type 0
Rank = ℕ

abbrev pub Suit : Type 0
Suit = ℕ

abbrev pub num_ranks : ℕ
num_ranks = 13

abbrev pub num_suits : ℕ
num_suits = 4

-- The position of a character in a row of cases, and the case at a position.
abbrev find_char : ℕ → List ℕ → ℕ → Error → Result ℕ
find_char c [] i e = err e
find_char c (d ∷ ds) i e = if c == d then ok i else find_char c ds (i + 1) e

abbrev rank_chars : List ℕ
rank_chars =
    b'2' ∷ b'3' ∷ b'4' ∷ b'5' ∷ b'6' ∷ b'7' ∷ b'8' ∷ b'9' ∷ b'T' ∷ b'J' ∷ b'Q' ∷ b'K' ∷ b'A' ∷ []

abbrev suit_chars : List ℕ
suit_chars = b'c' ∷ b'd' ∷ b'h' ∷ b's' ∷ []

-- The `switch` over the enumerators in order, with '?' as the default.
unfoldable pub rank_to_char : Rank → ℕ
rank_to_char r = get_or rank_chars r b'?'

unfoldable pub char_to_rank : ℕ → Result Rank
char_to_rank c = find_char c rank_chars 0 (invalid_argument "Invalid rank character")

unfoldable pub suit_to_char : Suit → ℕ
suit_to_char s = get_or suit_chars s b'?'

unfoldable pub char_to_suit : ℕ → Result Suit
char_to_suit c = find_char c suit_chars 0 (invalid_argument "Invalid suit character")

-- `value_`: a uint8_t, 0 to 51 for a card.
pub record Card : Type 0 where
  pub value : ℕ

-- `Card()`.
abbrev pub default_card : Card
default_card = record { value = 0 }

-- `Card(Rank, Suit)`: both are cast to uint8_t, and the sum is stored in one.
unfoldable pub make : Rank → Suit → Card
make r s = record { value = (r % 256 * num_suits + s % 256) % 256 }

unfoldable pub rank : Card → Rank
rank c = c.value / num_suits

unfoldable pub suit : Card → Suit
suit c = c.value % num_suits

unfoldable pub to_int : Card → ℕ
to_int c = c.value

-- `std::isprint` in the "C" locale.
unfoldable pub is_print : ℕ → Bool
is_print c = leb 32 c && leb c 126

-- `Card(const std::string&)`.
unfoldable pub from_string : List ℕ → Result Card
from_string str =
    if not (length str == 2)
    then err (invalid_argument "Card string must be 2 characters")
    else if not (is_print (get_or str 0 0) && is_print (get_or str 1 0))
    then err (invalid_argument "Card string contains non-printable characters")
    else (do r ← char_to_rank (get_or str 0 0); s ← char_to_suit (get_or str 1 0); ok (make r s))

unfoldable pub to_string : Card → List ℕ
to_string c = rank_to_char (rank c) ∷ suit_to_char (suit c) ∷ []

-- `operator==` and `operator!=`.
unfoldable pub equals : Card → Card → Bool
equals a b = a.value == b.value

unfoldable pub not_equals : Card → Card → Bool
unfolding equals
not_equals a b = not (equals a b)
