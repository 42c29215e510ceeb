-- ===== src/Card/Examples.antt =====
-- Runs of the card's functions, and the theorems at inputs.
use hump.Prelude.{◌≡◌, refl, [], ◌∷◌, arith, ok, err, invalid_argument}
use hump.Card.{Card, make, from_string, to_string, is_print, char_to_rank, char_to_suit}
use hump.Card.Text.{from_string-to_string}

abbrev ace_of_spades : Card
ace_of_spades = record { value = 51 }

parse_ace : from_string (b'A' ∷ b's' ∷ []) ≡ ok ace_of_spades
unfolding from_string is_print char_to_rank char_to_suit make
parse_ace = refl

parse_one : from_string (b'1' ∷ b's' ∷ []) ≡ err (invalid_argument "Invalid rank character")
unfolding from_string is_print char_to_rank char_to_suit make
parse_one = refl

from_string-to_string_example : from_string (to_string ace_of_spades) ≡ ok ace_of_spades
from_string-to_string_example = from_string-to_string ace_of_spades (omega arith)
