-- ===== src/Serialization.antt =====
-- Conversions to and from JSON: src/common/json_serialization.hpp and src/common/json_serialization.cpp. The
-- overloads of `to_json` and `from_json` are told apart by the name of their type.
use hump.Prelude.{
  Bool, not, List, [], ◌∷◌, map, if◌then◌else◌, String, str_eq, Result, ok, err, ◌>>=◌,
  invalid_argument, codes, to_text,
}
use hump.Card.{Card, from_string, to_string}
use hump.Json.{Json, string_at}
use hump.Ranking.{
  HandRank, high_card, one_pair, two_pair, three_of_a_kind, straight, flush, full_house,
  four_of_a_kind, straight_flush, royal_flush, rank_to_string,
}
pub mod RoundTrip
mod Examples

abbrev pub card_text : Card → String
card_text c = to_text (to_string c)

module _ (J : Json) where
  unfoldable pub card_to_json : Card → J.Value
  card_to_json card = J.string (card_text card)

  unfoldable pub card_from_json : J.Value → Result Card
  card_from_json j =
      if not (J.is_string j)
      then err (invalid_argument "Card must be a string")
      else (do s ← J.get_string j; from_string (codes s))

  unfoldable pub rank_to_json : HandRank → J.Value
  rank_to_json rank = J.string (rank_to_string rank)

  unfoldable pub cards_to_json : List Card → J.Value
  cards_to_json cards = J.array (map card_to_json cards)

  -- The loop over the items.
  unfoldable pub cards_from_items : List J.Value → Result (List Card)
  cards_from_items [] = ok []
  cards_from_items (item ∷ items) = do
    card ← card_from_json item
    cards ← cards_from_items items
    ok (card ∷ cards)

  unfoldable pub cards_from_json : J.Value → Result (List Card)
  cards_from_json j =
      if not (J.is_array j)
      then err (invalid_argument "Cards must be an array")
      else cards_from_items (J.elements j)

  -- `WelcomeMessage`, by its one field.
  unfoldable pub welcome_to_json : String → J.Value
  welcome_to_json player_id = J.object (("player_id", J.string player_id) ∷ [])

  unfoldable pub welcome_from_json : J.Value → Result String
  welcome_from_json j =
      if not (J.is_object j)
      then err (invalid_argument "WelcomeMessage must be an object")
      else string_at J j "player_id"

  -- `serialize` and `deserialize`, by the functions that the type picks.
  unfoldable pub serialize {ℓ} : {A : Type ℓ} → (A → J.Value) → A → J.Text
  serialize to_json obj = J.dump (to_json obj)

  unfoldable pub deserialize {ℓ} : {A : Type ℓ} → (J.Value → Result A) → J.Text → Result A
  deserialize from_json str = do j ← J.parse str; from_json j

-- The chain of comparisons in `from_json` of a rank.
unfoldable pub rank_from_string : String → Result HandRank
rank_from_string str =
    if str_eq str "HIGH_CARD"
    then ok high_card
    else if str_eq str "ONE_PAIR"
    then ok one_pair
    else if str_eq str "TWO_PAIR"
    then ok two_pair
    else if str_eq str "THREE_OF_A_KIND"
    then ok three_of_a_kind
    else if str_eq str "STRAIGHT"
    then ok straight
    else if str_eq str "FLUSH"
    then ok flush
    else if str_eq str "FULL_HOUSE"
    then ok full_house
    else if str_eq str "FOUR_OF_A_KIND"
    then ok four_of_a_kind
    else if str_eq str "STRAIGHT_FLUSH"
    then ok straight_flush
    else if str_eq str "ROYAL_FLUSH"
    then ok royal_flush
    else err (invalid_argument "Invalid HandRank string")

unfoldable pub rank_from_json : (J : Json) → J.Value → Result HandRank
rank_from_json J j =
    if not (J.is_string j)
    then err (invalid_argument "HandRank must be a string")
    else (do str ← J.get_string j; rank_from_string str)
