-- ===== src/Serialization/RoundTrip.antt =====
-- Writing and reading back.
use hump.Prelude.{
  ℕ, Bool, ◌≡◌, refl, sym, ◌∙◌, ap, ◌<◌, true, false, List, [], ◌∷◌, map, arith, String, str_eq,
  eq_iff, Result, ok, All, codes, codes-to_text, all_below, all_below_sound, ◌&&◌, ltb, Bool-cases,
  inl, inr, if◌then◌else◌,
}
use hump.Card.{Card, to_string, rank_to_char, suit_to_char, rank, suit}
use hump.Card.Text.{IsValid, from_string-to_string}
use hump.Json.{Json}
use hump.Ranking.{
  HandRank, high_card, one_pair, two_pair, three_of_a_kind, straight, flush, full_house,
  four_of_a_kind, straight_flush, royal_flush, rank_to_string,
}
use hump.Serialization.{
  card_text, card_to_json, card_from_json, cards_to_json, cards_from_items, cards_from_json,
  rank_to_json, rank_from_string, rank_from_json, serialize, deserialize,
}

abbrev small : List ℕ → Bool
small (a ∷ b ∷ []) = ltb a 128 && ltb b 128
small _ = false

ascii_table : all_below 52 (λ v. small (to_string (record { value = v }))) ≡ true
unfolding all_below to_string rank_to_char suit_to_char rank suit
ascii_table = refl

small-All : (ns : List ℕ) → small ns ≡ true → All (λ n. n < 55296) ns
small-All [] h = cc
small-All (a ∷ []) h = cc
small-All (a ∷ b ∷ []) h = ground arith
small-All (a ∷ b ∷ c ∷ ns) h = cc

-- The text of a card in JSON is the one that it prints.
codes-card_text : (c : Card) → IsValid c → codes (card_text c) ≡ to_string c
codes-card_text c h = codes-to_text (to_string c) (
    small-All (to_string c)
      (all_below_sound 52 (λ v. small (to_string (record { value = v }))) c.value ascii_table h))

module _ (J : Json) where
  card_from_json-card_to_json : (c : Card) → IsValid c → card_from_json J (card_to_json J c) ≡ ok c
  unfolding card_from_json card_to_json
  card_from_json-card_to_json c h =
      rw (J.is_string-string (card_text c), J.get_string-string (card_text c), codes-card_text c h)
        (from_string-to_string c h)

  cards_from_items-map :
      (cs : List Card) → All IsValid cs → cards_from_items J (map (card_to_json J) cs) ≡ ok cs
  unfolding cards_from_items
  cards_from_items-map [] h = refl
  cards_from_items-map (c ∷ cs) h =
      rw (card_from_json-card_to_json c h.0, cards_from_items-map cs h.1) refl

-- A list of cards with values below 52, serialized and deserialized, is the same list.
pub deserialize-serialize_cards :
    (J : Json) (cs : List Card)
    → All IsValid cs
    → deserialize J (cards_from_json J) (serialize J (cards_to_json J) cs) ≡ ok cs
unfolding deserialize serialize cards_from_json cards_to_json
deserialize-serialize_cards J cs h =
    rw
      (
        J.parse-dump (J.array (map (card_to_json J) cs)),
        J.is_array-array (map (card_to_json J) cs),
        J.elements-array (map (card_to_json J) cs),
      )
      (cards_from_items-map J cs h)

rank_from_string-rank_to_string : (r : HandRank) → rank_from_string (rank_to_string r) ≡ ok r
unfolding rank_from_string rank_to_string
rank_from_string-rank_to_string high_card = refl
rank_from_string-rank_to_string one_pair = refl
rank_from_string-rank_to_string two_pair = refl
rank_from_string-rank_to_string three_of_a_kind = refl
rank_from_string-rank_to_string straight = refl
rank_from_string-rank_to_string flush = refl
rank_from_string-rank_to_string full_house = refl
rank_from_string-rank_to_string four_of_a_kind = refl
rank_from_string-rank_to_string straight_flush = refl
rank_from_string-rank_to_string royal_flush = refl

-- One comparison of the chain.
compared :
    (str : String) (q r : HandRank) (rest : Result HandRank)
    → (rest ≡ ok r → rank_to_string r ≡ str)
    → (if str_eq str (rank_to_string q) then ok q else rest) ≡ ok r
    → rank_to_string r ≡ str
compared str q r rest next h = elim (Bool-cases (str_eq str (rank_to_string q))) [
  | inl e ↦
      let same : q ≡ r = let h' = rw e at h in ground (arith, h') in
      ap rank_to_string (sym same) ∙ sym ((eq_iff str (rank_to_string q)).0 e)
  | inr e ↦ next (rw e at h)
]

rank_to_string-rank_from_string :
    (str : String) (r : HandRank) → rank_from_string str ≡ ok r → rank_to_string r ≡ str
unfolding rank_from_string rank_to_string
rank_to_string-rank_from_string str r = compared str high_card r _ (
    compared str one_pair r _ (
      compared str two_pair r _ (
        compared str three_of_a_kind r _ (
          compared str straight r _ (
            compared str flush r _ (
              compared str full_house r _ (
                compared str four_of_a_kind r _ (
                  compared str straight_flush r _ (compared str royal_flush r _ ((λ h. cc)))))))))))

-- The name of a rank, serialized and deserialized, is the same rank, and a text in JSON is read as a rank
-- only where it is that rank's name.
deserialize-serialize_rank :
    (J : Json) (r : HandRank) (str : String) (q : HandRank)
    → rank_from_json J (J.string str) ≡ ok q
    → (deserialize J (rank_from_json J) (serialize J (rank_to_json J) r) ≡ ok r)
      × (J.string str ≡ rank_to_json J q)
unfolding deserialize serialize rank_from_json rank_to_json
deserialize-serialize_rank J r str q h = (
  rw
      (
        J.parse-dump (J.string (rank_to_string r)),
        J.is_string-string (rank_to_string r),
        J.get_string-string (rank_to_string r),
      )
      (rank_from_string-rank_to_string r),
  ap J.string (
      sym (
        rank_to_string-rank_from_string str q
          (rw (J.is_string-string str, J.get_string-string str) at h))),
)
