-- ===== src/Ranking/Examples.antt =====
-- Runs of the evaluation, and the theorems at inputs.
use hump.Prelude.{ℕ, ◌≡◌, refl, List, [], ◌∷◌, arith, ℤ, pos, ◌-ℤ◌, ◌<ℤ◌, ◌≤◌, ok, inr, All}
use hump.Card
use hump.Card.{Card}
use hump.Ranking.{
  HandRank, straight, flush, hand_rank_to_int, CardValue, to_card_values, evaluate, compare,
  evaluate_best_five_cards, generate_combinations, contains, insert_descending, sort_descending,
  increment, count_from, with_count, without_count, descends, has_run, is_straight, any_from, suits,
  ranks, is_flush, classify, evaluate_five_cards, last_movable, refill, index_loop, max_loop,
  key_of, get_comparison_key, compare_keys, better, best_loop,
}
use hump.Ranking.Combinations.{choose, generate_combinations-choose}
use hump.Ranking.Comparison.{compare-evaluate, compare_flushes}
use hump.Ranking.Order.{keep, swap, after}
use hump.Ranking.Unordered.{evaluate-Shuffled}
use hump.Ranking.Evaluation.{five, Any, evaluate-choose, evaluate_best-evaluate}

abbrev card : ℕ → Card
card v = record { value = v }

-- 6h 7c 8d 9s Th with the ace and the king of clubs.
abbrev seven : List Card
seven = card 18 ∷ card 20 ∷ card 25 ∷ card 31 ∷ card 34 ∷ card 48 ∷ card 44 ∷ []

-- 2c 4c 6c 8c Kc, and 3c 5c 7c 9c Kc.
abbrev flush_a : List Card
flush_a = card 0 ∷ card 8 ∷ card 16 ∷ card 24 ∷ card 44 ∷ []

abbrev flush_b : List Card
flush_b = card 4 ∷ card 12 ∷ card 20 ∷ card 28 ∷ card 44 ∷ []

straight_of_seven : evaluate seven ≡ ok straight
unfolding evaluate to_card_values contains insert_descending sort_descending increment count_from
    with_count without_count descends has_run is_straight any_from suits ranks is_flush classify
    evaluate_five_cards last_movable refill index_loop generate_combinations max_loop Card.rank
    Card.suit
straight_of_seven = refl

flush_of_a : evaluate flush_a ≡ ok flush
unfolding evaluate to_card_values contains insert_descending sort_descending increment count_from
    with_count without_count descends has_run is_straight any_from suits ranks is_flush classify
    evaluate_five_cards last_movable refill index_loop generate_combinations max_loop Card.rank
    Card.suit
flush_of_a = refl

best_of_a : evaluate_best_five_cards (to_card_values flush_a) ≡ ok (flush, to_card_values flush_a)
unfolding evaluate_best_five_cards to_card_values contains insert_descending sort_descending
    increment count_from with_count without_count descends has_run is_straight any_from suits ranks
    is_flush classify evaluate_five_cards last_movable refill index_loop generate_combinations
    best_loop better key_of get_comparison_key compare_keys Card.rank Card.suit
best_of_a = refl

best_of_b : evaluate_best_five_cards (to_card_values flush_b) ≡ ok (flush, to_card_values flush_b)
unfolding evaluate_best_five_cards to_card_values contains insert_descending sort_descending
    increment count_from with_count without_count descends has_run is_straight any_from suits ranks
    is_flush classify evaluate_five_cards last_movable refill index_loop generate_combinations
    best_loop better key_of get_comparison_key compare_keys Card.rank Card.suit
best_of_b = refl

evaluate-choose_example :
    (r : HandRank) × (evaluate seven ≡ ok r)
    × Any (λ c. five c ≡ r) (choose 5 (to_card_values seven))
    × All (λ c. hand_rank_to_int (five c) ≤ hand_rank_to_int r) (choose 5 (to_card_values seven))
evaluate-choose_example = evaluate-choose seven (inr refl)

generate_combinations-choose_example :
    generate_combinations (to_card_values seven) ≡ choose 5 (to_card_values seven)
generate_combinations-choose_example =
    generate_combinations-choose (to_card_values seven) (inr (unfold to_card_values in refl))

evaluate_best-evaluate_example :
    (best : List CardValue) × (evaluate_best_five_cards (to_card_values seven)
      ≡ ok (straight, best))
evaluate_best-evaluate_example = evaluate_best-evaluate seven straight_of_seven

compare-evaluate_example : (z : ℤ) × (compare flush_a seven ≡ ok z) × (pos 0 <ℤ z)
compare-evaluate_example =
    compare-evaluate flush_a seven flush straight flush_of_a straight_of_seven (omega arith)

compare_flushes_example : compare flush_a flush_b ≡ ok (pos 0)
unfolding to_card_values Card.rank Card.suit ranks sort_descending insert_descending
compare_flushes_example =
    compare_flushes flush_a flush_b (to_card_values flush_a) (to_card_values flush_b) best_of_a
      best_of_b refl

flush_over_straight : compare flush_a seven ≡ ok (pos 1)
unfolding compare ◌-ℤ◌ evaluate_best_five_cards to_card_values contains insert_descending
    sort_descending increment count_from with_count without_count descends has_run is_straight
    any_from suits ranks is_flush classify evaluate_five_cards last_movable refill index_loop
    generate_combinations best_loop better key_of get_comparison_key compare_keys Card.rank
    Card.suit
flush_over_straight = refl

-- The cards of `seven`, the first three of them in another order.
abbrev turned : List Card
turned = card 25 ∷ card 18 ∷ card 20 ∷ card 31 ∷ card 34 ∷ card 48 ∷ card 44 ∷ []

evaluate-Shuffled_example : evaluate seven ≡ evaluate turned
evaluate-Shuffled_example =
    evaluate-Shuffled seven turned
      (after (keep (card 18) (swap (card 20) (card 25) _)) (swap (card 18) (card 25) _))
