-- ===== src/Ranking.antt =====
-- Hand evaluation: src/core/hand_ranking.hpp and src/core/hand_ranking.cpp. An `unordered_map` of counts
-- is an association list in the order of first insertion; the code sorts what it reads from one, or
-- reads a single entry. `std::sort(rbegin, rend)` is an insertion sort, downwards.
use hump.Prelude.{
  ℕ, zero, suc, ◌+◌, ◌-◌, Bool, true, false, ◌&&◌, ◌||◌, not, List, [], ◌∷◌, ◌++◌, map, ltb, leb,
  ◌==◌, if◌then◌else◌, length, get_or, set, drop, ℤ, pos, ◌-ℤ◌, ◌==ℤ◌, ltb_ℤ, negsuc, String,
  Result, ok, err, ◌>>=◌, invalid_argument,
}
use hump.Card.{Card}
use hump.Card
pub mod Combinations
pub mod Comparison
pub mod Evaluation
pub mod Order
pub mod Choices
pub mod Unordered
mod Examples

pub data HandRank : Type 0 where
  high_card one_pair two_pair three_of_a_kind straight flush full_house four_of_a_kind : HandRank
  straight_flush royal_flush : HandRank

-- The underlying integer of the enumeration, by which `<` compares.
abbrev pub hand_rank_to_int : HandRank → ℕ
hand_rank_to_int high_card = 0
hand_rank_to_int one_pair = 1
hand_rank_to_int two_pair = 2
hand_rank_to_int three_of_a_kind = 3
hand_rank_to_int straight = 4
hand_rank_to_int flush = 5
hand_rank_to_int full_house = 6
hand_rank_to_int four_of_a_kind = 7
hand_rank_to_int straight_flush = 8
hand_rank_to_int royal_flush = 9

unfoldable pub rank_to_string : HandRank → String
rank_to_string high_card = "HIGH_CARD"
rank_to_string one_pair = "ONE_PAIR"
rank_to_string two_pair = "TWO_PAIR"
rank_to_string three_of_a_kind = "THREE_OF_A_KIND"
rank_to_string straight = "STRAIGHT"
rank_to_string flush = "FLUSH"
rank_to_string full_house = "FULL_HOUSE"
rank_to_string four_of_a_kind = "FOUR_OF_A_KIND"
rank_to_string straight_flush = "STRAIGHT_FLUSH"
rank_to_string royal_flush = "ROYAL_FLUSH"

pub record CardValue : Type 0 where
  pub rank : ℕ
  pub suit : ℕ

unfoldable pub to_card_values : List Card → List CardValue
to_card_values [] = []
to_card_values (c ∷ cs) = record { rank = Card.rank c; suit = Card.suit c } ∷ to_card_values cs

unfoldable pub contains : List ℕ → ℕ → Bool
contains [] x = false
contains (y ∷ ys) x = y == x || contains ys x

unfoldable pub insert_descending : ℕ → List ℕ → List ℕ
insert_descending x [] = x ∷ []
insert_descending x (y ∷ ys) = if ltb x y then y ∷ insert_descending x ys else x ∷ y ∷ ys

unfoldable pub sort_descending : List ℕ → List ℕ
sort_descending [] = []
sort_descending (x ∷ xs) = insert_descending x (sort_descending xs)

-- `map[key]++`.
unfoldable pub increment : ℕ → List (ℕ × ℕ) → List (ℕ × ℕ)
increment k [] = (k, 1) ∷ []
increment k ((j, n) ∷ m) = if j == k then (j, n + 1) ∷ m else (j, n) ∷ increment k m

unfoldable pub count_from : List (ℕ × ℕ) → List ℕ → List (ℕ × ℕ)
count_from m [] = m
count_from m (x ∷ xs) = count_from (increment x m) xs

-- The entries with a given count.
unfoldable pub with_count : ℕ → List (ℕ × ℕ) → List ℕ
with_count n [] = []
with_count n ((k, c) ∷ m) = if c == n then k ∷ with_count n m else with_count n m

unfoldable pub without_count : ℕ → List (ℕ × ℕ) → List ℕ
without_count n [] = []
without_count n ((k, c) ∷ m) = if c == n then without_count n m else k ∷ without_count n m

-- The inner loop of `isStraight` at one place: `j` rounds left.
unfoldable pub descends : ℕ → List ℕ → Bool
descends zero xs = true
descends (suc j) xs = get_or xs 0 0 == get_or xs 1 0 + 1 && descends j (drop 1 xs)

-- The outer loop: a run of five anywhere in the ranks.
unfoldable pub has_run : List ℕ → Bool
has_run [] = false
has_run (x ∷ xs) = leb 5 (length (x ∷ xs)) && (descends 4 (x ∷ xs) || has_run xs)

unfoldable pub is_straight : List ℕ → Bool
is_straight ranks =
    if ltb (length ranks) 5
    then false
    else if has_run ranks
    then true
    else contains ranks 12
      && contains ranks 0
      && contains ranks 1
      && contains ranks 2
      && contains ranks 3

unfoldable pub any_from : ℕ → List (ℕ × ℕ) → Bool
any_from n [] = false
any_from n ((k, c) ∷ m) = leb n c || any_from n m

unfoldable pub suits : List CardValue → List ℕ
suits [] = []
suits (c ∷ cs) = c.suit ∷ suits cs

unfoldable pub ranks : List CardValue → List ℕ
ranks [] = []
ranks (c ∷ cs) = c.rank ∷ ranks cs

unfoldable pub is_flush : List CardValue → Bool
is_flush cards = if ltb (length cards) 5 then false else any_from 5 (count_from [] (suits cards))

-- The chain of tests of `evaluateFiveCards`, on what it computes from the cards.
unfoldable pub classify : Bool → Bool → List ℕ → List (ℕ × ℕ) → HandRank
classify is_flush is_straight ranks rank_count =
    let has_four = not (length (with_count 4 rank_count) == 0) in
    let has_three = not (length (with_count 3 rank_count) == 0) in
    let pair_count = length (with_count 2 rank_count) in
    if is_flush && is_straight
    then (if get_or ranks 0 0 == 12 && get_or ranks 4 0 == 8 then royal_flush else straight_flush)
    else if has_four
    then four_of_a_kind
    else if has_three && not (pair_count == 0)
    then full_house
    else if is_flush
    then flush
    else if is_straight
    then straight
    else if has_three
    then three_of_a_kind
    else if pair_count == 2
    then two_pair
    else if pair_count == 1
    then one_pair
    else high_card

unfoldable pub evaluate_five_cards : List CardValue → Result HandRank
evaluate_five_cards cards =
    let rs = sort_descending (ranks cards) in
    if not (length cards == 5)
    then err (invalid_argument "Need exactly 5 cards for evaluation")
    else ok (classify (is_flush cards) (is_straight rs) rs (count_from [] rs))

-- The while loop that steps from one choice of five indices to the next: the search for the last
-- index that can move, from `i - 1` down. `i` is one more than the code's; 0 is its -1.
unfoldable pub last_movable : ℕ → ℕ → List ℕ → ℕ
last_movable n zero indices = 0
last_movable n (suc i) indices =
    let rest = last_movable n i indices in if get_or indices i 0 == n - 5 + i then rest else suc i

-- The indices behind it, one more than the one before.
unfoldable pub refill : ℕ → ℕ → List ℕ → List ℕ
refill zero j indices = indices
refill (suc k) j indices = refill k (suc j) (set indices j (get_or indices (j - 1) 0 + 1))

-- The rounds of the loop with the choices that they visit; 22 rounds end it for six and seven cards.
unfoldable pub index_loop : ℕ → ℕ → List ℕ → List (List ℕ)
index_loop zero n indices = []
index_loop (suc fuel) n indices =
    let i = last_movable n 5 indices in
    let moved = set indices (i - 1) (get_or indices (i - 1) 0 + 1) in
    let rest = index_loop fuel n (refill (5 - i) i moved) in
    if i == 0 then indices ∷ [] else indices ∷ rest

abbrev pub no_card : CardValue
no_card = record { rank = 0; suit = 0 }

abbrev pub choose_cards : List CardValue → List ℕ → List CardValue
choose_cards cards indices = map (λ i. get_or cards i no_card) indices

unfoldable pub generate_combinations : List CardValue → List (List CardValue)
generate_combinations cards =
    map (choose_cards cards) (index_loop 22 (length cards) (0 ∷ 1 ∷ 2 ∷ 3 ∷ 4 ∷ []))

-- The entry that is read last, or the initial -1.
abbrev pub last_or : ℤ → List ℕ → ℤ
last_or d [] = d
last_or d (x ∷ xs) = last_or (pos x) xs

abbrev pub to_ints : List ℕ → List ℤ
to_ints xs = map pos xs

-- The `switch` over the rank.
unfoldable pub key_of : HandRank → List ℕ → List (ℕ × ℕ) → List ℤ
key_of high_card rs m = to_ints rs
key_of one_pair rs m =
    last_or (negsuc 0) (with_count 2 m) ∷ to_ints (sort_descending (without_count 2 m))
key_of two_pair rs m =
    let pairs = sort_descending (with_count 2 m) in
    pos (get_or pairs 0 0) ∷ pos (get_or pairs 1 0) ∷ last_or (negsuc 0) (without_count 2 m) ∷ []
key_of three_of_a_kind rs m =
    last_or (negsuc 0) (with_count 3 m) ∷ to_ints (sort_descending (without_count 3 m))
key_of straight rs m =
    (if length rs == 5 && get_or rs 0 0 == 12 && get_or rs 4 0 == 0
      then pos 3
      else pos (get_or rs 0 0))
    ∷ []
key_of flush rs m = pos (get_or rs 0 0) ∷ []
key_of straight_flush rs m =
    (if length rs == 5 && get_or rs 0 0 == 12 && get_or rs 4 0 == 0
      then pos 3
      else pos (get_or rs 0 0))
    ∷ []
key_of royal_flush rs m = pos (get_or rs 0 0) ∷ []
key_of full_house rs m =
    last_or (negsuc 0) (with_count 3 m) ∷ last_or (negsuc 0) (with_count 2 m) ∷ []
key_of four_of_a_kind rs m =
    last_or (negsuc 0) (with_count 4 m) ∷ last_or (negsuc 0) (without_count 4 m) ∷ []

unfoldable pub get_comparison_key : List CardValue → HandRank → List ℤ
get_comparison_key cards rank =
    let rs = sort_descending (ranks cards) in key_of rank rs (count_from [] rs)

-- The difference at the first place where two keys differ, up to the end of the shorter.
unfoldable pub compare_keys : List ℤ → List ℤ → ℤ
compare_keys [] bs = pos 0
compare_keys (a ∷ as') [] = pos 0
compare_keys (a ∷ as') (b ∷ bs) = if a ==ℤ b then compare_keys as' bs else a -ℤ b

-- One round of `evaluateBestFiveCards`: the best rank and combination so far against the next one.
unfoldable pub better :
    HandRank × List CardValue → HandRank → List CardValue → HandRank × List CardValue
better (best_rank, best) rank combo =
    if ltb (hand_rank_to_int best_rank) (hand_rank_to_int rank)
    then (rank, combo)
    else if hand_rank_to_int rank == hand_rank_to_int best_rank
    then (if ltb_ℤ (pos 0)
          (compare_keys (get_comparison_key combo rank) (get_comparison_key best rank))
        then (best_rank, combo)
        else (best_rank, best))
    else (best_rank, best)

unfoldable pub best_loop :
    HandRank × List CardValue → List (List CardValue) → Result (HandRank × List CardValue)
best_loop best [] = ok best
best_loop best (c ∷ cs) = do rank ← evaluate_five_cards c; best_loop (better best rank c) cs

-- The rank and `best_combo`.
unfoldable pub evaluate_best_five_cards : List CardValue → Result (HandRank × List CardValue)
evaluate_best_five_cards cards =
    let combos = generate_combinations cards in
    if ltb (length cards) 5 || ltb 7 (length cards)
    then err (invalid_argument "Need 5-7 cards for evaluation")
    else if length cards == 5
    then (do rank ← evaluate_five_cards cards; ok (rank, cards))
    else best_loop (high_card, get_or combos 0 []) combos

-- The loop of `evaluate`, over the same choices.
unfoldable pub max_loop : HandRank → List (List CardValue) → Result HandRank
max_loop best [] = ok best
max_loop best (c ∷ cs) = do
  rank ← evaluate_five_cards c
  max_loop (if ltb (hand_rank_to_int best) (hand_rank_to_int rank) then rank else best) cs

unfoldable pub evaluate : List Card → Result HandRank
evaluate cards =
    let values = to_card_values cards in
    if ltb (length cards) 5 || ltb 7 (length cards)
    then err (invalid_argument "Hand evaluation requires 5-7 cards")
    else if length cards == 5
    then evaluate_five_cards values
    else max_loop high_card (generate_combinations values)

unfoldable pub compare : List Card → List Card → Result ℤ
compare hand1 hand2 = do
  (rank1, best1) ← evaluate_best_five_cards (to_card_values hand1)
  (rank2, best2) ← evaluate_best_five_cards (to_card_values hand2)
  ok (
      if not (hand_rank_to_int rank1 == hand_rank_to_int rank2)
      then pos (hand_rank_to_int rank1) -ℤ pos (hand_rank_to_int rank2)
      else compare_keys (get_comparison_key best1 rank1) (get_comparison_key best2 rank2))
