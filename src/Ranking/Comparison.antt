-- ===== src/Ranking/Comparison.antt =====
-- `compare` as an order on hands.
use hump.Prelude.{
  ℕ, ◌≡◌, refl, ◌∙◌, ap, true, false, not, List, [], ◌∷◌, ◌<◌, arith, ◌==◌, if◌then◌else◌,
  Bool-cases, inl, inr, ok, >>=-eq-ok, ℤ, pos, ◌-ℤ◌, ◌==ℤ◌, ◌<ℤ◌, int_laws, get_or,
}
use hump.Card.{Card}
use hump.Ranking.{
  HandRank, flush, hand_rank_to_int, CardValue, to_card_values, compare_keys, get_comparison_key,
  key_of, ranks, sort_descending, evaluate_best_five_cards, compare, evaluate,
}
use hump.Ranking.Evaluation.{evaluate_best-evaluate}

==ℤ_flip : (a b : ℤ) → (b ==ℤ a) ≡ (a ==ℤ b)
==ℤ_flip a b = ground arith

compare_keys-flip : (as' bs : List ℤ) → compare_keys bs as' ≡ pos 0 -ℤ compare_keys as' bs
unfolding compare_keys
compare_keys-flip [] [] = omega int_laws
compare_keys-flip [] (b ∷ bs) = omega int_laws
compare_keys-flip (a ∷ as') [] = omega int_laws
compare_keys-flip (a ∷ as') (b ∷ bs) = elim (Bool-cases (a ==ℤ b)) [
  | inl e ↦ rw (==ℤ_flip a b, e) (compare_keys-flip as' bs)
  | inr e ↦ rw (==ℤ_flip a b, e) (omega int_laws)
]

compare_keys_self : (as' : List ℤ) → compare_keys as' as' ≡ pos 0
unfolding compare_keys
compare_keys_self [] = refl
compare_keys_self (a ∷ as') =
    let t : (a ==ℤ a) ≡ true = ground arith in rw t (compare_keys_self as')

-- What `compare` does with two ranks and combinations.
verdict : HandRank × List CardValue → HandRank × List CardValue → ℤ
verdict (rank1, best1) (rank2, best2) =
    if not (hand_rank_to_int rank1 == hand_rank_to_int rank2)
    then pos (hand_rank_to_int rank1) -ℤ pos (hand_rank_to_int rank2)
    else compare_keys (get_comparison_key best1 rank1) (get_comparison_key best2 rank2)

compare-verdict :
    (hand1 hand2 : List Card) {a b : HandRank × List CardValue}
    → evaluate_best_five_cards (to_card_values hand1) ≡ ok a
    → evaluate_best_five_cards (to_card_values hand2) ≡ ok b
    → compare hand1 hand2 ≡ ok (verdict a b)
unfolding compare verdict
compare-verdict hand1 hand2 p q = rw (p, q)

-- What a successful `compare` went through.
compare_inv :
    (hand1 hand2 : List Card) {z : ℤ}
    → compare hand1 hand2 ≡ ok z
    → (a : HandRank × List CardValue) × (b : HandRank × List CardValue) × (evaluate_best_five_cards
          (to_card_values hand1)
        ≡ ok a)
      × (evaluate_best_five_cards (to_card_values hand2) ≡ ok b)
      × (verdict a b ≡ z)
unfolding compare verdict
compare_inv hand1 hand2 h =
    let (a, p, h') = >>=-eq-ok (evaluate_best_five_cards (to_card_values hand1)) _ h in
    let (b, q, h'') = >>=-eq-ok (evaluate_best_five_cards (to_card_values hand2)) _ h' in
    (a, b, p, q, ground (arith, h''))

==_flip : (a b : ℕ) → (b == a) ≡ (a == b)
==_flip a b = ground arith

verdict-flip : (a b : HandRank × List CardValue) → verdict b a ≡ pos 0 -ℤ verdict a b
unfolding verdict
verdict-flip (r, c) (s, d) = elim (Bool-cases (hand_rank_to_int r == hand_rank_to_int s)) [
  | inl e ↦
      rw (==_flip (hand_rank_to_int r) (hand_rank_to_int s), e)
        (compare_keys-flip (get_comparison_key c r) (get_comparison_key d s))
  | inr e ↦ rw (==_flip (hand_rank_to_int r) (hand_rank_to_int s), e) (omega int_laws)
]

-- Comparing the other way round gives the opposite number, so the order in which two hands are compared
-- decides nothing.
compare-flip :
    (hand1 hand2 : List Card) {z : ℤ}
    → compare hand1 hand2 ≡ ok z
    → compare hand2 hand1 ≡ ok (pos 0 -ℤ z)
compare-flip hand1 hand2 h =
    let (a, b, p, q, e) = compare_inv hand1 hand2 h in
    compare-verdict hand2 hand1 q p ∙ ap ok (verdict-flip a b ∙ ap (λ t. pos 0 -ℤ t) e)

-- Of two hands that `evaluate` ranks, the one of the higher rank wins the comparison, which throws
-- no exception.
pub compare-evaluate :
    (hand1 hand2 : List Card) (r s : HandRank)
    → evaluate hand1 ≡ ok r
    → evaluate hand2 ≡ ok s
    → hand_rank_to_int s < hand_rank_to_int r
    → (z : ℤ) × (compare hand1 hand2 ≡ ok z) × (pos 0 <ℤ z)
unfolding verdict
compare-evaluate hand1 hand2 r s p q h =
    let (c, p') = evaluate_best-evaluate hand1 p in
    let (d, q') = evaluate_best-evaluate hand2 q in
    let t : (hand_rank_to_int r == hand_rank_to_int s) ≡ false = ground arith in
    (
      pos (hand_rank_to_int r) -ℤ pos (hand_rank_to_int s),
      compare-verdict hand1 hand2 p' q' ∙ rw t,
      omega int_laws,
    )

-- Two flushes with the same highest card compare equal, whatever their other four cards are: the key of
-- a flush has one entry.
pub compare_flushes :
    (hand1 hand2 : List Card) (best1 best2 : List CardValue)
    → evaluate_best_five_cards (to_card_values hand1) ≡ ok (flush, best1)
    → evaluate_best_five_cards (to_card_values hand2) ≡ ok (flush, best2)
    → get_or (sort_descending (ranks best1)) 0 0 ≡ get_or (sort_descending (ranks best2)) 0 0
    → compare hand1 hand2 ≡ ok (pos 0)
unfolding verdict get_comparison_key key_of
compare_flushes hand1 hand2 best1 best2 p q h =
    compare-verdict hand1 hand2 p q ∙ ap ok (rw h (compare_keys_self _))
