-- ===== src/Ranking/Unordered.antt =====
-- `evaluate` on the same cards in another order.
use mathlib.Core.Quot
use text.Mathlib.TextEquality.{IsScalar-prop}
use mathlib.Core.Quot.{Quot}
use hump.Prelude.{
  ◌≡◌, ◌≤◌, refl, sym, ◌∙◌, ap, true, List, [], ◌∷◌, length, arith, ◌==◌, ltb, ◌||◌, Bool-cases,
  ◌⊎◌, inl, inr, All, Result, ok, err, invalid_argument,
}
use hump.Card.{Card}
use hump.Ranking.{HandRank, hand_rank_to_int, CardValue, to_card_values, evaluate}
use hump.Ranking.Choices.{Any-Shuffled}
use hump.Ranking.Combinations.{choose}
use hump.Ranking.Evaluation.{
  five, Any, evaluate_five, evaluate-choose, length-choose, length-to_card_values,
}
use hump.Ranking.Order.{Shuffled, done, keep, swap, after, length-Shuffled, five-Shuffled}

Shuffled-sym : {A : Type 0} {xs ys : List A} → Shuffled xs ys → Shuffled ys xs
Shuffled-sym done = done
Shuffled-sym (keep x s) = keep x (Shuffled-sym s)
Shuffled-sym (swap x y xs) = swap y x xs
Shuffled-sym (after s t) = after (Shuffled-sym t) (Shuffled-sym s)

values-Shuffled :
    {cs ds : List Card} → Shuffled cs ds → Shuffled (to_card_values cs) (to_card_values ds)
unfolding to_card_values
values-Shuffled done = done
values-Shuffled (keep c s) = keep _ (values-Shuffled s)
values-Shuffled (swap c d cs) = swap _ _ (to_card_values cs)
values-Shuffled (after s t) = after (values-Shuffled s) (values-Shuffled t)

hand_rank_to_int-injective : (a b : HandRank) → hand_rank_to_int a ≡ hand_rank_to_int b → a ≡ b
hand_rank_to_int-injective a b h = ground arith

-- A choice of five cards has the rank.
abbrev Has : HandRank → List CardValue → Type 0
Has r c = (length c ≡ 5) × (five c ≡ r)

Has-Shuffled : (r : HandRank) (c d : List CardValue) → Shuffled c d → Has r c → Has r d
Has-Shuffled r c d s (n, e) = (sym (length-Shuffled s) ∙ n, sym (five-Shuffled s n) ∙ e)

Any-both :
    {A : Type 0} (P Q : A → Type 0) (xs : List A) → All P xs → Any Q xs → Any (λ x. P x × Q x) xs
Any-both P Q [] h k = k
Any-both P Q (x ∷ xs) h (inl k) = inl (h.0, k)
Any-both P Q (x ∷ xs) h (inr k) = inr (Any-both P Q xs h.1 k)

ranked_at_most :
    (r s : HandRank) (cs : List (List CardValue))
    → Any (Has r) cs
    → All (λ c. hand_rank_to_int (five c) ≤ hand_rank_to_int s) cs
    → hand_rank_to_int r ≤ hand_rank_to_int s
ranked_at_most r s [] h k = elim h [ ]
ranked_at_most r s (c ∷ cs) (inl (n, e)) k = rw e at k.0
ranked_at_most r s (c ∷ cs) (inr h) k = ranked_at_most r s cs h k.1

-- The rank that one of the choices of a list has is at most that of the list in another order.
rank-le :
    (r s : HandRank) {cs ds : List CardValue}
    → Shuffled cs ds
    → Any (λ c. five c ≡ r) (choose 5 cs)
    → All (λ c. hand_rank_to_int (five c) ≤ hand_rank_to_int s) (choose 5 ds)
    → hand_rank_to_int r ≤ hand_rank_to_int s
rank-le r s {cs} {ds} t h k =
    let here =
      Any-both (λ c. length c ≡ 5) (λ c. five c ≡ r) (choose 5 cs) (length-choose 5 cs) h in
    ranked_at_most r s (choose 5 ds) (Any-Shuffled (Has r) 5 (Has-Shuffled r) t here) k

evaluate-Shuffled_choices :
    {cs ds : List Card}
    → Shuffled cs ds
    → (length cs ≡ 6) ⊎ (length cs ≡ 7)
    → evaluate cs ≡ evaluate ds
evaluate-Shuffled_choices {cs} {ds} t h =
    let h' : (length ds ≡ 6) ⊎ (length ds ≡ 7) = rw (← length-Shuffled t) h in
    let (r, er, some_r, all_r) = evaluate-choose cs h in
    let (s, es, some_s, all_s) = evaluate-choose ds h' in
    let t' = values-Shuffled t in
    let le = rank-le r s t' some_r all_s in
    let ge = rank-le s r (Shuffled-sym t') some_s all_r in
    er ∙ ap ok (hand_rank_to_int-injective r s (omega arith)) ∙ sym es

evaluate-five : (cs : List Card) → length cs ≡ 5 → evaluate cs ≡ ok (five (to_card_values cs))
unfolding evaluate
evaluate-five cs h = rw h (evaluate_five (to_card_values cs) (length-to_card_values cs ∙ h))

evaluate-refused :
    (cs : List Card)
    → (ltb (length cs) 5 || ltb 7 (length cs)) ≡ true
    → evaluate cs ≡ err (invalid_argument "Hand evaluation requires 5-7 cards")
unfolding evaluate
evaluate-refused cs h = rw h refl

-- The order of the cards does not matter: a hand and the same cards in any other order, of any number, get
-- the same rank, or the same exception where they are not five to seven.
pub evaluate-Shuffled : (cs ds : List Card) → Shuffled cs ds → evaluate cs ≡ evaluate ds
evaluate-Shuffled cs ds t =
    let n = length-Shuffled t in
    elim (Bool-cases (ltb (length cs) 5 || ltb 7 (length cs))) [
      | inl e ↦ evaluate-refused cs e ∙ sym (evaluate-refused ds (rw n at e))
      | inr e ↦ elim (Bool-cases (length cs == 5)) [
        | inl f ↦
            let five_cards : length cs ≡ 5 = ground (arith, f) in
            evaluate-five cs five_cards
            ∙ ap ok (five-Shuffled (values-Shuffled t) (length-to_card_values cs ∙ five_cards))
            ∙ sym (evaluate-five ds (sym n ∙ five_cards))
        | inr f ↦ evaluate-Shuffled_choices t (ground (arith, e, f))
      ]
    ]

-- So it is a function of the cards without their order.
evaluate_unordered :
    (f : Quot (Shuffled {A = Card}) → Result HandRank) × ((cs : List Card)
      → f (Quot.mk cs) ≡ evaluate cs)
evaluate_unordered = (Quot.lift (hlevel IsScalar-prop) evaluate evaluate-Shuffled, λ cs. refl)
