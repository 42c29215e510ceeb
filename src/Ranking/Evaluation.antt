-- ===== src/Ranking/Evaluation.antt =====
-- `evaluate` against the best of all five-card choices.
use hump.Prelude.{
  ℕ, zero, suc, ◌≡◌, refl, sym, ◌∙◌, ap, true, ◌||◌, List, [], ◌∷◌, ◌++◌, map, length, ◌⊎◌, inl,
  inr, ◌≤◌, arith, ◌==◌, ltb, if◌then◌else◌, All, Bool-cases, Result, ok, err, ◌>>=◌, get_or,
}
use hump.Card.{Card}
use hump.Ranking.{
  HandRank, high_card, hand_rank_to_int, CardValue, to_card_values, classify, evaluate_five_cards,
  generate_combinations, max_loop, evaluate, better, best_loop, evaluate_best_five_cards, is_flush,
  is_straight, sort_descending, ranks, count_from,
}
use hump.Ranking.Combinations.{choose, generate_combinations-choose}

-- The rank of five cards, where there are five.
unfoldable pub five : List CardValue → HandRank
five cards =
    let rs = sort_descending (ranks cards) in
    classify (is_flush cards) (is_straight rs) rs (count_from [] rs)

pub evaluate_five :
    (cards : List CardValue) → length cards ≡ 5 → evaluate_five_cards cards ≡ ok (five cards)
unfolding evaluate_five_cards five
evaluate_five cards h = let t : (length cards == 5) ≡ true = ground arith in rw t

All-append {ℓ κ} :
    {A : Type ℓ} (P : A → Type κ) (xs ys : List A) → All P xs → All P ys → All P (xs ++ ys)
All-append P [] ys h k = k
All-append P (x ∷ xs) ys h k = (h.0, All-append P xs ys h.1 k)

All-cons-choose :
    (k : ℕ) (x : CardValue) (cs : List (List CardValue))
    → All (λ c. length c ≡ k) cs
    → All (λ c. length c ≡ suc k) (map (λ ys. x ∷ ys) cs)
All-cons-choose k x [] h = tt
All-cons-choose k x (c ∷ cs) h = (ap suc h.0, All-cons-choose k x cs h.1)

pub length-choose : (k : ℕ) (xs : List CardValue) → All (λ c. length c ≡ k) (choose k xs)
unfolding choose
length-choose zero xs = (refl, tt)
length-choose (suc k) [] = tt
length-choose (suc k) (x ∷ xs) =
    All-append (λ c. length c ≡ suc k) (map (λ ys. x ∷ ys) (choose k xs)) (choose (suc k) xs)
      (All-cons-choose k x (choose k xs) (length-choose k xs)) (length-choose (suc k) xs)

-- Some element of the list.
abbrev pub Any {ℓ} : {A : Type ℓ} → (A → Type 0) → List A → Type 0
Any P [] = ⊥
Any P (x ∷ xs) = P x ⊎ Any P xs

abbrev rank_of : List CardValue → ℕ
rank_of c = hand_rank_to_int (five c)

max_loop_lem :
    (best : HandRank) (cs : List (List CardValue))
    → All (λ c. length c ≡ 5) cs
    → (r : HandRank) × (max_loop best cs ≡ ok r)
      × (hand_rank_to_int best ≤ hand_rank_to_int r)
      × All (λ c. rank_of c ≤ hand_rank_to_int r) cs
      × ((r ≡ best) ⊎ Any (λ c. five c ≡ r) cs)
unfolding max_loop
max_loop_lem best [] h = (best, refl, omega arith, tt, inl refl)
max_loop_lem best (c ∷ cs) h = elim (Bool-cases (ltb (hand_rank_to_int best) (rank_of c))) [
  | inl up ↦
      let (r, e, le, all, which) = max_loop_lem (five c) cs h.1 in
      (
        r,
        rw (evaluate_five c h.0, up) e,
        ground arith,
        (le, all),
        inr (elim which [ inl q ↦ inl (sym q) | inr q ↦ inr q ]),
      )
  | inr up ↦
      let (r, e, le, all, which) = max_loop_lem best cs h.1 in
      (
        r,
        rw (evaluate_five c h.0, up) e,
        le,
        (ground arith, all),
        elim which [ inl q ↦ inl q | inr q ↦ inr (inr q) ],
      )
]

lowest : (a : HandRank) → hand_rank_to_int a ≤ 0 → a ≡ high_card
lowest a h = ground arith

-- Started from the lowest rank, a loop over some choices ends at a rank that one of them has.
attained :
    (r : HandRank) (c : List CardValue) (cs : List (List CardValue))
    → All (λ c. rank_of c ≤ hand_rank_to_int r) (c ∷ cs)
    → ((r ≡ high_card) ⊎ Any (λ c. five c ≡ r) (c ∷ cs))
    → Any (λ c. five c ≡ r) (c ∷ cs)
attained r c cs h (inl q) = inl (lowest (five c) (rw q at h.0) ∙ sym q)
attained r c cs h (inr q) = q

pub length-to_card_values : (cs : List Card) → length (to_card_values cs) ≡ length cs
unfolding to_card_values
length-to_card_values [] = refl
length-to_card_values (c ∷ cs) = ap suc (length-to_card_values cs)

-- `evaluate` on six or seven cards.
evaluate-loop :
    (cards : List Card)
    → (length cards ≡ 6) ⊎ (length cards ≡ 7)
    → evaluate cards ≡ max_loop high_card (generate_combinations (to_card_values cards))
unfolding evaluate
evaluate-loop cards h = ground arith

nonempty_choices :
    (xs : List CardValue)
    → (length xs ≡ 6) ⊎ (length xs ≡ 7)
    → (c : List CardValue) × (cs : List (List CardValue)) × (choose 5 xs ≡ c ∷ cs)
unfolding choose
nonempty_choices [] h = absurd (omega arith)
nonempty_choices (a ∷ []) h = absurd (omega arith)
nonempty_choices (a ∷ b ∷ []) h = absurd (omega arith)
nonempty_choices (a ∷ b ∷ c ∷ []) h = absurd (omega arith)
nonempty_choices (a ∷ b ∷ c ∷ d ∷ []) h = absurd (omega arith)
nonempty_choices (a ∷ b ∷ c ∷ d ∷ e ∷ r) h = (a ∷ b ∷ c ∷ d ∷ e ∷ [], _, refl)

-- Six or seven cards are always ranked, without an exception: the rank is that of one of the choices of
-- five of them, and no choice has a higher rank.
pub evaluate-choose :
    (cards : List Card)
    → (length cards ≡ 6) ⊎ (length cards ≡ 7)
    → (r : HandRank) × (evaluate cards ≡ ok r)
      × Any (λ c. five c ≡ r) (choose 5 (to_card_values cards))
      × All (λ c. hand_rank_to_int (five c) ≤ hand_rank_to_int r) (choose 5 (to_card_values cards))
evaluate-choose cards h =
    let values = to_card_values cards in
    let h' : (length values ≡ 6) ⊎ (length values ≡ 7) = rw (length-to_card_values cards) h in
    let (c, cs, e) = nonempty_choices values h' in
    let (r, loop, low, all, which) =
      max_loop_lem high_card (choose 5 values) (length-choose 5 values) in
    (
      r,
      evaluate-loop cards h
          ∙ ap (max_loop high_card) (generate_combinations-choose values h')
          ∙ loop,
      rw e (attained r c cs (rw e at all) (rw e at which)),
      all,
    )

abbrev map_result : {A B : Type 0} → (A → B) → Result A → Result B
map_result f (ok a) = ok (f a)
map_result f (err e) = err e

better_rank :
    (b : HandRank) (best : List CardValue) (r : HandRank) (c : List CardValue)
    → (better (b, best) r c).0 ≡ (if ltb (hand_rank_to_int b) (hand_rank_to_int r) then r else b)
unfolding better
better_rank b best r c = ground arith

best_loop_rank :
    (b : HandRank) (best : List CardValue) (cs : List (List CardValue))
    → map_result (λ p. p.0) (best_loop (b, best) cs) ≡ max_loop b cs
unfolding best_loop max_loop
best_loop_rank b best [] = refl
best_loop_rank b best (c ∷ cs) =
    step (evaluate_five_cards c)
      λ r. best_loop_rank (better (b, best) r c).0 (better (b, best) r c).1 cs
  where
    step :
        (m : Result HandRank)
        → ((r : HandRank)
            → map_result (λ p. p.0) (best_loop (better (b, best) r c) cs)
              ≡ max_loop (better (b, best) r c).0 cs)
        → map_result (λ p. p.0) (m >>= λ r. best_loop (better (b, best) r c) cs) ≡ (
            m >>= λ r. max_loop (if ltb (hand_rank_to_int b) (hand_rank_to_int r) then r else b) cs)
    step (ok r) ih = ih r ∙ ap (λ t. max_loop t cs) (better_rank b best r c)
    step (err e) ih = refl

with_first :
    (m : Result (HandRank × List CardValue)) {r : HandRank}
    → map_result (λ p. p.0) m ≡ ok r
    → (best : List CardValue) × (m ≡ ok (r, best))
with_first (ok (a, b)) h = (b, ground arith)
with_first (err e) h = cc

-- The two evaluators agree: where `evaluate` gives a rank, `evaluateBestFiveCards` finds the same one
-- beside its combination.
pub evaluate_best-evaluate :
    (cards : List Card) {r : HandRank}
    → evaluate cards ≡ ok r
    → (best : List CardValue) × (evaluate_best_five_cards (to_card_values cards) ≡ ok (r, best))
unfolding evaluate evaluate_best_five_cards
evaluate_best-evaluate cards {r} h =
    let values = to_card_values cards in
    let combos = generate_combinations values in
    let n = length-to_card_values cards in
    elim (Bool-cases (ltb (length cards) 5 || ltb 7 (length cards))) [
      | inl out ↦ absurd (let h' = rw out at h in cc)
      | inr fits ↦ elim (Bool-cases (length cards == 5)) [
        | inl e ↦ (values, rw (n, fits, e) (rw (rw (fits, e) at h)))
        | inr e ↦
            let (best, q) =
              with_first (best_loop (high_card, get_or combos 0 []) combos)
                (best_loop_rank high_card (get_or combos 0 []) combos ∙ (rw (fits, e) at h)) in
            (best, rw (n, fits, e) q)
      ]
    ]
