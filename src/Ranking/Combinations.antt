-- ===== src/Ranking/Combinations.antt =====
-- The choices of five cards that the index loop visits.
use hump.Prelude.{ℕ, zero, suc, ◌≡◌, refl, List, [], ◌∷◌, ◌++◌, map, length, ◌⊎◌, arith}
use hump.Ranking.{CardValue, generate_combinations, index_loop, last_movable, refill}

-- All ways to leave out cards until `k` are left, in their order.
unfoldable pub choose {ℓ} : {A : Type ℓ} → ℕ → List A → List (List A)
choose zero xs = [] ∷ []
choose (suc k) [] = []
choose (suc k) (x ∷ xs) = map (λ ys. x ∷ ys) (choose k xs) ++ choose (suc k) xs

six_choices :
    (a b c d e f : CardValue)
    → generate_combinations (a ∷ b ∷ c ∷ d ∷ e ∷ f ∷ []) ≡ choose 5 (a ∷ b ∷ c ∷ d ∷ e ∷ f ∷ [])
unfolding generate_combinations index_loop last_movable refill choose
six_choices a b c d e f = refl

seven_choices :
    (a b c d e f g : CardValue)
    → generate_combinations (a ∷ b ∷ c ∷ d ∷ e ∷ f ∷ g ∷ [])
      ≡ choose 5 (a ∷ b ∷ c ∷ d ∷ e ∷ f ∷ g ∷ [])
unfolding generate_combinations index_loop last_movable refill choose
seven_choices a b c d e f g = refl

-- The loop ends by its own test, and visits each choice of five out of six or seven cards once, in
-- order.
pub generate_combinations-choose :
    (cards : List CardValue)
    → (length cards ≡ 6) ⊎ (length cards ≡ 7)
    → generate_combinations cards ≡ choose 5 cards
generate_combinations-choose [] h = absurd (omega arith)
generate_combinations-choose (a ∷ []) h = absurd (omega arith)
generate_combinations-choose (a ∷ b ∷ []) h = absurd (omega arith)
generate_combinations-choose (a ∷ b ∷ c ∷ []) h = absurd (omega arith)
generate_combinations-choose (a ∷ b ∷ c ∷ d ∷ []) h = absurd (omega arith)
generate_combinations-choose (a ∷ b ∷ c ∷ d ∷ e ∷ []) h = absurd (omega arith)
generate_combinations-choose (a ∷ b ∷ c ∷ d ∷ e ∷ f ∷ []) h = six_choices a b c d e f
generate_combinations-choose (a ∷ b ∷ c ∷ d ∷ e ∷ f ∷ g ∷ []) h = seven_choices a b c d e f g
generate_combinations-choose (a ∷ b ∷ c ∷ d ∷ e ∷ f ∷ g ∷ x ∷ r) h = absurd (omega arith)
