-- ===== src/Deck/Examples.antt =====
-- Runs of the deck, and the theorems at inputs.
use hump.Prelude.{◌+◌, ◌-◌, ◌≡◌, refl, List, [], ◌∷◌, arith, length, drop, ok}
use hump.Card.{Card}
use hump.Deck.{Deck, new, deal, size}
use hump.Deck.Deals.{IsShuffle-id, deal_n, deal_n-new, count}

abbrev two_left : Deck
two_left = record { cards = record { value = 7 } ∷ record { value = 9 } ∷ []; next_card = 1 }

last_card : deal two_left ≡ ok (record { value = 9 }, record two_left { next_card = 2 })
unfolding deal
last_card = refl

deal_n-new_example :
    (cs : List Card) × (d : Deck) × (deal_n 4 (new (λ cs. cs)) ≡ ok (cs, d))
    × (length cs ≡ 4)
    × (size d ≡ 52 - 4)
    × (count (record { value = 3 }) cs + count (record { value = 3 }) (drop d.next_card d.cards)
        ≡ 1)
deal_n-new_example =
    deal_n-new (λ cs. cs) 4 (record { value = 3 }) IsShuffle-id (omega arith) (omega arith)
