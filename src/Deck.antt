-- ===== src/Deck.antt =====
-- The deck: src/core/deck.hpp and src/core/deck.cpp. `std::shuffle` with its generator is an argument
-- σ, the order that it makes of the cards. A `size_t` difference wraps as it does in C++.
use hump.Prelude.{
  ℕ, zero, suc, ◌+◌, ◌-◌, ◌%◌, ◌^◌, List, [], ◌∷◌, ◌++◌, leb, if◌then◌else◌, length, get_or, Result,
  ok, err, out_of_range,
}
use hump.Card.{Card, Rank, Suit, make, default_card, num_ranks, num_suits}
pub mod Deals
mod Examples

pub record Deck : Type 0 where
  pub cards : List Card
  pub next_card : ℕ

-- The inner loop of `createStandardDeck`, with the rounds left.
unfoldable pub add_suits : ℕ → Rank → Suit → List Card
add_suits zero r s = []
add_suits (suc k) r s = make r s ∷ add_suits k r (s + 1)

-- The outer loop.
unfoldable pub add_ranks : ℕ → Rank → List Card
unfolding add_suits
add_ranks zero r = []
add_ranks (suc k) r = add_suits num_suits r 0 ++ add_ranks k (r + 1)

unfoldable pub create_standard_deck : List Card
unfolding add_ranks
create_standard_deck = add_ranks num_ranks 0

unfoldable pub shuffle : (List Card → List Card) → Deck → Deck
shuffle σ d = record { cards = σ d.cards; next_card = 0 }

-- `Deck()`.
unfoldable pub new : (List Card → List Card) → Deck
unfolding shuffle create_standard_deck
new σ = shuffle σ (record { cards = create_standard_deck; next_card = 0 })

-- The card and the deck after it, or the exception, which leaves the deck alone.
unfoldable pub deal : Deck → Result (Card × Deck)
deal d =
    if leb (length d.cards) d.next_card
    then err (out_of_range "No cards left in deck")
    else ok (get_or d.cards d.next_card default_card, record d { next_card = d.next_card + 1 })

unfoldable pub size : Deck → ℕ
size d = (length d.cards + 2 ^ 64 - d.next_card) % 2 ^ 64
