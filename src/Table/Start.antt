-- ===== src/Table/Start.antt =====
-- The start of a hand at the table, and the deck that its board is dealt from.
use hump.Prelude.{
  ℕ, suc, ◌≤◌, ◌<◌, ◌≡◌, ◌≢◌, sym, ◌∙◌, ap, true, false, List, [], ◌∷◌, ◌++◌, arith, ◌==◌, length,
  get_or, none, some, String, ok, pos,
}
use hump.Card.{Card, default_card}
use hump.Deck.{Deck, deal, shuffle, size, create_standard_deck}
use hump.Deck
use hump.Deck.Deals.{deal_one, IsShuffle, length-standard}
use hump.Model.{
  Ptr, Player, Store, load, modify, hand_in_progress, is_ready_for_hand, advance_round,
}
use hump.Model.Store.{IsLive, load-modify_self, load-modify_ne, modify-IsLive}
use hump.Hand.{deal_hole_cards}
use hump.Table.{
  TableManager, new_hand, start_on, start_hand, deal_loop, deal_on, deal_community_cards,
  advance_on, advance_betting_round,
}

abbrev pub two_cards : List Card → ℕ → List Card
two_cards cs k = get_or cs k default_card ∷ get_or cs (suc k) default_card ∷ []

abbrev give : List Card → Ptr → Store → Store
give cards p st = modify (λ q. record q { hole_cards = cards }) p st

deal_hole_cards_two :
    (p q : Ptr) (st : Store) (cs : List Card)
    → 4 ≤ length cs
    → deal_hole_cards (p ∷ q ∷ []) st (record { cards = cs; next_card = 0 })
      ≡ ok (
        give (two_cards cs 2) q (give (two_cards cs 0) p st),
        record { cards = cs; next_card = 4 },
      )
unfolding deal_hole_cards
deal_hole_cards_two p q st cs h = rw (
  deal_one cs 0 (omega arith),
  deal_one cs 1 (omega arith),
  deal_one cs 2 (omega arith),
  deal_one cs 3 (omega arith),
)

-- The order in which the cards of the hand lie.
abbrev pub order : (List Card → List Card) → (List Card → List Card) → List Card
order σ₁ σ₂ = σ₂ (σ₁ create_standard_deck)

-- The table with the new hand on it.
abbrev pub started :
    (List Card → List Card) → (List Card → List Card) → String → TableManager → Store → TableManager
started σ₁ σ₂ id m st = record m {
  table = record m.table {
    current_hand = some (new_hand σ₁ σ₂ id m.table);
    state = hand_in_progress;
    community_cards = [];
    pot = pos 0;
  };
  store = st;
}

length-order :
    (σ₁ σ₂ : List Card → List Card) → IsShuffle σ₁ → IsShuffle σ₂ → length (order σ₁ σ₂) ≡ 52
length-order σ₁ σ₂ s₁ s₂ =
    s₂.same_length (σ₁ create_standard_deck) ∙ s₁.same_length create_standard_deck ∙ length-standard

start_on-none :
    (σ₁ σ₂ : List Card → List Card) (id : String) (m : TableManager)
    → 4 ≤ length (order σ₁ σ₂)
    → let cs = order σ₁ σ₂ in
      start_on m (new_hand σ₁ σ₂ id m.table) none
      ≡ ok (
        started σ₁ σ₂ id m
            (give (two_cards cs 2) m.table.seat_2 (give (two_cards cs 0) m.table.seat_1 m.store)),
        true,
      )
unfolding start_on new_hand shuffle Deck.new
start_on-none σ₁ σ₂ id m h =
    rw (deal_hole_cards_two m.table.seat_1 m.table.seat_2 m.store (order σ₁ σ₂) h)

size-fresh :
    (cs : List Card) (k : ℕ)
    → length cs ≡ 52
    → k < 4
    → (size (record { cards = cs; next_card = k }) == 0) ≡ false
unfolding size
size-fresh cs k h l = ground arith

flop_of :
    (σ₁ σ₂ : List Card → List Card) (id : String) (m : TableManager) (st : Store)
    → length (order σ₁ σ₂) ≡ 52
    → (advance_betting_round (started σ₁ σ₂ id m st)).table.community_cards
      ≡ two_cards (order σ₁ σ₂) 0 ++ get_or (order σ₁ σ₂) 2 default_card ∷ []
unfolding advance_betting_round advance_on advance_round deal_community_cards deal_on deal_loop
    new_hand shuffle Deck.new
flop_of σ₁ σ₂ id m st h =
    let cs = order σ₁ σ₂ in
    rw (
      size-fresh cs 0 h (omega arith),
      deal_one cs 0 (omega arith),
      size-fresh cs 1 h (omega arith),
      deal_one cs 1 (omega arith),
      size-fresh cs 2 h (omega arith),
      deal_one cs 2 (omega arith),
    )

-- A table that is ready and has no hand, with two different players in its seats, starts one, and
-- each player is dealt two cards: the first two of the deck in seat 1 and the next two in seat 2.
pub start_hand_lem :
    (σ₁ σ₂ : List Card → List Card) (id : String) (m : TableManager)
    → IsShuffle σ₁
    → IsShuffle σ₂
    → is_ready_for_hand m.table ≡ true
    → m.table.current_hand ≡ none
    → IsLive m.store m.table.seat_1
    → IsLive m.store m.table.seat_2
    → m.table.seat_1 ≢ m.table.seat_2
    → (st : Store) × (start_hand σ₁ σ₂ id m ≡ ok (started σ₁ σ₂ id m st, true))
      × ((load st m.table.seat_1).hole_cards ≡ two_cards (order σ₁ σ₂) 0)
      × ((load st m.table.seat_2).hole_cards ≡ two_cards (order σ₁ σ₂) 2)
unfolding start_hand
start_hand_lem σ₁ σ₂ id m s₁ s₂ ready free l₁ l₂ ne =
    let p = m.table.seat_1 in
    let q = m.table.seat_2 in
    let cs = order σ₁ σ₂ in
    let st = give (two_cards cs 0) p m.store in
    let f = λ (x : Player). record x { hole_cards = two_cards cs 0 } in
    let g = λ (x : Player). record x { hole_cards = two_cards cs 2 } in
    (
      give (two_cards cs 2) q st,
      rw ready (
          ap (start_on m (new_hand σ₁ σ₂ id m.table)) free
          ∙ start_on-none σ₁ σ₂ id m (omega (arith, length-order σ₁ σ₂ s₁ s₂))),
      ap (λ (x : Player). x.hole_cards)
          (load-modify_ne g q p st (λ e. ne (sym e)) ∙ load-modify_self f p m.store l₁),
      ap (λ (x : Player). x.hole_cards)
          (load-modify_self g q st (modify-IsLive f p {st = m.store} {q = q} l₂)),
    )

-- The bug that the copy makes: once the flop is dealt, its first two cards are the hole cards of seat 1 and
-- its third is the first hole card of seat 2, for every shuffle. The deck of the table's hand was copied
-- before the deal, and deals the same cards again.
pub flop_repeats_hole_cards :
    (σ₁ σ₂ : List Card → List Card) (id : String) (m : TableManager)
    → IsShuffle σ₁
    → IsShuffle σ₂
    → is_ready_for_hand m.table ≡ true
    → m.table.current_hand ≡ none
    → IsLive m.store m.table.seat_1
    → IsLive m.store m.table.seat_2
    → m.table.seat_1 ≢ m.table.seat_2
    → (m' : TableManager) × (start_hand σ₁ σ₂ id m ≡ ok (m', true))
      × ((advance_betting_round m').table.community_cards
          ≡ (load m'.store m.table.seat_1).hole_cards
            ++ get_or (load m'.store m.table.seat_2).hole_cards 0 default_card ∷ [])
flop_repeats_hole_cards σ₁ σ₂ id m s₁ s₂ ready free l₁ l₂ ne =
    let (st, e, c₁, c₂) = start_hand_lem σ₁ σ₂ id m s₁ s₂ ready free l₁ l₂ ne in
    (started σ₁ σ₂ id m st, e, rw (c₁, c₂) (flop_of σ₁ σ₂ id m st (length-order σ₁ σ₂ s₁ s₂)))
