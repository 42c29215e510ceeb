-- ===== src/Hand/Rounds.antt =====
-- Rounds and the cards that they bring.
use native.Mathlib.Nat.{add-zero}
use hump.Prelude.{
  ℕ, zero, suc, ◌+◌, ◌≤◌, ◌≡◌, ◌⊎◌, inl, inr, refl, Bool, true, false, List, [], ◌∷◌, ◌++◌, arith,
  length, length-append, length-take, length-drop, get_or, take, drop, ok, some, String, ℤ, pos,
}
use mathlib.Core.List.{append-nil, append_assoc}
use hump.Card.{Card, default_card}
use hump.Deck.{Deck}
use hump.Deck.Deals.{deal_one, drop_step}
use hump.Model.{
  Ptr, Hand, BettingRound, preflop, flop, turn, river, showdown, advance_round, next_round,
}
use hump.Hand.{deal_community_cards, cards_for, advance_betting_round, resize, reset_for_start}

-- The loop puts the next `n` cards of the deck behind those on the board.
deal_community_cards_lem :
    (n : ℕ) (board cs : List Card) (k : ℕ)
    → k + n ≤ length cs
    → deal_community_cards n board (record { cards = cs; next_card = k })
      ≡ ok (board ++ take n (drop k cs), record { cards = cs; next_card = k + n })
unfolding deal_community_cards
deal_community_cards_lem zero board cs k h = rw (add-zero, append-nil board)
deal_community_cards_lem (suc n) board cs k h =
    rw
      (
        deal_one cs k (omega arith),
        drop_step cs k (omega arith),
        deal_community_cards_lem n (board ++ get_or cs k default_card ∷ []) cs (suc k)
            (omega arith),
        append_assoc board (get_or cs k default_card ∷ []) (take n (drop (suc k) cs)),
      )
      (ground arith)

-- How many cards lie on the board in a round.
abbrev pub board_size : BettingRound → ℕ
board_size preflop = 0
board_size flop = 3
board_size turn = 4
board_size river = 5
board_size showdown = 5

-- The rounds in their order, from 0 to 4.
abbrev pub number : BettingRound → ℕ
number preflop = 0
number flop = 1
number turn = 2
number river = 3
number showdown = 4

-- How many cards the round after a round adds to the board.
abbrev pub cards_after : BettingRound → ℕ
cards_after preflop = 3
cards_after flop = 1
cards_after turn = 1
cards_after _ = 0

-- The next round is entered, with its cards: the board keeps its own, and the deck's next ones lie behind them.
pub record IsAdvanced (hand h : Hand) : Type 0 where
  pub next : number h.current_betting_round ≡ suc (number hand.current_betting_round)
  pub dealt :
      h.community_cards
      ≡ hand.community_cards
        ++ take (cards_after hand.current_betting_round) (drop hand.deck.next_card hand.deck.cards)
  pub drawn : h.deck.next_card ≡ hand.deck.next_card + cards_after hand.current_betting_round
  pub full : length h.community_cards ≡ board_size h.current_betting_round

next_round_lem :
    (a : BettingRound)
    → (a ≡ showdown)
      ⊎ ((b : BettingRound) × (next_round a ≡ some b)
          × (number b ≡ suc (number a))
          × (cards_for b ≡ cards_after a)
          × (board_size a + cards_after a ≡ board_size b))
next_round_lem preflop = inr (flop, refl, refl, refl, refl)
next_round_lem flop = inr (turn, refl, refl, refl, refl)
next_round_lem turn = inr (river, refl, refl, refl, refl)
next_round_lem river = inr (showdown, refl, refl, refl, refl)
next_round_lem showdown = inl refl

advance_round_lem :
    (h : Hand) (r : BettingRound)
    → next_round h.current_betting_round ≡ some r
    → advance_round h ≡ (record h { current_betting_round = r }, true)
unfolding advance_round
advance_round_lem h r e = ground (arith, e)

-- The hand with the cards of a round.
abbrev entered : Hand → BettingRound → Hand
entered h r = record h {
  current_betting_round = r;
  community_cards = h.community_cards ++ take (cards_for r) (drop h.deck.next_card h.deck.cards);
  deck = record h.deck { next_card = h.deck.next_card + cards_for r };
}

enters :
    (h : Hand) (r : BettingRound)
    → next_round h.current_betting_round ≡ some r
    → h.deck.next_card + cards_for r ≤ length h.deck.cards
    → advance_betting_round h ≡ ok (entered h r, true)
unfolding advance_betting_round
enters h r e k =
    rw
      (
        advance_round_lem h r e,
        deal_community_cards_lem (cards_for r) h.community_cards h.deck.cards h.deck.next_card k,
      )
      refl

-- From a hand with the cards of its round on the board, and a deck that has those of the next: after showdown
-- there is no next round and nothing changes; from each other round the next one in the order preflop, flop, turn,
-- river, showdown is entered, with three cards for the flop and one each for turn and river: the board keeps its cards and
-- the deck's next ones lie behind them, as many as the round has. In neither case does it throw.
pub advance_betting_round_lem :
    (h : Hand)
    → h.deck.next_card + cards_after h.current_betting_round ≤ length h.deck.cards
    → length h.community_cards ≡ board_size h.current_betting_round
    → ((h.current_betting_round ≡ showdown) × (advance_betting_round h ≡ ok (h, false)))
      ⊎ ((h' : Hand) × (advance_betting_round h ≡ ok (h', true)) × IsAdvanced h h')
advance_betting_round_lem h k b = elim (next_round_lem h.current_betting_round) [
  | inl e ↦ inl (e, unfold advance_betting_round advance_round in rw e refl)
  | inr (r, e, n, c, s) ↦ inr (
    entered h r,
    enters h r e (rw c k),
    record {
      next = n;
      dealt = rw c refl;
      drawn = rw c refl;
      full = omega (
        arith,
        c,
        length-append {0} h.community_cards
            (take (cards_for r) (drop h.deck.next_card h.deck.cards)),
        length-take (cards_for r) (drop h.deck.next_card h.deck.cards),
        length-drop h.deck.next_card h.deck.cards,
      );
    },
  )
]

-- What the start of a hand leaves of the last one: two flags and two bets that were there stay, so a
-- player who folded is folded in the next hand from its beginning.
reset_for_start-keeps :
    (σ : List Card → List Card) (id : String) (hand : Hand) (d : Deck) (p q : Ptr) (a b : Bool)
    (x y : ℤ)
    → hand.folded ≡ a ∷ b ∷ []
    → hand.player_bets ≡ x ∷ y ∷ []
    → let h = reset_for_start σ id hand d p q in
      (h.folded ≡ a ∷ b ∷ []) × (h.player_bets ≡ x ∷ y ∷ []) × (h.pot ≡ pos 0)
unfolding reset_for_start resize
reset_for_start-keeps σ id hand d p q a b x y e f = rw (e, f) (refl, refl, refl)
