-- ===== src/Hand.antt =====
-- The life of a hand: src/core/hand.hpp and src/core/hand.cpp. The shuffle's order σ, the new id, the
-- clock and what a read behind the end of a vector gives are arguments. An exception ends an
-- operation as an `err`, without the state that it leaves behind.
use hump.Prelude.{
  ℕ, zero, suc, ◌+◌, Bool, true, false, not, ◌&&◌, ◌||◌, List, [], ◌∷◌, ◌++◌, ℤ, pos, ◌+ℤ◌, ◌-ℤ◌,
  leb_ℤ, ltb_ℤ, ltb, leb, ◌==◌, length, get_or, if◌then◌else◌, String, str_eq, Result, ok, err,
  ◌>>=◌, Option, none, some,
}
use hump.Card.{Card}
use hump.Deck.{Deck, deal, shuffle}
use hump.Deck
use hump.Model.{
  Ptr, null, Player, Store, load, modify, Hand, SidePot, ActionHistory, BettingRound, preflop, flop,
  turn, river, showdown, advance_round, big_blind,
}
use hump.Ranking.{HandRank, hand_rank_to_int, evaluate}
use hump.Pot.{is_empty, calculate_side_pots}
pub mod Actions
pub mod Rounds
pub mod Winners
mod Examples

-- `resize(n, d)`: cut off or padded.
unfoldable pub resize {ℓ} : {A : Type ℓ} → ℕ → A → List A → List A
resize zero d xs = []
resize (suc n) d [] = d ∷ resize n d []
resize (suc n) d (x ∷ xs) = x ∷ resize n d xs

-- The loops that look for the player, change the entry at its index and break.
unfoldable pub update_player {ℓ} : {A : Type ℓ} → List Ptr → Ptr → (A → A) → List A → List A
update_player [] p f xs = xs
update_player (q ∷ qs) p f [] = []
update_player (q ∷ qs) p f (x ∷ xs) = if q == p then f x ∷ xs else x ∷ update_player qs p f xs

-- `dealHoleCards`: two cards to each player.
unfoldable pub deal_hole_cards : List Ptr → Store → Deck → Result (Store × Deck)
deal_hole_cards [] st d = ok (st, d)
deal_hole_cards (p ∷ ps) st d = do
  (c1, d1) ← deal d
  (c2, d2) ← deal d1
  deal_hole_cards ps (modify (λ q. record q { hole_cards = c1 ∷ c2 ∷ [] }) p st) d2

-- The loop of `dealCommunityCards`, with the rounds left.
unfoldable pub deal_community_cards : ℕ → List Card → Deck → Result (List Card × Deck)
deal_community_cards zero cards d = ok (cards, d)
deal_community_cards (suc n) cards d = do
  (c, d') ← deal d
  deal_community_cards n (cards ++ c ∷ []) d'

-- The reset of a hand at the start, before the deal. `resize` keeps the entries that are there.
unfoldable pub reset_for_start : (List Card → List Card) → String → Hand → Deck → Ptr → Ptr → Hand
reset_for_start σ id hand deck small_blind big_blind_player = record {
  id = id;
  table = null;
  players = small_blind ∷ big_blind_player ∷ [];
  deck = shuffle σ deck;
  community_cards = [];
  pot = pos 0;
  side_pots = [];
  player_bets = resize 2 (pos 0) hand.player_bets;
  folded = resize 2 false hand.folded;
  current_betting_round = preflop;
  current_player_to_act = small_blind;
  min_raise = big_blind;
  history = [];
  winners = [];
  completed_at = 0;
}

unfoldable pub start_hand :
    (List Card → List Card) → String → Store → Hand → Deck → Ptr → Ptr → Ptr → Result (Store × Hand)
start_hand σ id st hand deck dealer small_blind big_blind_player = do
  let h = reset_for_start σ id hand deck small_blind big_blind_player
  (st', d) ← deal_hole_cards h.players st h.deck
  ok (st', record h { deck = d })

-- The vectors made as long as the players.
unfoldable pub sized : Hand → Hand
sized h = record h {
  folded = resize (length h.players) false h.folded;
  player_bets = resize (length h.players) (pos 0) h.player_bets;
}

unfoldable pub pay : Store → Hand → Ptr → ℤ → Store × Hand
pay st h p amount = (
  modify (λ q. record q { stack = q.stack -ℤ amount }) p st,
  record h {
    pot = h.pot +ℤ amount;
    player_bets = update_player h.players p (λ b. b +ℤ amount) h.player_bets;
  },
)

-- The history entry and the other player's turn.
unfoldable pub record_action : ℕ → Ptr → String → ℤ → Hand → Hand
record_action now p action amount h = record h {
  history =
      h.history ++ record { player = p; action = action; amount = amount; timestamp = now } ∷ [];
  current_player_to_act =
      if length h.players == 2
      then (if h.current_player_to_act == get_or h.players 0 null
          then get_or h.players 1 null
          else get_or h.players 0 null)
      else h.current_player_to_act;
}

-- The result, the store and the hand. A refused action leaves the vectors resized.
unfoldable pub apply_action : ℕ → Store → Hand → Ptr → String → ℤ → Bool × Store × Hand
apply_action now st hand player action amount =
    let h = sized hand in
    let stack = (load st player).stack in
    let paid = pay st h player amount in
    if player == null
    then (false, st, hand)
    else if str_eq action "fold"
    then (
      true,
      st,
      record_action now player action amount
          (record h { folded = update_player h.players player (λ _. true) h.folded }),
    )
    else if str_eq action "call"
    then (if ltb_ℤ stack amount || ltb_ℤ amount (pos 0)
        then (false, st, h)
        else (true, paid.0, record_action now player action amount paid.1))
    else if str_eq action "raise"
    then (if ltb_ℤ amount h.min_raise || ltb_ℤ stack amount || ltb_ℤ amount (pos 0)
        then (false, st, h)
        else (
          true,
          paid.0,
          record_action now player action amount (record paid.1 { min_raise = amount }),
        ))
    else (false, st, h)

-- The cards that a round brings.
abbrev pub cards_for : BettingRound → ℕ
cards_for flop = 3
cards_for turn = 1
cards_for river = 1
cards_for _ = 0

unfoldable pub advance_betting_round : Hand → Result (Hand × Bool)
advance_betting_round hand =
    let (h, advanced) = advance_round hand in
    if advanced
    then (do
      (cards, d) ← deal_community_cards (cards_for h.current_betting_round) h.community_cards h.deck
      ok (record h { community_cards = cards; deck = d }, true))
    else ok (h, false)

abbrev pub is_showdown : BettingRound → Bool
is_showdown showdown = true
is_showdown _ = false

-- The flag of the i-th player; `wild` is what a read behind the end of `folded` gives.
unfoldable pub folded_at : (ℕ → Bool) → List Bool → ℕ → Bool
folded_at wild bs i = if ltb i (length bs) then get_or bs i false else wild i

-- The loop that counts the players who have not folded, from the i-th on.
unfoldable pub active_from : (ℕ → Bool) → ℕ → List Bool → List Ptr → ℕ → ℕ
active_from wild folded_size folded [] i = 0
active_from wild folded_size folded (p ∷ ps) i =
    let rest = active_from wild folded_size folded ps (suc i) in
    if leb folded_size i || not (folded_at wild folded i) then suc rest else rest

-- Where the sizes differ, `folded_size` is set to that of the players, and the vector is read as if it
-- had that many entries.
unfoldable pub is_hand_complete : (ℕ → Bool) → Hand → Bool
is_hand_complete wild h =
    let folded_size =
      if not (length h.folded == length h.players) then length h.players else length h.folded in
    if is_showdown h.current_betting_round
    then true
    else leb (active_from wild folded_size h.folded h.players 0) 1

-- The players whose flag is missing or not set.
unfoldable pub active_players : List Ptr → List Bool → List Ptr
active_players [] bs = []
active_players (p ∷ ps) [] = p ∷ active_players ps []
active_players (p ∷ ps) (b ∷ bs) = if b then active_players ps bs else p ∷ active_players ps bs

unfoldable pub evaluations : Store → List Card → List Ptr → Result (List (Ptr × HandRank))
evaluations st community [] = ok []
evaluations st community (p ∷ ps) = do
  rank ← evaluate ((load st p).hole_cards ++ community)
  rest ← evaluations st community ps
  ok ((p, rank) ∷ rest)

-- `std::max_element`: the first of the largest.
unfoldable pub max_from : Ptr × HandRank → List (Ptr × HandRank) → Ptr
max_from best [] = best.0
max_from best (e ∷ es) =
    max_from (if ltb (hand_rank_to_int best.1) (hand_rank_to_int e.1) then e else best) es

unfoldable pub max_element : List (Ptr × HandRank) → List Ptr
max_element [] = []
max_element (e ∷ es) = max_from e es ∷ []

unfoldable pub determine_winners : Store → Hand → Result (List Ptr)
determine_winners st h =
    let active = active_players h.players h.folded in
    if is_empty h.players
    then ok []
    else if length active == 1
    then ok active
    else (do es ← evaluations st h.community_cards active; ok (max_element es))

-- `poker::calculateSidePots`.
unfoldable pub set_side_pots : Hand → Hand
set_side_pots h = record h { side_pots = calculate_side_pots h.players h.player_bets }

-- `resetHand`; σ₁ is the order of the new deck and σ₂ that of the second shuffle.
unfoldable pub reset_hand : (List Card → List Card) → (List Card → List Card) → Hand → Hand
reset_hand σ₁ σ₂ hand = record {
  id = "";
  table = null;
  players = [];
  deck = shuffle σ₂ (Deck.new σ₁);
  community_cards = [];
  pot = pos 0;
  side_pots = [];
  player_bets = [];
  folded = [];
  current_betting_round = preflop;
  current_player_to_act = null;
  min_raise = big_blind;
  history = [];
  winners = [];
  completed_at = 0;
}
