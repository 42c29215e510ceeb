-- ===== src/Table.antt =====
-- The table manager: src/server/table_manager.hpp and src/server/table_manager.cpp. `players_` is the list
-- of the pointers that it owns, in the order of joining. `unique_ptr<Hand> current_hand_` and
-- `table_.current_hand`, which are set and cleared together, are one field, `current_hand` of the table.
-- `hand->deck.empty()` in `dealCommunityCards` names a method that `Deck` does not declare; it is read as
-- `size() == 0`.
use hump.Prelude.{
  ℕ, zero, suc, ◌+◌, Bool, true, false, not, ◌&&◌, ◌||◌, List, [], ◌∷◌, ◌++◌, ℤ, pos, ◌+ℤ◌, ◌==ℤ◌,
  ◌==◌, length, if◌then◌else◌, String, str_eq, Option, none, some, Result, ok, err, ◌>>=◌, rem,
}
use hump.Card.{Card}
use hump.Deck
use hump.Deck.{Deck, deal, shuffle}
use hump.Model.{
  Ptr, null, Player, Store, load, modify, Hand, Table, TableState, waiting_for_players,
  hand_in_progress, BettingRound, preflop, flop, turn, river, showdown, is_ready_for_hand,
  advance_round, top_up, seat_1, seat_2, default_dealer_position, big_blind,
}
use hump.Hand.{deal_hole_cards, determine_winners, cards_for}
use hump.Pot.{distribute_pot}
use hump.Action.{validate_action, apply_action}
pub mod Play
pub mod Start
pub mod Faces
pub mod Finish
pub mod Seats
pub mod Steady
pub mod Ownership
pub mod Accepted
mod Examples

pub record TableManager : Type 0 where
  pub table : Table
  pub players : List Ptr
  pub store : Store

-- `TableManager()`.
unfoldable pub new : String → TableManager
new id = record {
  table = record {
    id = id;
    seat_1 = null;
    seat_2 = null;
    current_hand = none;
    pot = pos 0;
    side_pots = [];
    community_cards = [];
    dealer_button_position = default_dealer_position;
    state = waiting_for_players;
  };
  players = [];
  store = [];
}

-- `find_if` by the player's id; null where there is none.
unfoldable pub find_player : Store → List Ptr → String → Ptr
find_player st [] player_id = null
find_player st (p ∷ ps) player_id =
    if str_eq (load st p).id player_id then p else find_player st ps player_id

unfoldable pub get_player : TableManager → String → Ptr
get_player m player_id = find_player m.store m.players player_id

-- `getTableState`, `getCurrentHand` and `isReadyForHand`.
unfoldable pub get_table_state : TableManager → TableState
get_table_state m = m.table.state

unfoldable pub get_current_hand : TableManager → Option Hand
get_current_hand m = m.table.current_hand

unfoldable pub ready_for_hand : TableManager → Bool
ready_for_hand m = is_ready_for_hand m.table

-- The object that `player` points to is in the store already.
unfoldable pub assign_seat : TableManager → Ptr → ℤ → TableManager × Bool
assign_seat m player seat =
    let target = if seat ==ℤ seat_1 then m.table.seat_1 else m.table.seat_2 in
    let known = find_player m.store m.players (load m.store player).id in
    let table =
      if seat ==ℤ seat_1
      then record m.table { seat_1 = player }
      else record m.table { seat_2 = player } in
    if not (seat ==ℤ seat_1) && not (seat ==ℤ seat_2)
    then (m, false)
    else if not (target == null)
    then (m, false)
    else if not (known == null)
    then (m, false)
    else (
      record {
        table = table;
        players = m.players ++ player ∷ [];
        store = modify (λ q. record q { seat = seat }) player m.store;
      },
      true,
    )

-- `players_.erase(it)`: the first entry that is the pointer.
unfoldable pub erase : List Ptr → Ptr → List Ptr
erase [] p = []
erase (q ∷ qs) p = if q == p then qs else q ∷ erase qs p

unfoldable pub remove_player : TableManager → String → TableManager × Bool
remove_player m player_id =
    let player = get_player m player_id in
    let table =
      if m.table.seat_1 == player
      then record m.table { seat_1 = null }
      else if m.table.seat_2 == player
      then record m.table { seat_2 = null }
      else m.table in
    if player == null
    then (m, false)
    else (record m { table = table; players = erase m.players player }, true)

-- The hand as `startHand` builds it. σ₁ and σ₂ are the orders that `Deck()` and the shuffle behind it
-- make.
unfoldable pub new_hand : (List Card → List Card) → (List Card → List Card) → String → Table → Hand
new_hand σ₁ σ₂ id t = record {
  id = id;
  table = 1;
  players = t.seat_1 ∷ t.seat_2 ∷ [];
  deck = shuffle σ₂ (Deck.new σ₁);
  community_cards = [];
  pot = pos 0;
  side_pots = [];
  player_bets = [];
  folded = [];
  current_betting_round = preflop;
  current_player_to_act = if t.dealer_button_position ==ℤ pos 0 then t.seat_2 else t.seat_1;
  min_raise = big_blind;
  history = [];
  winners = [];
  completed_at = 0;
}

-- What `startHand` does with the hand pointer that it finds. The hand is copied into the table before the
-- hole cards are dealt from the deck of the local one.
unfoldable pub start_on : TableManager → Hand → Option Hand → Result (TableManager × Bool)
start_on m hand (some h) = ok (m, false)
start_on m hand none = do
  (st, d) ← deal_hole_cards hand.players m.store hand.deck
  ok (
    record m {
      table = record m.table {
        current_hand = some hand;
        state = hand_in_progress;
        community_cards = [];
        pot = pos 0;
      };
      store = st;
    },
    true,
  )

unfoldable pub start_hand :
    (List Card → List Card)
    → (List Card → List Card)
    → String
    → TableManager
    → Result (TableManager × Bool)
start_hand σ₁ σ₂ id m =
    if not (is_ready_for_hand m.table)
    then ok (m, false)
    else start_on m (new_hand σ₁ σ₂ id m.table) m.table.current_hand

-- The loop that tops the players up.
unfoldable pub top_up_all : List Ptr → Store → Store
top_up_all [] st = st
top_up_all (p ∷ ps) st = top_up_all ps (modify top_up p st)

-- The table and the players when the pots are paid.
unfoldable pub close_hand : TableManager → Store → TableManager
close_hand m st = record {
  table = record m.table {
    pot = pos 0;
    current_hand = none;
    state = waiting_for_players;
    community_cards = [];
    dealer_button_position = rem (m.table.dealer_button_position +ℤ pos 1) 2;
  };
  players = m.players;
  store = top_up_all m.players st;
}

-- The hand's own last fields, the winners and the time, go with the hand at the end.
unfoldable pub end_of : TableManager → Option Hand → Result TableManager
end_of m none = ok m
end_of m (some hand) = do
  winners ← determine_winners m.store hand
  ok (close_hand m (distribute_pot m.store (record hand { winners = winners }) winners).0)

unfoldable pub end_hand : TableManager → Result TableManager
end_hand m = end_of m m.table.current_hand

unfoldable pub process_with :
    ℕ → TableManager → Ptr → String → ℤ → Option Hand → TableManager × Bool
process_with now m player action amount none = (m, false)
process_with now m player action amount (some hand) =
    let (done, st, h) = apply_action now m.store hand player action amount in
    if player == null
    then (m, false)
    else if not (validate_action m.store hand player action amount)
    then (m, false)
    else if not done
    then (record m { table = record m.table { current_hand = some h }; store = st }, false)
    else (
      record m { table = record m.table { current_hand = some h; pot = h.pot }; store = st },
      true,
    )

unfoldable pub process_player_action : ℕ → TableManager → String → String → ℤ → TableManager × Bool
process_player_action now m player_id action amount =
    process_with now m (get_player m player_id) action amount m.table.current_hand

-- The loop of `dealCommunityCards`: it stops where the deck is empty, so no deal throws.
unfoldable pub deal_loop : ℕ → Hand → List Card → Hand × List Card
deal_loop zero hand cards = (hand, cards)
deal_loop (suc n) hand cards =
    if Deck.size hand.deck == 0 then (hand, cards) else elim (deal hand.deck) [
      | err e ↦ (hand, cards)
      | ok (c, d) ↦
          deal_loop n (record hand { deck = d; community_cards = hand.community_cards ++ c ∷ [] })
            (cards ++ c ∷ [])
    ]

unfoldable pub deal_on : TableManager → Option Hand → TableManager
deal_on m none = m
deal_on m (some hand) =
    let (h, cards) =
      deal_loop (cards_for hand.current_betting_round) hand m.table.community_cards in
    record m { table = record m.table { current_hand = some h; community_cards = cards } }

unfoldable pub deal_community_cards : TableManager → TableManager
deal_community_cards m = deal_on m m.table.current_hand

unfoldable pub advance_on : TableManager → Option Hand → TableManager
advance_on m none = m
advance_on m (some hand) =
    let (h, advanced) = advance_round hand in
    let m' = record m { table = record m.table { current_hand = some h } } in
    if advanced then deal_community_cards m' else m'

unfoldable pub advance_betting_round : TableManager → TableManager
advance_betting_round m = advance_on m m.table.current_hand
