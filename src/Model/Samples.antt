-- ===== src/Model/Samples.antt =====
-- Two players and a hand between them, for the tests.
use hump.Prelude.{ℕ, false, List, [], ◌∷◌, none, String, ℤ, pos}
use hump.Card.{Card}
use hump.Model.{Player, Store, Hand, preflop, connected}

abbrev pub a_player : String → ℤ → ℤ → List Card → Player
a_player id stack seat cards = record {
  id = id;
  name = id;
  stack = stack;
  seat = seat;
  hole_cards = cards;
  connection_status = connected;
  last_action_timestamp = 0;
  disconnected_at = none;
  is_sitting_out = false;
}

abbrev pub a_card : ℕ → Card
a_card v = record { value = v }

-- Ann holds two aces, and Bob a two and a seven.
abbrev pub two_players : Store
two_players =
    a_player "ann" (pos 400) (pos 0) (a_card 48 ∷ a_card 49 ∷ [])
    ∷ a_player "bob" (pos 396) (pos 1) (a_card 0 ∷ a_card 21 ∷ [])
    ∷ []

abbrev pub a_board : List Card
a_board = a_card 50 ∷ a_card 8 ∷ a_card 13 ∷ a_card 30 ∷ a_card 40 ∷ []

-- Bob has bet 4, and it is Ann's turn.
abbrev pub a_hand : Hand
a_hand = record {
  id = "h";
  table = 1;
  players = 1 ∷ 2 ∷ [];
  deck = record { cards = a_board; next_card = 0 };
  community_cards = [];
  pot = pos 4;
  side_pots = [];
  player_bets = pos 0 ∷ pos 4 ∷ [];
  folded = false ∷ false ∷ [];
  current_betting_round = preflop;
  current_player_to_act = 1;
  min_raise = pos 4;
  history = [];
  winners = [];
  completed_at = 0;
}
