-- ===== src/Model.antt =====
-- The shared data: src/core/models/player.hpp, table.hpp and hand.hpp, and src/common/constants.hpp.
-- Players are objects on a store that the table, the hand and the server's lists point into. A
-- pointer is a number: 0 is null, and n + 1 is the n-th player that was allocated. Addresses are never
-- used twice, and a player that nobody owns any more keeps its last state in the store. A load
-- through a pointer that is not live is undefined in C++ and gives `no_player` here; the theorems
-- that need it say that their pointers are live.
use hump.Prelude.{
  ℕ, zero, suc, ◌≤◌, ◌<◌, Bool, true, false, not, ◌&&◌, ◌||◌, List, [], ◌∷◌, map, Option, none,
  some, String, ℤ, pos, ◌==ℤ◌, leb_ℤ, ltb_ℤ, ◌==◌, leb, length, get_or, if◌then◌else◌, sum,
}
use hump.Card.{Card}
use hump.Deck.{Deck}
pub mod Store
pub mod Samples

-- constants.hpp, and the two constants of player.hpp.
abbrev pub small_blind : ℤ
small_blind = pos 2

abbrev pub big_blind : ℤ
big_blind = pos 4

abbrev pub starting_stack : ℤ
starting_stack = pos 400

abbrev pub default_dealer_position : ℤ
default_dealer_position = pos 0

abbrev pub seat_1 : ℤ
seat_1 = pos 0

abbrev pub seat_2 : ℤ
seat_2 = pos 1

abbrev pub target_stack : ℤ
target_stack = pos 400

abbrev pub top_up_threshold : ℤ
top_up_threshold = pos 20

abbrev pub Ptr : Type 0
Ptr = ℕ

abbrev pub null : Ptr
null = 0

pub data ConnectionStatus : Type 0 where
  connected disconnected reconnecting : ConnectionStatus

abbrev pub is_connected : ConnectionStatus → Bool
is_connected connected = true
is_connected _ = false

pub record Player : Type 0 where
  pub id : String
  pub name : String
  pub stack : ℤ
  pub seat : ℤ
  pub hole_cards : List Card
  pub connection_status : ConnectionStatus
  pub last_action_timestamp : ℕ
  pub disconnected_at : Option ℕ
  pub is_sitting_out : Bool

-- The methods of `Player`.
unfoldable pub is_valid_player : Player → Bool
is_valid_player p =
    leb_ℤ (pos 0) p.stack
    && (p.seat ==ℤ seat_1 || p.seat ==ℤ seat_2)
    && (length p.hole_cards == 0 || length p.hole_cards == 2)

unfoldable pub can_act_player : Player → Bool
can_act_player p = is_connected p.connection_status && not p.is_sitting_out

unfoldable pub needs_top_up : Player → Bool
needs_top_up p = ltb_ℤ p.stack top_up_threshold

unfoldable pub top_up : Player → Player
unfolding needs_top_up
top_up p = if needs_top_up p then record p { stack = target_stack } else p

pub data BettingRound : Type 0 where
  preflop flop turn river showdown : BettingRound

pub record ActionHistory : Type 0 where
  pub player : Ptr
  pub action : String
  pub amount : ℤ
  pub timestamp : ℕ

pub record SidePot : Type 0 where
  pub amount : ℤ
  pub eligible_players : List Ptr

pub record Hand : Type 0 where
  pub id : String
  pub table : Ptr
  pub players : List Ptr
  pub deck : Deck
  pub community_cards : List Card
  pub pot : ℤ
  pub side_pots : List SidePot
  pub player_bets : List ℤ
  pub folded : List Bool
  pub current_betting_round : BettingRound
  pub current_player_to_act : Ptr
  pub min_raise : ℤ
  pub history : List ActionHistory
  pub winners : List Ptr
  pub completed_at : ℕ

-- The methods of `Hand`.
unfoldable pub is_valid_hand : Hand → Bool
is_valid_hand h =
    length h.players == 2 && leb (length h.community_cards) 5 && leb_ℤ (pos 4) h.min_raise

unfoldable pub is_betting_round_complete : Hand → Bool
is_betting_round_complete h = false

-- The next round, or none after the last.
abbrev pub next_round : BettingRound → Option BettingRound
next_round preflop = some flop
next_round flop = some turn
next_round turn = some river
next_round river = some showdown
next_round showdown = none

unfoldable pub advance_round : Hand → Hand × Bool
advance_round h = elim (next_round h.current_betting_round) [
  | none ↦ (h, false)
  | some r ↦ (record h { current_betting_round = r }, true)
]

pub data TableState : Type 0 where
  waiting_for_players hand_in_progress hand_complete : TableState

abbrev pub is_waiting : TableState → Bool
is_waiting waiting_for_players = true
is_waiting _ = false

-- The hand that `current_hand` points to stands in the pointer's place: it is the one that the table
-- manager owns, and the two are set and cleared together.
pub record Table : Type 0 where
  pub id : String
  pub seat_1 : Ptr
  pub seat_2 : Ptr
  pub current_hand : Option Hand
  pub pot : ℤ
  pub side_pots : List SidePot
  pub community_cards : List Card
  pub dealer_button_position : ℤ
  pub state : TableState

-- The methods of `Table`.
unfoldable pub is_valid_table : Table → Bool
is_valid_table t =
    not (t.seat_1 == null)
    && not (t.seat_2 == null)
    && leb (length t.community_cards) 5
    && (t.dealer_button_position ==ℤ pos 0 || t.dealer_button_position ==ℤ pos 1)

unfoldable pub is_ready_for_hand : Table → Bool
is_ready_for_hand t = is_waiting t.state && not (t.seat_1 == null) && not (t.seat_2 == null)

abbrev pub Store : Type 0
Store = List Player

abbrev pub no_player : Player
no_player = record {
  id = "";
  name = "";
  stack = pos 0;
  seat = pos 0;
  hole_cards = [];
  connection_status = disconnected;
  last_action_timestamp = 0;
  disconnected_at = none;
  is_sitting_out = false;
}

-- `*p`, and an assignment to the object that `p` points to.
unfoldable pub load : Store → Ptr → Player
load st zero = no_player
load [] (suc n) = no_player
load (q ∷ st) (suc zero) = q
load (q ∷ st) (suc (suc n)) = load st (suc n)

unfoldable pub modify : (Player → Player) → Ptr → Store → Store
modify f zero st = st
modify f (suc n) [] = []
modify f (suc zero) (q ∷ st) = f q ∷ st
modify f (suc (suc n)) (q ∷ st) = q ∷ modify f (suc n) st
