-- ===== src/Session.antt =====
-- The game session: src/server/game_session.hpp and src/server/game_session.cpp. Here are the messages, the maps
-- between players and connections, and the handlers that need no message body. A `shared_ptr<WebSocketSession>` is a number, 0 for
-- null; `outbox` is what has been handed to `WebSocketSession::send`, to whom and in what order. A map is an
-- association list, and a broadcast goes through it in its order, which the code leaves open.
use hump.Prelude.{
  ℕ, Bool, true, false, not, List, [], ◌∷◌, ◌++◌, map, Option, none, some, ℤ, ◌==◌, if◌then◌else◌,
  String, str_eq, Error, Result, ok, err,
}
use hump.Card.{Card}
use hump.Model.{Ptr, null, load, modify}
use hump.Model
use hump.Table.{TableManager, get_player}
use hump.Presence.{PlayerStateManager}
use hump.Presence
pub mod Broadcasts
pub mod Join
pub mod Act
pub mod Dispatch
pub mod Messages
pub mod Outbox
pub mod Told
pub mod Ended
pub mod Maps
pub mod Rebind
pub mod Return
pub mod Answered
pub mod Joined
pub mod Acted
pub mod Service
pub mod Played
pub mod Refused
pub mod Runs
pub mod Lost
pub mod Reached
pub mod TopUp
pub mod Shares
pub mod Winnings
mod Examples

-- The payloads that are made from the state of a hand.
pub record StartedPlayer : Type 0 where
  pub player_id : String
  pub stack : ℤ
  pub hole_cards : List Card

pub record HandStarted : Type 0 where
  pub hand_id : String
  pub players : List StartedPlayer
  pub dealer_position : ℤ
  pub current_player_to_act : String
  pub min_raise : ℤ

pub record ActionRequest : Type 0 where
  pub hand_id : String
  pub call_amount : ℤ
  pub min_raise : ℤ
  pub max_raise : ℤ

pub record ActionApplied : Type 0 where
  pub hand_id : String
  pub player_id : String
  pub action : String
  pub amount : ℤ
  pub new_stack : ℤ
  pub pot : ℤ
  pub next_player_to_act : String

-- The winners with their amounts, which make both `winners` and `pot_distribution`, and the stacks.
pub record HandCompleted : Type 0 where
  pub hand_id : String
  pub winners : List (String × ℤ)
  pub updated_stacks : List (String × ℤ)

-- The messages, by their type and payload.
pub data Reply : Type 0 where
  error_response : String → String → Reply
  pong : Reply
  top_up_ack : String → ℤ → Reply
  player_disconnected : String → ℤ → Reply
  welcome : String → Reply
  join_ack : String → ℤ → Reply
  hand_started : HandStarted → Reply
  action_request : ActionRequest → Reply
  action_applied : ActionApplied → Reply
  hand_completed : HandCompleted → Reply
  player_removed : String → ℤ → Reply
  player_reconnected : String → Reply

-- What comes from outside the program at a call: the time, what is read behind the end of a vector, the two
-- shuffles, and the identifiers that are generated.
pub record Env : Type 0 where
  pub now : ℕ
  pub wild : ℕ → Bool
  pub first_order : List Card → List Card
  pub second_order : List Card → List Card
  pub hand_id : String
  pub player_id : String

pub record GameSession : Type 0 where
  pub players : PlayerStateManager
  pub player_sessions : List (String × ℕ)
  pub session_to_player : List (ℕ × String)
  pub disconnect_grace_time_ms : ℤ
  pub outbox : List (ℕ × Reply)

-- `find`, `erase` and `operator[]` of a map, by the test of its keys.
unfoldable pub find : {K V : Type 0} → (K → K → Bool) → List (K × V) → K → Option V
find eq [] k = none
find eq ((j, v) ∷ m) k = if eq j k then some v else find eq m k

unfoldable pub erase_key : {K V : Type 0} → (K → K → Bool) → List (K × V) → K → List (K × V)
erase_key eq [] k = []
erase_key eq ((j, v) ∷ m) k = if eq j k then erase_key eq m k else (j, v) ∷ erase_key eq m k

unfoldable pub put : {K V : Type 0} → (K → K → Bool) → List (K × V) → K → V → List (K × V)
put eq m k v = (k, v) ∷ erase_key eq m k

abbrev pub session_of : GameSession → String → Option ℕ
session_of g id = find str_eq g.player_sessions id

abbrev pub player_of : GameSession → ℕ → Option String
player_of g session = find (λ a b. a == b) g.session_to_player session

unfoldable pub send_json : GameSession → ℕ → Reply → GameSession
send_json g session reply =
    if session == 0 then g else record g { outbox = g.outbox ++ (session, reply) ∷ [] }

-- The loop over the copied sessions.
unfoldable pub send_all : GameSession → List (String × ℕ) → Reply → GameSession
send_all g [] reply = g
send_all g ((id, session) ∷ rest) reply = send_all (send_json g session reply) rest reply

unfoldable pub broadcast_json : GameSession → Reply → GameSession
broadcast_json g reply = send_all g g.player_sessions reply

unfoldable pub register_session : GameSession → String → ℕ → GameSession
register_session g id session = record g {
  player_sessions = put str_eq g.player_sessions id session;
  session_to_player = put (λ a b. a == b) g.session_to_player session id;
}

-- `removeSession` with the entry that it found.
unfoldable pub remove_found : GameSession → String → Option ℕ → GameSession
remove_found g id none = g
remove_found g id (some session) = record g {
  player_sessions = erase_key str_eq g.player_sessions id;
  session_to_player = erase_key (λ a b. a == b) g.session_to_player session;
}

unfoldable pub remove_session : GameSession → String → GameSession
remove_session g id = remove_found g id (session_of g id)

-- `onDisconnect` from the point where the player's id is known.
unfoldable pub disconnect_player : ℕ → GameSession → String → GameSession
disconnect_player now g id =
    let p = get_player g.players.table_manager id in
    if p == null
    then g
    else broadcast_json (record g { players = Presence.on_disconnect now g.players p })
        (player_disconnected id g.disconnect_grace_time_ms)

unfoldable pub disconnect_found : ℕ → GameSession → Option String → GameSession
disconnect_found now g none = g
disconnect_found now g (some id) = disconnect_player now (remove_session g id) id

unfoldable pub on_disconnect : ℕ → GameSession → ℕ → GameSession
on_disconnect now g session =
    if session == 0 then g else disconnect_found now g (player_of g session)

unfoldable pub handle_ping : GameSession → ℕ → GameSession
handle_ping g session = if session == 0 then g else send_json g session pong

-- `player->topUp()` on the table's player.
abbrev pub topped_up : GameSession → Ptr → GameSession
topped_up g p = record g {
  players = record g.players {
    table_manager = record g.players.table_manager {
      store = modify Model.top_up p g.players.table_manager.store;
    };
  };
}

unfoldable pub top_up_player : GameSession → ℕ → String → GameSession
top_up_player g session id =
    let p = get_player g.players.table_manager id in
    let h = topped_up g p in
    if p == null
    then send_json g session (error_response "player_not_found" "Player not seated at table")
    else send_json h session (top_up_ack id (load h.players.table_manager.store p).stack)

unfoldable pub top_up_found : GameSession → ℕ → Option String → GameSession
top_up_found g session none =
    send_json g session (error_response "unauthorized" "Player not registered")
top_up_found g session (some id) = top_up_player g session id

unfoldable pub handle_top_up : GameSession → ℕ → GameSession
handle_top_up g session = if session == 0 then g else top_up_found g session (player_of g session)

-- How a handler ends: with its last state, or with an exception and the state that it leaves behind.
pub data Handled : Type 0 where
  returned : GameSession → Handled
  thrown : Error → GameSession → Handled

abbrev pub state : Handled → GameSession
state (returned g) = g
state (thrown e g) = g

-- A value that may be thrown instead, before anything is changed.
abbrev pub with_value {ℓ} : {A : Type ℓ} → GameSession → Result A → (A → Handled) → Handled
with_value g (ok a) rest = rest a
with_value g (err e) rest = thrown e g

abbrev pub manager : GameSession → TableManager
manager g = g.players.table_manager

abbrev pub with_manager : GameSession → TableManager → GameSession
with_manager g m = record g { players = record g.players { table_manager = m } }

-- `sendWelcome`.
unfoldable pub send_welcome : Env → GameSession → ℕ → GameSession
send_welcome env g session =
    if session == 0
    then g
    else send_json (register_session g env.player_id session) session (welcome env.player_id)
