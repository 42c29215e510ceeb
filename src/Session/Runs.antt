-- ===== src/Session/Runs.antt =====
-- The life of a game session: src/server/game_session.cpp as src/server/websocket_session.cpp and the timers call
-- it, in any order.
use hump.Prelude.{ℕ, ◌≡◌, Bool, false, List, [], ◌∷◌, none, ℤ, ◌==◌, if◌then◌else◌, String}
use hump.Json.{Json}
use hump.Presence.{
  Callback, grace_timer_expired, player_removed, fire_grace, fire_removal, run_next,
}
use hump.Session.{GameSession, Env, session_of, player_of, on_disconnect, send_welcome}
use hump.Session.Broadcasts.{broadcast_player_removed}
use hump.Session.Dispatch.{handle_message}
use hump.Table
use hump.Table.{TableManager, get_player}

-- A new session, of a table with its id and the two times in ms.
abbrev pub new : String → ℤ → ℤ → GameSession
new id grace_time_ms removal_time_ms = record {
  players = record {
    table_manager = Table.new id;
    timers = [];
    grace_time_ms = grace_time_ms;
    removal_time_ms = removal_time_ms;
    removed_messages = [];
    queued = [];
  };
  player_sessions = [];
  session_to_player = [];
  disconnect_grace_time_ms = grace_time_ms;
  outbox = [];
}

-- The executor runs the timer handler at the head of its queue. A removal timer's tells the clients.
abbrev pub handler_run : GameSession → List (String × Callback) → GameSession
handler_run g [] = g
handler_run g ((id, grace_timer_expired) ∷ rest) = record g { players = run_next g.players }
handler_run g ((id, player_removed) ∷ rest) =
    broadcast_player_removed (record g { players = run_next g.players }) id

-- What a read ends with: an error, the closing of the connection too, an empty text, or another.
pub data Read (A : Type 0) : Type 0 where
  failed empty : Read A
  received : A → Read A

-- `on_accept` and `on_read` of a connection, as far as the game session sees them.
unfoldable pub on_accept : Env → Bool → GameSession → ℕ → GameSession
on_accept env ec g session = if ec then g else send_welcome env g session

unfoldable pub on_read : (J : Json) → Env → GameSession → Read J.Text → ℕ → GameSession
on_read J env g failed session = on_disconnect env.now g session
on_read J env g empty session = g
on_read J env g (received message) session = handle_message J env g message session

-- What can happen: a connection is accepted, under a new player's id, a read from one ends, a timer
-- fires, and the handler of one runs.
pub data Step (J : Json) : GameSession → GameSession → Type 0 where
  accepts :
      (env : Env) (ec : Bool) {g : GameSession} (session : ℕ)
      → (session == 0) ≡ false
      → session_of g env.player_id ≡ none
      → player_of g session ≡ none
      → Step J g (on_accept env ec g session)
  reads :
      (env : Env) {g : GameSession} (r : Read J.Text) (session : ℕ)
      → (session == 0) ≡ false
      → Step J g (on_read J env g r session)
  grace_fires :
      {g : GameSession} (id : String) → Step J g (record g { players = fire_grace g.players id })
  removal_fires :
      {g : GameSession} (id : String) → Step J g (record g { players = fire_removal g.players id })
  handler_runs : {g : GameSession} → Step J g (handler_run g g.players.queued)

pub data Reachable (J : Json) : GameSession → GameSession → Type 0 where
  here : {g : GameSession} → Reachable J g g
  after : {g h k : GameSession} → Reachable J g h → Step J h k → Reachable J g k
