-- ===== src/Presence.antt =====
-- Lost connections: src/server/connection_manager.hpp and connection_manager.cpp, with the timers, and
-- src/server/player_state.hpp and player_state.cpp, with what they do to a player. A steady timer of
-- boost::asio is a record of its wait, which is armed until its time is over or it is cancelled. When its time is
-- over, its handler is queued on the executor, and runs later without an error, whatever is done to the timer
-- in between; the handler of a wait that is cancelled before is called with an error, on which the code does
-- nothing. When an armed wait is over, and when the executor runs the next handler, is up to the environment: `fire`
-- and `run_next`. The one thread that runs the executor takes the handlers in their order. A callback is named by
-- what it calls. The map from a player's id is an association list.
use hump.Prelude.{
  ℕ, suc, ◌+◌, Bool, true, false, not, ◌&&◌, ◌||◌, List, [], ◌∷◌, ◌++◌, ℤ, ◌==◌, if◌then◌else◌,
  String, str_eq, Option, none, some,
}
use hump.Model.{
  Ptr, null, Player, Store, load, modify, ConnectionStatus, connected, disconnected, is_connected,
}
use hump.Table.{TableManager, get_player, remove_player}
pub mod Restored
pub mod Lookup
pub mod Quiet
pub mod Timed
pub mod Timers
pub mod Late
mod Examples

-- `onGraceTimerExpired`, and the function that the game session hands in, which tells the clients.
pub data Callback : Type 0 where
  grace_timer_expired player_removed : Callback

pub record Timer : Type 0 where
  pub wait_ms : ℤ
  pub on_expiry : Callback
  pub armed : Bool

pub record PlayerTimers : Type 0 where
  pub grace_timer : Option Timer
  pub removal_timer : Option Timer

abbrev pub TimerMap : Type 0
TimerMap = List (String × PlayerTimers)

abbrev pub no_timers : PlayerTimers
no_timers = record { grace_timer = none; removal_timer = none }

unfoldable pub find_timers : TimerMap → String → Option PlayerTimers
find_timers [] id = none
find_timers ((k, t) ∷ m) id = if str_eq k id then some t else find_timers m id

-- `timers_[player_id]`: the entry, made empty where there is none.
abbrev pub timers_at : TimerMap → String → PlayerTimers
timers_at m id = elim (find_timers m id) [ none ↦ no_timers | some t ↦ t ]

unfoldable pub put_timers : TimerMap → String → PlayerTimers → TimerMap
put_timers [] id t = (id, t) ∷ []
put_timers ((k, u) ∷ m) id t = if str_eq k id then (k, t) ∷ m else (k, u) ∷ put_timers m id t

unfoldable pub erase_timers : TimerMap → String → TimerMap
erase_timers [] id = []
erase_timers ((k, u) ∷ m) id =
    let rest = erase_timers m id in if str_eq k id then rest else (k, u) ∷ rest

-- A timer set anew: its earlier wait is cancelled.
unfoldable pub start_grace_timer : TimerMap → String → ℤ → Callback → TimerMap
start_grace_timer m id grace_time_ms on_expiry = put_timers m id (record (timers_at m id) {
  grace_timer = some (record { wait_ms = grace_time_ms; on_expiry = on_expiry; armed = true });
})

unfoldable pub start_removal_timer : TimerMap → String → ℤ → Callback → TimerMap
start_removal_timer m id removal_time_ms on_expiry = put_timers m id (record (timers_at m id) {
  removal_timer = some (record { wait_ms = removal_time_ms; on_expiry = on_expiry; armed = true });
})

-- Both timers are cancelled and go with the entry. A handler that is queued already is not in the map and stays.
unfoldable pub cancel_timers : TimerMap → String → TimerMap
cancel_timers m id = erase_timers m id

abbrev is_some {ℓ} : {A : Type ℓ} → Option A → Bool
is_some none = false
is_some (some a) = true

unfoldable pub has_active_timers : TimerMap → String → Bool
has_active_timers m id = elim (find_timers m id) [
  | none ↦ false
  | some t ↦ is_some t.grace_timer || is_some t.removal_timer
]

-- A timer whose wait is cancelled.
abbrev pub cancel : Option Timer → Option Timer
cancel none = none
cancel (some t) = some (record t { armed = false })

-- The constructor, and the destructor: the timers that it cancels, and the map that it clears.
abbrev pub no_map : TimerMap
no_map = []

unfoldable pub cancel_all : TimerMap → TimerMap
cancel_all [] = []
cancel_all ((k, t) ∷ m) =
    (k, record { grace_timer = cancel t.grace_timer; removal_timer = cancel t.removal_timer })
    ∷ cancel_all m

unfoldable pub destroy : TimerMap → TimerMap × TimerMap
destroy m = (cancel_all m, [])

-- The state that the player state manager works on, with the ids of the `player_removed` messages
-- that it had sent. `queued` are the timers' handlers that wait on the executor, with the id each is bound to.
pub record PlayerStateManager : Type 0 where
  pub table_manager : TableManager
  pub timers : TimerMap
  pub grace_time_ms : ℤ
  pub removal_time_ms : ℤ
  pub removed_messages : List String
  pub queued : List (String × Callback)

abbrev pub on_store : PlayerStateManager → (Player → Player) → Ptr → PlayerStateManager
on_store s f p = record s {
  table_manager = record s.table_manager { store = modify f p s.table_manager.store };
}

unfoldable pub on_disconnect : ℕ → PlayerStateManager → Ptr → PlayerStateManager
on_disconnect now s p =
    record (on_store s
      (λ q. record q {
        connection_status = disconnected;
        disconnected_at = some now;
        is_sitting_out = false;
      })
      p) {
        timers =
            start_grace_timer s.timers (load s.table_manager.store p).id s.grace_time_ms
              grace_timer_expired;
      }

unfoldable pub on_reconnect : PlayerStateManager → Ptr → PlayerStateManager
on_reconnect s p =
    record (on_store s
      (λ q. record q {
        connection_status = connected;
        disconnected_at = none;
        is_sitting_out = false;
      })
      p) { timers = cancel_timers s.timers (load s.table_manager.store p).id }

-- The removal timer is given the session's callback, which tells the clients, and not
-- `onRemovalTimerExpired`.
unfoldable pub on_grace_timer_expired : PlayerStateManager → String → PlayerStateManager
on_grace_timer_expired s id =
    let p = get_player s.table_manager id in
    let marked = on_store s (λ q. record q { is_sitting_out = true }) p in
    record (if p == null then s else marked) {
      timers = start_removal_timer s.timers id s.removal_time_ms player_removed;
    }

-- `broadcastPlayerRemoved`, which sends its message only for a player of the table.
unfoldable pub tell_removed : PlayerStateManager → String → PlayerStateManager
tell_removed s id =
    if get_player s.table_manager id == null
    then s
    else record s { removed_messages = s.removed_messages ++ id ∷ [] }

unfoldable pub on_removal_timer_expired : PlayerStateManager → String → PlayerStateManager
on_removal_timer_expired s id =
    tell_removed (record s { table_manager = (remove_player s.table_manager id).0 }) id

unfoldable pub is_active : Player → Bool
is_active q = is_connected q.connection_status && not q.is_sitting_out

unfoldable pub call : Callback → PlayerStateManager → String → PlayerStateManager
call grace_timer_expired s id = on_grace_timer_expired s id
call player_removed s id = tell_removed s id

-- An armed timer of a player fires: its wait is over, and its handler is queued. `t` is the timer in the map,
-- and `m` the map in which it is marked as over.
unfoldable pub fire : PlayerStateManager → String → TimerMap → Option Timer → PlayerStateManager
fire s id m none = s
fire s id m (some t) =
    if t.armed then record s { timers = m; queued = s.queued ++ (id, t.on_expiry) ∷ [] } else s

abbrev pub over : Option Timer → Option Timer
over none = none
over (some t) = some (record t { armed = false })

unfoldable pub fire_grace : PlayerStateManager → String → PlayerStateManager
fire_grace s id =
    let t = timers_at s.timers id in
    fire s id (put_timers s.timers id (record t { grace_timer = over t.grace_timer })) t.grace_timer

unfoldable pub fire_removal : PlayerStateManager → String → PlayerStateManager
fire_removal s id =
    let t = timers_at s.timers id in
    fire s id (put_timers s.timers id (record t { removal_timer = over t.removal_timer }))
      t.removal_timer

-- The executor runs the handler at the head of its queue, without an error.
unfoldable pub run_from : PlayerStateManager → List (String × Callback) → PlayerStateManager
run_from s [] = s
run_from s ((id, c) ∷ rest) = call c (record s { queued = rest }) id

unfoldable pub run_next : PlayerStateManager → PlayerStateManager
unfolding run_from
run_next s = run_from s s.queued

-- What can happen to a player's connection.
pub data Event : Type 0 where
  disconnects : ℕ → Ptr → Event
  reconnects : Ptr → Event
  grace_fires removal_fires : String → Event
  handler_runs : Event

unfoldable pub step : PlayerStateManager → Event → PlayerStateManager
step s (disconnects now p) = on_disconnect now s p
step s (reconnects p) = on_reconnect s p
step s (grace_fires id) = fire_grace s id
step s (removal_fires id) = fire_removal s id
step s handler_runs = run_next s

unfoldable pub run : PlayerStateManager → List Event → PlayerStateManager
run s [] = s
run s (e ∷ es) = run (step s e) es
