-- ===== src/Session/Join.antt =====
-- `handleJoin` of src/server/game_session.cpp, in the parts that its returns make.
use hump.Prelude.{
  ℕ, Bool, false, not, ◌&&◌, [], ◌∷◌, ◌++◌, Option, none, some, ℤ, ◌==◌, length, if◌then◌else◌,
  String, str_eq, ok,
}
use hump.Json.{Json, string_at}
use hump.Model.{Ptr, null, Player, load, connected, is_connected, starting_stack, seat_1, seat_2}
use hump.Presence
use hump.Table.{TableManager, get_player, assign_seat, start_hand, ready_for_hand}
use hump.Session.{
  GameSession, Env, error_response, join_ack, Handled, returned, with_value, manager, with_manager,
  erase_key, register_session, session_of, player_of, send_json,
}
use hump.Session.Broadcasts.{broadcast_hand_started, broadcast_player_reconnected}

-- The session's old player is taken out of the maps.
unfoldable pub unbind : GameSession → ℕ → Option String → GameSession
unbind g session none = g
unbind g session (some old) = record g {
  player_sessions = erase_key str_eq g.player_sessions old;
  session_to_player = erase_key (λ a b. a == b) g.session_to_player session;
}

-- The session is entered for the player who is back.
unfoldable pub rebind : GameSession → String → ℕ → GameSession
rebind g id session = register_session (unbind g session (player_of g session)) id session

-- The player has a session, and it is another one.
abbrev pub is_elsewhere : Option ℕ → ℕ → Bool
is_elsewhere none session = false
is_elsewhere (some s) session = not (s == session)

-- The timers are cancelled, and cancelled again by `onReconnect`.
abbrev pub reconnected : GameSession → String → Ptr → GameSession
reconnected g id p =
    let s = g.players in
    record g {
      players = Presence.on_reconnect (record s { timers = Presence.cancel_timers s.timers id }) p;
    }

-- The branch of a player who was gone.
unfoldable pub rejoin : GameSession → ℕ → String → Ptr → GameSession
rejoin g session id p =
    let h = broadcast_player_reconnected (reconnected (rebind g id session) id p) id in
    if is_elsewhere (session_of g id) session
    then send_json g session
        (error_response "player_already_connected" "Player already connected with another session")
    else send_json h session (join_ack id (load (manager h).store p).seat)

-- The first empty seat.
abbrev pub empty_seat : TableManager → Option ℤ
empty_seat m =
    if m.table.seat_1 == null
    then some seat_1
    else if m.table.seat_2 == null
    then some seat_2
    else none

abbrev pub new_player : String → String → ℤ → Player
new_player id name seat = record {
  id = id;
  name = name;
  stack = starting_stack;
  seat = seat;
  hole_cards = [];
  connection_status = connected;
  last_action_timestamp = 0;
  disconnected_at = none;
  is_sitting_out = false;
}

-- The new object in the store; its pointer is the new length.
abbrev pub allocate : TableManager → Player → TableManager
allocate m q = record m { store = m.store ++ q ∷ [] }

unfoldable pub start_if_ready : Env → GameSession → Handled
start_if_ready env g =
    if not (ready_for_hand (manager g))
    then returned g
    else with_value g (start_hand env.first_order env.second_order env.hand_id (manager g)) λ r.
      returned (if r.1 then broadcast_hand_started (with_manager g r.0) else with_manager g r.0)

unfoldable pub seat_player : Env → GameSession → ℕ → String → String → ℤ → Handled
seat_player env g session id name seat =
    let m = allocate (manager g) (new_player id name seat) in
    let r = assign_seat m (length m.store) seat in
    if not r.1
    then returned (
        send_json (with_manager g r.0) session
          (error_response "seat_unavailable" "Seat assignment failed"))
    else start_if_ready env (send_json (with_manager g r.0) session (join_ack id seat))

unfoldable pub join_as : Env → GameSession → ℕ → String → Option String → Handled
join_as env g session name none =
    returned (send_json g session (error_response "unauthorized" "Player not registered"))
join_as env g session name (some id) =
    let p = get_player (manager g) id in
    if not (p == null)
    then returned (send_json g session (join_ack id (load (manager g).store p).seat))
    else elim (empty_seat (manager g)) [
      | none ↦
          returned (send_json g session (error_response "table_full" "No empty seats available"))
      | some seat ↦ seat_player env g session id name seat
    ]

-- From where the fields are read; `provided` is the empty text where the message has no id.
unfoldable pub join : Env → GameSession → ℕ → String → String → Handled
join env g session name provided =
    let p = get_player (manager g) provided in
    if not (str_eq provided "")
      && not (p == null)
      && not (is_connected (load (manager g).store p).connection_status)
    then returned (rejoin g session provided p)
    else join_as env g session name (player_of g session)

unfoldable pub handle_join : (J : Json) → Env → GameSession → J.Value → ℕ → Handled
handle_join J env g payload session =
    if session == 0
    then returned g
    else if not (J.contains payload "name")
    then returned (send_json g session (error_response "invalid_input" "Missing 'name' field"))
    else with_value g (string_at J payload "name") λ name.
      if str_eq name ""
      then returned
          (send_json g session (error_response "invalid_input" "Player name cannot be empty"))
      else with_value g
          (if J.contains payload "player_id" then string_at J payload "player_id" else ok "")
          λ provided. join env g session name provided
