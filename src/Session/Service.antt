-- ===== src/Session/Service.antt =====
-- `handleTopUp`, `handlePing` and `handleMessage`: what they answer, and what they do to the maps and to the
-- players.
use hump.Prelude.{
  ℕ, refl, ◌≡◌, false, not, ◌||◌, List, Option, none, some, ◌==◌, Bool-cases, inl, inr,
  if◌then◌else◌, String, str_eq, json_exception, invalid_argument, out_of_range, runtime_error,
  bad_weak_ptr, Result, ok,
}
use hump.Json.{Json, string_at, int_at}
use hump.Model.{Ptr, null, modify, top_up}
use hump.Model.Store.{length-modify}
use hump.Session.{
  GameSession, Env, Reply, pong, Handled, returned, thrown, manager, player_of, handle_ping,
  topped_up, top_up_player, top_up_found, handle_top_up,
}
use hump.Session.Act.{handle_action}
use hump.Session.Answered.{
  IsSound, Answered, IsHandled, IsSound-with_manager, Answered-send, Answered-prefix,
  with_value-IsHandled, guard-IsHandled,
}
use hump.Session.Acted.{act-IsHandled}
use hump.Session.Joined.{join-IsHandled}
use hump.Session.Dispatch.{dispatch, handle_parsed, caught, handle_message}
use hump.Session.Join.{handle_join}
use hump.Table.Faces.{modify-SameFaces, face-top_up}
use hump.Table.Steady.{SameFaces-IsSteady}
use hump.Table.{get_player}
use hump.Table.Play.{AllLive-length}

topped_up-IsSound : (g : GameSession) (p : Ptr) → IsSound g → IsSound (topped_up g p)
topped_up-IsSound g p i =
    let st = (manager g).store in
    IsSound-with_manager g (record (manager g) { store = modify top_up p st }) i
      (AllLive-length st (modify top_up p st) (manager g).players (length-modify top_up p st)
        i.owned)
      (SameFaces-IsSteady (manager g) (record (manager g) { store = modify top_up p st }) refl
        (modify-SameFaces top_up face-top_up p st))

top_up_found-Answered :
    (g : GameSession) (session : ℕ) (o : Option String)
    → (session == 0) ≡ false
    → IsSound g
    → Answered session g.outbox (top_up_found g session o)
unfolding top_up_found top_up_player
top_up_found-Answered g session none n i = Answered-send g session _ n i
top_up_found-Answered g session (some id) n i =
    let p = get_player (manager g) id in
    elim (Bool-cases (p == null)) [
      | inl e ↦ rw e (Answered-send g session _ n i)
      | inr e ↦ rw e (Answered-send (topped_up g p) session _ n (topped_up-IsSound g p i))
    ]

handle_top_up-Answered :
    (g : GameSession) (session : ℕ)
    → (session == 0) ≡ false
    → IsSound g
    → Answered session g.outbox (handle_top_up g session)
unfolding handle_top_up
handle_top_up-Answered g session n i =
    rw n (top_up_found-Answered g session (player_of g session) n i)

handle_ping-Answered :
    (g : GameSession) (session : ℕ)
    → (session == 0) ≡ false
    → IsSound g
    → Answered session g.outbox (handle_ping g session)
unfolding handle_ping
handle_ping-Answered g session n i = rw n (Answered-send g session pong n i)

module _ (J : Json) (env : Env) (g : GameSession) (session : ℕ) (n : (session == 0) ≡ false)
    (i : IsSound g) where
  handle_join-IsHandled :
      (payload : J.Value) → IsHandled session g.outbox (handle_join J env g payload session)
  unfolding handle_join
  handle_join-IsHandled payload = rw n (
      guard-IsHandled g session (not (J.contains payload "name")) _ _ n i (
        with_value-IsHandled g session (string_at J payload "name") _ i λ name.
          guard-IsHandled g session (str_eq name "") _ _ n i (
            with_value-IsHandled g session
              (if J.contains payload "player_id" then string_at J payload "player_id" else ok "") _
              i λ provided. join-IsHandled env g session name provided n i)))

  handle_action-IsHandled :
      (payload : J.Value) → IsHandled session g.outbox (handle_action J env g payload session)
  unfolding handle_action
  handle_action-IsHandled payload =
      let missing =
        not (J.contains payload "hand_id")
        || not (J.contains payload "action")
        || not (J.contains payload "amount") in
      rw n (
        guard-IsHandled g session missing _ _ n i (
          with_value-IsHandled g session (string_at J payload "hand_id") _ i λ hand_id.
            with_value-IsHandled g session (string_at J payload "action") _ i λ action.
              with_value-IsHandled g session (int_at J payload "amount") _ i
                λ amount. act-IsHandled env g session hand_id action amount n i))

  dispatch-IsHandled :
      (type : String) (payload : Result J.Value)
      → IsHandled session g.outbox (dispatch J env g type payload session)
  unfolding dispatch
  dispatch-IsHandled type payload = elim (Bool-cases (str_eq type "join")) [
    | inl e ↦ rw e (with_value-IsHandled g session payload _ i handle_join-IsHandled)
    | inr a ↦ elim (Bool-cases (str_eq type "action")) [
      | inl e ↦ rw (a, e) (with_value-IsHandled g session payload _ i handle_action-IsHandled)
      | inr b ↦ elim (Bool-cases (str_eq type "ping")) [
        | inl e ↦ rw (a, b, e) (handle_ping-Answered g session n i)
        | inr c ↦ elim (Bool-cases (str_eq type "top_up")) [
          | inl e ↦
              rw (a, b, c, e)
                (with_value-IsHandled g session payload _ i
                  λ p. handle_top_up-Answered g session n i)
          | inr d ↦ rw (a, b, c, d) (Answered-send g session _ n i)
        ]
      ]
    ]
  ]

  handle_parsed-IsHandled :
      (json : J.Value) → IsHandled session g.outbox (handle_parsed J env g json session)
  unfolding handle_parsed
  handle_parsed-IsHandled json = guard-IsHandled g session (not (J.contains json "type")) _ _ n i (
      guard-IsHandled g session (not (J.contains json "payload")) _ _ n i (
        with_value-IsHandled g session (string_at J json "type") _ i
          λ type. dispatch-IsHandled type (J.at_key json "payload")))

-- What is thrown is caught and answered.
caught-Answered :
    (session : ℕ) (old : List (ℕ × Reply)) (r : Handled)
    → (session == 0) ≡ false
    → IsHandled session old r
    → Answered session old (caught session r)
unfolding caught
caught-Answered session old (returned h) n a = a
caught-Answered session old (thrown (json_exception m) h) n (i, e) =
    Answered-prefix e (Answered-send h session _ n i)
caught-Answered session old (thrown (invalid_argument m) h) n (i, e) =
    Answered-prefix e (Answered-send h session _ n i)
caught-Answered session old (thrown (out_of_range m) h) n (i, e) =
    Answered-prefix e (Answered-send h session _ n i)
caught-Answered session old (thrown (runtime_error m) h) n (i, e) =
    Answered-prefix e (Answered-send h session _ n i)
caught-Answered session old (thrown (bad_weak_ptr m) h) n (i, e) =
    Answered-prefix e (Answered-send h session _ n i)

-- In a game session whose two maps are each other's inverse, whose table manager's players are in the store, and
-- whose timers wait for its times and call what they should, grace timers only for players of the table who are not
-- connected: whatever text comes from a session that is not null, and whatever a handler throws, something is sent to that session
-- behind all that has been sent before, and the maps, the players and the timers are afterwards as they were
-- required to be.
pub handle_message-Answered :
    (J : Json) (env : Env) (g : GameSession) (message : J.Text) (session : ℕ)
    → (session == 0) ≡ false
    → IsSound g
    → Answered session g.outbox (handle_message J env g message session)
unfolding handle_message
handle_message-Answered J env g message session n i = rw n (
    caught-Answered session g.outbox _ n (
      with_value-IsHandled g session (J.parse message) _ i
        (handle_parsed-IsHandled J env g session n i)))
