-- ===== src/Session/Act.antt =====
-- `handleAction` of src/server/game_session.cpp.
use hump.Prelude.{
  ℕ, Bool, false, not, ◌&&◌, ◌||◌, Option, none, some, ℤ, pos, ltb_ℤ, ◌==◌, if◌then◌else◌, String,
  str_eq,
}
use hump.Json.{Json, string_at, int_at}
use hump.Model.{null, load, Hand}
use hump.Hand.{is_hand_complete}
use hump.Table.{process_player_action, end_hand}
use hump.Session.{
  GameSession, Env, error_response, Handled, returned, thrown, with_value, manager, with_manager,
  player_of, send_json,
}
use hump.Session.Broadcasts.{
  broadcast_action_applied, send_action_request, broadcast_hand_completed,
}

-- The payment, behind the message.
unfoldable pub pay_out : Handled → Handled
pay_out (thrown e g) = thrown e g
pay_out (returned g) = with_value g (end_hand (manager g)) λ m. returned (with_manager g m)

-- The hand's end, where it is complete.
unfoldable pub complete_hand : GameSession → Handled
complete_hand g = pay_out (broadcast_hand_completed g)

-- From the message about the action on; the hand is the one after the action.
unfoldable pub after_action : Env → GameSession → Option Hand → Handled
after_action env g none = returned g
after_action env g (some hand) =
    let p = hand.current_player_to_act in
    let h = if p == null then g else send_action_request g (load (manager g).store p).id in
    if is_hand_complete env.wild hand then complete_hand h else returned h

-- `maximum_amount` is the starting stack times 10.
abbrev pub maximum_amount : ℤ
maximum_amount = pos 4000

abbrev pub is_current : Option Hand → String → Bool
is_current none hand_id = false
is_current (some hand) hand_id = str_eq hand.id hand_id

unfoldable pub act_as : Env → GameSession → ℕ → String → String → ℤ → String → Handled
act_as env g session hand_id action amount id =
    let r = process_player_action env.now (manager g) id action amount in
    let g' = with_manager g r.0 in
    let h = broadcast_action_applied g' id action amount in
    if not (is_current (manager g).table.current_hand hand_id)
    then returned
        (send_json g session (error_response "invalid_hand" "No active hand or hand mismatch"))
    else if not r.1
    then returned (send_json g' session (error_response "invalid_action" "Action not allowed"))
    else after_action env h (manager h).table.current_hand

unfoldable pub act_found : Env → GameSession → ℕ → String → String → ℤ → Option String → Handled
act_found env g session hand_id action amount none =
    returned (send_json g session (error_response "unauthorized" "Player not registered"))
act_found env g session hand_id action amount (some id) =
    act_as env g session hand_id action amount id

-- From where the fields are read.
unfoldable pub act : Env → GameSession → ℕ → String → String → ℤ → Handled
act env g session hand_id action amount =
    if not (str_eq action "fold") && not (str_eq action "call") && not (str_eq action "raise")
    then returned (
        send_json g session (error_response "invalid_action" "Action must be fold, call, or raise"))
    else if ltb_ℤ amount (pos 0)
    then returned
        (send_json g session (error_response "invalid_amount" "Amount cannot be negative"))
    else if ltb_ℤ maximum_amount amount
    then returned
        (send_json g session (error_response "invalid_amount" "Amount exceeds maximum allowed"))
    else act_found env g session hand_id action amount (player_of g session)

unfoldable pub handle_action : (J : Json) → Env → GameSession → J.Value → ℕ → Handled
handle_action J env g payload session =
    if session == 0
    then returned g
    else if not (J.contains payload "hand_id")
        || not (J.contains payload "action")
        || not (J.contains payload "amount")
    then returned (
        send_json g session
          (error_response "invalid_input" "Missing required fields (hand_id, action, amount)"))
    else with_value g (string_at J payload "hand_id") λ hand_id.
      with_value g (string_at J payload "action") λ action.
        with_value g (int_at J payload "amount") λ amount. act env g session hand_id action amount
