-- ===== src/Session/Dispatch.antt =====
-- `handleMessage` of src/server/game_session.cpp.
use hump.Prelude.{ℕ, not, ◌==◌, if◌then◌else◌, String, str_eq, json_exception, Result}
use hump.Json.{Json, string_at}
use hump.Session.{
  GameSession, Env, error_response, Handled, returned, thrown, with_value, send_json, handle_ping,
  handle_top_up,
}
use hump.Session.Act.{handle_action}
use hump.Session.Join.{handle_join}

-- The chain of comparisons of the type; `payload` is what `json.at("payload")` gives where it is called.
unfoldable pub dispatch : (J : Json) → Env → GameSession → String → Result J.Value → ℕ → Handled
dispatch J env g type payload session =
    if str_eq type "join"
    then with_value g payload (λ p. handle_join J env g p session)
    else if str_eq type "action"
    then with_value g payload (λ p. handle_action J env g p session)
    else if str_eq type "ping"
    then returned (handle_ping g session)
    else if str_eq type "top_up"
    then with_value g payload (λ p. returned (handle_top_up g session))
    else returned
        (send_json g session (error_response "invalid_message_type" "Unknown message type"))

-- The body of the `try` from where the message is parsed.
unfoldable pub handle_parsed : (J : Json) → Env → GameSession → J.Value → ℕ → Handled
handle_parsed J env g json session =
    if not (J.contains json "type")
    then returned (send_json g session (error_response "invalid_json" "Missing 'type' field"))
    else if not (J.contains json "payload")
    then returned (send_json g session (error_response "invalid_json" "Missing 'payload' field"))
    else with_value g (string_at J json "type")
        λ type. dispatch J env g type (J.at_key json "payload") session

-- The two `catch` clauses.
unfoldable pub caught : ℕ → Handled → GameSession
caught session (returned g) = g
caught session (thrown (json_exception message) g) =
    send_json g session (error_response "invalid_json" "Failed to parse JSON")
caught session (thrown _ g) =
    send_json g session (error_response "internal_error" "Internal server error")

unfoldable pub handle_message : (J : Json) → Env → GameSession → J.Text → ℕ → GameSession
handle_message J env g message session =
    if session == 0
    then g
    else caught session (with_value g (J.parse message) λ json. handle_parsed J env g json session)
