-- ===== src/Client/Silence.antt =====
-- The bot and the messages that ask for nothing.
use hump.Prelude.{◌≡◌, refl, ◌∙◌, Bool, true, false, List, [], ◌∷◌, if◌then◌else◌, String}
use hump.Client.{Uniform}
use hump.Client.Bot.{Client, goes_on, breaks, on_top_up_ack, on_type, on_message}
use hump.Client.Exchange.{fields, on_message-message}
use hump.Json.{Json, entry}
use hump.Json.Fields.{contains-entry, int_at-entry}
use hump.Session.{
  Reply, error_response, pong, top_up_ack, player_disconnected, welcome, join_ack, hand_started,
  action_request, action_applied, hand_completed, player_removed, player_reconnected,
}
use hump.Session.Messages.{reply_to_json}

-- The messages that the bot may answer.
abbrev pub asks : Reply → Bool
asks (action_request r) = true
asks (hand_completed h) = true
asks _ = false

abbrev pub is_error : Reply → Bool
is_error (error_response code text) = true
is_error _ = false

-- The bot, after a message that asks for nothing.
abbrev pub heard : Client → Reply → Client
heard c (top_up_ack id stack) = record c { stack = stack }
heard c _ = c

-- A message that asks for nothing is not answered: an error ends the main loop, a `top_up_ack` sets the
-- stack, and the rest changes nothing.
pub on_message-silent :
    (J : Json) (u : Uniform) (c : Client) (r : Reply)
    → asks r ≡ false
    → on_message J u c (J.dump (reply_to_json J r))
      ≡ (if is_error r then breaks c else goes_on (heard c r) [])
unfolding reply_to_json on_type on_top_up_ack entry
on_message-silent J u c (error_response code text) h = on_message-message J u c "error" _
on_message-silent J u c pong h = on_message-message J u c "pong" _
on_message-silent J u c (top_up_ack id stack) h =
    let ps : List (String × J.Value) =
      ("player_id", J.string id) ∷ ("new_stack", J.number stack) ∷ [] in
    let fs = fields J "top_up_ack" (J.object ps) in
    on_message-message J u c "top_up_ack" (J.object ps)
    ∙ rw
        (
          contains-entry J fs "payload" (J.object ps) refl,
          J.at_key-object fs "payload" (J.object ps) refl,
          contains-entry J ps "new_stack" (J.number stack) refl,
          int_at-entry J ps "new_stack" stack refl,
        )
        refl
on_message-silent J u c (player_disconnected id ms) h =
    on_message-message J u c "player_disconnected" _
on_message-silent J u c (welcome id) h = on_message-message J u c "welcome" _
on_message-silent J u c (join_ack id seat) h = on_message-message J u c "join_ack" _
on_message-silent J u c (hand_started s) h = on_message-message J u c "hand_started" _
on_message-silent J u c (action_request r) h = cc
on_message-silent J u c (action_applied a) h = on_message-message J u c "action_applied" _
on_message-silent J u c (hand_completed e) h = cc
on_message-silent J u c (player_removed id seat) h = on_message-message J u c "player_removed" _
on_message-silent J u c (player_reconnected id) h = on_message-message J u c "player_reconnected" _
