-- ===== src/Session/Messages.antt =====
-- The messages as JSON, as src/server/game_session.cpp builds them.
use hump.Prelude.{List, [], ◌∷◌, map, ℤ, pos, String}
use hump.Json.{Json}
use hump.Model.{small_blind, big_blind, default_dealer_position}
use hump.Serialization.{card_text}
use hump.Session.{
  StartedPlayer, HandStarted, ActionRequest, ActionApplied, HandCompleted, Reply, error_response,
  pong, top_up_ack, player_disconnected, welcome, join_ack, hand_started, action_request,
  action_applied, hand_completed, player_removed, player_reconnected,
}

-- `ACTION_TIMEOUT_MS`.
abbrev pub action_timeout_ms : ℤ
action_timeout_ms = pos 30000

module _ (J : Json) where
  abbrev pub message : String → J.Value → J.Value
  message type payload = J.object (("type", J.string type) ∷ ("payload", payload) ∷ [])

  abbrev pub started_player_to_json : StartedPlayer → J.Value
  started_player_to_json p = J.object (
      ("player_id", J.string p.player_id)
      ∷ ("stack", J.number p.stack)
      ∷ ("hole_cards", J.array (map (λ c. J.string (card_text c)) p.hole_cards))
      ∷ [])

  abbrev pub started_to_json : HandStarted → J.Value
  started_to_json h = J.object (
      ("hand_id", J.string h.hand_id)
      ∷ ("players", J.array (map started_player_to_json h.players))
      ∷ ("small_blind", J.number small_blind)
      ∷ ("big_blind", J.number big_blind)
      ∷ ("dealer_position", J.number h.dealer_position)
      ∷ ("current_player_to_act", J.string h.current_player_to_act)
      ∷ ("min_raise", J.number h.min_raise)
      ∷ [])

  abbrev pub request_to_json : ActionRequest → J.Value
  request_to_json r = J.object (
      ("hand_id", J.string r.hand_id)
      ∷ ("possible_actions", J.array (J.string "fold" ∷ J.string "call" ∷ J.string "raise" ∷ []))
      ∷ ("call_amount", J.number r.call_amount)
      ∷ ("min_raise", J.number r.min_raise)
      ∷ ("max_raise", J.number r.max_raise)
      ∷ ("timeout_ms", J.number action_timeout_ms)
      ∷ [])

  abbrev pub applied_to_json : ActionApplied → J.Value
  applied_to_json a = J.object (
      ("hand_id", J.string a.hand_id)
      ∷ ("player_id", J.string a.player_id)
      ∷ ("action", J.string a.action)
      ∷ ("amount", J.number a.amount)
      ∷ ("new_stack", J.number a.new_stack)
      ∷ ("pot", J.number a.pot)
      ∷ ("next_player_to_act", J.string a.next_player_to_act)
      ∷ [])

  abbrev pub winner_to_json : String × ℤ → J.Value
  winner_to_json (id, amount) = J.object (
      ("player_id", J.string id)
      ∷ ("amount_won", J.number amount)
      ∷ ("hand_rank", J.string "unknown")
      ∷ [])

  abbrev pub distribution_to_json : String × ℤ → J.Value
  distribution_to_json (id, amount) = J.object (
      ("pot_index", J.number (pos 0))
      ∷ ("winner_id", J.string id)
      ∷ ("amount", J.number amount)
      ∷ [])

  abbrev pub stack_to_json : String × ℤ → String × J.Value
  stack_to_json (id, stack) = (id, J.number stack)

  abbrev pub completed_to_json : HandCompleted → J.Value
  completed_to_json h = J.object (
      ("hand_id", J.string h.hand_id)
      ∷ ("winners", J.array (map winner_to_json h.winners))
      ∷ ("pot_distribution", J.array (map distribution_to_json h.winners))
      ∷ ("updated_stacks", J.object (map stack_to_json h.updated_stacks))
      ∷ [])

  abbrev pub welcome_fields : String → List (String × J.Value)
  welcome_fields id =
      ("player_id", J.string id)
      ∷ (
        "table",
        J.object (
            ("seat_1", J.null)
            ∷ ("seat_2", J.null)
            ∷ ("current_hand", J.null)
            ∷ ("pot", J.number (pos 0))
            ∷ ("community_cards", J.array [])
            ∷ ("dealer_button_position", J.number default_dealer_position)
            ∷ []),
      )
      ∷ []

  -- An empty `{}` is null for the library.
  unfoldable pub reply_to_json : Reply → J.Value
  reply_to_json (error_response code text) =
      message "error" (J.object (("code", J.string code) ∷ ("message", J.string text) ∷ []))
  reply_to_json pong = message "pong" J.null
  reply_to_json (top_up_ack id stack) =
      message "top_up_ack"
        (J.object (("player_id", J.string id) ∷ ("new_stack", J.number stack) ∷ []))
  reply_to_json (player_disconnected id ms) =
      message "player_disconnected"
        (J.object (("player_id", J.string id) ∷ ("remaining_grace_time_ms", J.number ms) ∷ []))
  reply_to_json (welcome id) = message "welcome" (J.object (welcome_fields id))
  reply_to_json (join_ack id seat) =
      message "join_ack" (J.object (("player_id", J.string id) ∷ ("seat", J.number seat) ∷ []))
  reply_to_json (hand_started h) = message "hand_started" (started_to_json h)
  reply_to_json (action_request r) = message "action_request" (request_to_json r)
  reply_to_json (action_applied a) = message "action_applied" (applied_to_json a)
  reply_to_json (hand_completed h) = message "hand_completed" (completed_to_json h)
  reply_to_json (player_removed id seat) =
      message "player_removed"
        (J.object (("player_id", J.string id) ∷ ("seat", J.number seat) ∷ []))
  reply_to_json (player_reconnected id) =
      message "player_reconnected" (J.object (("player_id", J.string id) ∷ []))
