-- ===== src/Client/Conversation.antt =====
-- What the bot writes in answer to each message of the game session, and how that is taken.
use hump.Prelude.{
  ℕ, ◌≡◌, refl, ◌∙◌, ap, false, List, [], ◌∷◌, map, arith, some, ℤ, pos, ltb_ℤ, ◌≤ℤ◌, ◌==◌,
  if◌then◌else◌, String, str_eq, ok, Bool-cases, inl, inr,
}
use hump.Client.{Uniform, choose_action, should_top_up}
use hump.Client.Strategy.{IsUniform}
use hump.Client.Bot.{
  Client, goes_on, join_message, on_welcome, action_message, top_up_message, on_hand_completed,
  on_type, on_message,
}
use hump.Client.Exchange.{
  fields, handle_message-message, on_message-message, possible, IsPossible, choose_action-possible,
  handle_action-fields, on_action_request-fields,
}
use hump.Json.{Json, entry}
use hump.Json.Fields.{contains-entry, string_at-entry, int_at-entry}
use hump.Session.{
  GameSession, Env, ActionRequest, HandCompleted, welcome, action_request, hand_completed,
  handle_top_up,
}
use hump.Session.Act.{act}
use hump.Session.Dispatch.{dispatch, caught, handle_message}
use hump.Session.Join.{join, handle_join}
use hump.Session.Messages.{
  welcome_fields, winner_to_json, stack_to_json, distribution_to_json, request_to_json,
  reply_to_json,
}

-- Asked to act, with bounds of a raise that are in order and a distribution that keeps to its bounds, the
-- bot writes one message; the game session takes it, from a session that is not null, as the action and the
-- amount that the strategy chose, for the hand that the bot was asked about, and the action is one of the
-- three.
pub on_message-action_request :
    (J : Json) (u : Uniform) (c : Client) (r : ActionRequest) (env : Env) (g : GameSession)
    (session : ℕ)
    → IsUniform u
    → r.min_raise ≤ℤ r.max_raise
    → (session == 0) ≡ false
    → (action : String) × (amount : ℤ) × (answer : J.Text) × (choose_action u possible r.call_amount
          r.min_raise r.max_raise
        ≡ ok (action, amount))
      × IsPossible action
      × (on_message J u c (J.dump (reply_to_json J (action_request r))) ≡ goes_on c (answer ∷ []))
      × (handle_message J env g answer session
          ≡ caught session (act env g session r.hand_id action amount))
unfolding reply_to_json on_type entry
on_message-action_request J u c r env g session iu h n =
    let (action, amount, e, among) =
      choose_action-possible u r.call_amount r.min_raise r.max_raise iu h in
    let payload = request_to_json J r in
    let fs = fields J "action_request" payload in
    (
      action,
      amount,
      J.dump (action_message J r.hand_id action amount),
      e,
      among,
      on_message-message J u c "action_request" payload
          ∙ rw
              (
                contains-entry J fs "payload" payload refl,
                J.at_key-object fs "payload" payload refl,
              )
              (on_action_request-fields J u c r action amount e),
      handle_action-fields J env g r.hand_id action amount session n,
    )

-- Welcomed, the bot keeps the id that it is given and writes one message, which the game session takes as a
-- request to join under the bot's name, if that is not empty, without an id of a player.
on_welcome-join :
    (J : Json) (c : Client) (id : String) (env : Env) (g : GameSession) (session : ℕ)
    → str_eq c.name "" ≡ false
    → (session == 0) ≡ false
    → (answer : J.Text) × (on_welcome J c (J.dump (reply_to_json J (welcome id)))
        ≡ goes_on (record c { player_id = id }) (answer ∷ []))
      × (handle_message J env g answer session ≡ caught session (join env g session c.name ""))
unfolding on_welcome reply_to_json dispatch handle_join entry
on_welcome-join J c id env g session m n =
    let ws = welcome_fields J id in
    let fs = fields J "welcome" (J.object ws) in
    let ns : List (String × J.Value) = ("name", J.string c.name) ∷ [] in
    (
      J.dump (join_message J c.name),
      rw
          (
            J.parse-dump (J.object fs),
            contains-entry J fs "type" (J.string "welcome") refl,
            string_at-entry J fs "type" "welcome" refl,
            contains-entry J fs "payload" (J.object ws) refl,
            J.at_key-object fs "payload" (J.object ws) refl,
            contains-entry J ws "player_id" (J.string id) refl,
            string_at-entry J ws "player_id" id refl,
          )
          refl,
      handle_message-message J env g "join" (J.object ns) session n
          ∙ ap (caught session) (
              rw
                (
                  n,
                  contains-entry J ns "name" (J.string c.name) refl,
                  string_at-entry J ns "name" c.name refl,
                  m,
                  J.contains-object ns "player_id",
                )
                refl),
    )

entry-map :
    (J : Json) (l : List (String × ℤ)) (key : String) (n : ℤ)
    → entry l key ≡ some n
    → entry (map (stack_to_json J) l) key ≡ some (J.number n)
unfolding entry
entry-map J [] key n h = cc
entry-map J ((k, v) ∷ l) key n h = elim (Bool-cases (str_eq k key)) [
  | inl e ↦ rw e (let h' = rw e at h in ground (arith, h'))
  | inr e ↦ rw e (entry-map J l key n (rw e at h))
]

-- Told of the end of a hand with a stack of its own among the new ones, the bot keeps that stack, and asks
-- for a top-up just when the stack is below 20 chips, the threshold; the game session takes what it writes,
-- from a session that is not null, as that request.
pub on_message-hand_completed :
    (J : Json) (u : Uniform) (c : Client) (h : HandCompleted) (stack : ℤ) (env : Env)
    (g : GameSession) (session : ℕ)
    → entry h.updated_stacks c.player_id ≡ some stack
    → (session == 0) ≡ false
    → (request : J.Text) × (on_message J u c (J.dump (reply_to_json J (hand_completed h)))
        ≡ goes_on (record c { stack = stack }) (if ltb_ℤ stack (pos 20) then request ∷ [] else []))
      × (handle_message J env g request session ≡ handle_top_up g session)
unfolding reply_to_json on_type on_hand_completed should_top_up dispatch caught entry
on_message-hand_completed J u c h stack env g session e n =
    let stacks = map (stack_to_json J) h.updated_stacks in
    let hs : List (String × J.Value) =
      ("hand_id", J.string h.hand_id)
      ∷ ("winners", J.array (map (winner_to_json J) h.winners))
      ∷ ("pot_distribution", J.array (map (distribution_to_json J) h.winners))
      ∷ ("updated_stacks", J.object stacks)
      ∷ [] in
    let fs = fields J "hand_completed" (J.object hs) in
    let e' = entry-map J h.updated_stacks c.player_id stack e in
    (
      J.dump (top_up_message J),
      on_message-message J u c "hand_completed" (J.object hs)
          ∙ rw
              (
                contains-entry J fs "payload" (J.object hs) refl,
                J.at_key-object fs "payload" (J.object hs) refl,
                contains-entry J hs "updated_stacks" (J.object stacks) refl,
                J.at_key-object hs "updated_stacks" (J.object stacks) refl,
                contains-entry J stacks c.player_id (J.number stack) e',
                int_at-entry J stacks c.player_id stack e',
              )
              refl,
      handle_message-message J env g "top_up" J.null session n,
    )
