-- ===== src/Client/Exchange.antt =====
-- The bot and the game session, by the texts that they send to each other.
use hump.Prelude.{
  ℕ, zero, suc, ◌<◌, ◌≡◌, refl, ◌∙◌, ap, false, List, [], ◌∷◌, map, arith, ℤ, pos, ◌≤ℤ◌, ◌==◌,
  get_or, String, ok, inl, inr, ◌⊎◌,
}
use hump.Client.{Uniform, choose_amount, choose_action}
use hump.Client.Strategy.{IsUniform}
use hump.Client.Bot.{
  Client, goes_on, actions_of, action_message, on_action_request, on_type, on_message,
}
use hump.Json.{Json, entry}
use hump.Json.Fields.{contains-entry, string_at-entry, int_at-entry}
use hump.Session.{GameSession, Env, ActionRequest}
use hump.Session.Act.{act, handle_action}
use hump.Session.Dispatch.{dispatch, handle_parsed, caught, handle_message}
use hump.Session.Messages.{action_timeout_ms, message, request_to_json}

module _ (J : Json) where
  abbrev pub fields : String → J.Value → List (String × J.Value)
  fields type payload = ("type", J.string type) ∷ ("payload", payload) ∷ []

  -- What the game session does with a message by its type and payload.
  pub handle_message-message :
      (env : Env) (g : GameSession) (type : String) (payload : J.Value) (session : ℕ)
      → (session == 0) ≡ false
      → handle_message J env g (J.dump (message J type payload)) session
        ≡ caught session (dispatch J env g type (ok payload) session)
  unfolding handle_message handle_parsed entry
  handle_message-message env g type payload session n =
      rw
        (
          n,
          J.parse-dump (message J type payload),
          contains-entry J (fields type payload) "type" (J.string type) refl,
          contains-entry J (fields type payload) "payload" payload refl,
          string_at-entry J (fields type payload) "type" type refl,
          J.at_key-object (fields type payload) "payload" payload refl,
        )
        refl

  -- What the bot does with it.
  pub on_message-message :
      (u : Uniform) (c : Client) (type : String) (payload : J.Value)
      → on_message J u c (J.dump (message J type payload))
        ≡ on_type J u c type (message J type payload)
  unfolding on_message entry
  on_message-message u c type payload =
      rw
        (
          J.parse-dump (message J type payload),
          contains-entry J (fields type payload) "type" (J.string type) refl,
          string_at-entry J (fields type payload) "type" type refl,
        )
        refl

abbrev pub possible : List String
possible = "fold" ∷ "call" ∷ "raise" ∷ []

abbrev pub IsPossible : String → Type 0
IsPossible action = (action ≡ "fold") ⊎ ((action ≡ "call") ⊎ (action ≡ "raise"))

possible_at : (i : ℕ) → i < 3 → IsPossible (get_or possible i "")
possible_at zero h = inl refl
possible_at (suc zero) h = inr (inl refl)
possible_at (suc (suc zero)) h = inr (inr refl)
possible_at (suc (suc (suc i))) h = absurd (omega (arith, h))

choose_amount-possible :
    (u : Uniform) (action : String) (call_amount min_raise max_raise : ℤ)
    → min_raise ≤ℤ max_raise
    → IsPossible action
    → (amount : ℤ) × (choose_amount u action call_amount min_raise max_raise ≡ ok amount)
unfolding choose_amount
choose_amount-possible u action c lo hi h (inl e) = (pos 0, rw e refl)
choose_amount-possible u action c lo hi h (inr (inl e)) = (c, rw e refl)
choose_amount-possible u action c lo hi h (inr (inr e)) =
    (u.pick_raise lo hi, rw e (ground (arith, h)))

pub choose_action-possible :
    (u : Uniform) (call_amount min_raise max_raise : ℤ)
    → IsUniform u
    → min_raise ≤ℤ max_raise
    → (action : String) × (amount : ℤ) × (choose_action u possible call_amount min_raise max_raise
        ≡ ok (action, amount))
      × IsPossible action
unfolding choose_action
choose_action-possible u c lo hi iu h =
    let action = get_or possible (u.pick_index 3) "" in
    let among = possible_at (u.pick_index 3) (iu.in_list 2) in
    let (amount, e) = choose_amount-possible u action c lo hi h among in
    (action, amount, rw e refl, among)

module _ (J : Json) where
  pub handle_action-fields :
      (env : Env) (g : GameSession) (hand_id action : String) (amount : ℤ) (session : ℕ)
      → (session == 0) ≡ false
      → handle_message J env g (J.dump (action_message J hand_id action amount)) session
        ≡ caught session (act env g session hand_id action amount)
  unfolding dispatch handle_action entry
  handle_action-fields env g hand_id action amount session n =
      let fs : List (String × J.Value) =
        ("hand_id", J.string hand_id)
        ∷ ("action", J.string action)
        ∷ ("amount", J.number amount)
        ∷ [] in
      handle_message-message J env g "action" (J.object fs) session n
      ∙ ap (caught session) (
          rw
            (
              n,
              contains-entry J fs "hand_id" (J.string hand_id) refl,
              contains-entry J fs "action" (J.string action) refl,
              contains-entry J fs "amount" (J.number amount) refl,
              string_at-entry J fs "hand_id" hand_id refl,
              string_at-entry J fs "action" action refl,
              int_at-entry J fs "amount" amount refl,
            )
            refl)

  actions_of-possible : actions_of J (map J.string possible) ≡ ok possible
  unfolding actions_of
  actions_of-possible =
      rw (J.get_string-string "fold", J.get_string-string "call", J.get_string-string "raise") refl

  -- The bot's reading of a request.
  pub on_action_request-fields :
      (u : Uniform) (c : Client) (r : ActionRequest) (action : String) (amount : ℤ)
      → choose_action u possible r.call_amount r.min_raise r.max_raise ≡ ok (action, amount)
      → on_action_request J u c (request_to_json J r)
        ≡ goes_on c (J.dump (action_message J r.hand_id action amount) ∷ [])
  unfolding on_action_request entry
  on_action_request-fields u c r action amount e =
      let fs : List (String × J.Value) =
        ("hand_id", J.string r.hand_id)
        ∷ ("possible_actions", J.array (map J.string possible))
        ∷ ("call_amount", J.number r.call_amount)
        ∷ ("min_raise", J.number r.min_raise)
        ∷ ("max_raise", J.number r.max_raise)
        ∷ ("timeout_ms", J.number action_timeout_ms)
        ∷ [] in
      rw
        (
          contains-entry J fs "hand_id" (J.string r.hand_id) refl,
          contains-entry J fs "possible_actions" (J.array (map J.string possible)) refl,
          contains-entry J fs "call_amount" (J.number r.call_amount) refl,
          contains-entry J fs "min_raise" (J.number r.min_raise) refl,
          contains-entry J fs "max_raise" (J.number r.max_raise) refl,
          string_at-entry J fs "hand_id" r.hand_id refl,
          J.at_key-object fs "possible_actions" (J.array (map J.string possible)) refl,
          int_at-entry J fs "call_amount" r.call_amount refl,
          int_at-entry J fs "min_raise" r.min_raise refl,
          int_at-entry J fs "max_raise" r.max_raise refl,
          J.elements-array (map J.string possible),
          actions_of-possible,
          e,
        )
        refl
