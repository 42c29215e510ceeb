-- ===== src/Client/Bot.antt =====
-- The bot's conversation with the server: `Client::run` of src/client/client.cpp. The connection is left out:
-- what is read from it is a list of texts, and what `ws.write` is called with is a list of texts.
use hump.Prelude.{
  ℕ, suc, Bool, false, not, ◌&&◌, ◌||◌, List, [], ◌∷◌, ◌++◌, ℤ, if◌then◌else◌, String, str_eq,
  Error, Result, ok, err, ◌>>=◌,
}
use hump.Client.{Uniform, choose_action, should_top_up}
use hump.Json.{Json, string_at, int_at}

-- The class, without the address.
pub record Client : Type 0 where
  pub name : String
  pub player_id : String
  pub stack : ℤ

-- What a message leads to: the texts that are written, `break`, `return`, or an exception, which `run` catches.
pub data Outcome (A : Type 0) : Type 0 where
  goes_on : Client → List A → Outcome A
  breaks returns : Client → Outcome A
  throws : Error → Client → Outcome A

abbrev pub reading {ℓ} : {A : Type 0} {B : Type ℓ} → Client → Result B → (B → Outcome A) → Outcome A
reading c (ok b) rest = rest b
reading c (err e) rest = throws e c

-- A value that does not parse ends the conversation, the session closed first.
abbrev pub parsing : {A B : Type 0} → Result B → Outcome A → (B → Outcome A) → Outcome A
parsing (ok b) failed rest = rest b
parsing (err e) failed rest = failed

-- A JSON value is compared with a text.
abbrev pub same_text : Result String → String → Bool
same_text (ok s) text = str_eq s text
same_text (err e) text = false

module _ (J : Json) where
  -- `contains("type")` and the comparison of the type.
  abbrev pub has_type : J.Value → String → Bool
  has_type json type = J.contains json "type" && same_text (string_at J json "type") type

  abbrev pub join_message : String → J.Value
  join_message name =
      J.object
        (("type", J.string "join") ∷ ("payload", J.object (("name", J.string name) ∷ [])) ∷ [])

  -- The welcome message, which is answered with the join message.
  unfoldable pub on_welcome : Client → J.Text → Outcome J.Text
  on_welcome c text = parsing (J.parse text) (returns c) λ json.
      if not (has_type json "welcome")
      then returns c
      else if not (J.contains json "payload")
      then returns c
      else reading c (J.at_key json "payload") λ payload.
        if not (J.contains payload "player_id")
        then returns c
        else reading c (string_at J payload "player_id")
            λ id. goes_on (record c { player_id = id }) (J.dump (join_message c.name) ∷ [])

  unfoldable pub on_join_ack : Client → J.Text → Outcome J.Text
  on_join_ack c text = parsing (J.parse text) (returns c) λ json.
      if not (has_type json "join_ack")
      then returns c
      else if not (J.contains json "payload")
      then returns c
      else reading c (J.at_key json "payload") λ payload.
        if not (J.contains payload "seat")
        then returns c
        else reading c (int_at J payload "seat") λ seat. goes_on c []

  -- The loop over the possible actions.
  unfoldable pub actions_of : List J.Value → Result (List String)
  actions_of [] = ok []
  actions_of (v ∷ vs) = do action ← J.get_string v; actions ← actions_of vs; ok (action ∷ actions)

  abbrev pub action_message : String → String → ℤ → J.Value
  action_message hand_id action amount = J.object (
      ("type", J.string "action")
      ∷ (
        "payload",
        J.object (
            ("hand_id", J.string hand_id)
            ∷ ("action", J.string action)
            ∷ ("amount", J.number amount)
            ∷ []),
      )
      ∷ [])

  -- An `action_request`, from its payload on; the delay is left out.
  unfoldable pub on_action_request : Uniform → Client → J.Value → Outcome J.Text
  on_action_request u c payload =
      if not (J.contains payload "hand_id")
        || not (J.contains payload "possible_actions")
        || not (J.contains payload "call_amount")
        || not (J.contains payload "min_raise")
        || not (J.contains payload "max_raise")
      then returns c
      else reading c (string_at J payload "hand_id") λ hand_id.
        reading c (J.at_key payload "possible_actions") λ possible_actions.
          reading c (int_at J payload "call_amount") λ call_amount.
            reading c (int_at J payload "min_raise") λ min_raise.
              reading c (int_at J payload "max_raise") λ max_raise.
                reading c (actions_of (J.elements possible_actions)) λ actions.
                  reading c (choose_action u actions call_amount min_raise max_raise)
                    λ chosen. goes_on c (J.dump (action_message hand_id chosen.0 chosen.1) ∷ [])

  -- An empty `{}` is null for the library.
  abbrev pub top_up_message : J.Value
  top_up_message = J.object (("type", J.string "top_up") ∷ ("payload", J.null) ∷ [])

  -- A `hand_completed`, from its payload on.
  unfoldable pub on_hand_completed : Client → J.Value → Outcome J.Text
  on_hand_completed c payload =
      if not (J.contains payload "updated_stacks")
      then returns c
      else reading c (J.at_key payload "updated_stacks") λ updated_stacks.
        if not (J.contains updated_stacks c.player_id)
        then goes_on c []
        else reading c (int_at J updated_stacks c.player_id) λ stack.
          goes_on (record c { stack = stack })
            (if should_top_up stack then J.dump top_up_message ∷ [] else [])

  unfoldable pub on_top_up_ack : Client → J.Value → Outcome J.Text
  on_top_up_ack c payload =
      if not (J.contains payload "new_stack")
      then returns c
      else reading c (int_at J payload "new_stack") λ stack. goes_on (record c { stack = stack }) []

  -- A message that must have a payload.
  abbrev pub with_payload : Client → J.Value → (J.Value → Outcome J.Text) → Outcome J.Text
  with_payload c json rest =
      if not (J.contains json "payload")
      then returns c
      else reading c (J.at_key json "payload") rest

  -- The chain of comparisons of the type.
  unfoldable pub on_type : Uniform → Client → String → J.Value → Outcome J.Text
  on_type u c type json =
      if str_eq type "hand_started"
      then goes_on c []
      else if str_eq type "action_request"
      then with_payload c json (on_action_request u c)
      else if str_eq type "action_applied"
      then goes_on c []
      else if str_eq type "hand_completed"
      then with_payload c json (on_hand_completed c)
      else if str_eq type "top_up_ack"
      then with_payload c json (on_top_up_ack c)
      else if str_eq type "error"
      then breaks c
      else goes_on c []

  -- One turn of the main loop.
  unfoldable pub on_message : Uniform → Client → J.Text → Outcome J.Text
  on_message u c text = parsing (J.parse text) (breaks c) λ json.
      if not (J.contains json "type")
      then breaks c
      else reading c (string_at J json "type") λ type. on_type u c type json

  -- The main loop, with a distribution for each turn, to the end of what is read; the texts written are
  -- gathered.
  unfoldable pub main_loop : (ℕ → Uniform) → ℕ → Client → List J.Text → List J.Text
  main_loop us n c [] = []
  main_loop us n c (text ∷ texts) = elim (on_message (us n) c text) [
    | goes_on c' written ↦ written ++ main_loop us (suc n) c' texts
    | breaks c' ↦ []
    | returns c' ↦ []
    | throws e c' ↦ []
  ]

  -- `run`, from the first message to the last.
  unfoldable pub run : (ℕ → Uniform) → Client → List J.Text → List J.Text
  run us c [] = []
  run us c (hello ∷ []) = written (on_welcome c hello)
    where
      written : Outcome J.Text → List J.Text
      written (goes_on c' ts) = ts
      written _ = []
  run us c (hello ∷ ack ∷ texts) = after (on_welcome c hello)
    where
      joined : Outcome J.Text → List J.Text
      joined (goes_on c' ts) = ts ++ main_loop us 0 c' texts
      joined _ = []

      after : Outcome J.Text → List J.Text
      after (goes_on c' ts) = ts ++ joined (on_join_ack c' ack)
      after _ = []
