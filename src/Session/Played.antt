-- ===== src/Session/Played.antt =====
-- What an action message comes to, in `handleAction`: a refusal, or a move at the table.
use hump.Prelude.{
  ℕ, ◌≡◌, ◌⊎◌, refl, sym, ◌∙◌, ap, subst, Bool, true, false, not, ◌&&◌, arith, Option, none, some,
  ◌==◌, Bool-cases, inl, inr, String, str_eq, eq_iff, ℤ, pos, ltb_ℤ, ◌≤ℤ◌,
}
use hump.Model.{null, Hand, load}
use hump.Action.{apply_action}
use hump.Hand.{is_hand_complete}
use hump.Session.{
  GameSession, Env, error_response, Handled, returned, manager, with_manager, player_of, send_json,
}
use hump.Session.Act.{after_action, maximum_amount, is_current, act_as, act_found, act}
use hump.Session.Broadcasts.{broadcast_action_applied}
use hump.Session.Dispatch.{caught}
use hump.Session.Ended.{IsRefused, IsFollowed, after_action-IsFollowed}
use hump.Session.Told.{copies, sent, announcement, broadcast_action_applied-copies}
use hump.Table.Accepted.{process_player_action-seated}
use hump.Session.Outbox.{
  Sends, Sends-refl, Sends-trans, broadcast_action_applied-Sends, send_action_request-Sends,
}
use hump.Table.{TableManager, get_player, process_player_action}
use hump.Table.Ownership.{Owns}
use hump.Table.Play.{IsAccepted, after, process_player_action_lem, step-chips, table_chips}

-- The hand that an accepted action leaves.
abbrev pub played : Env → TableManager → Hand → String → String → ℤ → Hand
played env m hand id action amount =
    (apply_action env.now m.store hand (get_player m id) action amount).2

-- The game session with the move made, when all registered sessions have been told of it.
abbrev pub announced : Env → GameSession → Hand → String → String → ℤ → GameSession
announced env g hand id action amount =
    let k = with_manager g (after env.now (manager g) hand id action amount) in
    let left = played env (manager g) hand id action amount in
    sent k (copies k.player_sessions (announcement k left id action amount))

-- The sender's player has made a valid move in the current hand, which the message names; it is told to
-- all, the next player is asked, and the hand is paid out if it is complete. The chips at the table are as many as before, unless
-- that hand is complete.
pub record IsPlayed (env : Env) (g : GameSession) (session : ℕ) (hand_id action : String)
    (amount : ℤ) (h : GameSession) : Type 0 where
  pub id : String
  pub hand : Hand
  pub owner : player_of g session ≡ some id
  pub named : hand.id ≡ hand_id
  pub accepted : IsAccepted env.now (manager g) id action amount hand
  pub bounded : (pos 0 ≤ℤ amount) × (amount ≤ℤ maximum_amount)
  pub follows :
      IsFollowed env
        (announced env g hand id action amount)
        (played env (manager g) hand id action amount)
        session
        h
  pub accounted :
      (is_hand_complete env.wild (played env (manager g) hand id action amount) ≡ true)
      ⊎ (table_chips (manager h) ≡ table_chips (manager g))

-- A hand that is not complete: only messages are sent.
after_action-Sends :
    (env : Env) (g : GameSession) (session : ℕ) (hand : Hand)
    → is_hand_complete env.wild hand ≡ false
    → Sends g (caught session (after_action env g (some hand)))
unfolding after_action caught
after_action-Sends env g session hand e = elim (Bool-cases (hand.current_player_to_act == null)) [
  | inl n ↦ rw (e, n) (Sends-refl g)
  | inr n ↦
      rw (e, n) (send_action_request-Sends g (load (manager g).store hand.current_player_to_act).id)
]

module _ (env : Env) (g : GameSession) (session : ℕ) (hand_id action : String) (amount : ℤ)
    (owned : Owns (manager g)) where
  -- The outcome of a refusal or of a move.
  abbrev pub Outcome : Handled → Type 0
  Outcome r =
      IsRefused g session (caught session r)
      ⊎ IsPlayed env g session hand_id action amount (caught session r)

  error-Outcome :
      (code text : String) → Outcome (returned (send_json g session (error_response code text)))
  unfolding caught
  error-Outcome code text = inl (code, text, refl)

  chips-follow :
      (id : String) (hand : Hand)
      → IsAccepted env.now (manager g) id action amount hand
      → (process_player_action env.now (manager g) id action amount
          ≡ (after env.now (manager g) hand id action amount, true))
      → (h : GameSession)
      → Sends (with_manager g (after env.now (manager g) hand id action amount)) h
      → table_chips (manager h) ≡ table_chips (manager g)
  chips-follow id hand a e h s =
      ap (λ p. table_chips p.table_manager) s.players_kept
      ∙ ap (λ (r : TableManager × Bool). table_chips r.0) (sym e)
      ∙ (step-chips env.now (manager g) id action amount owned).0

  played-Outcome :
      (id : String) (hand : Hand)
      → player_of g session ≡ some id
      → hand.id ≡ hand_id
      → (pos 0 ≤ℤ amount) × (amount ≤ℤ maximum_amount)
      → IsAccepted env.now (manager g) id action amount hand
      → (process_player_action env.now (manager g) id action amount
          ≡ (after env.now (manager g) hand id action amount, true))
      → (get_player (after env.now (manager g) hand id action amount) id == null) ≡ false
      → Outcome (
          after_action env
            (broadcast_action_applied
              (with_manager g (after env.now (manager g) hand id action amount))
              id
              action
              amount)
            (some (played env (manager g) hand id action amount)))
  played-Outcome id hand o n b a e seated =
      let k = with_manager g (after env.now (manager g) hand id action amount) in
      let told = broadcast_action_applied k id action amount in
      let left = played env (manager g) hand id action amount in
      inr (record {
        id = id;
        hand = hand;
        owner = o;
        named = n;
        accepted = a;
        bounded = b;
        follows =
            subst
              (λ t.
                IsFollowed env t left session (caught session (after_action env told (some left))))
              (broadcast_action_applied-copies k left id action amount refl seated)
              (after_action-IsFollowed env told left session (
                ap (λ p. p.table_manager.table.current_hand)
                  (broadcast_action_applied-Sends k id action amount).players_kept));
        accounted = elim (Bool-cases (is_hand_complete env.wild left)) [
          | inl c ↦ inl c
          | inr c ↦ inr (
              chips-follow id hand a e (caught session (after_action env told (some left))) (
                Sends-trans (broadcast_action_applied-Sends k id action amount)
                  (after_action-Sends env told session left c)))
        ];
      })

  act_as-Outcome :
      (id : String)
      → player_of g session ≡ some id
      → (pos 0 ≤ℤ amount) × (amount ≤ℤ maximum_amount)
      → Outcome (act_as env g session hand_id action amount id)
  unfolding act_as
  act_as-Outcome id o b = elim (Bool-cases (is_current (manager g).table.current_hand hand_id)) [
    | inr c ↦ rw c (error-Outcome "invalid_hand" "No active hand or hand mismatch")
    | inl c ↦ elim (process_player_action_lem env.now (manager g) id action amount owned) [
      | inl (why, e) ↦ rw (c, e) (error-Outcome "invalid_action" "Action not allowed")
      | inr (hand, a, e) ↦
          let named : hand.id ≡ hand_id =
            (eq_iff hand.id hand_id).0 (ap (λ x. is_current x hand_id) (sym a.in_play) ∙ c) in
          let k = with_manager g (after env.now (manager g) hand id action amount) in
          let seated : (get_player (manager k) id == null) ≡ false =
            ap (λ (r : TableManager × Bool). get_player r.0 id == null) (sym e)
            ∙ (process_player_action-seated env.now (manager g) id action amount owned
                (ap (λ (r : TableManager × Bool). r.1) e)).0 in
          let told = broadcast_action_applied k id action amount in
          let shown : (manager told).table.current_hand
              ≡ some (played env (manager g) hand id action amount) =
            ap (λ p. p.table_manager.table.current_hand)
              (broadcast_action_applied-Sends k id action amount).players_kept in
          rw (c, e)
            (subst (λ x. Outcome (after_action env told x)) (sym shown)
              (played-Outcome id hand o named b a e seated))
    ]
  ]

  act_found-Outcome :
      (o : Option String)
      → player_of g session ≡ o
      → (pos 0 ≤ℤ amount) × (amount ≤ℤ maximum_amount)
      → Outcome (act_found env g session hand_id action amount o)
  unfolding act_found
  act_found-Outcome none e b = error-Outcome "unauthorized" "Player not registered"
  act_found-Outcome (some id) e b = act_as-Outcome id e b

  pub act-Outcome : Outcome (act env g session hand_id action amount)
  unfolding act
  act-Outcome =
      elim (Bool-cases
        (not (str_eq action "fold") && not (str_eq action "call") && not (str_eq action "raise"))) [
          | inl e ↦ rw e (error-Outcome "invalid_action" "Action must be fold, call, or raise")
          | inr e ↦ elim (Bool-cases (ltb_ℤ amount (pos 0))) [
            | inl f ↦ rw (e, f) (error-Outcome "invalid_amount" "Amount cannot be negative")
            | inr f ↦ elim (Bool-cases (ltb_ℤ maximum_amount amount)) [
              | inl h ↦
                  rw (e, f, h) (error-Outcome "invalid_amount" "Amount exceeds maximum allowed")
              | inr h ↦
                  rw (e, f, h)
                    (act_found-Outcome (player_of g session) refl
                      (ground (arith, f), ground (arith, h)))
            ]
          ]
        ]
