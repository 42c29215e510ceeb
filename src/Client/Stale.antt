-- ===== src/Client/Stale.antt =====
-- The request that is sent when a hand ends: `handleAction` of src/server/game_session.cpp against the main loop of
-- src/client/client.cpp.
use hump.Prelude.{
  ℕ, ◌≡◌, refl, ◌∙◌, ap, subst, true, false, not, ◌&&◌, [], ◌∷◌, ◌++◌, arith, Option, none, some, ℤ,
  pos, ◌≤ℤ◌, ltb_ℤ, ◌==◌, String, str_eq, ok, inl, inr,
}
use hump.Client.{Uniform}
use hump.Client.Bot.{Client, breaks, on_message}
use hump.Client.Exchange.{IsPossible}
use hump.Client.Silence.{on_message-silent}
use hump.Hand.{active_players, determine_winners, is_hand_complete}
use hump.Hand.Winners.{determine_winners-last}
use hump.Json.{Json}
use hump.Model.{Ptr, null, load, Hand}
use hump.Pot.{distribute_pot}
use hump.Presence.{PlayerStateManager}
use hump.Session.{
  GameSession, Env, Reply, error_response, returned, with_value, manager, with_manager, player_of,
  session_of, send_json, broadcast_json,
}
use hump.Session.Act.{pay_out, complete_hand, after_action, maximum_amount, act_as, act_found, act}
use hump.Session.Broadcasts.{
  send_action_request, winners_of, completed_reply, completed_with, broadcast_hand_completed,
}
use hump.Session.Messages.{reply_to_json}
use hump.Session.Outbox.{Extends, Sends-broadcast, send_action_request-Sends}
use hump.Session.Told.{request, requests-one, send_action_request-requests}
use hump.Table.{TableManager, get_player, close_hand, end_of, end_hand}

abbrev current_hand_of : PlayerStateManager → Option Hand
current_hand_of s = s.table_manager.table.current_hand

-- No hand is left.
end_hand-sole :
    (m : TableManager) (hand : Hand) (w : Ptr)
    → m.table.current_hand ≡ some hand
    → active_players hand.players hand.folded ≡ w ∷ []
    → (m' : TableManager) × (end_hand m ≡ ok m') × (m'.table.current_hand ≡ none)
unfolding end_hand end_of close_hand
end_hand-sole m hand w e one =
    let st = (distribute_pot m.store (record hand { winners = w ∷ [] }) (w ∷ [])).0 in
    (close_hand m st, ap (end_of m) e ∙ rw (determine_winners-last m.store hand w one) refl, refl)

-- The game session when the hand is paid out.
complete_hand-last :
    (g : GameSession) (hand : Hand) (w : Ptr)
    → (manager g).table.current_hand ≡ some hand
    → hand.winners ≡ []
    → active_players hand.players hand.folded ≡ w ∷ []
    → (h : GameSession) × (complete_hand g ≡ returned h)
      × ((manager h).table.current_hand ≡ none)
      × (h.session_to_player ≡ g.session_to_player)
      × Extends g.outbox h.outbox
unfolding complete_hand pay_out broadcast_hand_completed completed_with determine_winners
complete_hand-last g hand w e f one =
    let b = broadcast_json g (completed_reply (manager g).store hand (w ∷ [])) in
    let s = Sends-broadcast g (completed_reply (manager g).store hand (w ∷ [])) in
    let winners : winners_of (manager g).store hand ≡ ok (w ∷ []) =
      rw f (determine_winners-last (manager g).store hand w one) in
    let (m, done, gone) =
      end_hand-sole (manager b) hand w (ap current_hand_of s.players_kept ∙ e) one in
    (
      with_manager b m,
      ap (λ o. pay_out (completed_with g o)) e
          ∙ ap
              (λ r. pay_out (
                with_value g r
                  λ ws. returned (broadcast_json g (completed_reply (manager g).store hand ws))))
              winners
          ∙ ap (λ v. with_value b v λ n. returned (with_manager b n)) done,
      gone,
      s.owners_kept,
      s.extends,
    )

possible-known :
    (action : String)
    → IsPossible action
    → (not (str_eq action "fold") && not (str_eq action "call") && not (str_eq action "raise"))
      ≡ false
possible-known action (inl e) = rw e refl
possible-known action (inr (inl e)) = rw e refl
possible-known action (inr (inr e)) = rw e refl

abbrev pub no_hand : Reply
no_hand = error_response "invalid_hand" "No active hand or hand mismatch"

-- An action without a hand.
act-no_hand :
    (env : Env) (g : GameSession) (session : ℕ) (hand_id action : String) (amount : ℤ) (id : String)
    → (manager g).table.current_hand ≡ none
    → IsPossible action
    → pos 0 ≤ℤ amount
    → amount ≤ℤ maximum_amount
    → player_of g session ≡ some id
    → act env g session hand_id action amount ≡ returned (send_json g session no_hand)
unfolding act act_found act_as
act-no_hand env g session hand_id action amount id e k lo hi p =
    let low : ltb_ℤ amount (pos 0) ≡ false = ground (arith, lo) in
    let high : ltb_ℤ maximum_amount amount ≡ false = ground (arith, hi) in
    rw (possible-known action k, low, high, p, e) refl

-- The bug: when an action leaves one player in the current hand, which is complete by it and has no winners
-- yet, the player to act, if there is one, at the table and with a session that is not null, is sent a request all
-- the same, before anything else that is sent as the hand is paid out. When a registered player then answers with one of
-- the three actions and an amount from 0 to 4000, there is no hand, and the error that he is sent ends the main loop of
-- his bot.
pub after_action-stale :
    (J : Json) (u : Uniform) (c : Client) (env : Env) (g : GameSession) (hand : Hand) (w : Ptr)
    (next session : ℕ) (id action : String) (amount : ℤ)
    → (manager g).table.current_hand ≡ some hand
    → hand.winners ≡ []
    → active_players hand.players hand.folded ≡ w ∷ []
    → is_hand_complete env.wild hand ≡ true
    → (hand.current_player_to_act == null) ≡ false
    → (get_player (manager g) (load (manager g).store hand.current_player_to_act).id == null)
      ≡ false
    → session_of g (load (manager g).store hand.current_player_to_act).id ≡ some next
    → (next == 0) ≡ false
    → player_of g session ≡ some id
    → IsPossible action
    → pos 0 ≤ℤ amount
    → amount ≤ℤ maximum_amount
    → let next_id = (load (manager g).store hand.current_player_to_act).id in
      (h : GameSession) × (after_action env g (some hand) ≡ returned h)
      × Extends (g.outbox ++ (next, request g hand next_id) ∷ []) h.outbox
      × (act env h session hand.id action amount ≡ returned (send_json h session no_hand))
      × (on_message J u c (J.dump (reply_to_json J no_hand)) ≡ breaks c)
unfolding after_action
after_action-stale J u c env g hand w next session id action amount e f one over n at has z p k lo
      hi =
    let next_id = (load (manager g).store hand.current_player_to_act).id in
    let asked = send_action_request g next_id in
    let s = send_action_request-Sends g next_id in
    let sends : asked.outbox ≡ g.outbox ++ (next, request g hand next_id) ∷ [] =
      ap (λ (t : GameSession). t.outbox) (send_action_request-requests g hand next_id e)
      ∙ ap (λ ms. g.outbox ++ ms) (requests-one g hand next_id next at has z) in
    let (h, done, gone, owners, extends) =
      complete_hand-last asked hand w (ap current_hand_of s.players_kept ∙ e) f one in
    let mine : player_of h session ≡ some id = rw (owners, s.owners_kept) p in
    (
      h,
      rw (n, over) done,
      subst (λ o. Extends o h.outbox) sends extends,
      act-no_hand env h session hand.id action amount id gone k lo hi mine,
      on_message-silent J u c no_hand refl,
    )
