-- ===== src/Session/Acted.antt =====
-- `handleAction` from where the fields are read: what it answers, and what it does to the maps and to the players.
use hump.Prelude.{
  ℕ, ◌≡◌, refl, false, not, ◌&&◌, List, Option, none, some, ◌==◌, Bool-cases, inl, inr,
  if◌then◌else◌, String, str_eq, Result, ok, err, ℤ, pos, ltb_ℤ,
}
use hump.Model.{null, Hand, load}
use hump.Hand.{is_hand_complete}
use hump.Session.{
  GameSession, Env, Reply, Handled, returned, thrown, state, with_value, manager, with_manager,
  player_of,
}
use hump.Session.Act.{
  pay_out, complete_hand, after_action, maximum_amount, is_current, act_as, act_found, act,
}
use hump.Session.Answered.{
  IsSound, Answered, IsHandled, IsSound-Sends, IsSound-with_manager, Answered-send, Answered-Sends,
  guard-IsHandled, Answered-Extends,
}
use hump.Session.Broadcasts.{
  applied_with, broadcast_action_applied, send_action_request, broadcast_hand_completed,
}
use hump.Session.Outbox.{
  Sends, Answers-broadcast, Sends-broadcast, broadcast_hand_completed-Sends,
  send_action_request-Sends,
}
use hump.Table.{TableManager, get_player, process_player_action, end_hand}
use hump.Table.Accepted.{process_player_action-seated}
use hump.Table.Steady.{end_hand-IsSteady, process_player_action-IsSteady}
use hump.Table.Ownership.{process_player_action-Owns, end_hand-Owns}

pay_out-IsHandled :
    (session : ℕ) (old : List (ℕ × Reply)) (h : GameSession)
    → Answered session old h
    → IsHandled session old (pay_out (returned h))
unfolding pay_out
pay_out-IsHandled session old h a = go (end_hand (manager h)) refl
  where
    go :
        (v : Result TableManager)
        → end_hand (manager h) ≡ v
        → IsHandled session old (with_value h v λ m. returned (with_manager h m))
    go (err e) f = (a.sound, Answered-Extends a)
    go (ok m) f = record {
      sound =
          IsSound-with_manager h m a.sound (end_hand-Owns (manager h) f a.sound.owned)
            (end_hand-IsSteady (manager h) f);
      answers = a.answers;
    }

complete_hand-IsHandled :
    (session : ℕ) (old : List (ℕ × Reply)) (h : GameSession)
    → Answered session old h
    → IsHandled session old (complete_hand h)
unfolding complete_hand pay_out
complete_hand-IsHandled session old h a =
    go (broadcast_hand_completed h) (broadcast_hand_completed-Sends h)
  where
    go : (r : Handled) → Sends h (state r) → IsHandled session old (pay_out r)
    go (returned k) s = pay_out-IsHandled session old k (Answered-Sends a s)
    go (thrown e k) s = let b = Answered-Sends a s in (b.sound, Answered-Extends b)

after_action-IsHandled :
    (env : Env) (session : ℕ) (old : List (ℕ × Reply)) (h : GameSession) (o : Option Hand)
    → Answered session old h
    → IsHandled session old (after_action env h o)
unfolding after_action
after_action-IsHandled env session old h none a = a
after_action-IsHandled env session old h (some hand) a =
    let p = hand.current_player_to_act in
    let k = if p == null then h else send_action_request h (load (manager h).store p).id in
    let b : Answered session old k = elim (Bool-cases (p == null)) [
      | inl e ↦ rw e a
      | inr e ↦ rw e (Answered-Sends a (send_action_request-Sends h (load (manager h).store p).id))
    ] in
    elim (Bool-cases (is_hand_complete env.wild hand)) [
      | inl e ↦ rw e (complete_hand-IsHandled session old k b)
      | inr e ↦ rw e b
    ]

-- The broadcast about an action reaches the session of the player who is seated.
applied-Answered :
    (g : GameSession) (session : ℕ) (id action : String) (amount : ℤ) (o : Option Hand)
    → (session == 0) ≡ false
    → IsSound g
    → player_of g session ≡ some id
    → (get_player (manager g) id == null) ≡ false
    → (h : Hand) × (o ≡ some h)
    → Answered session g.outbox (applied_with g id action amount o)
unfolding applied_with
applied-Answered g session id action amount none n i e p (h, f) = cc
applied-Answered g session id action amount (some hand) n i e p f = rw p (record {
  sound = IsSound-Sends g _ (Sends-broadcast g _) i;
  answers = Answers-broadcast g _ id session n (i.inverse.back session id e);
})

act_as-IsHandled :
    (env : Env) (g : GameSession) (session : ℕ) (hand_id action : String) (amount : ℤ) (id : String)
    → (session == 0) ≡ false
    → IsSound g
    → player_of g session ≡ some id
    → IsHandled session g.outbox (act_as env g session hand_id action amount id)
unfolding act_as broadcast_action_applied
act_as-IsHandled env g session hand_id action amount id n i e =
    let r = process_player_action env.now (manager g) id action amount in
    let k = with_manager g r.0 in
    let sound : IsSound k =
      IsSound-with_manager g r.0 i
        (process_player_action-Owns env.now (manager g) id action amount i.owned)
        (process_player_action-IsSteady env.now (manager g) id action amount) in
    elim (Bool-cases (is_current (manager g).table.current_hand hand_id)) [
      | inr c ↦ rw c (Answered-send g session _ n i)
      | inl c ↦ elim (Bool-cases r.1) [
        | inr d ↦ rw (c, d) (Answered-send k session _ n sound)
        | inl d ↦
            let (seated, hand) =
              process_player_action-seated env.now (manager g) id action amount i.owned d in
            let h = applied_with k id action amount r.0.table.current_hand in
            rw (c, d)
              (after_action-IsHandled env session g.outbox h (manager h).table.current_hand (
                applied-Answered k session id action amount r.0.table.current_hand n sound e seated
                  hand))
      ]
    ]

act_found-IsHandled :
    (env : Env) (g : GameSession) (session : ℕ) (hand_id action : String) (amount : ℤ)
    (o : Option String)
    → (session == 0) ≡ false
    → IsSound g
    → player_of g session ≡ o
    → IsHandled session g.outbox (act_found env g session hand_id action amount o)
unfolding act_found
act_found-IsHandled env g session hand_id action amount none n i e = Answered-send g session _ n i
act_found-IsHandled env g session hand_id action amount (some id) n i e =
    act_as-IsHandled env g session hand_id action amount id n i e

pub act-IsHandled :
    (env : Env) (g : GameSession) (session : ℕ) (hand_id action : String) (amount : ℤ)
    → (session == 0) ≡ false
    → IsSound g
    → IsHandled session g.outbox (act env g session hand_id action amount)
unfolding act
act-IsHandled env g session hand_id action amount n i =
    let found =
      act_found-IsHandled env g session hand_id action amount (player_of g session) n i refl in
    let unknown =
      not (str_eq action "fold") && not (str_eq action "call") && not (str_eq action "raise") in
    guard-IsHandled g session unknown _ _ n i (
      guard-IsHandled g session (ltb_ℤ amount (pos 0)) _ _ n i
        (guard-IsHandled g session (ltb_ℤ maximum_amount amount) _ _ n i found))
