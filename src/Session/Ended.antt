-- ===== src/Session/Ended.antt =====
-- What follows an action at the table: the next player is asked, and a hand that is complete is paid out.
use hump.Prelude.{
  ℕ, ◌≡◌, ◌⊎◌, refl, sym, subst, ap, true, false, ◌==◌, Bool-cases, inl, inr, some, List,
  if◌then◌else◌, String, Error, json_exception, invalid_argument, out_of_range, runtime_error,
  bad_weak_ptr, Result, ok, err,
}
use hump.Hand.{is_hand_complete}
use hump.Model.{Ptr, null, Hand, load}
use hump.Session.{
  GameSession, Env, error_response, returned, thrown, with_value, manager, with_manager, send_json,
  broadcast_json,
}
use hump.Session.Act.{pay_out, complete_hand, after_action}
use hump.Session.Broadcasts.{
  send_action_request, winners_of, completed_reply, completed_with, broadcast_hand_completed,
}
use hump.Session.Dispatch.{caught}
use hump.Session.Told.{copies, sent, requests, broadcast_json-copies, send_action_request-requests}
use hump.Table.{TableManager, end_hand}

-- One error for the sender, and nothing else.
abbrev pub IsRefused : GameSession → ℕ → GameSession → Type 0
IsRefused g session h =
    (code : String) × (text : String) × (h ≡ send_json g session (error_response code text))

pub thrown-IsRefused :
    (g : GameSession) (session : ℕ) (e : Error) → IsRefused g session (caught session (thrown e g))
unfolding caught
thrown-IsRefused g session (json_exception m) = (_, _, refl)
thrown-IsRefused g session (invalid_argument m) = (_, _, refl)
thrown-IsRefused g session (out_of_range m) = (_, _, refl)
thrown-IsRefused g session (runtime_error m) = (_, _, refl)
thrown-IsRefused g session (bad_weak_ptr m) = (_, _, refl)

-- The player to act has been sent a request, if there is one, at the table and with a session.
abbrev pub asked : GameSession → Hand → GameSession
asked g hand =
    if hand.current_player_to_act == null
    then g
    else sent g (requests g hand (load (manager g).store hand.current_player_to_act).id)

-- All registered sessions have been told the winners.
abbrev pub told_winners : GameSession → Hand → List Ptr → GameSession
told_winners g hand ws =
    sent g (copies g.player_sessions (completed_reply (manager g).store hand ws))

-- The hand is paid out: its winners are told to all, and the table ends it; an exception on the way is an error for the
-- sender.
abbrev pub IsPaid : GameSession → Hand → ℕ → GameSession → Type 0
IsPaid g hand session h =
    ((e : Error) × (winners_of (manager g).store hand ≡ err e) × IsRefused g session h)
    ⊎ ((ws : List Ptr) × (winners_of (manager g).store hand ≡ ok ws)
        × (((e : Error) × (end_hand (manager g) ≡ err e)
              × IsRefused (told_winners g hand ws) session h)
            ⊎ ((m : TableManager) × (end_hand (manager g) ≡ ok m)
                × (h ≡ with_manager (told_winners g hand ws) m))))

asked-lem :
    (g : GameSession) (hand : Hand)
    → (manager g).table.current_hand ≡ some hand
    → let p = hand.current_player_to_act in
      (if p == null then g else send_action_request g (load (manager g).store p).id) ≡ asked g hand
asked-lem g hand e =
    let p = hand.current_player_to_act in
    ap (λ h. if p == null then g else h)
      (send_action_request-requests g hand (load (manager g).store p).id e)

ended-IsPaid :
    (g : GameSession) (hand : Hand) (session : ℕ) (ws : List Ptr) (v : Result TableManager)
    → winners_of (manager g).store hand ≡ ok ws
    → end_hand (manager g) ≡ v
    → let t = told_winners g hand ws in
      IsPaid g hand session (caught session (with_value t v λ m. returned (with_manager t m)))
unfolding caught
ended-IsPaid g hand session ws (ok m) e f = inr (ws, e, inr (m, f, refl))
ended-IsPaid g hand session ws (err x) e f =
    inr (ws, e, inl (x, f, thrown-IsRefused (told_winners g hand ws) session x))

announced-IsPaid :
    (g : GameSession) (hand : Hand) (session : ℕ) (v : Result (List Ptr))
    → winners_of (manager g).store hand ≡ v
    → IsPaid g hand session (
        caught session (
          pay_out (
            with_value g v
              λ ws. returned (broadcast_json g (completed_reply (manager g).store hand ws)))))
unfolding pay_out
announced-IsPaid g hand session (err x) e = inl (x, e, thrown-IsRefused g session x)
announced-IsPaid g hand session (ok ws) e =
    subst
      (λ t.
        IsPaid g hand session
          (caught session (with_value t (end_hand (manager t)) λ m. returned (with_manager t m))))
      (sym (broadcast_json-copies g (completed_reply (manager g).store hand ws)))
      (ended-IsPaid g hand session ws (end_hand (manager g)) e refl)

complete_hand-IsPaid :
    (g : GameSession) (hand : Hand) (session : ℕ)
    → (manager g).table.current_hand ≡ some hand
    → IsPaid g hand session (caught session (complete_hand g))
unfolding complete_hand broadcast_hand_completed completed_with
complete_hand-IsPaid g hand session e =
    subst (λ o. IsPaid g hand session (caught session (pay_out (completed_with g o)))) (sym e)
      (announced-IsPaid g hand session (winners_of (manager g).store hand) refl)

-- The next player is asked, and then the hand is paid out if it is complete.
abbrev pub IsFollowed : Env → GameSession → Hand → ℕ → GameSession → Type 0
IsFollowed env g hand session h =
    ((is_hand_complete env.wild hand ≡ false) × (h ≡ asked g hand))
    ⊎ ((is_hand_complete env.wild hand ≡ true) × IsPaid (asked g hand) hand session h)

asked-hand :
    (g : GameSession) (hand : Hand)
    → (manager g).table.current_hand ≡ some hand
    → (manager (asked g hand)).table.current_hand ≡ some hand
asked-hand g hand e = elim (Bool-cases (hand.current_player_to_act == null)) [
  | inl n ↦ rw n e
  | inr n ↦ rw n e
]

pub after_action-IsFollowed :
    (env : Env) (g : GameSession) (hand : Hand) (session : ℕ)
    → (manager g).table.current_hand ≡ some hand
    → IsFollowed env g hand session (caught session (after_action env g (some hand)))
unfolding after_action
after_action-IsFollowed env g hand session e =
    subst
      (λ h.
        IsFollowed env g hand session
          (caught session (if is_hand_complete env.wild hand then complete_hand h else returned h)))
      (sym (asked-lem g hand e))
      (elim (Bool-cases (is_hand_complete env.wild hand)) [
        | inl c ↦
            rw c
              (inr (refl, complete_hand-IsPaid (asked g hand) hand session (asked-hand g hand e)))
        | inr c ↦ rw c (unfold caught in inl (refl, refl))
      ])
