-- ===== src/Session/Told.antt =====
-- What exactly is sent: the copies of a broadcast, and the request to the player to act.
use mathlib.Core.List.{append_assoc, append-nil}
use hump.Prelude.{
  ℕ, ℤ, ◌≡◌, refl, sym, ◌∙◌, ap, false, List, [], ◌∷◌, ◌++◌, Option, none, some, ◌==◌, Bool-cases,
  inl, inr, if◌then◌else◌, String,
}
use hump.Model.{null, Hand, load}
use hump.Session.{
  GameSession, Reply, action_request, action_applied, manager, session_of, send_json, send_all,
  broadcast_json,
}
use hump.Session.Broadcasts.{
  call_amount, id_or_empty, send_to, request_with, send_action_request, broadcast_action_applied,
  applied_with,
}
use hump.Table.{get_player}

-- One message for each session of these that is not null.
pub copies : List (String × ℕ) → Reply → List (ℕ × Reply)
copies [] r = []
copies ((id, s) ∷ l) r = let rest = copies l r in if s == 0 then rest else (s, r) ∷ rest

-- A game session that has sent these messages more, and is otherwise as it was.
abbrev pub sent : GameSession → List (ℕ × Reply) → GameSession
sent g ms = record g { outbox = g.outbox ++ ms }

send_all-copies :
    (g : GameSession) (l : List (String × ℕ)) (r : Reply) → send_all g l r ≡ sent g (copies l r)
unfolding send_all copies send_json
send_all-copies g [] r = ap (λ o. record g { outbox = o }) (sym (append-nil g.outbox))
send_all-copies g ((id, s) ∷ l) r = elim (Bool-cases (s == 0)) [
  | inl e ↦ rw e (send_all-copies g l r)
  | inr e ↦ rw e (
      send_all-copies (sent g ((s, r) ∷ [])) l r
      ∙ ap (λ o. record g { outbox = o }) (append_assoc g.outbox ((s, r) ∷ []) (copies l r)))
]

-- A broadcast reaches all registered sessions, and does nothing else.
pub broadcast_json-copies :
    (g : GameSession) (r : Reply) → broadcast_json g r ≡ sent g (copies g.player_sessions r)
unfolding broadcast_json
broadcast_json-copies g r = send_all-copies g g.player_sessions r

-- The request to a player, with the hand's bounds and his own stack.
abbrev pub request : GameSession → Hand → String → Reply
request g hand id = action_request (record {
  hand_id = hand.id;
  call_amount = call_amount (manager g).store hand id;
  min_raise = hand.min_raise;
  max_raise = (load (manager g).store (get_player (manager g) id)).stack;
})

abbrev pub to_session : Option ℕ → Reply → List (ℕ × Reply)
to_session none r = []
to_session (some s) r = if s == 0 then [] else (s, r) ∷ []

-- What is sent to the player who is to act: a request, if he is at the table and has a session.
pub requests : GameSession → Hand → String → List (ℕ × Reply)
requests g hand id =
    if get_player (manager g) id == null
    then []
    else to_session (session_of g id) (request g hand id)

nothing-sent : (g : GameSession) → g ≡ sent g []
nothing-sent g = ap (λ o. record g { outbox = o }) (sym (append-nil g.outbox))

to_session-sent :
    (g : GameSession) (o : Option ℕ) (r : Reply) → send_to g o r ≡ sent g (to_session o r)
unfolding send_json
to_session-sent g none r = nothing-sent g
to_session-sent g (some s) r = elim (Bool-cases (s == 0)) [
  | inl e ↦ rw e (nothing-sent g)
  | inr e ↦ rw e refl
]

request_with-requests :
    (g : GameSession) (hand : Hand) (id : String)
    → request_with g id (some hand) ≡ sent g (requests g hand id)
unfolding request_with requests
request_with-requests g hand id = elim (Bool-cases (get_player (manager g) id == null)) [
  | inl n ↦ rw n (nothing-sent g)
  | inr n ↦ rw n (to_session-sent g (session_of g id) (request g hand id))
]

pub send_action_request-requests :
    (g : GameSession) (hand : Hand) (id : String)
    → (manager g).table.current_hand ≡ some hand
    → send_action_request g id ≡ sent g (requests g hand id)
unfolding send_action_request
send_action_request-requests g hand id e =
    ap (λ o. request_with g id o) e ∙ request_with-requests g hand id

-- A player at the table with a session that is not null is sent the request.
pub requests-one :
    (g : GameSession) (hand : Hand) (id : String) (s : ℕ)
    → (get_player (manager g) id == null) ≡ false
    → session_of g id ≡ some s
    → (s == 0) ≡ false
    → requests g hand id ≡ (s, request g hand id) ∷ []
unfolding requests
requests-one g hand id s n e z = rw (n, e, z) refl

-- The message about an action, with the player's stack, the pot and the next player as the action leaves them.
abbrev pub announcement : GameSession → Hand → String → String → ℤ → Reply
announcement g hand id action amount = action_applied (record {
  hand_id = hand.id;
  player_id = id;
  action = action;
  amount = amount;
  new_stack = (load (manager g).store (get_player (manager g) id)).stack;
  pot = hand.pot;
  next_player_to_act = id_or_empty (manager g).store hand.current_player_to_act;
})

applied_with-copies :
    (g : GameSession) (hand : Hand) (id action : String) (amount : ℤ)
    → (get_player (manager g) id == null) ≡ false
    → applied_with g id action amount (some hand)
      ≡ sent g (copies g.player_sessions (announcement g hand id action amount))
unfolding applied_with
applied_with-copies g hand id action amount n =
    rw n (broadcast_json-copies g (announcement g hand id action amount))

pub broadcast_action_applied-copies :
    (g : GameSession) (hand : Hand) (id action : String) (amount : ℤ)
    → (manager g).table.current_hand ≡ some hand
    → (get_player (manager g) id == null) ≡ false
    → broadcast_action_applied g id action amount
      ≡ sent g (copies g.player_sessions (announcement g hand id action amount))
unfolding broadcast_action_applied
broadcast_action_applied-copies g hand id action amount e n =
    ap (λ o. applied_with g id action amount o) e ∙ applied_with-copies g hand id action amount n
