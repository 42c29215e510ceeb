-- ===== src/Session/Outbox.antt =====
-- What is added to the outbox, and who finds a message in it.
use mathlib.Core.List.{append_assoc, append-nil}
use hump.Prelude.{
  ℤ, ℕ, ◌≡◌, refl, sym, ◌∙◌, ap, inl, inr, false, List, [], ◌∷◌, ◌++◌, arith, Option, none, some,
  ◌==◌, Bool-cases, String, str_eq, Result, ok, err,
}
use hump.Model.{Ptr, null, Hand}
use hump.Ranking.Evaluation.{Any}
use hump.Table.{get_player}
use hump.Session.{
  GameSession, Reply, Handled, returned, state, with_value, manager, find, send_json, send_all,
  broadcast_json, session_of,
}
use hump.Session.Broadcasts.{
  started_with, broadcast_hand_started, send_to, request_with, send_action_request, applied_with,
  broadcast_action_applied, winners_of, completed_reply, completed_with, broadcast_hand_completed,
}

-- Messages are added behind those that are there.
pub record Extends (old new : List (ℕ × Reply)) : Type 0 where
  pub news : List (ℕ × Reply)
  pub added : new ≡ old ++ news

-- And one of them is for the session.
pub record Answers (session : ℕ) (old new : List (ℕ × Reply)) : Type 0 where
  pub news : List (ℕ × Reply)
  pub added : new ≡ old ++ news
  pub answered : Any (λ m. m.0 ≡ session) news

Any-left {ℓ} : {A : Type ℓ} (P : A → Type 0) (xs ys : List A) → Any P xs → Any P (xs ++ ys)
Any-left P [] ys h = elim h [ ]
Any-left P (x ∷ xs) ys (inl h) = inl h
Any-left P (x ∷ xs) ys (inr h) = inr (Any-left P xs ys h)

Any-right {ℓ} : {A : Type ℓ} (P : A → Type 0) (xs ys : List A) → Any P ys → Any P (xs ++ ys)
Any-right P [] ys h = h
Any-right P (x ∷ xs) ys h = inr (Any-right P xs ys h)

pub Extends-refl : (old : List (ℕ × Reply)) → Extends old old
Extends-refl old = record { news = []; added = sym (append-nil old) }

joined :
    (old xs ys : List (ℕ × Reply)) {mid new : List (ℕ × Reply)}
    → mid ≡ old ++ xs
    → new ≡ mid ++ ys
    → new ≡ old ++ (xs ++ ys)
joined old xs ys e f = f ∙ ap (λ t. t ++ ys) e ∙ append_assoc old xs ys

pub Extends-trans :
    {old mid new : List (ℕ × Reply)} → Extends old mid → Extends mid new → Extends old new
Extends-trans {old} {mid} {new} a b = record {
  news = a.news ++ b.news;
  added = joined old a.news b.news a.added b.added;
}

-- An answer stays one, whatever is sent after it or before.
pub Answers-Extends :
    {session : ℕ} {old mid new : List (ℕ × Reply)}
    → Answers session old mid
    → Extends mid new
    → Answers session old new
Answers-Extends {session} {old} {mid} {new} a b = record {
  news = a.news ++ b.news;
  added = joined old a.news b.news a.added b.added;
  answered = Any-left (λ m. m.0 ≡ session) a.news b.news a.answered;
}

pub Extends-Answers :
    {session : ℕ} {old mid new : List (ℕ × Reply)}
    → Extends old mid
    → Answers session mid new
    → Answers session old new
Extends-Answers {session} {old} {mid} {new} a b = record {
  news = a.news ++ b.news;
  added = joined old a.news b.news a.added b.added;
  answered = Any-right (λ m. m.0 ≡ session) a.news b.news b.answered;
}

pub Answers-send :
    (g : GameSession) (session : ℕ) (r : Reply)
    → (session == 0) ≡ false
    → Answers session g.outbox (send_json g session r).outbox
unfolding send_json
Answers-send g session r n =
    rw n (record { news = (session, r) ∷ []; added = refl; answered = inl refl })

-- Messages are sent, and nothing else happens.
pub record Sends (g h : GameSession) : Type 0 where
  pub players_kept : h.players ≡ g.players
  pub sessions_kept : h.player_sessions ≡ g.player_sessions
  pub owners_kept : h.session_to_player ≡ g.session_to_player
  pub extends : Extends g.outbox h.outbox

pub Sends-refl : (g : GameSession) → Sends g g
Sends-refl g = record {
  players_kept = refl;
  sessions_kept = refl;
  owners_kept = refl;
  extends = Extends-refl g.outbox;
}

pub Sends-trans : {g h k : GameSession} → Sends g h → Sends h k → Sends g k
Sends-trans {g} {h} {k} a b = record {
  players_kept = b.players_kept ∙ a.players_kept;
  sessions_kept = b.sessions_kept ∙ a.sessions_kept;
  owners_kept = b.owners_kept ∙ a.owners_kept;
  extends = Extends-trans a.extends b.extends;
}

pub Sends-send : (g : GameSession) (session : ℕ) (r : Reply) → Sends g (send_json g session r)
unfolding send_json
Sends-send g session r = elim (Bool-cases (session == 0)) [
  | inl e ↦ rw e (Sends-refl g)
  | inr e ↦ rw e (record {
    players_kept = refl;
    sessions_kept = refl;
    owners_kept = refl;
    extends = record { news = (session, r) ∷ []; added = refl };
  })
]

Sends-all : (g : GameSession) (l : List (String × ℕ)) (r : Reply) → Sends g (send_all g l r)
unfolding send_all
Sends-all g [] r = Sends-refl g
Sends-all g ((id, s) ∷ l) r = Sends-trans (Sends-send g s r) (Sends-all (send_json g s r) l r)

pub Sends-broadcast : (g : GameSession) (r : Reply) → Sends g (broadcast_json g r)
unfolding broadcast_json
Sends-broadcast g r = Sends-all g g.player_sessions r

Answers-all :
    (g : GameSession) (l : List (String × ℕ)) (r : Reply) (id : String) (session : ℕ)
    → (session == 0) ≡ false
    → find str_eq l id ≡ some session
    → Answers session g.outbox (send_all g l r).outbox
unfolding send_all find
Answers-all g [] r id session n e = cc
Answers-all g ((k, s) ∷ l) r id session n e = elim (Bool-cases (str_eq k id)) [
  | inl t ↦
      let same : s ≡ session = let e' = rw t at e in ground (arith, e') in
      Answers-Extends (rw same (Answers-send g session r n))
        (Sends-all (send_json g s r) l r).extends
  | inr t ↦
      Extends-Answers (Sends-send g s r).extends
        (Answers-all (send_json g s r) l r id session n (rw t at e))
]

-- A broadcast reaches each registered player's session.
pub Answers-broadcast :
    (g : GameSession) (r : Reply) (id : String) (session : ℕ)
    → (session == 0) ≡ false
    → session_of g id ≡ some session
    → Answers session g.outbox (broadcast_json g r).outbox
unfolding broadcast_json
Answers-broadcast g r id session n e = Answers-all g g.player_sessions r id session n e

started-Sends : (g : GameSession) (o : Option Hand) → Sends g (started_with g o)
unfolding started_with
started-Sends g none = Sends-refl g
started-Sends g (some hand) = Sends-broadcast g _

pub broadcast_hand_started-Sends : (g : GameSession) → Sends g (broadcast_hand_started g)
unfolding broadcast_hand_started
broadcast_hand_started-Sends g = started-Sends g _

send_to-Sends : (g : GameSession) (o : Option ℕ) (r : Reply) → Sends g (send_to g o r)
send_to-Sends g none r = Sends-refl g
send_to-Sends g (some s) r = Sends-send g s r

request-Sends : (g : GameSession) (id : String) (o : Option Hand) → Sends g (request_with g id o)
unfolding request_with
request-Sends g id none = Sends-refl g
request-Sends g id (some hand) = elim (Bool-cases (get_player (manager g) id == null)) [
  | inl e ↦ rw e (Sends-refl g)
  | inr e ↦ rw e (send_to-Sends g _ _)
]

pub send_action_request-Sends : (g : GameSession) (id : String) → Sends g (send_action_request g id)
unfolding send_action_request
send_action_request-Sends g id = request-Sends g id _

applied-Sends :
    (g : GameSession) (id action : String) (amount : ℤ) (o : Option Hand)
    → Sends g (applied_with g id action amount o)
unfolding applied_with
applied-Sends g id action amount none = Sends-refl g
applied-Sends g id action amount (some hand) =
    elim (Bool-cases (get_player (manager g) id == null)) [
      | inl e ↦ rw e (Sends-refl g)
      | inr e ↦ rw e (Sends-broadcast g _)
    ]

pub broadcast_action_applied-Sends :
    (g : GameSession) (id action : String) (amount : ℤ)
    → Sends g (broadcast_action_applied g id action amount)
unfolding broadcast_action_applied
broadcast_action_applied-Sends g id action amount = applied-Sends g id action amount _

-- A value that may be thrown before the rest.
pub with_value-Sends {ℓ} :
    {A : Type ℓ} (g : GameSession) (v : Result A) (rest : A → Handled)
    → ((a : A) → Sends g (state (rest a)))
    → Sends g (state (with_value g v rest))
with_value-Sends g (ok a) rest h = h a
with_value-Sends g (err e) rest h = Sends-refl g

completed-Sends : (g : GameSession) (o : Option Hand) → Sends g (state (completed_with g o))
unfolding completed_with
completed-Sends g none = Sends-refl g
completed-Sends g (some hand) =
    let st = (manager g).store in
    with_value-Sends {A = List Ptr} g (winners_of st hand)
      (λ ws. returned (broadcast_json g (completed_reply st hand ws)))
      λ ws. Sends-broadcast g (completed_reply st hand ws)

pub broadcast_hand_completed-Sends :
    (g : GameSession) → Sends g (state (broadcast_hand_completed g))
unfolding broadcast_hand_completed
broadcast_hand_completed-Sends g = completed-Sends g _
