-- ===== src/Session/Answered.antt =====
-- Answers to a message, and what the session relies on: the predicates and the steps that handlers share.
use hump.Prelude.{ℕ, ◌≡◌, refl, Bool, true, false, List, ◌==◌, if◌then◌else◌, Result, ok, err}
use hump.Session.{
  GameSession, Reply, Handled, returned, thrown, with_value, manager, with_manager, send_json,
}
use hump.Session.Maps.{IsInverse, IsInverse-same}
use hump.Session.Outbox.{
  Extends, Answers, Sends, Extends-refl, Answers-Extends, Extends-Answers, Answers-send, Sends-send,
}
use hump.Presence.Quiet.{IsQuiet, IsQuiet-steady}
use hump.Presence.Timed.{IsTimed}
use hump.Table.Steady.{IsSteady}
use hump.Table.{TableManager}
use hump.Table.Ownership.{Owns}

-- The maps are each other's inverse, the table manager's players are in the store, the timers wait for the session's
-- times and call what they should, and the grace timers are for players who are gone.
pub record IsSound (g : GameSession) : Type 0 where
  pub inverse : IsInverse g
  pub owned : Owns (manager g)
  pub timed : IsTimed g.players
  pub quiet : IsQuiet g.players

-- A handler has answered, or has thrown with messages at most.
pub record Answered (session : ℕ) (old : List (ℕ × Reply)) (h : GameSession) : Type 0 where
  pub sound : IsSound h
  pub answers : Answers session old h.outbox

abbrev pub IsHandled : ℕ → List (ℕ × Reply) → Handled → Type 0
IsHandled session old (returned h) = Answered session old h
IsHandled session old (thrown e h) = IsSound h × Extends old h.outbox

pub IsSound-Sends : (g h : GameSession) → Sends g h → IsSound g → IsSound h
IsSound-Sends g h s i = record {
  inverse = IsInverse-same g h (s.sessions_kept, s.owners_kept) i.inverse;
  owned = rw s.players_kept i.owned;
  timed = rw s.players_kept i.timed;
  quiet = rw s.players_kept i.quiet;
}

-- Another manager, which owns its players.
pub IsSound-with_manager :
    (g : GameSession) (m : TableManager)
    → IsSound g
    → Owns m
    → IsSteady (manager g) m
    → IsSound (with_manager g m)
IsSound-with_manager g m i o k = record {
  inverse = IsInverse-same g (with_manager g m) (refl, refl) i.inverse;
  owned = o;
  timed = i.timed;
  quiet = IsQuiet-steady g.players (with_manager g m).players refl k i.quiet;
}

-- A reply to the session itself.
pub Answered-send :
    (g : GameSession) (session : ℕ) (r : Reply)
    → (session == 0) ≡ false
    → IsSound g
    → Answered session g.outbox (send_json g session r)
Answered-send g session r n i = record {
  sound = IsSound-Sends g (send_json g session r) (Sends-send g session r) i;
  answers = Answers-send g session r n;
}

pub Answered-Sends :
    {session : ℕ} {old : List (ℕ × Reply)} {h k : GameSession}
    → Answered session old h
    → Sends h k
    → Answered session old k
Answered-Sends {session} {old} {h} {k} a s = record {
  sound = IsSound-Sends h k s a.sound;
  answers = Answers-Extends a.answers s.extends;
}

pub Answered-prefix :
    {session : ℕ} {old mid : List (ℕ × Reply)} {h : GameSession}
    → Extends old mid
    → Answered session mid h
    → Answered session old h
Answered-prefix {session} {old} {mid} {h} e a = record {
  sound = a.sound;
  answers = Extends-Answers e a.answers;
}

-- A value that is thrown leaves everything as it is.
pub with_value-IsHandled {ℓ} :
    {A : Type ℓ} (g : GameSession) (session : ℕ) (v : Result A) (rest : A → Handled)
    → IsSound g
    → ((a : A) → IsHandled session g.outbox (rest a))
    → IsHandled session g.outbox (with_value g v rest)
with_value-IsHandled g session (ok a) rest i h = h a
with_value-IsHandled g session (err e) rest i h = (i, Extends-refl g.outbox)

pub Answered-Extends :
    {session : ℕ} {old : List (ℕ × Reply)} {h : GameSession}
    → Answered session old h
    → Extends old h.outbox
Answered-Extends a = record { news = a.answers.news; added = a.answers.added }

-- A check that answers with an error, in front of the rest.
pub guard-IsHandled :
    (g : GameSession) (session : ℕ) (b : Bool) (r : Reply) (rest : Handled)
    → (session == 0) ≡ false
    → IsSound g
    → IsHandled session g.outbox rest
    → IsHandled session g.outbox (if b then returned (send_json g session r) else rest)
guard-IsHandled g session true r rest n i h = Answered-send g session r n i
guard-IsHandled g session false r rest n i h = h
