-- ===== src/Session/Rebind.antt =====
-- The maps when a player comes back with a new session.
use hump.Prelude.{
  ℕ, ◌≡◌, ◌≢◌, refl, sym, ◌∙◌, ◌⊎◌, inl, inr, false, arith, Option, none, some, ◌==◌, ==_iff,
  Bool-cases, String, str_eq, eq_iff,
}
use hump.Session.{GameSession, session_of, player_of, remove_found, register_session}
use hump.Session.Join.{unbind, rebind, is_elsewhere}
use hump.Session.Maps.{
  IsInverse, remove_found-IsInverse, find-erase_self, find-erase_ne, register_session-IsInverse,
}

-- A player who is nowhere else has no session, or this one.
not_elsewhere :
    (g : GameSession) (id : String) (session : ℕ) (o : Option ℕ)
    → session_of g id ≡ o
    → is_elsewhere o session ≡ false
    → IsInverse g
    → (session_of g id ≡ none) ⊎ (player_of g session ≡ some id)
not_elsewhere g id session none e h i = inl e
not_elsewhere g id session (some s) e h i =
    let same : s ≡ session = ground (arith, h) in inr (rw same at (i.there id s e))

unbind-IsInverse :
    (g : GameSession) (id : String) (session : ℕ) (o : Option String)
    → player_of g session ≡ o
    → (session_of g id ≡ none) ⊎ (player_of g session ≡ some id)
    → IsInverse g
    → let u = unbind g session o in
      IsInverse u × (session_of u id ≡ none) × (player_of u session ≡ none)
unfolding unbind
unbind-IsInverse g id session none e (inl f) i = (i, f, e)
unbind-IsInverse g id session none e (inr f) i = absurd (let c = sym e ∙ f in cc)
unbind-IsInverse g id session (some old) e h i =
    let owner = i.back session old e in
    (
      unfold remove_found in remove_found-IsInverse g old session i owner,
      elim (Bool-cases (str_eq old id)) [
        | inl t ↦
            let same = (eq_iff old id).0 t in
            rw (← same) (find-erase_self str_eq eq_iff g.player_sessions old)
        | inr t ↦
            let other : old ≢ id = λ q. let c = (eq_iff old id).1 q in cc in
            find-erase_ne str_eq eq_iff g.player_sessions old id other
            ∙ elim h [ inl f ↦ f | inr f ↦ absurd (other (let c = sym e ∙ f in ground (arith, c))) ]
      ],
      find-erase_self (λ a b. a == b) ==_iff g.session_to_player session,
    )

-- The player's session is the new one, the session's player is he, and the maps are inverse still.
pub rebind-IsInverse :
    (g : GameSession) (id : String) (session : ℕ)
    → IsInverse g
    → is_elsewhere (session_of g id) session ≡ false
    → IsInverse (rebind g id session)
      × (player_of (rebind g id session) session ≡ some id)
      × (session_of (rebind g id session) id ≡ some session)
unfolding rebind
rebind-IsInverse g id session i h =
    let o = player_of g session in
    let (u, a, b) =
      unbind-IsInverse g id session o refl (not_elsewhere g id session (session_of g id) refl h i)
        i in
    register_session-IsInverse (unbind g session o) id session u a b

unbind-kept :
    (g : GameSession) (session : ℕ) (o : Option String)
    → ((unbind g session o).outbox ≡ g.outbox) × ((unbind g session o).players ≡ g.players)
unfolding unbind
unbind-kept g session none = (refl, refl)
unbind-kept g session (some old) = (refl, refl)

-- Nothing but the maps is changed.
pub rebind-kept :
    (g : GameSession) (id : String) (session : ℕ)
    → ((rebind g id session).outbox ≡ g.outbox) × ((rebind g id session).players ≡ g.players)
unfolding rebind register_session
rebind-kept g id session = unbind-kept g session (player_of g session)
