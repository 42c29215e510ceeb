-- ===== src/Session/Joined.antt =====
-- `handleJoin` from where the fields are read: what it answers, and what it does to the maps and to the players.
use hump.Prelude.{
  ℕ, ◌≡◌, refl, sym, ap, subst, Bool, false, not, ◌&&◌, List, [], ◌∷◌, ◌++◌, arith, Option, none,
  some, ◌==◌, Bool-cases, inl, inr, length, length-append, if◌then◌else◌, String, str_eq, Result,
  ok, err, ℤ,
}
use hump.Model.{Ptr, null, Player, load, is_connected}
use hump.Model.Store.{length-modify}
use hump.Presence
use hump.Presence.{PlayerStateManager}
use hump.Presence.Timed.{on_reconnect-IsTimed, cancel_timers-AllTimed}
use hump.Session.{
  GameSession, Env, Reply, error_response, join_ack, returned, with_value, manager, with_manager,
  session_of, player_of, send_json, broadcast_json, player_reconnected,
}
use hump.Session.Broadcasts.{broadcast_hand_started, broadcast_player_reconnected}
use hump.Session.Join.{
  rebind, is_elsewhere, reconnected, rejoin, empty_seat, new_player, allocate, start_if_ready,
  seat_player, join_as, join,
}
use hump.Session.Maps.{IsInverse-same}
use hump.Session.Rebind.{rebind-IsInverse, rebind-kept}
use hump.Table.Play.{AllLive-length}
use hump.Session.Outbox.{Extends, broadcast_hand_started-Sends, Sends-broadcast}
use hump.Table.{TableManager, get_player, start_hand, ready_for_hand, assign_seat}
use hump.Table.Steady.{
  start_hand-IsSteady, allocated-IsSteady, assign_seat-IsSteady, IsSteady-trans,
}
use hump.Presence.Quiet.{on_reconnect-IsQuiet}
use hump.Table.Ownership.{Owns, AllLive-le, start_hand-Owns, assign_seat-Owns}
use hump.Session.Answered.{
  IsSound, Answered, IsHandled, IsSound-Sends, IsSound-with_manager, Answered-send, Answered-Sends,
  Answered-prefix,
}

-- The start of a hand behind an answer.
start_if_ready-IsHandled :
    (env : Env) (session : ℕ) (old : List (ℕ × Reply)) (h : GameSession)
    → Answered session old h
    → IsHandled session old (start_if_ready env h)
unfolding start_if_ready
start_if_ready-IsHandled env session old h a = elim (Bool-cases (ready_for_hand (manager h))) [
  | inr e ↦ rw e a
  | inl e ↦ rw e (go (start_hand env.first_order env.second_order env.hand_id (manager h)) refl)
]
  where
    go :
        (v : Result (TableManager × Bool))
        → start_hand env.first_order env.second_order env.hand_id (manager h) ≡ v
        → IsHandled session old (
            with_value h v λ r.
              returned
                (if r.1 then broadcast_hand_started (with_manager h r.0) else with_manager h r.0))
    go (err e) f = (a.sound, record { news = a.answers.news; added = a.answers.added })
    go (ok (m, started)) f =
        let owned =
          start_hand-Owns env.first_order env.second_order env.hand_id (manager h) f
            a.sound.owned in
        let b : Answered session old (with_manager h m) = record {
          sound =
              IsSound-with_manager h m a.sound owned
                (start_hand-IsSteady env.first_order env.second_order env.hand_id (manager h) f);
          answers = a.answers;
        } in
        elim (Bool-cases started) [
          | inl t ↦ rw t (Answered-Sends b (broadcast_hand_started-Sends (with_manager h m)))
          | inr t ↦ rw t b
        ]

allocate-Owns : (m : TableManager) (q : Player) → Owns m → Owns (allocate m q)
allocate-Owns m q o =
    AllLive-le m.store (m.store ++ q ∷ []) m.players
      (omega (arith, length-append {0} m.store (q ∷ []))) o

seat_player-IsHandled :
    (env : Env) (g : GameSession) (session : ℕ) (id name : String) (seat : ℤ)
    → (session == 0) ≡ false
    → IsSound g
    → IsHandled session g.outbox (seat_player env g session id name seat)
unfolding seat_player
seat_player-IsHandled env g session id name seat n i =
    let q = new_player id name seat in
    let m = allocate (manager g) q in
    let r = assign_seat m (length m.store) seat in
    let size = length-append {0} (manager g).store (q ∷ []) in
    let owned =
      assign_seat-Owns m (length m.store) seat (allocate-Owns (manager g) q i.owned)
        (omega (arith, size)) in
    let steady =
      IsSteady-trans (allocated-IsSteady (manager g) q i.owned)
        (assign_seat-IsSteady m (length m.store) seat) in
    let seated = IsSound-with_manager g r.0 i owned steady in
    elim (Bool-cases r.1) [
      | inl e ↦ rw e (
          start_if_ready-IsHandled env session g.outbox _
            (Answered-send (with_manager g r.0) session (join_ack id seat) n seated))
      | inr e ↦ rw e (Answered-send (with_manager g r.0) session _ n seated)
    ]

reconnected-IsSound :
    (g : GameSession) (id : String) (p : Ptr)
    → p ≡ get_player (manager g) id
    → (get_player (manager g) id == null) ≡ false
    → IsSound g
    → IsSound (reconnected g id p)
unfolding Presence.on_reconnect
reconnected-IsSound g id p e n i = record {
  inverse = IsInverse-same g (reconnected g id p) (refl, refl) i.inverse;
  owned =
      AllLive-length (manager g).store (manager (reconnected g id p)).store (manager g).players
        (length-modify _ p (manager g).store) i.owned;
  timed =
      on_reconnect-IsTimed
        (record g.players { timers = Presence.cancel_timers g.players.timers id }) p
        (cancel_timers-AllTimed g.players.grace_time_ms g.players.removal_time_ms g.players.timers
          id i.timed);
  quiet = rw e (on_reconnect-IsQuiet g.players id n i.quiet);
}

rejoin-Answered :
    (g : GameSession) (session : ℕ) (id : String)
    → (session == 0) ≡ false
    → (get_player (manager g) id == null) ≡ false
    → IsSound g
    → Answered session g.outbox (rejoin g session id (get_player (manager g) id))
unfolding rejoin broadcast_player_reconnected
rejoin-Answered g session id n seated i =
    elim (Bool-cases (is_elsewhere (session_of g id) session)) [
      | inl e ↦ rw e (Answered-send g session _ n i)
      | inr e ↦
          let p = get_player (manager g) id in
          let b = rebind g id session in
          let (same_outbox, same_players) = rebind-kept g id session in
          let bound : IsSound b = record {
            inverse = (rebind-IsInverse g id session i.inverse e).0;
            owned = rw same_players i.owned;
            timed = rw same_players i.timed;
            quiet = rw same_players i.quiet;
          } in
          let found : p ≡ get_player (manager b) id =
            ap (λ (t : PlayerStateManager). get_player t.table_manager id) (sym same_players) in
          let r = reconnected b id p in
          let h = broadcast_json r (player_reconnected id) in
          let s = Sends-broadcast r (player_reconnected id) in
          let sound =
            IsSound-Sends r h s (reconnected-IsSound b id p found (rw (← found) seated) bound) in
          rw e (
            Answered-prefix (subst (λ t. Extends t h.outbox) same_outbox s.extends)
              (Answered-send h session _ n sound))
    ]

join_as-IsHandled :
    (env : Env) (g : GameSession) (session : ℕ) (name : String) (o : Option String)
    → (session == 0) ≡ false
    → IsSound g
    → IsHandled session g.outbox (join_as env g session name o)
unfolding join_as
join_as-IsHandled env g session name none n i = Answered-send g session _ n i
join_as-IsHandled env g session name (some id) n i =
    elim (Bool-cases (get_player (manager g) id == null)) [
      | inr e ↦ rw e (Answered-send g session _ n i)
      | inl e ↦ rw e (go (empty_seat (manager g)))
    ]
  where
    go :
        (o : Option ℤ)
        → IsHandled session g.outbox (elim o [
          | none ↦
              returned
                (send_json g session (error_response "table_full" "No empty seats available"))
          | some seat ↦ seat_player env g session id name seat
        ])
    go none = Answered-send g session _ n i
    go (some seat) = seat_player-IsHandled env g session id name seat n i

pub join-IsHandled :
    (env : Env) (g : GameSession) (session : ℕ) (name provided : String)
    → (session == 0) ≡ false
    → IsSound g
    → IsHandled session g.outbox (join env g session name provided)
unfolding join
join-IsHandled env g session name provided n i =
    elim (Bool-cases (
      not (str_eq provided "")
      && not (get_player (manager g) provided == null)
      && not (
          is_connected
            (load (manager g).store (get_player (manager g) provided)).connection_status))) [
              | inl e ↦ rw e (rejoin-Answered g session provided n (ground (arith, e)) i)
              | inr e ↦ rw e (join_as-IsHandled env g session name (player_of g session) n i)
            ]
