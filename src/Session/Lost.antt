-- ===== src/Session/Lost.antt =====
-- The loss of a connection, and the state that it leaves.
use hump.Prelude.{ℕ, ◌≡◌, false, Option, none, some, ◌==◌, Bool-cases, inl, inr, String}
use hump.Model.{null}
use hump.Model.Store.{length-modify}
use hump.Presence
use hump.Presence.Quiet.{IsQuiet, on_disconnect-IsQuiet}
use hump.Table.Play.{get_player-IsLive}
use hump.Presence.Timed.{IsTimed, on_disconnect-IsTimed}
use hump.Presence.{
  Callback, grace_timer_expired, player_removed, Timer, TimerMap, PlayerStateManager, tell_removed,
  on_grace_timer_expired, call, fire, fire_grace, fire_removal, timers_at,
}
use hump.Session.{
  GameSession, manager, session_of, player_of, remove_found, remove_session, disconnect_player,
  disconnect_found, on_disconnect,
}
use hump.Session.Answered.{IsSound}
use hump.Session.Maps.{on_disconnect-IsInverse}
use hump.Session.Outbox.{Sends-broadcast}
use hump.Table.{get_player}
use hump.Table.Ownership.{Owns}
use hump.Table.Play.{AllLive-length}

lost_player-Owns :
    (now : ℕ) (g : GameSession) (id : String)
    → Owns (manager g)
    → Owns (manager (disconnect_player now g id))
unfolding disconnect_player Presence.on_disconnect
lost_player-Owns now g id o =
    let p = get_player (manager g) id in
    elim (Bool-cases (p == null)) [
      | inl e ↦ rw e o
      | inr e ↦
          let h = record g { players = Presence.on_disconnect now g.players p } in
          let n = length-modify _ p (manager g).store in
          rw (e, (Sends-broadcast h _).players_kept)
            (AllLive-length (manager g).store (manager h).store (manager g).players n o)
    ]

lost_found-Owns :
    (now : ℕ) (g : GameSession) (o : Option String)
    → Owns (manager g)
    → Owns (manager (disconnect_found now g o))
unfolding disconnect_found remove_session remove_found
lost_found-Owns now g none k = k
lost_found-Owns now g (some id) k =
    lost_player-Owns now (remove_found g id (session_of g id)) id (go (session_of g id))
  where
    go : (s : Option ℕ) → Owns (manager (remove_found g id s))
    go none = k
    go (some s) = k

lost_player-IsTimed :
    (now : ℕ) (g : GameSession) (id : String)
    → IsTimed g.players
    → IsTimed (disconnect_player now g id).players
unfolding disconnect_player
lost_player-IsTimed now g id t = elim (Bool-cases (get_player (manager g) id == null)) [
  | inl e ↦ rw e t
  | inr e ↦
      rw
        (
          e,
          (Sends-broadcast
              (record g {
                players = Presence.on_disconnect now g.players (get_player (manager g) id);
              })
              _).players_kept,
        )
        (on_disconnect-IsTimed now g.players (get_player (manager g) id) t)
]

lost_found-IsTimed :
    (now : ℕ) (g : GameSession) (o : Option String)
    → IsTimed g.players
    → IsTimed (disconnect_found now g o).players
unfolding disconnect_found remove_session remove_found
lost_found-IsTimed now g none t = t
lost_found-IsTimed now g (some id) t =
    lost_player-IsTimed now (remove_found g id (session_of g id)) id (go (session_of g id))
  where
    go : (s : Option ℕ) → IsTimed (remove_found g id s).players
    go none = t
    go (some s) = t

lost_player-IsQuiet :
    (now : ℕ) (g : GameSession) (id : String)
    → Owns (manager g)
    → IsQuiet g.players
    → IsQuiet (disconnect_player now g id).players
unfolding disconnect_player
lost_player-IsQuiet now g id o q = elim (Bool-cases (get_player (manager g) id == null)) [
  | inl e ↦ rw e q
  | inr e ↦
      let h = record g {
        players = Presence.on_disconnect now g.players (get_player (manager g) id);
      } in
      rw (e, (Sends-broadcast h _).players_kept)
        (on_disconnect-IsQuiet now g.players id e (get_player-IsLive (manager g) id o e) q)
]

lost_found-IsQuiet :
    (now : ℕ) (g : GameSession) (o : Option String)
    → Owns (manager g)
    → IsQuiet g.players
    → IsQuiet (disconnect_found now g o).players
unfolding disconnect_found remove_session remove_found
lost_found-IsQuiet now g none o q = q
lost_found-IsQuiet now g (some id) o q = go (session_of g id)
  where
    go : (s : Option ℕ) → IsQuiet (disconnect_player now (remove_found g id s) id).players
    go none = lost_player-IsQuiet now g id o q
    go (some s) = lost_player-IsQuiet now (remove_found g id (some s)) id o q

pub loses-IsSound :
    (now : ℕ) (g : GameSession) (session : ℕ)
    → (session == 0) ≡ false
    → IsSound g
    → IsSound (on_disconnect now g session)
unfolding on_disconnect
loses-IsSound now g session n i = record {
  inverse = (on_disconnect-IsInverse now g session n i.inverse).0;
  owned = rw n (lost_found-Owns now g (player_of g session) i.owned);
  timed = rw n (lost_found-IsTimed now g (player_of g session) i.timed);
  quiet = rw n (lost_found-IsQuiet now g (player_of g session) i.owned i.quiet);
}
