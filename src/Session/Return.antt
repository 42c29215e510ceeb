-- ===== src/Session/Return.antt =====
-- A player whose connection is lost and who joins again from another one.
use hump.Prelude.{
  ℕ, ◌≡◌, refl, ◌∙◌, ap, false, List, [], ◌∷◌, ◌++◌, none, some, ◌==◌, String, str_eq, eq_iff,
}
use hump.Model.{Ptr, null, Player, load, connected, is_connected}
use hump.Presence
use hump.Presence.{
  TimerMap, PlayerTimers, PlayerStateManager, find_timers, put_timers, erase_timers,
  start_grace_timer, cancel_timers, on_reconnect, grace_timer_expired,
}
use hump.Presence.Restored.{return, return-Restored, lost-facts, get_player-id}
use hump.Session.{
  GameSession, Env, Reply, find, join_ack, player_reconnected, returned, manager, session_of,
  player_of, send_json, broadcast_json, remove_found, remove_session, disconnect_player,
  disconnect_found, on_disconnect,
}
use hump.Session.Broadcasts.{broadcast_player_reconnected}
use hump.Session.Join.{rebind, is_elsewhere, reconnected, rejoin, join}
use hump.Session.Maps.{IsInverse, find-erase_self, on_disconnect-IsInverse}
use hump.Session.Outbox.{Sends-broadcast, Sends-send}
use hump.Session.Rebind.{rebind-IsInverse, rebind-kept}
use hump.Table.{get_player}
use hump.Table.Ownership.{Owns}
use hump.Table.Play.{get_player-IsLive}

-- The loss of a connection: the player's session goes, and his state is the disconnected one.
disconnect_player-facts :
    (now : ℕ) (g : GameSession) (id : String)
    → (get_player (manager g) id == null) ≡ false
    → let h = disconnect_player now g id in
      (h.players ≡ Presence.on_disconnect now g.players (get_player (manager g) id))
      × (h.player_sessions ≡ g.player_sessions)
unfolding disconnect_player
disconnect_player-facts now g id n =
    rw n ((Sends-broadcast _ _).players_kept, (Sends-broadcast _ _).sessions_kept)

on_disconnect-facts :
    (now : ℕ) (g : GameSession) (session : ℕ) (id : String)
    → (session == 0) ≡ false
    → IsInverse g
    → player_of g session ≡ some id
    → (get_player (manager g) id == null) ≡ false
    → let h = on_disconnect now g session in
      (h.players ≡ Presence.on_disconnect now g.players (get_player (manager g) id))
      × (session_of h id ≡ none)
unfolding on_disconnect disconnect_found remove_session remove_found
on_disconnect-facts now g session id n i owner seated =
    let removed = remove_found g id (some session) in
    let (same, kept) = disconnect_player-facts now removed id seated in
    rw (n, owner, i.back session id owner)
      (same, ap (λ m. find str_eq m id) kept ∙ find-erase_self str_eq eq_iff g.player_sessions id)

-- The way back: the session is the player's, he is connected, and he is told his seat at the end.
record Rejoined (g : GameSession) (id : String) (session : ℕ) (p : Ptr) (h : GameSession)
    : Type 0 where
  played :
      h.players ≡ on_reconnect (record g.players { timers = cancel_timers g.players.timers id }) p
  owner : player_of h session ≡ some id
  back : session_of h id ≡ some session
  sent : List (ℕ × Reply)
  told : h.outbox ≡ sent ++ (session, join_ack id (load (manager h).store p).seat) ∷ []

rejoin-Rejoined :
    (g : GameSession) (id : String) (session : ℕ) (p : Ptr)
    → (session == 0) ≡ false
    → IsInverse g
    → session_of g id ≡ none
    → Rejoined g id session p (rejoin g session id p)
unfolding rejoin broadcast_player_reconnected
rejoin-Rejoined g id session p n i free =
    let elsewhere : is_elsewhere (session_of g id) session ≡ false = rw free refl in
    let b = rebind g id session in
    let (inverse, owner, back) = rebind-IsInverse g id session i elsewhere in
    let (same_outbox, same_players) = rebind-kept g id session in
    let r = reconnected b id p in
    let h = broadcast_json r (player_reconnected id) in
    let s = Sends-broadcast r (player_reconnected id) in
    let ack = join_ack id (load (manager h).store p).seat in
    let t = Sends-send h session ack in
    rw elsewhere (record {
      played =
          t.players_kept
          ∙ s.players_kept
          ∙ ap (λ q. on_reconnect (record q { timers = cancel_timers q.timers id }) p) same_players;
      owner = ap (λ m. find (λ x y. x == y) m session) (t.owners_kept ∙ s.owners_kept) ∙ owner;
      back = ap (λ m. find str_eq m id) (t.sessions_kept ∙ s.sessions_kept) ∙ back;
      sent = h.outbox;
      told = unfold send_json in rw n refl;
    })

-- In a game session whose two maps are each other's inverse and whose table manager's players are in the store: a
-- player of the table, from a connection that is not null, loses it and joins again, by his id, which is not empty,
-- from another one that is not null, whatever name he gives then, before a timer's handler runs. He is in his seat with all
-- that he had, his cards and stack included, connected and taking part; the table is as before; his timers are cancelled, and
-- the others are as before; the maps lead from the new connection to him and back; and the last message sent tells
-- the new connection his seat.
pub rejoin-on_disconnect :
    (env : Env) (now : ℕ) (g : GameSession) (old new : ℕ) (id name : String)
    → (old == 0) ≡ false
    → (new == 0) ≡ false
    → str_eq id "" ≡ false
    → IsInverse g
    → Owns (manager g)
    → player_of g old ≡ some id
    → (get_player (manager g) id == null) ≡ false
    → let p = get_player (manager g) id in
      (h : GameSession) × (join env (on_disconnect now g old) new name id ≡ returned h)
      × (player_of h new ≡ some id)
      × (session_of h id ≡ some new)
      × ((manager h).table ≡ (manager g).table)
      × ((manager h).players ≡ (manager g).players)
      × (h.players.timers ≡ cancel_timers g.players.timers id)
      × (load (manager h).store p ≡ record (load (manager g).store p) {
        connection_status = connected;
        disconnected_at = none;
        is_sitting_out = false;
      })
      × (sent : List (ℕ × Reply)) × (h.outbox
          ≡ sent ++ (new, join_ack id (load (manager g).store p).seat) ∷ [])
unfolding join
rejoin-on_disconnect env now g old new id name o n named inverse owned owner seated =
    let p = get_player (manager g) id in
    let gone = on_disconnect now g old in
    let (lost, nowhere) = on_disconnect-facts now g old id o inverse owner seated in
    let live = get_player-IsLive (manager g) id owned seated in
    let (same, apart) = lost-facts now g.players p id live in
    let found : get_player (manager gone) id ≡ p =
      ap (λ (q : PlayerStateManager). get_player q.table_manager id) lost ∙ same in
    let away : is_connected (load (manager gone).store p).connection_status ≡ false =
      ap (λ (q : PlayerStateManager). is_connected (load q.table_manager.store p).connection_status)
        lost
      ∙ apart in
    let r =
      rejoin-Rejoined gone id new p n (on_disconnect-IsInverse now g old o inverse).0 nowhere in
    let h = rejoin gone new id p in
    let played : h.players ≡ return now g.players id p =
      r.played ∙ ap (λ q. on_reconnect (record q { timers = cancel_timers q.timers id }) p) lost in
    let b = return-Restored now g.players id p live (get_player-id (manager g) id seated) in
    let state = ap (λ (q : PlayerStateManager). load q.table_manager.store p) played ∙ b.state in
    (
      h,
      rw (named, found, seated, away) refl,
      r.owner,
      r.back,
      ap (λ (q : PlayerStateManager). q.table_manager.table) played ∙ b.table,
      ap (λ (q : PlayerStateManager). q.table_manager.players) played ∙ b.players,
      ap (λ (q : PlayerStateManager). q.timers) played ∙ b.timers,
      state,
      r.sent,
      r.told ∙ ap (λ (q : Player). r.sent ++ (new, join_ack id q.seat) ∷ []) state,
    )
