-- ===== src/Presence/Late.antt =====
-- A handler that runs late: the player is back, and his grace timer's handler was queued before.
use hump.Prelude.{◌≡◌, refl, ◌∙◌, ap, true, false, [], ◌∷◌, none, some, ◌==◌, String}
use hump.Model.{Ptr, null, Player, load, connected}
use hump.Model.Store.{IsLive, load-modify_self, modify-IsLive}
use hump.Presence.{
  Timer, PlayerTimers, timers_at, grace_timer_expired, player_removed, find_timers, cancel_timers,
  start_removal_timer, PlayerStateManager, on_reconnect, on_grace_timer_expired, is_active, call,
  fire, fire_grace, run_from, run_next,
}
use hump.Presence.Lookup.{find-erase_self}
use hump.Presence.Restored.{get_player-id}
use hump.Presence.Timers.{find-put_self}
use hump.Table.{TableManager, get_player}
use hump.Table.Seats.{find_player-modify}

-- The timers that the player has when the handler has run.
abbrev pub removal_only : PlayerStateManager → PlayerTimers
removal_only s = record {
  grace_timer = none;
  removal_timer =
      some (record { wait_ms = s.removal_time_ms; on_expiry = player_removed; armed = true });
}

fire_grace-armed :
    (s : PlayerStateManager) (id : String) (t : Timer)
    → (timers_at s.timers id).grace_timer ≡ some t
    → t.armed ≡ true
    → t.on_expiry ≡ grace_timer_expired
    → s.queued ≡ []
    → let s' = fire_grace s id in
      (s'.queued ≡ (id, grace_timer_expired) ∷ [])
      × (s'.table_manager ≡ s.table_manager)
      × (s'.removal_time_ms ≡ s.removal_time_ms)
unfolding fire_grace fire
fire_grace-armed s id t e a c q = rw (e, a, c, q) (refl, refl, refl)

-- The player at the table whom the id finds.
abbrev Finds : PlayerStateManager → String → Ptr → Type 0
Finds s id p =
    (get_player s.table_manager id ≡ p) × ((p == null) ≡ false) × IsLive s.table_manager.store p

-- The handler runs when he is at the table, without timers.
run_late :
    (s : PlayerStateManager) (id : String) (p : Ptr)
    → s.queued ≡ (id, grace_timer_expired) ∷ []
    → Finds s id p
    → find_timers s.timers id ≡ none
    → (load (run_next s).table_manager.store p
        ≡ record (load s.table_manager.store p) { is_sitting_out = true })
      × (find_timers (run_next s).timers id ≡ some (removal_only s))
unfolding run_next run_from call on_grace_timer_expired start_removal_timer
run_late s id p q (found, n, l) free =
    rw (q, found, n, timers_at, free)
      (load-modify_self _ p s.table_manager.store l, find-put_self s.timers id (removal_only s))

returned-Finds :
    (s : PlayerStateManager) (id : String) (p : Ptr) → Finds s id p → Finds (on_reconnect s p) id p
unfolding on_reconnect get_player
returned-Finds s id p (found, n, l) = (
  find_player-modify _ (λ q. refl) p s.table_manager.store s.table_manager.players id ∙ found,
  n,
  modify-IsLive _ p {st = s.table_manager.store} {q = p} l,
)

returned-facts :
    (s : PlayerStateManager) (id : String) (p : Ptr)
    → Finds s id p
    → let r = on_reconnect s p in
      (load r.table_manager.store p ≡ record (load s.table_manager.store p) {
        connection_status = connected;
        disconnected_at = none;
        is_sitting_out = false;
      })
      × (find_timers r.timers id ≡ none)
unfolding on_reconnect cancel_timers
returned-facts s id p (found, n, l) =
    let named : (load s.table_manager.store p).id ≡ id =
      rw found at (get_player-id s.table_manager id (rw found n)) in
    (load-modify_self _ p s.table_manager.store l, rw named (find-erase_self s.timers id))

-- The bug: the grace timer of a player at the table fires, its handler is queued on an empty queue, and the
-- player comes back before it runs. The cancelling comes too late: when the handler runs, he is connected, and is made
-- to sit out all the same, so he is not active, and the removal timer runs for him.
pub run_next-late :
    (s : PlayerStateManager) (id : String) (t : Timer)
    → (get_player s.table_manager id == null) ≡ false
    → IsLive s.table_manager.store (get_player s.table_manager id)
    → (timers_at s.timers id).grace_timer ≡ some t
    → t.armed ≡ true
    → t.on_expiry ≡ grace_timer_expired
    → s.queued ≡ []
    → let p = get_player s.table_manager id in
      let s' = run_next (on_reconnect (fire_grace s id) p) in
      (load s'.table_manager.store p ≡ record (load s.table_manager.store p) {
        connection_status = connected;
        disconnected_at = none;
        is_sitting_out = true;
      })
      × (is_active (load s'.table_manager.store p) ≡ false)
      × (find_timers s'.timers id ≡ some (removal_only s))
unfolding is_active
run_next-late s id t n l e a c q =
    let p = get_player s.table_manager id in
    let f = fire_grace s id in
    let (queued, kept, time) = fire_grace-armed s id t e a c q in
    let finds : Finds f id p = (ap (λ m. get_player m id) kept, n, rw kept l) in
    let (back, free) = returned-facts f id p finds in
    let r = on_reconnect f p in
    let (state, removal) =
      run_late r id p (unfold on_reconnect in queued) (returned-Finds f id p finds) free in
    let now =
      state
      ∙ ap (λ (x : Player). record x { is_sitting_out = true }) back
      ∙ ap
          (λ (m : TableManager). record (load m.store p) {
            connection_status = connected;
            disconnected_at = none;
            is_sitting_out = true;
          })
          kept in
    let waits : removal_only r ≡ removal_only s = unfold on_reconnect in rw time refl in
    (now, ap is_active now, removal ∙ ap some waits)
