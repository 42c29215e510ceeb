-- ===== src/Presence/Examples.antt =====
-- Runs of the connection's events, and the theorems at inputs.
use hump.Prelude.{◌≡◌, refl, true, false, List, [], ◌∷◌, arith, none, some, pos}
use hump.Model.{load, modify, connected}
use hump.Model.Samples.{two_players}
use hump.Table.{new, get_player, find_player}
use hump.Presence.{
  PlayerStateManager, on_disconnect, on_reconnect, is_active, Event, disconnects, grace_fires,
  removal_fires, handler_runs, run_from, run_next, run, step, fire, fire_grace, fire_removal, call,
  on_grace_timer_expired, tell_removed, start_grace_timer, start_removal_timer, put_timers,
  find_timers, no_map, cancel_all, destroy, grace_timer_expired, player_removed,
}
use hump.Presence.Late.{removal_only, run_next-late}
use hump.Presence.Timers.{Same, run-Same}

abbrev seated : PlayerStateManager
seated = record {
  table_manager = record {
    table = record (new "t").table { seat_1 = 1; seat_2 = 2 };
    players = 1 ∷ 2 ∷ [];
    store = two_players;
  };
  timers = [];
  grace_time_ms = pos 30000;
  removal_time_ms = pos 60000;
  removed_messages = [];
  queued = [];
}

abbrev ann_is_lost : List Event
ann_is_lost =
    disconnects 5 1 ∷ grace_fires "ann" ∷ handler_runs ∷ removal_fires "ann" ∷ handler_runs ∷ []

-- The clients are told of a removal that does not happen.
removal_is_told : (run seated ann_is_lost).removed_messages ≡ "ann" ∷ []
unfolding run step on_disconnect fire fire_grace fire_removal run_from run_next call
    on_grace_timer_expired tell_removed start_grace_timer start_removal_timer put_timers find_timers
    get_player find_player load modify
removal_is_told = refl

run_next-late_example :
    let s = on_disconnect 5 seated 1 in
    let s' = run_next (on_reconnect (fire_grace s "ann") 1) in
    (load s'.table_manager.store 1 ≡ record (load s.table_manager.store 1) {
      connection_status = connected;
      disconnected_at = none;
      is_sitting_out = true;
    })
    × (is_active (load s'.table_manager.store 1) ≡ false)
    × (find_timers s'.timers "ann" ≡ some (removal_only s))
unfolding on_disconnect start_grace_timer put_timers find_timers get_player find_player load modify
run_next-late_example =
    run_next-late (on_disconnect 5 seated 1) "ann"
      (record { wait_ms = pos 30000; on_expiry = grace_timer_expired; armed = true }) refl
      (omega arith) refl refl refl refl

run-Same_example : Same seated (run seated ann_is_lost)
run-Same_example = run-Same seated ann_is_lost

-- With the manager the timers go: no wait is armed any more, and the map is empty.
destroyed :
    let m =
      start_removal_timer
        (start_grace_timer no_map "ann" (pos 30000) grace_timer_expired)
        "ann"
        (pos 60000)
        player_removed in
    (find_timers (destroy m).0 "ann"
      ≡ some (record {
        grace_timer =
            some (record { wait_ms = pos 30000; on_expiry = grace_timer_expired; armed = false });
        removal_timer =
            some (record { wait_ms = pos 60000; on_expiry = player_removed; armed = false });
      }))
    × ((destroy m).1 ≡ [])
unfolding destroy cancel_all start_removal_timer start_grace_timer put_timers find_timers
destroyed = (refl, refl)
