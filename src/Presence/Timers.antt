-- ===== src/Presence/Timers.antt =====
-- What the timers do to the players, and what they never do.
use hump.Prelude.{
  ℕ, ◌≡◌, refl, ◌∙◌, ap, true, false, List, [], ◌∷◌, arith, String, str_eq, eq_iff, Option, none,
  some, Bool-cases, inl, inr,
}
use hump.Model.{Ptr, Player, load, modify, connected, disconnected}
use hump.Model.Store.{IsLive, load-modify_self, modify-IsLive}
use hump.Presence.{
  Callback, grace_timer_expired, player_removed, Timer, PlayerTimers, TimerMap, find_timers,
  put_timers, erase_timers, start_grace_timer, cancel_timers, PlayerStateManager, on_disconnect,
  on_reconnect, on_grace_timer_expired, tell_removed, is_active, call, fire, fire_grace,
  fire_removal, run_from, run_next, Event, disconnects, reconnects, grace_fires, removal_fires,
  handler_runs, step, run,
}

-- The table and the players that it owns.
abbrev pub Same : PlayerStateManager → PlayerStateManager → Type 0
Same s t =
    (t.table_manager.table ≡ s.table_manager.table)
    × (t.table_manager.players ≡ s.table_manager.players)

call-Same : (c : Callback) (s : PlayerStateManager) (id : String) → Same s (call c s id)
unfolding call on_grace_timer_expired tell_removed
call-Same grace_timer_expired s id = ground arith
call-Same player_removed s id = ground arith

fire-Same :
    (s : PlayerStateManager) (id : String) (m : TimerMap) (t : Option Timer)
    → Same s (fire s id m t)
unfolding fire
fire-Same s id m none = (refl, refl)
fire-Same s id m (some t) = elim (Bool-cases t.armed) [
  | inl e ↦ rw e (refl, refl)
  | inr e ↦ rw e (refl, refl)
]

run_from-Same : (s : PlayerStateManager) (q : List (String × Callback)) → Same s (run_from s q)
unfolding run_from
run_from-Same s [] = (refl, refl)
run_from-Same s ((id, c) ∷ rest) = call-Same c (record s { queued = rest }) id

step-Same : (s : PlayerStateManager) (e : Event) → Same s (step s e)
unfolding step on_disconnect on_reconnect
step-Same s (disconnects now p) = (refl, refl)
step-Same s (reconnects p) = (refl, refl)
step-Same s (grace_fires id) = unfold fire_grace in fire-Same s id _ _
step-Same s (removal_fires id) = unfold fire_removal in fire-Same s id _ _
step-Same s handler_runs = unfold run_next in run_from-Same s s.queued

-- The bug: whatever happens to the connections, in any order and as often as it will, the seats and the
-- players of the table stay as they were. A player whose removal timer fires is never removed.
pub run-Same : (s : PlayerStateManager) (es : List Event) → Same s (run s es)
unfolding run
run-Same s [] = (refl, refl)
run-Same s (e ∷ es) =
    let (a, b) = step-Same s e in let (c, d) = run-Same (step s e) es in (c ∙ a, d ∙ b)

pub find-put_self :
    (m : TimerMap) (id : String) (t : PlayerTimers) → find_timers (put_timers m id t) id ≡ some t
unfolding find_timers put_timers
find-put_self [] id t = ground (arith, eq_iff id id)
find-put_self ((k, u) ∷ m) id t = ground (arith, find-put_self m id t)

pub erase-put :
    (m : TimerMap) (id : String) (t : PlayerTimers)
    → erase_timers (put_timers m id t) id ≡ erase_timers m id
unfolding put_timers erase_timers
erase-put [] id t = ground (arith, eq_iff id id)
erase-put ((k, u) ∷ m) id t = elim (Bool-cases (str_eq k id)) [
  | inl e ↦ rw (e, e) refl
  | inr e ↦ rw (e, e) (ap (λ r. (k, u) ∷ r) (erase-put m id t))
]

-- A player who disconnects and comes back before a handler runs is connected and active, with everything else
-- of his as it was, and the timers are those from before but for his own.
pub reconnect-disconnect :
    (now : ℕ) (s : PlayerStateManager) (p : Ptr)
    → IsLive s.table_manager.store p
    → let s' = on_reconnect (on_disconnect now s p) p in
      (s'.timers ≡ erase_timers s.timers (load s.table_manager.store p).id)
      × (load s'.table_manager.store p ≡ record (load s.table_manager.store p) {
        connection_status = connected;
        disconnected_at = none;
        is_sitting_out = false;
      })
      × (is_active (load s'.table_manager.store p) ≡ true)
unfolding on_disconnect on_reconnect start_grace_timer cancel_timers is_active
reconnect-disconnect now s p l =
    let f = λ (q : Player). record q {
      connection_status = disconnected;
      disconnected_at = some now;
      is_sitting_out = false;
    } in
    let g = λ (q : Player). record q {
      connection_status = connected;
      disconnected_at = none;
      is_sitting_out = false;
    } in
    let st = s.table_manager.store in
    let gone = load-modify_self f p st l in
    let back =
      load-modify_self g p (modify f p st) (modify-IsLive f p {st = st} {q = p} l) ∙ ap g gone in
    (
      ap
            (λ (q : Player).
              erase_timers
                (start_grace_timer s.timers (load st p).id s.grace_time_ms grace_timer_expired)
                q.id)
            gone
          ∙ erase-put s.timers (load st p).id _,
      back,
      ap is_active back,
    )
