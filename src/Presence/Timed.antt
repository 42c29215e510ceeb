-- ===== src/Presence/Timed.antt =====
-- What the timers wait for, and what they call.
use hump.Prelude.{
  ℕ, ◌≡◌, refl, List, [], ◌∷◌, ℤ, String, str_eq, Option, none, some, Bool-cases, inl, inr, ◌==◌,
}
use hump.Model.{Ptr, null, load}
use hump.Presence.{
  Callback, grace_timer_expired, player_removed, Timer, PlayerTimers, TimerMap, find_timers,
  timers_at, put_timers, erase_timers, start_grace_timer, start_removal_timer, cancel_timers,
  PlayerStateManager, on_disconnect, on_reconnect, on_grace_timer_expired, tell_removed, call, over,
  fire, fire_grace, fire_removal, run_from, run_next,
}
use hump.Table.{get_player}

abbrev pub Waits : ℤ → Callback → Option Timer → Type 0
Waits ms c none = Unit {0}
Waits ms c (some t) = (t.wait_ms ≡ ms) × (t.on_expiry ≡ c)

-- A player's timers: the grace timer waits for the grace time and then marks the player, the removal timer waits
-- for the removal time and then tells the clients.
pub record IsEntry (grace removal : ℤ) (t : PlayerTimers) : Type 0 where
  pub grace_waits : Waits grace grace_timer_expired t.grace_timer
  pub removal_waits : Waits removal player_removed t.removal_timer

abbrev pub AllTimed : ℤ → ℤ → TimerMap → Type 0
AllTimed grace removal [] = Unit {0}
AllTimed grace removal ((k, t) ∷ m) = IsEntry grace removal t × AllTimed grace removal m

abbrev pub IsTimed : PlayerStateManager → Type 0
IsTimed s = AllTimed s.grace_time_ms s.removal_time_ms s.timers

module _ (grace removal : ℤ) where
  timers_at-IsEntry :
      (m : TimerMap) (id : String)
      → AllTimed grace removal m
      → IsEntry grace removal (timers_at m id)
  unfolding find_timers
  timers_at-IsEntry [] id a = record { grace_waits = tt; removal_waits = tt }
  timers_at-IsEntry ((k, u) ∷ m) id a = elim (Bool-cases (str_eq k id)) [
    | inl e ↦ rw (timers_at, e) a.0
    | inr e ↦ rw (timers_at, e) (timers_at-IsEntry m id a.1)
  ]

  put-AllTimed :
      (m : TimerMap) (id : String) (t : PlayerTimers)
      → IsEntry grace removal t
      → AllTimed grace removal m
      → AllTimed grace removal (put_timers m id t)
  unfolding put_timers
  put-AllTimed [] id t i a = (i, tt)
  put-AllTimed ((k, u) ∷ m) id t i a = elim (Bool-cases (str_eq k id)) [
    | inl e ↦ rw e (i, a.1)
    | inr e ↦ rw e (a.0, put-AllTimed m id t i a.1)
  ]

  erase-AllTimed :
      (m : TimerMap) (id : String)
      → AllTimed grace removal m
      → AllTimed grace removal (erase_timers m id)
  unfolding erase_timers
  erase-AllTimed [] id a = tt
  erase-AllTimed ((k, u) ∷ m) id a = elim (Bool-cases (str_eq k id)) [
    | inl e ↦ rw e (erase-AllTimed m id a.1)
    | inr e ↦ rw e (a.0, erase-AllTimed m id a.1)
  ]

over-Waits : (ms : ℤ) (c : Callback) (t : Option Timer) → Waits ms c t → Waits ms c (over t)
over-Waits ms c none w = tt
over-Waits ms c (some t) w = w

-- The loss of a connection starts the grace timer, and the way back cancels both.
pub on_disconnect-IsTimed :
    (now : ℕ) (s : PlayerStateManager) (p : Ptr) → IsTimed s → IsTimed (on_disconnect now s p)
unfolding on_disconnect start_grace_timer
on_disconnect-IsTimed now s p a =
    let id = (load s.table_manager.store p).id in
    let old = timers_at-IsEntry s.grace_time_ms s.removal_time_ms s.timers id a in
    put-AllTimed s.grace_time_ms s.removal_time_ms s.timers id _
      (record { grace_waits = (refl, refl); removal_waits = old.removal_waits }) a

pub cancel_timers-AllTimed :
    (grace removal : ℤ) (m : TimerMap) (id : String)
    → AllTimed grace removal m
    → AllTimed grace removal (cancel_timers m id)
unfolding cancel_timers
cancel_timers-AllTimed grace removal m id a = erase-AllTimed grace removal m id a

pub on_reconnect-IsTimed :
    (s : PlayerStateManager) (p : Ptr) → IsTimed s → IsTimed (on_reconnect s p)
unfolding on_reconnect
on_reconnect-IsTimed s p a = cancel_timers-AllTimed s.grace_time_ms s.removal_time_ms s.timers _ a

call-IsTimed :
    (c : Callback) (s : PlayerStateManager) (id : String) → IsTimed s → IsTimed (call c s id)
unfolding call on_grace_timer_expired tell_removed start_removal_timer
call-IsTimed grace_timer_expired s id a =
    let old = timers_at-IsEntry s.grace_time_ms s.removal_time_ms s.timers id a in
    let waits =
      put-AllTimed s.grace_time_ms s.removal_time_ms s.timers id _
        (record { grace_waits = old.grace_waits; removal_waits = (refl, refl) }) a in
    elim (Bool-cases (get_player s.table_manager id == null)) [
      | inl e ↦ rw e waits
      | inr e ↦ rw e waits
    ]
call-IsTimed player_removed s id a = elim (Bool-cases (get_player s.table_manager id == null)) [
  | inl e ↦ rw e a
  | inr e ↦ rw e a
]

fire-IsTimed :
    (s : PlayerStateManager) (id : String) (m : TimerMap) (t : Option Timer)
    → AllTimed s.grace_time_ms s.removal_time_ms m
    → IsTimed s
    → IsTimed (fire s id m t)
unfolding fire
fire-IsTimed s id m none b a = a
fire-IsTimed s id m (some t) b a = elim (Bool-cases t.armed) [ inl e ↦ rw e b | inr e ↦ rw e a ]

run_from-IsTimed :
    (s : PlayerStateManager) (q : List (String × Callback)) → IsTimed s → IsTimed (run_from s q)
unfolding run_from
run_from-IsTimed s [] a = a
run_from-IsTimed s ((id, c) ∷ rest) a = call-IsTimed c (record s { queued = rest }) id a

pub run_next-IsTimed : (s : PlayerStateManager) → IsTimed s → IsTimed (run_next s)
unfolding run_next
run_next-IsTimed s a = run_from-IsTimed s s.queued a

pub fire_grace-IsTimed :
    (s : PlayerStateManager) (id : String) → IsTimed s → IsTimed (fire_grace s id)
unfolding fire_grace
fire_grace-IsTimed s id a =
    let old = timers_at-IsEntry s.grace_time_ms s.removal_time_ms s.timers id a in
    fire-IsTimed s id _ _
      (put-AllTimed s.grace_time_ms s.removal_time_ms s.timers id _
        (record {
          grace_waits = over-Waits _ _ _ old.grace_waits;
          removal_waits = old.removal_waits;
        })
        a)
      a

pub fire_removal-IsTimed :
    (s : PlayerStateManager) (id : String) → IsTimed s → IsTimed (fire_removal s id)
unfolding fire_removal
fire_removal-IsTimed s id a =
    let old = timers_at-IsEntry s.grace_time_ms s.removal_time_ms s.timers id a in
    fire-IsTimed s id _ _
      (put-AllTimed s.grace_time_ms s.removal_time_ms s.timers id _
        (record {
          grace_waits = old.grace_waits;
          removal_waits = over-Waits _ _ _ old.removal_waits;
        })
        a)
      a
