-- ===== src/Presence/Quiet.antt =====
-- Whose grace timers there are: the players of the table who are not connected.
use hump.Prelude.{
  ℕ, ◌≡◌, ◌≢◌, refl, sym, subst, ◌∙◌, ap, ◌⊎◌, inl, inr, true, false, List, [], ◌∷◌, Option, none,
  some, ◌==◌, ==_iff, Bool-cases, String, str_eq, eq_iff,
}
use hump.Model.{Ptr, null, Player, load, modify, is_connected}
use hump.Model.Store.{IsLive, load-modify_self, load-modify_ne}
use hump.Presence.{
  Callback, grace_timer_expired, player_removed, Timer, PlayerTimers, TimerMap, find_timers,
  timers_at, put_timers, erase_timers, start_grace_timer, start_removal_timer, cancel_timers,
  PlayerStateManager, on_disconnect, on_reconnect, on_grace_timer_expired, tell_removed, call, fire,
  fire_grace, fire_removal, run_from, run_next, over,
}
use hump.Presence.Restored.{get_player-id, lost-facts}
use hump.Table.{TableManager, get_player}
use hump.Table.Faces.{modify-SameFaces}
use hump.Table.Seats.{find_player-modify}
use hump.Table.Steady.{IsSteady, SameFaces-IsSteady}
use hump.Presence.Lookup.{find-erase_ne, find-erase_none, find-erase_self, find-put_ne}
use hump.Presence.Timers.{find-put_self}

-- The player is at the table, and he is not connected.
pub record IsGone (m : TableManager) (id : String) : Type 0 where
  pub seated : (get_player m id == null) ≡ false
  pub apart : is_connected (load m.store (get_player m id)).connection_status ≡ false

-- Who has a grace timer is gone. A removal timer can be anybody's: its handler, and that of the grace timer which
-- starts it, may run behind the way back.
abbrev pub IsQuiet : PlayerStateManager → Type 0
IsQuiet s = (id : String) → ((timers_at s.timers id).grace_timer ≡ none) ⊎ IsGone s.table_manager id

-- What the lookup of a player gives is all that counts.
grace_at :
    (m m' : TimerMap) (id : String)
    → find_timers m' id ≡ find_timers m id
    → (timers_at m id).grace_timer ≡ none
    → (timers_at m' id).grace_timer ≡ none
grace_at m m' id e n = rw (timers_at, e) n

grace_at-none :
    (m : TimerMap) (id : String) → find_timers m id ≡ none → (timers_at m id).grace_timer ≡ none
grace_at-none m id e = rw (timers_at, e) refl

pub IsGone-steady : {m m' : TableManager} {id : String} → IsSteady m m' → IsGone m id → IsGone m' id
IsGone-steady {m} {m'} {id} s g = record {
  seated = rw (s.found id g.seated) g.seated;
  apart = rw (s.found id g.seated, s.status id g.seated) g.apart;
}

pub IsQuiet-steady :
    (s t : PlayerStateManager)
    → t.timers ≡ s.timers
    → IsSteady s.table_manager t.table_manager
    → IsQuiet s
    → IsQuiet t
IsQuiet-steady s t e k q id = elim (q id) [ inl n ↦ inl (rw e n) | inr g ↦ inr (IsGone-steady k g) ]

-- Timers that are set for a player who is gone, or without a grace timer, where nobody who was gone comes back.
put-IsQuiet :
    (s t : PlayerStateManager) (id : String) (u : PlayerTimers)
    → t.timers ≡ put_timers s.timers id u
    → ((k : String) → IsGone s.table_manager k → IsGone t.table_manager k)
    → (u.grace_timer ≡ none) ⊎ IsGone t.table_manager id
    → IsQuiet s
    → IsQuiet t
put-IsQuiet s t id u e h g q k = elim (Bool-cases (str_eq id k)) [
  | inl a ↦
      let same = (eq_iff id k).0 a in
      elim g [
        | inl n ↦ inl (
            subst (λ x. (timers_at t.timers x).grace_timer ≡ none) same
              (rw (e, timers_at, find-put_self s.timers id u) n))
        | inr i ↦ inr (subst (λ x. IsGone t.table_manager x) same i)
      ]
  | inr a ↦ elim (q k) [
    | inl n ↦ inl (
        grace_at s.timers t.timers k (ap (λ m. find_timers m k) e ∙ find-put_ne s.timers id u k a)
          n)
    | inr i ↦ inr (h k i)
  ]
]

ne_of_test : (p q : Ptr) → (p == q) ≡ false → p ≢ q
ne_of_test p q e h = let e' = (==_iff p q).1 h in cc

-- A write to one player that keeps his id; if he is the one who is gone, he is so after it.
modified-IsGone :
    (f : Player → Player) (keeps : (q : Player) → (f q).id ≡ q.id) (m : TableManager) (p : Ptr)
    (k : String)
    → (get_player m k ≡ p → is_connected (load (modify f p m.store) p).connection_status ≡ false)
    → IsGone m k
    → IsGone (record m { store = modify f p m.store }) k
modified-IsGone f keeps m p k apart g =
    let same : get_player (record m { store = modify f p m.store }) k ≡ get_player m k =
      unfold get_player in find_player-modify f keeps p m.store m.players k in
    record {
      seated = rw same g.seated;
      apart = rw same (elim (Bool-cases (get_player m k == p)) [
        | inl e ↦ let h = (==_iff (get_player m k) p).0 e in rw h (apart h)
        | inr e ↦
            let other : p ≢ get_player m k = λ h. ne_of_test (get_player m k) p e (sym h) in
            rw (load-modify_ne f p (get_player m k) m.store other) g.apart
      ]);
    }

lost-IsGone :
    (now : ℕ) (s : PlayerStateManager) (p : Ptr) (k : String)
    → IsLive s.table_manager.store p
    → IsGone s.table_manager k
    → IsGone (on_disconnect now s p).table_manager k
unfolding on_disconnect
lost-IsGone now s p k l g =
    modified-IsGone _ (λ q. refl) s.table_manager p k
      (λ h.
        ap (λ (q : Player). is_connected q.connection_status)
          (load-modify_self _ p s.table_manager.store l))
      g

lost_self-IsGone :
    (now : ℕ) (s : PlayerStateManager) (id : String)
    → (get_player s.table_manager id == null) ≡ false
    → IsLive s.table_manager.store (get_player s.table_manager id)
    → IsGone (on_disconnect now s (get_player s.table_manager id)).table_manager id
lost_self-IsGone now s id n l =
    let (same, apart) = lost-facts now s (get_player s.table_manager id) id l in
    record { seated = rw same n; apart = rw same apart }

lost_timers :
    (now : ℕ) (s : PlayerStateManager) (id : String)
    → (get_player s.table_manager id == null) ≡ false
    → (on_disconnect now s (get_player s.table_manager id)).timers
      ≡ put_timers s.timers id (record (timers_at s.timers id) {
        grace_timer =
            some
              (record { wait_ms = s.grace_time_ms; on_expiry = grace_timer_expired; armed = true });
      })
unfolding on_disconnect start_grace_timer
lost_timers now s id n =
    ap (λ i. start_grace_timer s.timers i s.grace_time_ms grace_timer_expired)
      (get_player-id s.table_manager id n)

pub on_disconnect-IsQuiet :
    (now : ℕ) (s : PlayerStateManager) (id : String)
    → (get_player s.table_manager id == null) ≡ false
    → IsLive s.table_manager.store (get_player s.table_manager id)
    → IsQuiet s
    → IsQuiet (on_disconnect now s (get_player s.table_manager id))
on_disconnect-IsQuiet now s id n l q =
    let p = get_player s.table_manager id in
    let grace = record (timers_at s.timers id) {
      grace_timer =
          some
            (record { wait_ms = s.grace_time_ms; on_expiry = grace_timer_expired; armed = true });
    } in
    put-IsQuiet s (on_disconnect now s p) id grace (lost_timers now s id n)
      (λ k. lost-IsGone now s p k l) (inr (lost_self-IsGone now s id n l)) q

back-IsGone :
    (s : PlayerStateManager) (id k : String)
    → (get_player s.table_manager id == null) ≡ false
    → str_eq id k ≡ false
    → IsGone s.table_manager k
    → IsGone (on_reconnect s (get_player s.table_manager id)).table_manager k
unfolding on_reconnect
back-IsGone s id k n a g =
    let m = s.table_manager in
    modified-IsGone _ (λ q. refl) m (get_player m id) k
      (λ h.
        let same : id ≡ k =
          sym (get_player-id m id n)
          ∙ ap (λ p. (load m.store p).id) (sym h)
          ∙ get_player-id m k g.seated in
        let a' = (eq_iff id k).1 same in absurd cc)
      g

pub on_reconnect-IsQuiet :
    (s : PlayerStateManager) (id : String)
    → (get_player s.table_manager id == null) ≡ false
    → IsQuiet s
    → IsQuiet (
        on_reconnect
          (record s { timers = cancel_timers s.timers id })
          (get_player s.table_manager id))
unfolding on_reconnect cancel_timers
on_reconnect-IsQuiet s id n q k =
    let again = (load s.table_manager.store (get_player s.table_manager id)).id in
    elim (Bool-cases (str_eq id k)) [
      | inl a ↦
          let e = (eq_iff id k).0 a in
          inl (
            grace_at-none (erase_timers (erase_timers s.timers id) again) k (
              find-erase_none (erase_timers s.timers id) again k
                (rw (← e) (find-erase_self s.timers id))))
      | inr a ↦ elim (q k) [
        | inl f ↦
            let same : again ≡ id = get_player-id s.table_manager id n in
            inl (
              grace_at s.timers (erase_timers (erase_timers s.timers id) again) k
                (find-erase_ne (erase_timers s.timers id) again k (rw same a)
                  ∙ find-erase_ne s.timers id k a)
                f)
        | inr g ↦ inr (back-IsGone (record s { timers = cancel_timers s.timers id }) id k n a g)
      ]
    ]

-- A removal timer that is started leaves the grace timer.
removal-IsQuiet :
    (s t : PlayerStateManager) (id : String) (u : PlayerTimers)
    → t.timers ≡ put_timers s.timers id u
    → u.grace_timer ≡ (timers_at s.timers id).grace_timer
    → ((k : String) → IsGone s.table_manager k → IsGone t.table_manager k)
    → IsQuiet s
    → IsQuiet t
removal-IsQuiet s t id u e same h q =
    put-IsQuiet s t id u e h (elim (q id) [ inl n ↦ inl (same ∙ n) | inr g ↦ inr (h id g) ]) q

call-IsQuiet :
    (c : Callback) (s : PlayerStateManager) (id : String) → IsQuiet s → IsQuiet (call c s id)
unfolding call on_grace_timer_expired start_removal_timer tell_removed
call-IsQuiet grace_timer_expired s id q =
    let m = s.table_manager in
    let p = get_player m id in
    let marks = λ (x : Player). record x { is_sitting_out = true } in
    let steady : IsSteady m (record m { store = modify marks p m.store }) =
      SameFaces-IsSteady m _ refl (modify-SameFaces marks (λ x. refl) p m.store) in
    let removal = record (timers_at s.timers id) {
      removal_timer =
          some (record { wait_ms = s.removal_time_ms; on_expiry = player_removed; armed = true });
    } in
    let moved = put_timers s.timers id removal in
    let marked = record s { table_manager = record m { store = modify marks p m.store } } in
    elim (Bool-cases (p == null)) [
      | inl e ↦
          rw e (removal-IsQuiet s (record s { timers = moved }) id removal refl refl (λ k i. i) q)
      | inr e ↦ rw e (
          removal-IsQuiet s (record marked { timers = moved }) id removal refl refl
            (λ k. IsGone-steady steady) q)
    ]
call-IsQuiet player_removed s id q = elim (Bool-cases (get_player s.table_manager id == null)) [
  | inl e ↦ rw e q
  | inr e ↦ rw e q
]

run_from-IsQuiet :
    (s : PlayerStateManager) (l : List (String × Callback)) → IsQuiet s → IsQuiet (run_from s l)
unfolding run_from
run_from-IsQuiet s [] q = q
run_from-IsQuiet s ((id, c) ∷ rest) q = call-IsQuiet c (record s { queued = rest }) id q

pub run_next-IsQuiet : (s : PlayerStateManager) → IsQuiet s → IsQuiet (run_next s)
unfolding run_next
run_next-IsQuiet s q = run_from-IsQuiet s s.queued q

fire-IsQuiet :
    (s : PlayerStateManager) (id : String) (m : TimerMap) (t : Option Timer)
    → IsQuiet (record s { timers = m })
    → IsQuiet s
    → IsQuiet (fire s id m t)
unfolding fire
fire-IsQuiet s id m none h q = q
fire-IsQuiet s id m (some t) h q = elim (Bool-cases t.armed) [ inl e ↦ rw e h | inr e ↦ rw e q ]

over-none : (t : Option Timer) → t ≡ none → over t ≡ none
over-none t e = rw e refl

pub fire_grace-IsQuiet :
    (s : PlayerStateManager) (id : String) → IsQuiet s → IsQuiet (fire_grace s id)
unfolding fire_grace
fire_grace-IsQuiet s id q =
    let t = timers_at s.timers id in
    let u = record t { grace_timer = over t.grace_timer } in
    fire-IsQuiet s id _ _
      (put-IsQuiet s (record s { timers = put_timers s.timers id u }) id u refl (λ k i. i)
        (elim (q id) [ inl n ↦ inl (over-none t.grace_timer n) | inr g ↦ inr g ]) q)
      q

pub fire_removal-IsQuiet :
    (s : PlayerStateManager) (id : String) → IsQuiet s → IsQuiet (fire_removal s id)
unfolding fire_removal
fire_removal-IsQuiet s id q =
    let t = timers_at s.timers id in
    let u = record t { removal_timer = over t.removal_timer } in
    fire-IsQuiet s id _ _
      (removal-IsQuiet s (record s { timers = put_timers s.timers id u }) id u refl refl (λ k i. i)
        q)
      q
