-- ===== src/Session/Reached.antt =====
-- What holds in every state that a game session reaches.
use hump.Prelude.{
  ℕ, ◌≡◌, refl, Bool, true, false, List, [], ◌∷◌, arith, Option, none, some, ℤ, ◌==◌, length,
  Bool-cases, inl, inr, String,
}
use hump.Json.{Json}
use hump.Model.{null}
use hump.Model.Store.{length-modify}
use hump.Presence.Quiet.{IsQuiet, run_next-IsQuiet, fire_grace-IsQuiet, fire_removal-IsQuiet}
use hump.Presence.Timed.{IsTimed, run_next-IsTimed, fire_grace-IsTimed, fire_removal-IsTimed}
use hump.Presence.{
  Callback, grace_timer_expired, player_removed, Timer, TimerMap, PlayerStateManager, tell_removed,
  find_timers, on_grace_timer_expired, call, fire, fire_grace, fire_removal, run_from, run_next,
}
use hump.Session.{
  GameSession, Env, welcome, manager, find, session_of, player_of, send_json, register_session,
  send_welcome,
}
use hump.Session.Answered.{IsSound, IsSound-Sends}
use hump.Session.Broadcasts.{broadcast_player_removed}
use hump.Session.Maps.{IsInverse, IsInverse-same, register_session-IsInverse}
use hump.Session.Outbox.{Sends-send, Sends-broadcast}
use hump.Session.Service.{handle_message-Answered}
use hump.Table
use hump.Table.{TableManager, get_player}
use hump.Table.Ownership.{Owns}
use hump.Table.Play.{AllLive-length}
use hump.Session.Runs.{
  new, handler_run, Step, Read, failed, empty, received, on_accept, on_read, accepts, reads,
  grace_fires, removal_fires, handler_runs, Reachable, here, after,
}
use hump.Session.Lost.{loses-IsSound}

-- Each player of the manager is in the store still.
Keeps : PlayerStateManager → PlayerStateManager → Type 0
Keeps s t =
    (t.table_manager.players ≡ s.table_manager.players)
    × (length t.table_manager.store ≡ length s.table_manager.store)

IsSound-Keeps :
    (g : GameSession) (t : PlayerStateManager)
    → Keeps g.players t
    → IsTimed t
    → IsQuiet t
    → IsSound g
    → IsSound (record g { players = t })
unfolding Keeps
IsSound-Keeps g t (p, n) timed quiet i = record {
  inverse = IsInverse-same g (record g { players = t }) (refl, refl) i.inverse;
  owned =
      rw p (AllLive-length (manager g).store t.table_manager.store (manager g).players n i.owned);
  timed = timed;
  quiet = quiet;
}

call-Keeps : (c : Callback) (s : PlayerStateManager) (id : String) → Keeps s (call c s id)
unfolding Keeps call on_grace_timer_expired tell_removed
call-Keeps grace_timer_expired s id =
    let p = get_player s.table_manager id in
    let n = length-modify (λ q. record q { is_sitting_out = true }) p s.table_manager.store in
    ground (arith, n)
call-Keeps player_removed s id = ground arith

fire-Keeps :
    (s : PlayerStateManager) (id : String) (m : TimerMap) (t : Option Timer)
    → Keeps s (fire s id m t)
unfolding Keeps fire
fire-Keeps s id m none = (refl, refl)
fire-Keeps s id m (some t) = elim (Bool-cases t.armed) [
  | inl e ↦ rw e (refl, refl)
  | inr e ↦ rw e (refl, refl)
]

run_from-Keeps : (s : PlayerStateManager) (q : List (String × Callback)) → Keeps s (run_from s q)
unfolding run_from
run_from-Keeps s [] = unfold Keeps in (refl, refl)
run_from-Keeps s ((id, c) ∷ rest) = unfold Keeps in call-Keeps c (record s { queued = rest }) id

accepts-IsSound :
    (env : Env) (g : GameSession) (session : ℕ)
    → (session == 0) ≡ false
    → session_of g env.player_id ≡ none
    → player_of g session ≡ none
    → IsSound g
    → IsSound (send_welcome env g session)
unfolding send_welcome register_session
accepts-IsSound env g session n a b i =
    let h = register_session g env.player_id session in
    let k : IsSound h = record {
      inverse = (register_session-IsInverse g env.player_id session i.inverse a b).0;
      owned = i.owned;
      timed = i.timed;
      quiet = i.quiet;
    } in
    rw n (IsSound-Sends h (send_json h session (welcome env.player_id)) (Sends-send h session _) k)

removed-IsSound :
    (g : GameSession) (id : String) → IsSound g → IsSound (broadcast_player_removed g id)
unfolding broadcast_player_removed
removed-IsSound g id i = elim (Bool-cases (get_player (manager g) id == null)) [
  | inl e ↦ rw e i
  | inr e ↦ rw e (IsSound-Sends g _ (Sends-broadcast g _) i)
]

run_next-IsSound :
    (g : GameSession) → IsSound g → IsSound (record g { players = run_next g.players })
unfolding run_next
run_next-IsSound g i =
    IsSound-Keeps g (run_next g.players) (run_from-Keeps g.players g.players.queued)
      (run_next-IsTimed g.players i.timed) (run_next-IsQuiet g.players i.quiet) i

handler_run-IsSound :
    (g : GameSession) (q : List (String × Callback)) → IsSound g → IsSound (handler_run g q)
handler_run-IsSound g [] i = i
handler_run-IsSound g ((id, grace_timer_expired) ∷ rest) i = run_next-IsSound g i
handler_run-IsSound g ((id, player_removed) ∷ rest) i =
    removed-IsSound (record g { players = run_next g.players }) id (run_next-IsSound g i)

on_accept-IsSound :
    (env : Env) (ec : Bool) (g : GameSession) (session : ℕ)
    → (session == 0) ≡ false
    → session_of g env.player_id ≡ none
    → player_of g session ≡ none
    → IsSound g
    → IsSound (on_accept env ec g session)
unfolding on_accept
on_accept-IsSound env true g session n a b i = i
on_accept-IsSound env false g session n a b i = accepts-IsSound env g session n a b i

on_read-IsSound :
    (J : Json) (env : Env) (g : GameSession) (r : Read J.Text) (session : ℕ)
    → (session == 0) ≡ false
    → IsSound g
    → IsSound (on_read J env g r session)
unfolding on_read
on_read-IsSound J env g failed session n i = loses-IsSound env.now g session n i
on_read-IsSound J env g empty session n i = i
on_read-IsSound J env g (received message) session n i =
    (handle_message-Answered J env g message session n i).sound

Step-IsSound : (J : Json) {g h : GameSession} → Step J g h → IsSound g → IsSound h
unfolding fire_grace fire_removal
Step-IsSound J (accepts env ec session n a b) i = on_accept-IsSound env ec _ session n a b i
Step-IsSound J (reads env r session n) i = on_read-IsSound J env _ r session n i
Step-IsSound J (grace_fires {g} id) i =
    IsSound-Keeps g (fire_grace g.players id) (fire-Keeps g.players id _ _)
      (fire_grace-IsTimed g.players id i.timed) (fire_grace-IsQuiet g.players id i.quiet) i
Step-IsSound J (removal_fires {g} id) i =
    IsSound-Keeps g (fire_removal g.players id) (fire-Keeps g.players id _ _)
      (fire_removal-IsTimed g.players id i.timed) (fire_removal-IsQuiet g.players id i.quiet) i
Step-IsSound J (handler_runs {g}) i = handler_run-IsSound g g.players.queued i

Reachable-IsSound : (J : Json) {g h : GameSession} → Reachable J g h → IsSound g → IsSound h
Reachable-IsSound J here i = i
Reachable-IsSound J (after r s) i = Step-IsSound J s (Reachable-IsSound J r i)

-- Whatever connections are accepted, each a new one under a new player's id, whatever is read from
-- connections or fails to be read, and whichever timers fire, in any order, whenever their handlers run, also when
-- the player is back by then: from a new session on, the two maps are each other's inverse, each player of the table
-- manager is in the store, only players of the table who are not connected have grace timers, each grace timer
-- waits for the session's grace time and marks its player then, and each removal timer waits for the removal time and
-- tells the clients then.
pub Reachable-new :
    (J : Json) (id : String) (grace_time_ms removal_time_ms : ℤ) (g : GameSession)
    → Reachable J (new id grace_time_ms removal_time_ms) g
    → IsInverse g × Owns (manager g) × IsTimed g.players × IsQuiet g.players
unfolding Table.new find find_timers
Reachable-new J id grace removal g r =
    let start : IsSound (new id grace removal) = record {
      inverse = record { there = λ k s e. cc; back = λ s k e. cc };
      owned = tt;
      timed = tt;
      quiet = λ k. inl refl;
    } in
    let k = Reachable-IsSound J r start in (k.inverse, k.owned, k.timed, k.quiet)
