-- ===== src/Socket/Examples.antt =====
-- Runs of a session, and the theorems at inputs.
use hump.Prelude.{◌≤◌, ◌≡◌, refl, ◌↔◌, true, false, [], ◌∷◌, length}
use hump.Socket.{
  WebSocketSession, done, blocked, new, send, run_posted, on_write, ended, on_ping_timer, on_pong,
  on_pong_timeout, sends, runs, Run, stop, step,
}
use hump.Socket.KeepAlive
use hump.Socket.KeepAlive.{
  KeepAlive, start, here, next, ping_fires, ping_ends, timeout_fires, timeout_runs, IsKept,
  Run-IsKept,
}
use hump.Socket.Order.{IsOrdered, IsDoneOrdered, Run-IsOrdered, on_write_blocked_iff}

new-IsOrdered : IsOrdered new
unfolding new
new-IsOrdered = record { free = refl; writes = refl; gone = []; counted = refl; in_order = refl }

abbrev one_written : WebSocketSession
one_written = record new {
  write_queue = "a" ∷ [];
  is_writing = true;
  in_flight = true;
  sent = "a" ∷ [];
}

abbrev two_waiting : WebSocketSession
two_waiting = record new {
  write_queue = "a" ∷ "b" ∷ [];
  is_writing = true;
  in_flight = true;
  sent = "a" ∷ "b" ∷ [];
}

two_waiting-IsOrdered : IsOrdered two_waiting
unfolding new
two_waiting-IsOrdered = record {
  free = refl;
  writes = refl;
  gone = [];
  counted = refl;
  in_order = refl;
}

send_and_write : Run new (run_posted (send new "a") "a" [])
unfolding new send
send_and_write =
    step new (send new "a") (run_posted (send new "a") "a" [])
      (step new new (done (send new "a")) (stop new) (sends new "a"))
      (runs (send new "a") "a" [] refl)

Run-IsOrdered_example : IsDoneOrdered (run_posted (send new "a") "a" [])
Run-IsOrdered_example =
    Run-IsOrdered new (run_posted (send new "a") "a" []) send_and_write new-IsOrdered

on_write_blocked_iff_example :
    (on_write false (ended false "a" two_waiting) ≡ blocked)
    ↔ ((false ≡ false) × (2 ≤ length two_waiting.write_queue))
on_write_blocked_iff_example = on_write_blocked_iff two_waiting false "a" refl two_waiting-IsOrdered

-- A ping, its timeout, and the failure of the same ping: the game session is told twice.
abbrev lost_twice : KeepAlive
lost_twice = record {
  session = record new { ping_timer = false; pong_pending = true; disconnects = 2 };
  pinging = false;
  expired = 0;
  answered = false;
  pings = 1;
  failures = 1;
  unanswered = 1;
}

to_lost_twice : KeepAlive.Run start lost_twice
unfolding new on_ping_timer on_pong on_pong_timeout
to_lost_twice =
    next
      (next (next (next here (ping_fires start refl)) (timeout_fires _ refl))
        (timeout_runs _ 0 refl))
      (ping_ends _ true refl)

Run-IsKept_example : IsKept lost_twice
Run-IsKept_example = Run-IsKept lost_twice to_lost_twice
