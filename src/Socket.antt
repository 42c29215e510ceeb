-- ===== src/Socket.antt =====
-- One client's connection: src/server/websocket_session.hpp and src/server/websocket_session.cpp. The stream and
-- the executor of boost are seen from outside: `tasks` are the handlers that wait on the executor, by the
-- message that each will queue, `in_flight` says that an `async_write` has not ended, and `wire` and `sent` keep what
-- has been written whole and what `send` was given. The buffer of a write is one over the local string of `do_write`,
-- which is destroyed when that returns, so what is written is any text, which the end of the write brings. The mutex of the queue is a flag, since
-- a `std::mutex` that its own thread locks again stops that thread. Reads and the accept are left out.
use hump.Prelude.{
  ℕ, suc, ◌≡◌, Bool, true, false, not, List, [], ◌∷◌, ◌++◌, String, str_eq, if◌then◌else◌, drop,
}
use hump.Pot.{is_empty}
pub mod Order
pub mod KeepAlive
mod Examples

pub record WebSocketSession : Type 0 where
  pub write_queue : List String
  pub write_queue_mutex : Bool
  pub is_writing : Bool
  pub ping_timer : Bool
  pub pong_timeout_timer : Bool
  pub pong_pending : Bool
  pub tasks : List String
  pub in_flight : Bool
  pub wire : List String
  pub sent : List String
  pub disconnects : ℕ

-- The state after a handler, or the thread stopped for good at a mutex that it holds itself.
pub data Outcome : Type 0 where
  done : WebSocketSession → Outcome
  blocked : Outcome

-- The constructor, and `start` with an accept that succeeds: the ping timer runs.
unfoldable pub new : WebSocketSession
new = record {
  write_queue = [];
  write_queue_mutex = false;
  is_writing = false;
  ping_timer = true;
  pong_timeout_timer = false;
  pong_pending = false;
  tasks = [];
  in_flight = false;
  wire = [];
  sent = [];
  disconnects = 0;
}

-- The rest of a handler under a `lock_guard`, with the mutex held.
abbrev pub locked : WebSocketSession → (WebSocketSession → Outcome) → Outcome
locked s body =
    if s.write_queue_mutex then blocked else body (record s { write_queue_mutex = true })

abbrev pub unlock : WebSocketSession → WebSocketSession
unlock s = record s { write_queue_mutex = false }

-- The guard gives the mutex back at the end of its block.
abbrev pub release : Outcome → Outcome
release (done s) = done (unlock s)
release blocked = blocked

-- The destructor cancels the timers.
unfoldable pub destroy : WebSocketSession → WebSocketSession
destroy s = record s { ping_timer = false; pong_timeout_timer = false }

-- `send`: an empty message is dropped, and any other is posted to the executor.
unfoldable pub send : WebSocketSession → String → WebSocketSession
send s message =
    if str_eq message ""
    then s
    else record s { tasks = s.tasks ++ message ∷ []; sent = s.sent ++ message ∷ [] }

-- The copy of the front message is dead when the write begins to wait: nothing of it is kept.
unfoldable pub do_write : WebSocketSession → Outcome
do_write s =
    locked (record s { is_writing = true })
      λ t. done (record t { write_queue_mutex = false; in_flight = true })

-- The handler that `send` posts, at the head of the executor's queue.
unfoldable pub run_posted : WebSocketSession → String → List String → Outcome
run_posted s message rest =
    locked (record s { tasks = rest })
      λ t.
        let u = record t {
          write_queue = t.write_queue ++ message ∷ [];
          write_queue_mutex = false;
        } in
        if not u.is_writing then do_write u else done u

-- The end of a write: `failed` says that there is an error code. The next write starts under the lock.
unfoldable pub on_write : Bool → WebSocketSession → Outcome
on_write failed s =
    if failed
    then done (record s { is_writing = false })
    else locked s λ t.
      let u = record t { write_queue = drop 1 t.write_queue } in
      if not (is_empty u.write_queue)
      then release (do_write u)
      else done (record u { write_queue_mutex = false; is_writing = false })

-- What the stream does at the end of a write, before it calls `on_write`. `text` is what the dead buffer gave.
abbrev pub ended : Bool → String → WebSocketSession → WebSocketSession
ended failed text s = record s {
  in_flight = false;
  wire = if failed then s.wire else s.wire ++ text ∷ [];
}

-- What can happen to a session that writes.
pub data Step : WebSocketSession → Outcome → Type 0 where
  sends : (s : WebSocketSession) (message : String) → Step s (done (send s message))
  runs :
      (s : WebSocketSession) (message : String) (rest : List String)
      → s.tasks ≡ message ∷ rest
      → Step s (run_posted s message rest)
  ends :
      (s : WebSocketSession) (failed : Bool) (text : String)
      → s.in_flight ≡ true
      → Step s (on_write failed (ended failed text s))

-- Some steps one after another.
pub data Run : WebSocketSession → Outcome → Type 0 where
  stop : (s : WebSocketSession) → Run s (done s)
  step : (s t : WebSocketSession) (o : Outcome) → Run s (done t) → Step t o → Run s o

unfoldable pub start_ping_timer : WebSocketSession → WebSocketSession
start_ping_timer s = record s { ping_timer = true }

-- A call of the game session's `onDisconnect`.
abbrev pub disconnect : WebSocketSession → WebSocketSession
disconnect s = record s { disconnects = suc s.disconnects }

-- The ping timer's handler, up to the call of `async_ping`.
unfoldable pub on_ping_timer : Bool → WebSocketSession → WebSocketSession
on_ping_timer cancelled s =
    if cancelled
    then s
    else record s { ping_timer = false; pong_pending = true; pong_timeout_timer = true }

unfoldable pub on_pong_timeout : Bool → WebSocketSession → WebSocketSession
on_pong_timeout cancelled s = if cancelled then s else if s.pong_pending then disconnect s else s

-- The end of `async_ping`.
unfoldable pub on_pong : Bool → WebSocketSession → WebSocketSession
on_pong failed s = if failed then disconnect s else start_ping_timer s

-- The control callback, for a pong frame.
unfoldable pub on_pong_frame : WebSocketSession → WebSocketSession
on_pong_frame s = record s { pong_timeout_timer = false; pong_pending = false }
