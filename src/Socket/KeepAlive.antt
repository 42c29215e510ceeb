-- ===== src/Socket/KeepAlive.antt =====
-- Pings and pongs, with the handlers in any order that their timers and the stream allow.
use hump.Prelude.{
  ℕ, suc, ◌+◌, ◌≤◌, ◌≡◌, ◌⊎◌, inl, inr, refl, ◌∙◌, ap, not, Bool, true, false, arith, if◌then◌else◌,
  Bool-cases,
}
use hump.Socket.{
  WebSocketSession, new, on_ping_timer, on_pong_timeout, on_pong, on_pong_frame, start_ping_timer,
}

-- A session with what its timers and the stream have under way: whether an `async_ping` has not ended, and how
-- many handlers of the pong timeout are queued, without an error, which a cancelling no longer stops. `answered` says that a
-- pong has come since the last ping. `pings` and `failures` count the pings that were sent and those that failed, and
-- `unanswered` the timeouts whose handler ran without a pong since the last ping.
pub record KeepAlive : Type 0 where
  pub session : WebSocketSession
  pub pinging : Bool
  pub expired : ℕ
  pub answered : Bool
  pub pings : ℕ
  pub failures : ℕ
  pub unanswered : ℕ

abbrev pub start : KeepAlive
start = record {
  session = new;
  pinging = false;
  expired = 0;
  answered = true;
  pings = 0;
  failures = 0;
  unanswered = 0;
}

-- The ping timer fires; a ping ends, well or not; a pong arrives, at any time; the pong timeout fires, and its handler
-- runs later.
pub data Step : KeepAlive → KeepAlive → Type 0 where
  ping_fires :
      (k : KeepAlive)
      → k.session.ping_timer ≡ true
      → Step k (record k {
        session = on_ping_timer false k.session;
        pinging = true;
        answered = false;
        pings = suc k.pings;
      })
  ping_ends :
      (k : KeepAlive) (failed : Bool)
      → k.pinging ≡ true
      → Step k (record k {
        session = on_pong failed k.session;
        pinging = false;
        failures = if failed then suc k.failures else k.failures;
      })
  pong_arrives :
      (k : KeepAlive) → Step k (record k { session = on_pong_frame k.session; answered = true })
  timeout_fires :
      (k : KeepAlive)
      → k.session.pong_timeout_timer ≡ true
      → Step k (record k {
        session = record k.session { pong_timeout_timer = false };
        expired = suc k.expired;
      })
  timeout_runs :
      (k : KeepAlive) (n : ℕ)
      → k.expired ≡ suc n
      → Step k (record k {
        session = on_pong_timeout false k.session;
        expired = n;
        unanswered = if k.answered then k.unanswered else suc k.unanswered;
      })

pub data Run (k : KeepAlive) : KeepAlive → Type 0 where
  here : Run k k
  next : {l m : KeepAlive} → Run k l → Step l m → Run k m

-- The timer waits, or a ping is under way, or one has failed, and then neither again.
abbrev pub Chain : Bool → Bool → ℕ → Type 0
Chain ping_timer pinging failures =
    ((failures ≡ 0) × (ping_timer ≡ true) × (pinging ≡ false))
    ⊎ (((failures ≡ 0) × (ping_timer ≡ false) × (pinging ≡ true))
        ⊎ ((failures ≡ 1) × (ping_timer ≡ false) × (pinging ≡ false)))

pub record IsKept (k : KeepAlive) : Type 0 where
  pub chain : Chain k.session.ping_timer k.pinging k.failures
  pub pending : k.session.pong_pending ≡ not k.answered
  pub cancelled : (k.answered ≡ false) ⊎ (k.session.pong_timeout_timer ≡ false)
  pub told : k.session.disconnects ≡ k.failures + k.unanswered
  pub bounded : k.unanswered + k.expired + (if k.session.pong_timeout_timer then 1 else 0) ≤ k.pings

Chain-fires : (p q : Bool) (n : ℕ) → p ≡ true → Chain p q n → Chain false true n
Chain-fires p q n e c = ground arith

Chain-ends :
    (p q failed : Bool) (n : ℕ)
    → q ≡ true
    → Chain p q n
    → Chain (if failed then p else true) false (if failed then suc n else n)
Chain-ends p q true n e c = ground arith
Chain-ends p q false n e c = ground arith

Step-IsKept : {k l : KeepAlive} → Step k l → IsKept k → IsKept l
unfolding on_ping_timer on_pong_timeout on_pong on_pong_frame start_ping_timer
Step-IsKept (ping_fires k e) i = record {
  chain = Chain-fires k.session.ping_timer k.pinging k.failures e i.chain;
  pending = refl;
  cancelled = inl refl;
  told = i.told;
  bounded = let b = i.bounded in ground arith;
}
Step-IsKept (ping_ends k true e) i = record {
  chain = Chain-ends k.session.ping_timer k.pinging true k.failures e i.chain;
  pending = i.pending;
  cancelled = i.cancelled;
  told = let t = i.told in omega arith;
  bounded = i.bounded;
}
Step-IsKept (ping_ends k false e) i = record {
  chain = Chain-ends k.session.ping_timer k.pinging false k.failures e i.chain;
  pending = i.pending;
  cancelled = i.cancelled;
  told = i.told;
  bounded = i.bounded;
}
Step-IsKept (pong_arrives k) i = record {
  chain = i.chain;
  pending = refl;
  cancelled = inr refl;
  told = i.told;
  bounded = let b = i.bounded in ground arith;
}
Step-IsKept (timeout_fires k e) i = record {
  chain = i.chain;
  pending = i.pending;
  cancelled = inr refl;
  told = i.told;
  bounded = let b = i.bounded in ground arith;
}
Step-IsKept (timeout_runs k n e) i = elim (Bool-cases k.answered) [
  | inl a ↦
      let p : k.session.pong_pending ≡ false = i.pending ∙ ap not a in
      rw (p, a)
        (record {
          chain = i.chain;
          pending = refl;
          cancelled = rw a at i.cancelled;
          told = i.told;
          bounded = let b = i.bounded in omega arith;
        })
  | inr a ↦
      let p : k.session.pong_pending ≡ true = i.pending ∙ ap not a in
      rw (p, a)
        (record {
          chain = i.chain;
          pending = refl;
          cancelled = rw a at i.cancelled;
          told = let t = i.told in omega arith;
          bounded = let b = i.bounded in omega arith;
        })
]

Run-IsKept_from : {k l : KeepAlive} → Run k l → IsKept k → IsKept l
Run-IsKept_from here i = i
Run-IsKept_from (next r s) i = Step-IsKept s (Run-IsKept_from r i)

-- From the start of a session, in whatever order the timers, the ends of the pings, the pongs and the handlers of
-- the pong timeout come, late ones included: either the ping timer waits, or one ping is under way, or one ping has
-- failed and none is sent again. The game session is told of a lost connection once for the ping that failed and once for
-- each timeout whose handler ran without a pong since the last ping, and for nothing else: a timeout's handler that runs
-- behind the pong tells nothing. No timeout waits while the last ping is answered; and those whose handler ran without
-- a pong, those whose handler is queued and the one that waits are together no more than the pings.
pub Run-IsKept : (k : KeepAlive) → Run start k → IsKept k
unfolding new
Run-IsKept k r = Run-IsKept_from r (record {
  chain = inl (refl, refl, refl);
  pending = refl;
  cancelled = inr refl;
  told = refl;
  bounded = omega arith;
})
