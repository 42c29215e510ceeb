-- ===== src/Socket/Order.antt =====
-- The order in which messages are written, and when the writer stops.
use mathlib.Core.List.{append_assoc, append-nil}
use hump.Prelude.{
  ◌≤◌, ◌≡◌, refl, sym, ◌∙◌, ap, ◌↔◌, inl, inr, Bool, true, false, not, List, [], ◌∷◌, ◌++◌, arith,
  String, str_eq, length, length-append, Bool-cases, if◌then◌else◌,
}
use hump.Pot.{is_empty}
use hump.Socket.{
  WebSocketSession, Outcome, done, blocked, send, do_write, run_posted, on_write, ended, Step,
  sends, runs, ends, Run, stop, step,
}

-- A write is under way just when the flag says so, and then there is a message in the queue that it is for.
abbrev pub Writes : Bool → Bool → List String → Type 0
Writes true f [] = ⊥
Writes true f (m ∷ ms) = f ≡ true
Writes false f ms = f ≡ false

-- A session between two handlers: the mutex is free, and the messages that are gone, as many as texts are on the
-- wire, those in the queue and those on the executor are, in this order, what was sent.
pub record IsOrdered (s : WebSocketSession) : Type 0 where
  pub free : s.write_queue_mutex ≡ false
  pub writes : Writes s.is_writing s.in_flight s.write_queue
  pub gone : List String
  pub counted : length gone ≡ length s.wire
  pub in_order : gone ++ s.write_queue ++ s.tasks ≡ s.sent

abbrev pub IsDoneOrdered : Outcome → Type 0
IsDoneOrdered (done s) = IsOrdered s
IsDoneOrdered blocked = Unit {0}

send-IsOrdered : (s : WebSocketSession) (m : String) → IsOrdered s → IsOrdered (send s m)
unfolding send
send-IsOrdered s m o = elim (Bool-cases (str_eq m "")) [
  | inl e ↦ rw e o
  | inr e ↦ rw e (record {
    free = o.free;
    writes = o.writes;
    gone = o.gone;
    counted = o.counted;
    in_order =
        sym (append_assoc (o.gone ++ s.write_queue) s.tasks (m ∷ []))
        ∙ ap (λ ms. ms ++ m ∷ []) o.in_order;
  })
]

Writes-push :
    (f : Bool) (q : List String) (m : String) → Writes true f q → Writes true f (q ++ m ∷ [])
Writes-push f [] m w = elim w [ ]
Writes-push f (n ∷ q) m w = w

Writes-first : (q : List String) (m : String) → Writes true true (q ++ m ∷ [])
Writes-first [] m = refl
Writes-first (n ∷ q) m = refl

push_order :
    (w q rest : List String) (m : String) → w ++ (q ++ m ∷ []) ++ rest ≡ w ++ q ++ (m ∷ rest)
push_order w q rest m =
    ap (λ ms. ms ++ rest) (sym (append_assoc w q (m ∷ []))) ∙ append_assoc (w ++ q) (m ∷ []) rest

-- The posted handler does not block, and puts its message at the end of the queue.
run_posted-IsOrdered :
    (s : WebSocketSession) (m : String) (rest : List String)
    → s.tasks ≡ m ∷ rest
    → IsOrdered s
    → IsDoneOrdered (run_posted s m rest)
unfolding run_posted do_write
run_posted-IsOrdered s m rest e o =
    let same =
      push_order o.gone s.write_queue rest m
      ∙ ap (λ ms. o.gone ++ s.write_queue ++ ms) (sym e)
      ∙ o.in_order in
    elim (Bool-cases s.is_writing) [
      | inl w ↦
          rw (o.free, w)
            (record {
              free = refl;
              writes = Writes-push s.in_flight s.write_queue m (rw w at o.writes);
              gone = o.gone;
              counted = o.counted;
              in_order = same;
            })
      | inr w ↦
          rw (o.free, w)
            (record {
              free = refl;
              writes = Writes-first s.write_queue m;
              gone = o.gone;
              counted = o.counted;
              in_order = same;
            })
    ]

-- What ends is the write for the first message.
ended_first :
    (b f : Bool) (q : List String)
    → Writes b f q
    → f ≡ true
    → (m : String) × (ms : List String) × (q ≡ m ∷ ms)
ended_first true f [] w e = elim w [ ]
ended_first true f (n ∷ q) w e = (n, q, refl)
ended_first false f q w e = absurd (let w' = w in cc)

-- The end of a write, with what waits behind its message.
on_write_next :
    (s : WebSocketSession) (x m : String) (ms : List String)
    → s.write_queue_mutex ≡ false
    → s.write_queue ≡ m ∷ ms
    → on_write false (ended false x s) ≡ (
        if not (is_empty ms)
        then blocked
        else done (record s {
          write_queue = ms;
          write_queue_mutex = false;
          is_writing = false;
          in_flight = false;
          wire = s.wire ++ x ∷ [];
        }))
unfolding on_write do_write
on_write_next s x m ms free e = rw (free, e) refl

on_write-IsOrdered :
    (s : WebSocketSession) (failed : Bool) (x : String)
    → s.in_flight ≡ true
    → IsOrdered s
    → IsDoneOrdered (on_write failed (ended failed x s))
on_write-IsOrdered s true x e o =
    unfold on_write in
    record {
      free = o.free;
      writes = refl;
      gone = o.gone;
      counted = o.counted;
      in_order = o.in_order;
    }
on_write-IsOrdered s false x e o =
    let (m, ms, q) = ended_first s.is_writing s.in_flight s.write_queue o.writes e in
    rw (on_write_next s x m ms o.free q) (rest m ms q)
  where
    rest :
        (m : String) (ms : List String)
        → s.write_queue ≡ m ∷ ms
        → IsDoneOrdered (
            if not (is_empty ms)
            then blocked
            else done (record s {
              write_queue = ms;
              write_queue_mutex = false;
              is_writing = false;
              in_flight = false;
              wire = s.wire ++ x ∷ [];
            }))
    rest m [] q = record {
      free = refl;
      writes = refl;
      gone = o.gone ++ m ∷ [];
      counted =
          omega (
            arith,
            length-append {0} o.gone (m ∷ []),
            length-append {0} s.wire (x ∷ []),
            o.counted,
          );
      in_order =
          ap (λ ms. ms ++ s.tasks) (append-nil (o.gone ++ m ∷ []))
          ∙ ap (λ ms. o.gone ++ ms ++ s.tasks) (sym q)
          ∙ o.in_order;
    }
    rest m (n ∷ ms) q = tt

Step-IsOrdered : (s : WebSocketSession) (o : Outcome) → Step s o → IsOrdered s → IsDoneOrdered o
Step-IsOrdered _ _ (sends s m) i = send-IsOrdered s m i
Step-IsOrdered _ _ (runs s m rest e) i = run_posted-IsOrdered s m rest e i
Step-IsOrdered _ _ (ends s failed x e) i = on_write-IsOrdered s failed x e i

-- From an ordered state, whatever is sent, in whatever order the handlers run and whichever writes
-- fail, and whatever text a write takes from its dead buffer: as long as the session is not blocked, the messages
-- that are gone, as many as texts have been written, those in the queue and those on the executor are together
-- what was sent, in the order of sending; and while a write is under way the queue has the message that it is for.
pub Run-IsOrdered : (s : WebSocketSession) (o : Outcome) → Run s o → IsOrdered s → IsDoneOrdered o
Run-IsOrdered _ _ (stop s) i = i
Run-IsOrdered _ _ (step s t o r x) i = Step-IsOrdered t o x (Run-IsOrdered s (done t) r i)

-- The bug: the end of a write stops its thread for good, at the mutex that it holds itself, exactly when
-- the write was good and another message waits behind the one that was written.
pub on_write_blocked_iff :
    (s : WebSocketSession) (failed : Bool) (x : String)
    → s.in_flight ≡ true
    → IsOrdered s
    → (on_write failed (ended failed x s) ≡ blocked)
      ↔ ((failed ≡ false) × (2 ≤ length s.write_queue))
on_write_blocked_iff s true x e o =
    unfold on_write in (λ h. absurd (let h' = h in cc), λ h. absurd (let h' = h.0 in cc))
on_write_blocked_iff s false x e o =
    let (m, ms, q) = ended_first s.is_writing s.in_flight s.write_queue o.writes e in
    rw (on_write_next s x m ms o.free q, q) (waits m ms)
  where
    waits :
        (m : String) (ms : List String)
        → ((if not (is_empty ms)
              then blocked
              else done (record s {
                write_queue = ms;
                write_queue_mutex = false;
                is_writing = false;
                in_flight = false;
                wire = s.wire ++ x ∷ [];
              }))
            ≡ blocked)
          ↔ ((false ≡ false) × (2 ≤ length (m ∷ ms)))
    waits m [] = (λ h. absurd (let h' = h in cc), λ h. absurd (let h' = h.1 in omega arith))
    waits m (n ∷ ms) = (λ h. (refl, omega arith), λ h. refl)
