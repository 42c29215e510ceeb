-- ===== src/Client/Stall.antt =====
-- Joining, in src/server/game_session.cpp, against the main loop of src/client/client.cpp.
use hump.Prelude.{
  ℕ, suc, ◌≡◌, refl, Bool, true, false, not, ◌&&◌, List, [], ◌∷◌, ◌++◌, Option, none, some, ℤ, ◌==◌,
  All, if◌then◌else◌, String, str_eq, Result, ok, err, Bool-cases, inl, inr,
}
use hump.Client.{Uniform}
use hump.Client.Bot.{Client, main_loop}
use hump.Client.Silence.{asks, is_error, heard, on_message-silent}
use hump.Json.{Json}
use hump.Model.{null, Hand, load, is_connected}
use hump.Session.{
  GameSession, Env, Reply, error_response, join_ack, returned, state, with_value, manager,
  with_manager, session_of, player_of, send_json, send_all, broadcast_json, player_reconnected,
}
use hump.Session.Broadcasts.{started_with, broadcast_hand_started, broadcast_player_reconnected}
use hump.Session.Join.{
  rebind, is_elsewhere, reconnected, rejoin, empty_seat, start_if_ready, seat_player, join_as, join,
}
use hump.Session.Messages.{reply_to_json}
use hump.Session.Rebind.{rebind-kept}
use hump.Table.{TableManager, get_player, start_hand, ready_for_hand, assign_seat}

abbrev pub IsSilent : List (ℕ × Reply) → Type 0
IsSilent outbox = All (λ m. asks m.1 ≡ false) outbox

append-IsSilent :
    (ms : List (ℕ × Reply)) (m : ℕ × Reply)
    → asks m.1 ≡ false
    → IsSilent ms
    → IsSilent (ms ++ m ∷ [])
append-IsSilent [] m e h = (e, tt)
append-IsSilent (x ∷ ms) m e h = (h.0, append-IsSilent ms m e h.1)

send_json-IsSilent :
    (g : GameSession) (session : ℕ) (r : Reply)
    → asks r ≡ false
    → IsSilent g.outbox
    → IsSilent (send_json g session r).outbox
unfolding send_json
send_json-IsSilent g session r e h = elim (Bool-cases (session == 0)) [
  | inl z ↦ rw z h
  | inr z ↦ rw z (append-IsSilent g.outbox (session, r) e h)
]

send_all-IsSilent :
    (g : GameSession) (l : List (String × ℕ)) (r : Reply)
    → asks r ≡ false
    → IsSilent g.outbox
    → IsSilent (send_all g l r).outbox
unfolding send_all
send_all-IsSilent g [] r e h = h
send_all-IsSilent g ((id, s) ∷ l) r e h =
    send_all-IsSilent (send_json g s r) l r e (send_json-IsSilent g s r e h)

broadcast-IsSilent :
    (g : GameSession) (r : Reply)
    → asks r ≡ false
    → IsSilent g.outbox
    → IsSilent (broadcast_json g r).outbox
unfolding broadcast_json
broadcast-IsSilent g r e h = send_all-IsSilent g g.player_sessions r e h

started_with-IsSilent :
    (g : GameSession) (o : Option Hand) → IsSilent g.outbox → IsSilent (started_with g o).outbox
unfolding started_with
started_with-IsSilent g none h = h
started_with-IsSilent g (some hand) h = broadcast-IsSilent g _ refl h

start_if_ready-IsSilent :
    (env : Env) (g : GameSession)
    → IsSilent g.outbox
    → IsSilent (state (start_if_ready env g)).outbox
unfolding start_if_ready broadcast_hand_started
start_if_ready-IsSilent env g h = elim (Bool-cases (ready_for_hand (manager g))) [
  | inr e ↦ rw e h
  | inl e ↦ rw e (go (start_hand env.first_order env.second_order env.hand_id (manager g)))
]
  where
    go :
        (v : Result (TableManager × Bool))
        → IsSilent
            (state (
              with_value g v λ r. returned (
                if r.1
                then broadcast_hand_started (with_manager g r.0)
                else with_manager g r.0))).outbox
    go (err e) = h
    go (ok (m, true)) = started_with-IsSilent (with_manager g m) m.table.current_hand h
    go (ok (m, false)) = h

seat_player-IsSilent :
    (env : Env) (g : GameSession) (session : ℕ) (id name : String) (seat : ℤ)
    → IsSilent g.outbox
    → IsSilent (state (seat_player env g session id name seat)).outbox
unfolding seat_player
seat_player-IsSilent env g session id name seat h = go (assign_seat _ _ _)
  where
    go :
        (r : TableManager × Bool)
        → IsSilent
            (state (
              if not r.1
              then returned (
                  send_json
                    (with_manager g r.0)
                    session
                    (error_response "seat_unavailable" "Seat assignment failed"))
              else start_if_ready env
                  (send_json (with_manager g r.0) session (join_ack id seat)))).outbox
    go (m, true) =
        start_if_ready-IsSilent env _ (send_json-IsSilent (with_manager g m) session _ refl h)
    go (m, false) = send_json-IsSilent (with_manager g m) session _ refl h

rejoin-IsSilent :
    (g : GameSession) (session : ℕ) (id : String) (p : ℕ)
    → IsSilent g.outbox
    → IsSilent (rejoin g session id p).outbox
unfolding rejoin broadcast_player_reconnected
rejoin-IsSilent g session id p h = elim (Bool-cases (is_elsewhere (session_of g id) session)) [
  | inl e ↦ rw e (send_json-IsSilent g session _ refl h)
  | inr e ↦
      let bound : IsSilent (rebind g id session).outbox = rw (rebind-kept g id session).0 h in
      rw e (
        send_json-IsSilent _ session _ refl (
          broadcast-IsSilent (reconnected (rebind g id session) id p) (player_reconnected id) refl
            bound))
]

join_as-IsSilent :
    (env : Env) (g : GameSession) (session : ℕ) (name : String) (o : Option String)
    → IsSilent g.outbox
    → IsSilent (state (join_as env g session name o)).outbox
unfolding join_as
join_as-IsSilent env g session name none h = send_json-IsSilent g session _ refl h
join_as-IsSilent env g session name (some id) h =
    elim (Bool-cases (get_player (manager g) id == null)) [
      | inr e ↦ rw e (send_json-IsSilent g session _ refl h)
      | inl e ↦ rw e (go (empty_seat (manager g)))
    ]
  where
    go :
        (o : Option ℤ)
        → IsSilent
            (state (elim o [
              | none ↦
                  returned
                    (send_json g session (error_response "table_full" "No empty seats available"))
              | some seat ↦ seat_player env g session id name seat
            ])).outbox
    go none = send_json-IsSilent g session _ refl h
    go (some seat) = seat_player-IsSilent env g session id name seat h

join-IsSilent :
    (env : Env) (g : GameSession) (session : ℕ) (name provided : String)
    → IsSilent g.outbox
    → IsSilent (state (join env g session name provided)).outbox
unfolding join
join-IsSilent env g session name provided h =
    let p = get_player (manager g) provided in
    elim (Bool-cases (
      not (str_eq provided "")
      && not (p == null)
      && not (is_connected (load (manager g).store p).connection_status))) [
        | inl e ↦ rw e (rejoin-IsSilent g session provided p h)
        | inr e ↦ rw e (join_as-IsSilent env g session name (player_of g session) h)
      ]

-- The texts that a session gets, in their order.
abbrev pub texts_for : (J : Json) → ℕ → List (ℕ × Reply) → List J.Text
texts_for J session [] = []
texts_for J session ((s, r) ∷ ms) =
    let rest = texts_for J session ms in
    if s == session then J.dump (reply_to_json J r) ∷ rest else rest

-- A turn of the loop for a message that asks for nothing.
main_loop-heard :
    (J : Json) (us : ℕ → Uniform) (n : ℕ) (c : Client) (r : Reply) (ts : List J.Text)
    → asks r ≡ false
    → main_loop J us (suc n) (heard c r) ts ≡ []
    → main_loop J us n c (J.dump (reply_to_json J r) ∷ ts) ≡ []
unfolding main_loop
main_loop-heard J us n c r ts h rest =
    rw (main_loop, on_message-silent J (us n) c r h)
      (elim (Bool-cases (is_error r)) [ inl b ↦ rw b refl | inr b ↦ rw b rest ])

main_loop-silent :
    (J : Json) (us : ℕ → Uniform) (n : ℕ) (c : Client) (session : ℕ) (ms : List (ℕ × Reply))
    → IsSilent ms
    → main_loop J us n c (texts_for J session ms) ≡ []
unfolding main_loop
main_loop-silent J us n c session [] h = refl
main_loop-silent J us n c session ((s, r) ∷ ms) h = elim (Bool-cases (s == session)) [
  | inr e ↦ rw e (main_loop-silent J us n c session ms h.1)
  | inl e ↦ rw e (
      main_loop-heard J us n c r (texts_for J session ms) h.0
        (main_loop-silent J us (suc n) (heard c r) session ms h.1))
]

-- The bug: as long as nothing that asks a player has been sent, a player's joining, the one that starts a
-- hand too, sends nothing that asks either, and a bot whose main loop reads all that is sent to a session
-- writes nothing.
pub join-stalls :
    (J : Json) (env : Env) (g : GameSession) (session : ℕ) (name provided : String)
    (us : ℕ → Uniform) (n : ℕ) (c : Client) (reader : ℕ)
    → IsSilent g.outbox
    → let g' = state (join env g session name provided) in
      IsSilent g'.outbox × (main_loop J us n c (texts_for J reader g'.outbox) ≡ [])
join-stalls J env g session name provided us n c reader h =
    let quiet = join-IsSilent env g session name provided h in
    (quiet, main_loop-silent J us n c reader _ quiet)
