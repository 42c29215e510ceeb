-- ===== src/Session/TopUp.antt =====
-- A request to be topped up, and the chips at the table.
use hump.Prelude.{
  ℕ, ◌≡◌, refl, ap, ◌∙◌, false, [], ◌∷◌, ◌++◌, arith, Option, none, some, ◌+ℤ◌, int_laws, parts,
  ◌==◌, String,
}
use hump.Model.{Ptr, null, Player, load, modify, top_up, Hand}
use hump.Model.Store.{IsLive, chips-modify, load-modify_self}
use hump.Table.{get_player}
use hump.Table.Play.{table_chips, chips_in_play}
use hump.Session.{
  GameSession, top_up_ack, send_json, player_of, top_up_found, top_up_player, topped_up,
  handle_top_up,
}

handle_top_up-found :
    (g : GameSession) (session : ℕ) (id : String) (p : Ptr)
    → (session == 0) ≡ false
    → player_of g session ≡ some id
    → get_player g.players.table_manager id ≡ p
    → (p == null) ≡ false
    → handle_top_up g session
      ≡ send_json
          (topped_up g p)
          session
          (top_up_ack id (load (modify top_up p g.players.table_manager.store) p).stack)
unfolding handle_top_up top_up_player
handle_top_up-found g session id p n e f l =
    rw n (ap (top_up_found g session) e ∙ unfold top_up_found in rw (f, l) refl)

-- Chips that a player gains, the table gains, with a hand or without one.
chips_gained :
    (g : GameSession) (p : Ptr) (c : Option Hand)
    → IsLive g.players.table_manager.store p
    → let st = g.players.table_manager.store in
      chips_in_play (topped_up g p).players.table_manager c +ℤ (load st p).stack
      ≡ chips_in_play g.players.table_manager c +ℤ (top_up (load st p)).stack
unfolding chips_in_play
chips_gained g p none l = chips-modify top_up p g.players.table_manager.store l
chips_gained g p (some h) l =
    omega (int_laws, parts (chips-modify top_up p g.players.table_manager.store l))

-- The bug: a seated player who asks is topped up and told his new stack whether a hand is played or not, so
-- the chips at the table grow by what he was given even in the middle of a hand.
pub handle_top_up_lem :
    (g : GameSession) (session : ℕ) (id : String) (p : Ptr)
    → (session == 0) ≡ false
    → player_of g session ≡ some id
    → get_player g.players.table_manager id ≡ p
    → IsLive g.players.table_manager.store p
    → let g' = handle_top_up g session in
      let m = g.players.table_manager in
      let m' = g'.players.table_manager in
      (g'.outbox ≡ g.outbox ++ (session, top_up_ack id (top_up (load m.store p)).stack) ∷ [])
      × (load m'.store p ≡ top_up (load m.store p))
      × (table_chips m' +ℤ (load m.store p).stack
          ≡ table_chips m +ℤ (top_up (load m.store p)).stack)
unfolding send_json
handle_top_up_lem g session id p n e f l =
    let st = g.players.table_manager.store in
    let new = load-modify_self top_up p st l in
    rw (handle_top_up-found g session id p n e f (ground arith), n)
      (
        ap (λ q. g.outbox ++ (session, top_up_ack id (Player.stack q)) ∷ []) new,
        new,
        chips_gained g p g.players.table_manager.table.current_hand l,
      )
