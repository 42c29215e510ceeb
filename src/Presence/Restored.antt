-- ===== src/Presence/Restored.antt =====
-- A player who is lost and comes back, with his timers cancelled before.
use hump.Prelude.{
  ℕ, ◌≡◌, refl, ◌∙◌, ap, false, List, [], ◌∷◌, none, Bool-cases, inl, inr, String, str_eq, eq_iff,
  ◌==◌,
}
use hump.Model.{Ptr, null, Player, Store, load, connected, is_connected}
use hump.Model.Store.{IsLive, load-modify_self}
use hump.Presence
use hump.Presence.{
  TimerMap, PlayerStateManager, find_timers, erase_timers, start_grace_timer, cancel_timers,
  on_reconnect,
}
use hump.Presence.Timers.{erase-put, reconnect-disconnect}
use hump.Table.{TableManager, get_player, find_player}
use hump.Table.Seats.{find_player-modify}

-- A second erasure finds nothing.
erase_timers-twice :
    (m : TimerMap) (id : String) → erase_timers (erase_timers m id) id ≡ erase_timers m id
unfolding erase_timers
erase_timers-twice [] id = refl
erase_timers-twice ((k, t) ∷ m) id = elim (Bool-cases (str_eq k id)) [
  | inl e ↦ rw e (erase_timers-twice m id)
  | inr e ↦ rw (e, e) (ap (λ r. (k, t) ∷ r) (erase_timers-twice m id))
]

-- Who is found by an id has it.
id-find_player :
    (st : Store) (ps : List Ptr) (id : String)
    → (find_player st ps id == null) ≡ false
    → (load st (find_player st ps id)).id ≡ id
unfolding find_player
id-find_player st [] id n = cc
id-find_player st (p ∷ ps) id n = elim (Bool-cases (str_eq (load st p).id id)) [
  | inl e ↦ rw e ((eq_iff (load st p).id id).0 e)
  | inr e ↦ rw e (id-find_player st ps id (rw e at n))
]

-- The id of a player that is found by it.
pub get_player-id :
    (m : TableManager) (id : String)
    → (get_player m id == null) ≡ false
    → (load m.store (get_player m id)).id ≡ id
unfolding get_player
get_player-id m id n = id-find_player m.store m.players id n

-- The timers are those from before but for the player's own, and so is the player but for what says that he is connected.
pub record Restored (s : PlayerStateManager) (id : String) (p : Ptr) (t : PlayerStateManager)
    : Type 0 where
  pub table : t.table_manager.table ≡ s.table_manager.table
  pub players : t.table_manager.players ≡ s.table_manager.players
  pub timers : t.timers ≡ cancel_timers s.timers id
  pub state : load t.table_manager.store p ≡ record (load s.table_manager.store p) {
    connection_status = connected;
    disconnected_at = none;
    is_sitting_out = false;
  }

-- The player is found by his id as before, and he is not connected.
pub lost-facts :
    (now : ℕ) (s : PlayerStateManager) (p : Ptr) (id : String)
    → IsLive s.table_manager.store p
    → let t = Presence.on_disconnect now s p in
      (get_player t.table_manager id ≡ get_player s.table_manager id)
      × (is_connected (load t.table_manager.store p).connection_status ≡ false)
unfolding Presence.on_disconnect get_player
lost-facts now s p id l = (
  find_player-modify _ (λ q. refl) p s.table_manager.store s.table_manager.players id,
  ap (λ (q : Player). is_connected q.connection_status)
      (load-modify_self _ p s.table_manager.store l),
)

-- The timers are cancelled once for the new connection, and once more for the player.
abbrev pub return : ℕ → PlayerStateManager → String → Ptr → PlayerStateManager
return now s id p =
    let lost = Presence.on_disconnect now s p in
    on_reconnect (record lost { timers = cancel_timers lost.timers id }) p

pub return-Restored :
    (now : ℕ) (s : PlayerStateManager) (id : String) (p : Ptr)
    → IsLive s.table_manager.store p
    → (load s.table_manager.store p).id ≡ id
    → Restored s id p (return now s id p)
unfolding Presence.on_disconnect on_reconnect start_grace_timer cancel_timers
return-Restored now s id p l same =
    let st = s.table_manager.store in
    let lost = Presence.on_disconnect now s p in
    let gone : (load lost.table_manager.store p).id ≡ id =
      ap (λ (q : Player). q.id) (load-modify_self _ p st l) ∙ same in
    let once : erase_timers lost.timers id ≡ erase_timers s.timers id =
      rw same (erase-put s.timers id _) in
    let (_, state, _) = reconnect-disconnect now s p l in
    record {
      table = refl;
      players = refl;
      timers = rw (gone, once) (erase_timers-twice s.timers id);
      state = state;
    }
