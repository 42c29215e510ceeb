-- ===== src/Table/Accepted.antt =====
-- The table after an accepted action.
use hump.Prelude.{
  ℕ, ◌≡◌, refl, inl, inr, true, false, List, arith, Option, none, some, ℤ, ◌-ℤ◌, ◌==◌, String,
}
use hump.Model.{Ptr, null, Store, Hand}
use hump.Action.{apply_action}
use hump.Pot.Split.{AllLive}
use hump.Table.{TableManager, find_player, get_player, process_with, process_player_action}
use hump.Table.Play.{after, process_player_action_lem}
use hump.Table.Seats.{find_player-modify}

find_player-apply_action :
    (now : ℕ) (st : Store) (h : Hand) (p : Ptr) (action : String) (amount : ℤ) (ps : List Ptr)
    (id : String)
    → find_player (apply_action now st h p action amount).1 ps id ≡ find_player st ps id
unfolding apply_action
find_player-apply_action now st h p action amount ps id =
    let paid =
      find_player-modify (λ q. record q { stack = q.stack -ℤ amount }) (λ q. refl) p st ps id in
    ground (arith, paid)

seated_with :
    (now : ℕ) (m : TableManager) (p : Ptr) (action : String) (amount : ℤ) (o : Option Hand)
    → (process_with now m p action amount o).1 ≡ true
    → (p == null) ≡ false
unfolding process_with
seated_with now m p action amount none h = cc
seated_with now m p action amount (some hand) h = ground (arith, h)

-- An accepted action is that of a seated player, who is found by his id afterwards; there is a hand still.
pub process_player_action-seated :
    (now : ℕ) (m : TableManager) (id action : String) (amount : ℤ)
    → AllLive m.store m.players
    → (process_player_action now m id action amount).1 ≡ true
    → let m' = (process_player_action now m id action amount).0 in
      ((get_player m' id == null) ≡ false) × ((h : Hand) × (m'.table.current_hand ≡ some h))
process_player_action-seated now m id action amount l t =
    elim (process_player_action_lem now m id action amount l) [
      | inl (why, e) ↦ absurd (let t' = rw e at t in cc)
      | inr (h, a, e) ↦
          let seated : (get_player m id == null) ≡ false =
            unfold process_player_action in
            seated_with now m (get_player m id) action amount m.table.current_hand t in
          let same : get_player (after now m h id action amount) id ≡ get_player m id =
            unfold get_player in
            find_player-apply_action now m.store h (get_player m id) action amount m.players id in
          rw e (rw same seated, (_, refl))
    ]
