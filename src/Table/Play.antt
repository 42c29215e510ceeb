-- ===== src/Table/Play.antt =====
-- Actions at the table and the end of a hand.
use hump.Prelude.{
  ℕ, ◌≡◌, refl, sym, ◌∙◌, ap, ◌⊎◌, inl, inr, true, false, List, [], ◌∷◌, arith, ℤ, ◌+ℤ◌, ◌-ℤ◌, ◌==◌,
  ==_iff, length, Bool-cases, Option, none, some, String, str_eq,
}
use hump.Model.{Ptr, null, Store, load, Hand}
use hump.Model.Store.{IsLive, chips, length-modify}
use hump.Pot.Split.{AllLive}
use hump.Action.{validate_action, apply_action}
use hump.Action.Apply.{MovesChips, apply_action-MovesChips, apply_action_refused}
use hump.Table.{TableManager, find_player, get_player, process_with, process_player_action}

pub find_player-IsLive :
    (st : Store) (ps : List Ptr) (player_id : String)
    → AllLive st ps
    → (find_player st ps player_id == null) ≡ false
    → IsLive st (find_player st ps player_id)
unfolding find_player
find_player-IsLive st [] player_id o e = cc
find_player-IsLive st (p ∷ ps) player_id o e = elim (Bool-cases (str_eq (load st p).id player_id)) [
  | inl t ↦ rw t o.0
  | inr t ↦ rw t (find_player-IsLive st ps player_id o.1 (rw t at e))
]

pub get_player-IsLive :
    (m : TableManager) (id : String)
    → AllLive m.store m.players
    → (get_player m id == null) ≡ false
    → IsLive m.store (get_player m id)
unfolding get_player
get_player-IsLive m id o n = find_player-IsLive m.store m.players id o n

-- Why an action may be refused: there is no hand, no such player, or it is not valid.
abbrev pub IsRefusable : TableManager → String → String → ℤ → Type 0
IsRefusable m id action amount =
    (m.table.current_hand ≡ none)
    ⊎ (get_player m id ≡ null)
    ⊎ ((h : Hand) × (m.table.current_hand ≡ some h)
        × (validate_action m.store h (get_player m id) action amount ≡ false))

-- The table after an accepted action.
abbrev pub after : ℕ → TableManager → Hand → String → String → ℤ → TableManager
after now m h id action amount =
    let (done, st', h') = apply_action now m.store h (get_player m id) action amount in
    record m { table = record m.table { current_hand = some h'; pot = h'.pot }; store = st' }

-- An accepted action: it is valid, and moves its amount.
pub record IsAccepted (now : ℕ) (m : TableManager) (id action : String) (amount : ℤ) (h : Hand)
    : Type 0 where
  pub in_play : m.table.current_hand ≡ some h
  pub valid : validate_action m.store h (get_player m id) action amount ≡ true
  pub moves :
      MovesChips m.store h
        (get_player m id)
        amount
        (apply_action now m.store h (get_player m id) action amount).1
        (apply_action now m.store h (get_player m id) action amount).2

process_with_lem :
    (now : ℕ) (m : TableManager) (id action : String) (amount : ℤ) (c : Option Hand)
    → m.table.current_hand ≡ c
    → AllLive m.store m.players
    → let r = process_with now m (get_player m id) action amount c in
      (IsRefusable m id action amount × (r ≡ (m, false)))
      ⊎ ((h : Hand) × IsAccepted now m id action amount h
          × (r ≡ (after now m h id action amount, true)))
unfolding process_with
process_with_lem now m id action amount none e o = inl (inl e, refl)
process_with_lem now m id action amount (some h) e o = elim (Bool-cases (get_player m id == null)) [
  | inl n ↦ inl (inr (inl ((==_iff _ 0).0 n)), rw n)
  | inr n ↦ elim (Bool-cases (validate_action m.store h (get_player m id) action amount)) [
    | inl v ↦
        let live = get_player-IsLive m id o n in
        let done = (apply_action_refused now m.store h (get_player m id) action amount).0 ∙ v in
        inr (
          h,
          record {
            in_play = e;
            valid = v;
            moves = apply_action-MovesChips now m.store h (get_player m id) action amount live v;
          },
          rw (n, v, done),
        )
    | inr v ↦ inl (inr (inr (h, e, v)), rw (n, v))
  ]
]

-- If the table's players are in the store, an action at the table is refused for one of three
-- reasons, and then nothing changes; or it is the valid action of a seated player on the current
-- hand, moves exactly its amount of chips, and the table shows the hand's new pot.
pub process_player_action_lem :
    (now : ℕ) (m : TableManager) (id action : String) (amount : ℤ)
    → AllLive m.store m.players
    → (IsRefusable m id action amount × (process_player_action now m id action amount ≡ (m, false)))
      ⊎ ((h : Hand) × IsAccepted now m id action amount h
          × (process_player_action now m id action amount ≡ (after now m h id action amount, true)))
unfolding process_player_action
process_player_action_lem now m id action amount o =
    process_with_lem now m id action amount m.table.current_hand refl o

pub AllLive-length :
    (st st' : Store) (ps : List Ptr) → length st' ≡ length st → AllLive st ps → AllLive st' ps
AllLive-length st st' [] e o = tt
AllLive-length st st' (p ∷ ps) e o = (omega arith, AllLive-length st st' ps e o.1)

length-apply_action :
    (now : ℕ) (st : Store) (h : Hand) (p : Ptr) (action : String) (amount : ℤ)
    → length (apply_action now st h p action amount).1 ≡ length st
unfolding apply_action
length-apply_action now st h p action amount =
    ground (arith, length-modify (λ q. record q { stack = q.stack -ℤ amount }) p st)

-- The chips in the stacks and in the pot of the hand, if there is one.
unfoldable pub chips_in_play : TableManager → Option Hand → ℤ
chips_in_play m none = chips m.store
chips_in_play m (some h) = chips m.store +ℤ h.pot

abbrev pub table_chips : TableManager → ℤ
table_chips m = chips_in_play m m.table.current_hand

-- The requests that reach the table, one after another: the time, the player, the action, the amount.
pub run_actions : TableManager → List (ℕ × String × String × ℤ) → TableManager
run_actions m [] = m
run_actions m ((now, id, action, amount) ∷ rs) =
    run_actions (process_player_action now m id action amount).0 rs

chips_in_play-some :
    (m : TableManager) (h : Hand)
    → m.table.current_hand ≡ some h
    → table_chips m ≡ chips m.store +ℤ h.pot
unfolding chips_in_play
chips_in_play-some m h e = ap (chips_in_play m) e

pub step-chips :
    (now : ℕ) (m : TableManager) (id action : String) (amount : ℤ)
    → AllLive m.store m.players
    → let m' = (process_player_action now m id action amount).0 in
      (table_chips m' ≡ table_chips m) × AllLive m'.store m'.players × (m'.players ≡ m.players)
unfolding chips_in_play
step-chips now m id action amount o = elim (process_player_action_lem now m id action amount o) [
  | inl (why, e) ↦ rw e (refl, o, refl)
  | inr (h, a, e) ↦ rw e (
    a.moves.conserved ∙ sym (chips_in_play-some m h a.in_play),
    AllLive-length m.store (after now m h id action amount).store m.players
        (length-apply_action now m.store h (get_player m id) action amount) o,
    refl,
  )
]

-- Whatever requests arrive, valid or not, from whom and in what order: if the table's players are in
-- the store, the chips in the stacks and in the pot of the hand together stay the same.
pub table_chips-run_actions :
    (m : TableManager) (rs : List (ℕ × String × String × ℤ))
    → AllLive m.store m.players
    → table_chips (run_actions m rs) ≡ table_chips m
unfolding run_actions
table_chips-run_actions m [] o = refl
table_chips-run_actions m ((now, id, action, amount) ∷ rs) o =
    let (same, o', ps) = step-chips now m id action amount o in
    table_chips-run_actions (process_player_action now m id action amount).0 rs o' ∙ same
