-- ===== src/Table/Steady.antt =====
-- The operations that leave every seated player where he is found, connected or not as before.
use hump.Prelude.{
  ℕ, zero, suc, ◌≡◌, refl, sym, ◌∙◌, ap, subst, ok-injective, >>=-eq-ok, Bool, false, List, [], ◌∷◌,
  ◌++◌, arith, Option, none, some, ℤ, ◌==◌, Bool-cases, inl, inr, if◌then◌else◌, String, str_eq, ok,
  not, ◌&&◌, ◌==ℤ◌,
}
use hump.Action.{apply_action, validate_action}
use hump.Card.{Card}
use hump.Hand.{deal_hole_cards, determine_winners}
use hump.Model.{
  Ptr, null, Player, Store, load, modify, ConnectionStatus, Hand, is_ready_for_hand, seat_1, seat_2,
}
use hump.Model.Store.{IsLive}
use hump.Pot.{distribute_pot}
use hump.Pot.Split.{AllLive}
use hump.Table.{
  TableManager, find_player, get_player, close_hand, end_of, end_hand, process_with,
  process_player_action, start_on, start_hand, new_hand, assign_seat,
}
use hump.Table.Play.{find_player-IsLive}
use hump.Table.Faces.{
  SameFaces, modify-SameFaces, distribute_pot-SameFaces, top_up_all-SameFaces,
  deal_hole_cards-SameFaces, apply_action-SameFaces,
}

pub record IsSteady (m m' : TableManager) : Type 0 where
  pub found : (id : String) → (get_player m id == null) ≡ false → get_player m' id ≡ get_player m id
  pub status :
      (id : String)
      → (get_player m id == null) ≡ false
      → (load m'.store (get_player m id)).connection_status
        ≡ (load m.store (get_player m id)).connection_status

pub IsSteady-refl : (m : TableManager) → IsSteady m m
IsSteady-refl m = record { found = λ id n. refl; status = λ id n. refl }

find_player-SameFaces :
    (st st' : Store) (ps : List Ptr) (id : String)
    → SameFaces st st'
    → find_player st' ps id ≡ find_player st ps id
unfolding find_player
find_player-SameFaces st st' [] id s = refl
find_player-SameFaces st st' (p ∷ ps) id s =
    rw (ap (λ (f : String × ConnectionStatus). f.0) (s p))
      (ap (λ r. if str_eq (load st p).id id then p else r) (find_player-SameFaces st st' ps id s))

pub SameFaces-IsSteady :
    (m m' : TableManager) → m'.players ≡ m.players → SameFaces m.store m'.store → IsSteady m m'
unfolding get_player
SameFaces-IsSteady m m' e s = record {
  found = λ id n.
      ap (λ ps. find_player m'.store ps id) e
      ∙ find_player-SameFaces m.store m'.store m.players id s;
  status = λ id n. ap (λ (f : String × ConnectionStatus). f.1) (s (get_player m id));
}

end_of-IsSteady :
    (m : TableManager) (o : Option Hand) {m' : TableManager} → end_of m o ≡ ok m' → IsSteady m m'
unfolding end_of close_hand
end_of-IsSteady m none {m'} e = let same : m ≡ m' = ok-injective e in rw (← same) (IsSteady-refl m)
end_of-IsSteady m (some hand) {m'} e =
    let (ws, won, e') = >>=-eq-ok (determine_winners m.store hand) _ e in
    let st = (distribute_pot m.store (record hand { winners = ws }) ws).0 in
    let same : close_hand m st ≡ m' = ok-injective e' in
    rw (← same) (
      SameFaces-IsSteady m (close_hand m st) refl λ q.
        top_up_all-SameFaces m.players st q
        ∙ distribute_pot-SameFaces m.store (record hand { winners = ws }) ws q)

pub end_hand-IsSteady : (m : TableManager) {m' : TableManager} → end_hand m ≡ ok m' → IsSteady m m'
unfolding end_hand
end_hand-IsSteady m e = end_of-IsSteady m m.table.current_hand e

process_with-IsSteady :
    (now : ℕ) (m : TableManager) (p : Ptr) (action : String) (amount : ℤ) (o : Option Hand)
    → IsSteady m (process_with now m p action amount o).0
unfolding process_with
process_with-IsSteady now m p action amount none = IsSteady-refl m
process_with-IsSteady now m p action amount (some hand) =
    let r = apply_action now m.store hand p action amount in
    let s = apply_action-SameFaces now m.store hand p action amount in
    elim (Bool-cases (p == null)) [
      | inl e ↦ rw e (IsSteady-refl m)
      | inr e ↦ elim (Bool-cases (validate_action m.store hand p action amount)) [
        | inr v ↦ rw (e, v) (IsSteady-refl m)
        | inl v ↦ elim (Bool-cases r.0) [
          | inl d ↦ rw (e, v, d) (SameFaces-IsSteady m _ refl s)
          | inr d ↦ rw (e, v, d) (SameFaces-IsSteady m _ refl s)
        ]
      ]
    ]

pub process_player_action-IsSteady :
    (now : ℕ) (m : TableManager) (id action : String) (amount : ℤ)
    → IsSteady m (process_player_action now m id action amount).0
unfolding process_player_action
process_player_action-IsSteady now m id action amount =
    process_with-IsSteady now m (get_player m id) action amount m.table.current_hand

start_on-IsSteady :
    (m : TableManager) (hand : Hand) (o : Option Hand) {r : TableManager × Bool}
    → start_on m hand o ≡ ok r
    → IsSteady m r.0
unfolding start_on
start_on-IsSteady m hand (some h) {r} e =
    subst (λ (x : TableManager × Bool). IsSteady m x.0) (ok-injective e) (IsSteady-refl m)
start_on-IsSteady m hand none {r} e =
    let ((st, d), a, e') = >>=-eq-ok (deal_hole_cards hand.players m.store hand.deck) _ e in
    subst (λ (x : TableManager × Bool). IsSteady m x.0) (ok-injective e')
      (SameFaces-IsSteady m _ refl (deal_hole_cards-SameFaces hand.players m.store hand.deck a))

pub start_hand-IsSteady :
    (σ₁ σ₂ : List Card → List Card) (id : String) (m : TableManager) {r : TableManager × Bool}
    → start_hand σ₁ σ₂ id m ≡ ok r
    → IsSteady m r.0
unfolding start_hand
start_hand-IsSteady σ₁ σ₂ id m {r} e = elim (Bool-cases (is_ready_for_hand m.table)) [
  | inl t ↦ start_on-IsSteady m (new_hand σ₁ σ₂ id m.table) m.table.current_hand (rw t at e)
  | inr t ↦
      subst (λ (x : TableManager × Bool). IsSteady m x.0) (ok-injective (rw t at e))
        (IsSteady-refl m)
]

pub IsSteady-trans : {m n k : TableManager} → IsSteady m n → IsSteady n k → IsSteady m k
IsSteady-trans {m} {n} {k} a b = record {
  found = λ id e. b.found id (rw (a.found id e) e) ∙ a.found id e;
  status = λ id e.
      ap (λ p. (load k.store p).connection_status) (sym (a.found id e))
      ∙ b.status id (rw (a.found id e) e)
      ∙ ap (λ p. (load n.store p).connection_status) (a.found id e)
      ∙ a.status id e;
}

load-append : (st : Store) (q : Player) (p : Ptr) → IsLive st p → load (st ++ q ∷ []) p ≡ load st p
unfolding load
load-append st q zero l = absurd (omega arith)
load-append [] q (suc n) l = absurd (omega arith)
load-append (x ∷ st) q (suc zero) l = refl
load-append (x ∷ st) q (suc (suc n)) l = load-append st q (suc n) (omega arith)

find_player-store :
    (st : Store) (q : Player) (ps : List Ptr) (id : String)
    → AllLive st ps
    → find_player (st ++ q ∷ []) ps id ≡ find_player st ps id
unfolding find_player
find_player-store st q [] id l = refl
find_player-store st q (p ∷ ps) id l =
    rw (load-append st q p l.0)
      (ap (λ r. if str_eq (load st p).id id then p else r) (find_player-store st q ps id l.1))

find_player-found :
    (st : Store) (ps : List Ptr) (p : Ptr) (id : String)
    → (find_player st ps id == null) ≡ false
    → find_player st (ps ++ p ∷ []) id ≡ find_player st ps id
unfolding find_player
find_player-found st [] p id n = cc
find_player-found st (q ∷ ps) p id n = elim (Bool-cases (str_eq (load st q).id id)) [
  | inl e ↦ rw e refl
  | inr e ↦ rw e (find_player-found st ps p id (rw e at n))
]

pub allocated-IsSteady :
    (m : TableManager) (q : Player)
    → AllLive m.store m.players
    → IsSteady m (record m { store = m.store ++ q ∷ [] })
unfolding get_player
allocated-IsSteady m q l = record {
  found = λ id n. find_player-store m.store q m.players id l;
  status = λ id n.
      ap (λ (x : Player). x.connection_status)
        (load-append m.store q (find_player m.store m.players id)
          (find_player-IsLive m.store m.players id l n));
}

seated-IsSteady :
    (m m' : TableManager) (p : Ptr) (seat : ℤ)
    → m'.players ≡ m.players ++ p ∷ []
    → m'.store ≡ modify (λ q. record q { seat = seat }) p m.store
    → IsSteady m m'
unfolding get_player
seated-IsSteady m m' p seat e f =
    let n = record m { players = m.players ++ p ∷ [] } in
    let a : IsSteady m n = record {
      found = λ id k. find_player-found m.store m.players p id k;
      status = λ id k. refl;
    } in
    IsSteady-trans a (
      SameFaces-IsSteady n m' e
        (rw f (modify-SameFaces (λ q. record q { seat = seat }) (λ q. refl) p m.store)))

pub assign_seat-IsSteady :
    (m : TableManager) (p : Ptr) (seat : ℤ) → IsSteady m (assign_seat m p seat).0
unfolding assign_seat
assign_seat-IsSteady m p seat =
    let target = if seat ==ℤ seat_1 then m.table.seat_1 else m.table.seat_2 in
    let known = find_player m.store m.players (load m.store p).id in
    elim (Bool-cases (not (seat ==ℤ seat_1) && not (seat ==ℤ seat_2))) [
      | inl a ↦ rw a (IsSteady-refl m)
      | inr a ↦ elim (Bool-cases (not (target == null))) [
        | inl b ↦ rw (a, b) (IsSteady-refl m)
        | inr b ↦ elim (Bool-cases (not (known == null))) [
          | inl c ↦ rw (a, b, c) (IsSteady-refl m)
          | inr c ↦ rw (a, b, c) (seated-IsSteady m _ p seat refl refl)
        ]
      ]
    ]
