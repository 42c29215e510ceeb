-- ===== src/Table/Seats.antt =====
-- Seats: who takes one, and what leaving it restores.
use hump.Prelude.{
  zero, suc, ◌≡◌, ◌≢◌, refl, sym, ◌∙◌, ap, ◌⊎◌, inl, inr, true, false, List, [], ◌∷◌, ◌++◌, arith,
  ℤ, ◌==ℤ◌, ◌==◌, ==_iff, Bool-cases, if◌then◌else◌, String, str_eq, eq_iff,
}
use hump.Model.{Ptr, null, Player, Store, load, modify, seat_1, seat_2}
use hump.Model.Store.{IsLive}
use hump.Pot.Split.{AllLive}
use hump.Table.{TableManager, find_player, get_player, assign_seat, erase, remove_player}

-- The store with the player's new seat.
abbrev pub seated_at : ℤ → Ptr → Store → Store
seated_at s p st = modify (λ q. record q { seat = s }) p st

-- A write that keeps the id keeps everyone's.
id-modify :
    (f : Player → Player)
    → ((q : Player) → (f q).id ≡ q.id)
    → (p : Ptr) (st : Store) (q : Ptr) → (load (modify f p st) q).id ≡ (load st q).id
unfolding load modify
id-modify f k zero st q = refl
id-modify f k (suc n) [] q = refl
id-modify f k (suc zero) (x ∷ st) zero = refl
id-modify f k (suc zero) (x ∷ st) (suc zero) = k x
id-modify f k (suc zero) (x ∷ st) (suc (suc m)) = refl
id-modify f k (suc (suc n)) (x ∷ st) zero = refl
id-modify f k (suc (suc n)) (x ∷ st) (suc zero) = refl
id-modify f k (suc (suc n)) (x ∷ st) (suc (suc m)) = id-modify f k (suc n) st (suc m)

pub find_player-modify :
    (f : Player → Player)
    → ((q : Player) → (f q).id ≡ q.id)
    → (p : Ptr) (st : Store) (ps : List Ptr) (id : String)
    → find_player (modify f p st) ps id ≡ find_player st ps id
unfolding find_player
find_player-modify f k p st [] id = refl
find_player-modify f k p st (q ∷ ps) id =
    rw (id-modify f k p st q)
      (ap (λ r. if str_eq (load st q).id id then q else r) (find_player-modify f k p st ps id))

-- Nobody in the list has the id.
not_first :
    (st : Store) (q : Ptr) (ps : List Ptr) (id : String)
    → IsLive st q
    → find_player st (q ∷ ps) id ≡ null
    → (str_eq (load st q).id id ≡ false) × (find_player st ps id ≡ null)
unfolding find_player
not_first st q ps id l e = ground arith

find_player-append :
    (st : Store) (ps : List Ptr) (p : Ptr) (id : String)
    → AllLive st ps
    → find_player st ps id ≡ null
    → (load st p).id ≡ id
    → find_player st (ps ++ p ∷ []) id ≡ p
unfolding find_player
find_player-append st [] p id l e h = ground (arith, h, eq_iff (load st p).id id)
find_player-append st (q ∷ ps) p id l e h =
    let (a, b) = not_first st q ps id l.0 e in rw a (find_player-append st ps p id l.1 b h)

erase-append :
    (st : Store) (ps : List Ptr) (p : Ptr)
    → AllLive st ps
    → find_player st ps (load st p).id ≡ null
    → erase (ps ++ p ∷ []) p ≡ ps
unfolding erase
erase-append st [] p l e = ground arith
erase-append st (q ∷ ps) p l e =
    let (a, b) = not_first st q ps (load st p).id l.0 e in
    elim (Bool-cases (q == p)) [
      | inl t ↦ absurd (
          let c = rw ((==_iff q p).0 t) at a in
          let d = (eq_iff (load st p).id (load st p).id).1 refl in cc)
      | inr t ↦ rw t (ap (λ r. q ∷ r) (erase-append st ps p l.1 b))
    ]

-- The seat is one of the two and free, and the player is not in the other one.
abbrev pub IsFree : TableManager → Ptr → ℤ → Type 0
IsFree m p seat =
    ((seat ≡ seat_1) × (m.table.seat_1 ≡ null))
    ⊎ ((seat ≡ seat_2) × (m.table.seat_2 ≡ null) × (m.table.seat_1 ≢ p))

-- The table with the player in the seat.
abbrev pub with_player : TableManager → Ptr → ℤ → TableManager
with_player m p seat = record {
  table = if seat ==ℤ seat_1 then record m.table { seat_1 = p } else record m.table { seat_2 = p };
  players = m.players ++ p ∷ [];
  store = seated_at seat p m.store;
}

assign_seat_lem :
    (m : TableManager) (p : Ptr) (seat : ℤ)
    → IsFree m p seat
    → get_player m (load m.store p).id ≡ null
    → assign_seat m p seat ≡ (with_player m p seat, true)
unfolding assign_seat get_player
assign_seat_lem m p seat (inl (s, e)) f = rw (s, e, f) refl
assign_seat_lem m p seat (inr (s, e, n)) f = rw (s, e, f) refl

abbrev without : Ptr → TableManager → TableManager
without p m = record m {
  table =
      if m.table.seat_1 == p
      then record m.table { seat_1 = null }
      else if m.table.seat_2 == p
      then record m.table { seat_2 = null }
      else m.table;
  players = erase m.players p;
}

remove_player-found :
    (m : TableManager) (id : String) (p : Ptr)
    → get_player m id ≡ p
    → (p == null) ≡ false
    → remove_player m id ≡ (without p m, true)
unfolding remove_player
remove_player-found m id p e n = rw (e, n) refl

-- The player's leaving takes back what his coming did.
without-with_player :
    (m : TableManager) (p : Ptr) (seat : ℤ)
    → AllLive m.store m.players
    → IsFree m p seat
    → get_player m (load m.store p).id ≡ null
    → without p (with_player m p seat) ≡ record m { store = seated_at seat p m.store }
unfolding get_player
without-with_player m p seat o (inl (s, e)) f =
    let same : (p == p) ≡ true = (==_iff p p).1 refl in
    rw (s, same, erase-append m.store m.players p o f)
      (ap
        (λ x. record m {
          table = record m.table { seat_1 = x };
          store = seated_at seat_1 p m.store;
        })
        (sym e))
without-with_player m p seat o (inr (s, e, ne)) f =
    let same : (p == p) ≡ true = (==_iff p p).1 refl in
    let other : (m.table.seat_1 == p) ≡ false = ground (arith, ne) in
    rw (s, other, same, erase-append m.store m.players p o f)
      (ap
        (λ x. record m {
          table = record m.table { seat_2 = x };
          store = seated_at seat_2 p m.store;
        })
        (sym e))

-- A player with a new id takes a free seat: he is then found by his id, and when he leaves, the table and
-- the list of players are as they were before, with only his own record of the seat changed.
pub remove_player-assign_seat :
    (m : TableManager) (p : Ptr) (seat : ℤ)
    → AllLive m.store m.players
    → IsLive m.store p
    → IsFree m p seat
    → get_player m (load m.store p).id ≡ null
    → let (m', done) = assign_seat m p seat in
      (done ≡ true)
      × (get_player m' (load m.store p).id ≡ p)
      × (remove_player m' (load m.store p).id
          ≡ (record m { store = seated_at seat p m.store }, true))
remove_player-assign_seat m p seat o l free f =
    let id = (load m.store p).id in
    let found : get_player (with_player m p seat) id ≡ p =
      unfold get_player in
      (find_player-modify (λ q. record q { seat = seat }) (λ q. refl) p m.store
          (m.players ++ p ∷ []) id
        ∙ find_player-append m.store m.players p id o (unfold get_player in f) refl) in
    rw (assign_seat_lem m p seat free f) (
      refl,
      found,
      remove_player-found (with_player m p seat) id p found (ground arith)
          ∙ ap (λ t. (t, true)) (without-with_player m p seat o free f),
    )
