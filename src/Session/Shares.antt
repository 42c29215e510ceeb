-- ===== src/Session/Shares.antt =====
-- The shares of the winners, as `broadcastHandCompleted` announces them and as `distributePot` pays them.
use Prim.Native.Nat.{min}
use native.Mathlib.Nat.{div-add-mod, mod-lt, mul-div_cancel_left}
use hump.Prelude.{
  ℕ, suc, ◌+◌, ◌-◌, ◌*◌, ◌/◌, ◌%◌, ◌^◌, ◌≤◌, ◌<◌, ◌≡◌, refl, ap, true, false, List, [], ◌∷◌, map,
  arith, ℤ, pos, ◌+ℤ◌, ◌-ℤ◌, int_laws, parts, length, ltb, ltb_ℤ, quot, rem, to_size, if◌then◌else◌,
  String, ◌==◌, Bool-cases, inl, inr,
}
use hump.Model.{Ptr, null, Store, load, Hand, SidePot}
use hump.Model.Store.{IsLive}
use hump.Pot.{award_pot, share_loop, split, pay_main_pot, pay_side_pots, distribute_pot}
use hump.Pot.Split.{AllLive}
use hump.Pot.Distribution.{side_chips}
use hump.Session.Broadcasts.{total_pot, winner_entries, won}

abbrev pub amounts : List (String × ℤ) → List ℤ
amounts es = map (λ e. e.1) es

abbrev pub sum : List ℤ → ℤ
sum [] = pos 0
sum (a ∷ bs) = a +ℤ sum bs

-- Each player gets the amount that stands at his place.
abbrev pub award_each : Store → List Ptr → List ℤ → Store
award_each st [] bs = st
award_each st (w ∷ ws) [] = st
award_each st (w ∷ ws) (a ∷ bs) = award_each (award_pot st w a) ws bs

live_not_null : (st : Store) (w : Ptr) → IsLive st w → (w == null) ≡ false
live_not_null st w l = ground arith

share_positive :
    (st : Store) (w : Ptr) (a : ℤ)
    → (if ltb_ℤ (pos 0) a then award_pot st w a else st) ≡ award_pot st w a
unfolding award_pot
share_positive st w a = ground arith

-- The amounts do not depend on the store that the ids are read from.
share_loop-award_each :
    (st st' : Store) (ws : List Ptr) (share remainder : ℤ) (i : ℕ)
    → AllLive st' ws
    → share_loop st ws share remainder i
      ≡ award_each st ws (amounts (winner_entries st' ws share remainder i))
unfolding share_loop winner_entries
share_loop-award_each st st' [] share remainder i l = refl
share_loop-award_each st st' (w ∷ ws) share remainder i l =
    let amount = share +ℤ (if ltb i (to_size remainder) then pos 1 else pos 0) in
    rw (live_not_null st' w l.0, share_positive st w amount)
      (share_loop-award_each (award_pot st w amount) st' ws share remainder (suc i) l.1)

pub ids-winner_entries :
    (st : Store) (ws : List Ptr) (share remainder : ℤ) (i : ℕ)
    → AllLive st ws
    → map (λ e. e.0) (winner_entries st ws share remainder i) ≡ map (λ w. (load st w).id) ws
unfolding winner_entries
ids-winner_entries st [] share remainder i l = refl
ids-winner_entries st (w ∷ ws) share remainder i l =
    rw (live_not_null st w l.0)
      (ap (λ t. (load st w).id ∷ t) (ids-winner_entries st ws share remainder (suc i) l.1))

ltb-below : (i r : ℕ) → r < 2 ^ 64 → ltb i (r % 2 ^ 64) ≡ true → i < r
ltb-below i r h e = ground arith

ltb-above : (i r : ℕ) → r < 2 ^ 64 → ltb i (r % 2 ^ 64) ≡ false → r ≤ i
ltb-above i r h e = ground arith

sum-winner_entries :
    (st : Store) (ws : List Ptr) (q r i : ℕ)
    → r < 2 ^ 64
    → AllLive st ws
    → sum (amounts (winner_entries st ws (pos q) (pos r) i))
      ≡ pos (q * length ws + (min r (i + length ws) - min r i))
unfolding winner_entries
sum-winner_entries st [] q r i h l = omega int_laws
sum-winner_entries st (w ∷ ws) q r i h l =
    let rest = sum-winner_entries st ws q r (suc i) h l.1 in
    rw (live_not_null st w l.0) (elim (Bool-cases (ltb i (r % 2 ^ 64))) [
      | inl e ↦ rw e (omega (int_laws, parts rest, ltb-below i r h e))
      | inr e ↦ rw e (omega (int_laws, parts rest, ltb-above i r h e))
    ])

total_pot-side_chips : (pot : ℤ) (ss : List SidePot) → total_pot pot ss ≡ pot +ℤ side_chips ss
unfolding total_pot side_chips
total_pot-side_chips pot [] = omega int_laws
total_pot-side_chips pot (s ∷ ss) =
    omega (int_laws, parts (total_pot-side_chips (pot +ℤ s.amount) ss))

pub total_alone :
    (h : Hand) (a : ℕ)
    → h.pot ≡ pos (suc a)
    → h.side_pots ≡ []
    → total_pot h.pot h.side_pots ≡ pos (suc a)
unfolding total_pot
total_alone h a p s = rw (s, p) refl

-- The share that is computed without the remainder is that of `distributePot`.
share_lem : (a n : ℕ) → 0 < n → quot (pos a -ℤ rem (pos a) n) n ≡ pos (a / n)
share_lem a n h =
    let e : pos a -ℤ pos (a % n) ≡ pos (n * (a / n)) = omega (int_laws, div-add-mod a n) in
    rw e (ap pos (mul-div_cancel_left (a / n) h))

positive : (a : ℕ) → ltb_ℤ (pos 0) (pos (suc a)) ≡ true
positive a = ground arith

pub entries_lem :
    (st : Store) (w : Ptr) (ws : List Ptr) (a : ℕ)
    → won st (w ∷ ws) (pos (suc a))
      ≡ winner_entries st
          (w ∷ ws)
          (quot (pos (suc a)) (length (w ∷ ws)))
          (rem (pos (suc a)) (length (w ∷ ws)))
          0
unfolding won
entries_lem st w ws a = rw (share_lem (suc a) (length (w ∷ ws)) (omega arith), positive a) refl

pub sum-won :
    (st : Store) (w : Ptr) (ws : List Ptr) (a : ℕ)
    → length (w ∷ ws) < 2 ^ 64
    → AllLive st (w ∷ ws)
    → sum (amounts (won st (w ∷ ws) (pos (suc a)))) ≡ pos (suc a)
sum-won st w ws a h l =
    let n = length (w ∷ ws) in
    let below : suc a % n < n = mod-lt (suc a) (omega arith) in
    rw (entries_lem st w ws a) (
      omega (
        int_laws,
        parts (sum-winner_entries st (w ∷ ws) (suc a / n) (suc a % n) 0 (omega arith) l),
        div-add-mod (suc a) n,
      ))

pub paid_lem :
    (st : Store) (h : Hand) (w : Ptr) (ws : List Ptr) (a : ℕ)
    → h.pot ≡ pos (suc a)
    → h.side_pots ≡ []
    → AllLive st (w ∷ ws)
    → (distribute_pot st h (w ∷ ws)).0
      ≡ award_each st (w ∷ ws) (amounts (won st (w ∷ ws) (pos (suc a))))
unfolding distribute_pot pay_main_pot pay_side_pots split
paid_lem st h w ws a p s l =
    let n = length (w ∷ ws) in
    let q = quot (pos (suc a)) n in
    let r = rem (pos (suc a)) n in
    simp (p, s, positive a, entries_lem st w ws a) (share_loop-award_each st st (w ∷ ws) q r 0 l)
