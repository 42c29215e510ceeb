-- ===== src/Pot/Split.antt =====
-- The split of a pot among the winners.
use Prim.Native.Nat.{min}
use native.Mathlib.Nat.{div-add-mod, mod-lt}
use hump.Prelude.{
  ℕ, zero, suc, ◌+◌, ◌-◌, ◌*◌, ◌/◌, ◌%◌, ◌^◌, ◌<◌, ◌≡◌, inl, inr, List, [], ◌∷◌, arith, ℤ, pos,
  ◌+ℤ◌, int_laws, parts, +ℤ_zero, length, Bool-cases, ltb, ltb_ℤ, if◌then◌else◌, to_size, quot, rem,
}
use hump.Model.{Ptr, Store, modify}
use hump.Model.Store.{IsLive, chips, modify-IsLive, chips-modify}
use hump.Pot.{award_pot, share_loop, split}

abbrev pub AllLive : Store → List Ptr → Type 0
AllLive st [] = Unit {0}
AllLive st (p ∷ ps) = IsLive st p × AllLive st ps

pub award_pot-IsLive :
    (st : Store) (w : Ptr) (a : ℤ) {q : Ptr} → IsLive st q → IsLive (award_pot st w a) q
unfolding award_pot
award_pot-IsLive st w a {q} l =
    ground (arith, modify-IsLive (λ q. record q { stack = q.stack +ℤ a }) w {st = st} {q = q} l)

chips-award :
    (st : Store) (w : Ptr) (a : ℕ)
    → IsLive st w
    → chips (modify (λ q. record q { stack = q.stack +ℤ pos a }) w st) ≡ chips st +ℤ pos a
chips-award st w a l =
    omega (int_laws, parts (chips-modify (λ q. record q { stack = q.stack +ℤ pos a }) w st l))

-- An award adds its amount to the chips on the store.
pub chips-award_pot :
    (st : Store) (w : Ptr) (a : ℕ)
    → IsLive st w
    → chips (award_pot st w (pos a)) ≡ chips st +ℤ pos a
unfolding award_pot
chips-award_pot st w zero l = ground (arith, +ℤ_zero (chips st))
chips-award_pot st w (suc a) l = ground (arith, chips-award st w (suc a) l)

award_pot-AllLive :
    (st : Store) (w : Ptr) (a : ℤ) (ws : List Ptr) → AllLive st ws → AllLive (award_pot st w a) ws
award_pot-AllLive st w a [] l = tt
award_pot-AllLive st w a (x ∷ ws) l = (award_pot-IsLive st w a l.0, award_pot-AllLive st w a ws l.1)

-- The share of the i-th winner.
share_of : ℕ → ℕ → ℕ → ℕ
share_of q r i = if ltb i (r % 2 ^ 64) then q + 1 else q

share_loop-step :
    (st : Store) (w : Ptr) (ws : List Ptr) (q r i : ℕ)
    → share_loop st (w ∷ ws) (pos q) (pos r) i
      ≡ share_loop (award_pot st w (pos (share_of q r i))) ws (pos q) (pos r) (suc i)
unfolding share_loop award_pot ◌+ℤ◌ share_of
share_loop-step st w ws q r i = ground arith

share_of_lem :
    (q r i n : ℕ)
    → r < 2 ^ 64
    → share_of q r i + (q * n + (min r (suc i + n) - min r (suc i)))
      ≡ q * suc n + (min r (i + suc n) - min r i)
unfolding share_of
share_of_lem q r i n h = ground arith

-- The loop hands out `q` to each winner and one chip more to those before the r-th.
chips-share_loop :
    (st : Store) (ws : List Ptr) (q r i : ℕ)
    → r < 2 ^ 64
    → AllLive st ws
    → chips (share_loop st ws (pos q) (pos r) i)
      ≡ chips st +ℤ pos (q * length ws + (min r (i + length ws) - min r i))
unfolding share_loop
chips-share_loop st [] q r i h l = omega int_laws
chips-share_loop st (w ∷ ws) q r i h l =
    let st' = award_pot st w (pos (share_of q r i)) in
    rw (share_loop-step st w ws q r i) (
      omega (
        int_laws,
        parts (
            chips-share_loop st' ws q r (suc i) h
              (award_pot-AllLive st w (pos (share_of q r i)) ws l.1)),
        parts (chips-award_pot st w (share_of q r i) l.0),
        share_of_lem q r i (length ws) h,
      ))

share_loop-AllLive :
    (st : Store) (ws : List Ptr) (q r : ℤ) (i : ℕ) (qs : List Ptr)
    → AllLive st qs
    → AllLive (share_loop st ws q r i) qs
unfolding share_loop
share_loop-AllLive st [] q r i qs l = l
share_loop-AllLive st (w ∷ ws) q r i qs l =
    let a = q +ℤ (if ltb i (to_size r) then pos 1 else pos 0) in
    elim (Bool-cases (ltb_ℤ (pos 0) a)) [
      | inl e ↦
          rw e (
            share_loop-AllLive (award_pot st w a) ws q r (suc i) qs (award_pot-AllLive st w a qs l))
      | inr e ↦ rw e (share_loop-AllLive st ws q r (suc i) qs l)
    ]

pub split-AllLive :
    (st : Store) (ws : List Ptr) (a : ℤ) (qs : List Ptr)
    → AllLive st qs
    → AllLive (split st ws a) qs
unfolding split
split-AllLive st ws a qs l =
    share_loop-AllLive st ws (quot a (length ws)) (rem a (length ws)) 0 qs l

-- A split hands out exactly the amount.
pub chips-split :
    (st : Store) (w : Ptr) (ws : List Ptr) (a : ℕ)
    → length (w ∷ ws) < 2 ^ 64
    → AllLive st (w ∷ ws)
    → chips (split st (w ∷ ws) (pos a)) ≡ chips st +ℤ pos a
unfolding split
chips-split st w ws a h l =
    let n = length (w ∷ ws) in
    let below : a % n < n = mod-lt a (omega arith) in
    omega (
      int_laws,
      parts (chips-share_loop st (w ∷ ws) (a / n) (a % n) 0 (omega arith) l),
      div-add-mod a n,
    )
