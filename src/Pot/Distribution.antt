-- ===== src/Pot/Distribution.antt =====
-- Paying the pots out.

use hump.Prelude.{
  ◌^◌, ◌≤◌, ◌<◌, ◌≡◌, refl, ap, inl, inr, false, List, [], ◌∷◌, arith, ℤ, pos, negsuc, ◌+ℤ◌, ◌==ℤ◌,
  ==ℤ_eq, int_laws, parts, +ℤ_zero, length, Bool-cases, ltb_ℤ, ◌≤ℤ◌,
}
use hump.Model.{Ptr, Store, SidePot, Hand}
use hump.Model.Store.{chips}
use hump.Pot.{
  split, eligible_winners, is_empty, pay_side_pot, pay_side_pots, remove_paid, pay_main_pot,
  distribute_pot,
}
use hump.Pot.Split.{AllLive, chips-split, split-AllLive}

eligible_winners-AllLive :
    (st : Store) (es ws : List Ptr) → AllLive st ws → AllLive st (eligible_winners es ws)
unfolding eligible_winners
eligible_winners-AllLive st es [] l = tt
eligible_winners-AllLive st es (w ∷ ws) l = ground (arith, eligible_winners-AllLive st es ws l.1)

length-eligible_winners-le : (es ws : List Ptr) → length (eligible_winners es ws) ≤ length ws
unfolding eligible_winners
length-eligible_winners-le es [] = omega arith
length-eligible_winners-le es (w ∷ ws) = ground (arith, length-eligible_winners-le es ws)

-- The chips in the side pots.
unfoldable pub side_chips : List SidePot → ℤ
side_chips [] = pos 0
side_chips (s ∷ ss) = s.amount +ℤ side_chips ss

abbrev pub NonNegative : List SidePot → Type 0
NonNegative [] = Unit {0}
NonNegative (s ∷ ss) = (pos 0 ≤ℤ s.amount) × NonNegative ss

split_eligible :
    (st : Store) (ws : List Ptr) (a : ℤ)
    → is_empty ws ≡ false
    → pos 0 ≤ℤ a
    → length ws < 2 ^ 64
    → AllLive st ws
    → chips (split st ws a) ≡ chips st +ℤ a
split_eligible st [] a e n h l = cc
split_eligible st (w ∷ ws) (pos a) e n h l = chips-split st w ws a h l
split_eligible st (w ∷ ws) (negsuc a) e n h l = absurd (omega arith)

chips-pay_side_pot :
    (ws : List Ptr) (st : Store) (s : SidePot)
    → length ws < 2 ^ 64
    → AllLive st ws
    → pos 0 ≤ℤ s.amount
    → let (st', s') = pay_side_pot ws st s in chips st' +ℤ s'.amount ≡ chips st +ℤ s.amount
unfolding pay_side_pot
chips-pay_side_pot ws st s h l n =
    let es = eligible_winners s.eligible_players ws in
    elim (Bool-cases (s.amount ==ℤ pos 0)) [
      | inl e ↦ rw e
      | inr e ↦ elim (Bool-cases (is_empty es)) [
        | inl f ↦ rw (e, f)
        | inr f ↦
            rw
              (
                e,
                f,
                split_eligible st es s.amount f n
                    (omega (arith, length-eligible_winners-le s.eligible_players ws))
                    (eligible_winners-AllLive st s.eligible_players ws l),
              )
              (+ℤ_zero _)
      ]
    ]

pay_side_pot-AllLive :
    (ws : List Ptr) (st : Store) (s : SidePot) (qs : List Ptr)
    → AllLive st qs
    → AllLive (pay_side_pot ws st s).0 qs
unfolding pay_side_pot
pay_side_pot-AllLive ws st s qs l =
    ground (arith, split-AllLive st (eligible_winners s.eligible_players ws) s.amount qs l)

chips-pay_side_pots :
    (ws : List Ptr) (st : Store) (ss : List SidePot)
    → length ws < 2 ^ 64
    → AllLive st ws
    → NonNegative ss
    → let (st', ss') = pay_side_pots ws st ss in
      chips st' +ℤ side_chips ss' ≡ chips st +ℤ side_chips ss
unfolding pay_side_pots side_chips
chips-pay_side_pots ws st [] h l n = refl
chips-pay_side_pots ws st (s ∷ ss) h l n = omega (
  int_laws,
  parts (chips-pay_side_pot ws st s h l n.0),
  parts (
      chips-pay_side_pots ws (pay_side_pot ws st s).0 ss h (pay_side_pot-AllLive ws st s ws l) n.1),
)

side_chips-remove_paid : (ss : List SidePot) → side_chips (remove_paid ss) ≡ side_chips ss
unfolding remove_paid side_chips
side_chips-remove_paid [] = refl
side_chips-remove_paid (s ∷ ss) = elim (Bool-cases (s.amount ==ℤ pos 0)) [
  | inl e ↦
      rw e (omega (int_laws, parts (==ℤ_eq s.amount (pos 0) e), parts (side_chips-remove_paid ss)))
  | inr e ↦ rw e (ap (λ t. s.amount +ℤ t) (side_chips-remove_paid ss))
]

-- The main pot goes to the winners whole, or stays as it was.
chips-pay_main_pot :
    (st : Store) (h : Hand) (ws : List Ptr)
    → length ws < 2 ^ 64
    → AllLive st ws
    → let (st', h') = pay_main_pot st h ws in
      (chips st' +ℤ h'.pot ≡ chips st +ℤ h.pot) × (h'.side_pots ≡ h.side_pots)
unfolding pay_main_pot
chips-pay_main_pot st h [] n l = (refl, refl)
chips-pay_main_pot st h (w ∷ ws) n l = elim (Bool-cases (ltb_ℤ (pos 0) h.pot)) [
  | inl e ↦ rw e (rw (split_eligible st (w ∷ ws) h.pot refl (ground arith) n l) (+ℤ_zero _), refl)
  | inr e ↦ rw e (refl, refl)
]

pay_main_pot-AllLive :
    (st : Store) (h : Hand) (ws qs : List Ptr) → AllLive st qs → AllLive (pay_main_pot st h ws).0 qs
unfolding pay_main_pot
pay_main_pot-AllLive st h [] qs l = l
pay_main_pot-AllLive st h (w ∷ ws) qs l = ground (arith, split-AllLive st (w ∷ ws) h.pot qs l)

-- All chips: in the stacks, in the main pot and in the side pots.
unfoldable pub total : Store × Hand → ℤ
total (st, h) = chips st +ℤ h.pot +ℤ side_chips h.side_pots

-- Distributing the pots neither makes nor loses a chip, whoever wins, ties and side pots included,
-- if the winners are players in the store, not too many for an int, and no side pot is negative.
pub total-distribute_pot :
    (st : Store) (h : Hand) (ws : List Ptr)
    → length ws < 2 ^ 31
    → AllLive st ws
    → NonNegative h.side_pots
    → total (distribute_pot st h ws) ≡ total (st, h)
unfolding distribute_pot total
total-distribute_pot st h ws n l k =
    let room : length ws < 2 ^ 64 = omega arith in
    let (st', h') = pay_main_pot st h ws in
    let (kept, same) = chips-pay_main_pot st h ws room l in
    let live = pay_main_pot-AllLive st h ws ws l in
    omega (
      int_laws,
      parts kept,
      parts (chips-pay_side_pots ws st' h'.side_pots room live (rw same k)),
      parts (side_chips-remove_paid (pay_side_pots ws st' h'.side_pots).1),
      parts (ap side_chips same),
    )

-- A positive main pot with at least one winner is paid out whole.
pub pot-distribute_pot :
    (st : Store) (h : Hand) (w : Ptr) (ws : List Ptr)
    → pos 0 ≤ℤ h.pot
    → (distribute_pot st h (w ∷ ws)).1.pot ≡ pos 0
unfolding distribute_pot pay_main_pot
pot-distribute_pot st h w ws p = ground arith

pay_side_pots-AllLive :
    (ws : List Ptr) (st : Store) (ss : List SidePot) (qs : List Ptr)
    → AllLive st qs
    → AllLive (pay_side_pots ws st ss).0 qs
unfolding pay_side_pots
pay_side_pots-AllLive ws st [] qs l = l
pay_side_pots-AllLive ws st (s ∷ ss) qs l =
    pay_side_pots-AllLive ws (pay_side_pot ws st s).0 ss qs (pay_side_pot-AllLive ws st s qs l)

-- Who is in the store stays there.
pub distribute_pot-AllLive :
    (st : Store) (h : Hand) (ws qs : List Ptr)
    → AllLive st qs
    → AllLive (distribute_pot st h ws).0 qs
unfolding distribute_pot
distribute_pot-AllLive st h ws qs l =
    pay_side_pots-AllLive ws (pay_main_pot st h ws).0 (pay_main_pot st h ws).1.side_pots qs
      (pay_main_pot-AllLive st h ws qs l)
