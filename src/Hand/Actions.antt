-- ===== src/Hand/Actions.antt =====
-- Actions and side pots of `poker::` hands against the chips.
use hump.Prelude.{
  ℕ, ◌^◌, ◌≡◌, refl, sym, ◌∙◌, ap, ◌||◌, ◌==◌, length, String, str_eq, ℤ, pos, ◌+ℤ◌, ◌-ℤ◌, ◌≤ℤ◌,
  ◌<ℤ◌, int_laws, parts, sum, All, ltb_ℤ, Bool-cases, inl, inr,
}
use hump.Model.{Ptr, null, Store, load, Hand}
use hump.Model.Store.{IsLive, chips, chips-modify}
use hump.Pot.Distribution.{total}
use hump.Pot.SidePots.{side_chips-calculate_side_pots}
use hump.Hand.{set_side_pots, apply_action, pay, sized, record_action}

-- The side pots are made of the bets that lie in the main pot already: where the pot is the sum of
-- the bets, none is negative and they fit an int, `calculateSidePots` leaves a hand that holds every
-- chip of the pot twice.
total-set_side_pots :
    (st : Store) (h : Hand)
    → length h.players ≡ length h.player_bets
    → All (λ b. pos 0 ≤ℤ b) h.player_bets
    → sum h.player_bets <ℤ pos (2 ^ 31)
    → h.pot ≡ sum h.player_bets
    → total (st, set_side_pots h) ≡ chips st +ℤ h.pot +ℤ h.pot
unfolding total set_side_pots
total-set_side_pots st h same pos' room e =
    ap (λ t. chips st +ℤ h.pot +ℤ t)
      (side_chips-calculate_side_pots h.players h.player_bets same pos' room ∙ sym e)

chips-pay :
    (st : Store) (h : Hand) (p : Ptr) (a : ℤ)
    → IsLive st p
    → chips (pay st h p a).0 +ℤ (pay st h p a).1.pot ≡ chips st +ℤ h.pot
unfolding pay
chips-pay st h p a l =
    omega (int_laws, parts (chips-modify (λ q. record q { stack = q.stack -ℤ a }) p st l))

-- Whatever the action is and whether it is accepted or refused, `poker::applyAction` makes and loses no
-- chip of a player in the store.
chips-apply_action :
    (now : ℕ) (st : Store) (h : Hand) (p : Ptr) (action : String) (amount : ℤ)
    → IsLive st p
    → let (done, st', h') = apply_action now st h p action amount in
      chips st' +ℤ h'.pot ≡ chips st +ℤ h.pot
unfolding apply_action sized record_action
chips-apply_action now st h p action amount l =
    let stack = (load st p).stack in
    let paid = chips-pay st (sized h) p amount l in
    elim (Bool-cases (p == null)) [
      | inl n ↦ rw n refl
      | inr n ↦ elim (Bool-cases (str_eq action "fold")) [
        | inl f ↦ rw (n, f) refl
        | inr f ↦ elim (Bool-cases (str_eq action "call")) [
          | inl c ↦ elim (Bool-cases (ltb_ℤ stack amount || ltb_ℤ amount (pos 0))) [
            | inl g ↦ rw (n, f, c, g) refl
            | inr g ↦ rw (n, f, c, g) paid
          ]
          | inr c ↦ elim (Bool-cases (str_eq action "raise")) [
            | inl r ↦
                elim (Bool-cases
                  (ltb_ℤ amount h.min_raise || ltb_ℤ stack amount || ltb_ℤ amount (pos 0))) [
                    | inl g ↦ rw (n, f, c, r, g) refl
                    | inr g ↦ rw (n, f, c, r, g) paid
                  ]
            | inr r ↦ rw (n, f, c, r) refl
          ]
        ]
      ]
    ]
