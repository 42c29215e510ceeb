-- ===== src/Client/Strategy.antt =====
-- The bot's choices against the server's rules.
use hump.Prelude.{
  ℕ, suc, ◌<◌, ◌⊎◌, ltb_ℤ, ◌≡◌, refl, true, arith, ℤ, pos, ◌≤ℤ◌, ◌+ℤ◌, ◌-ℤ◌, if◌then◌else◌, String,
  str_eq, eq_iff, ok, Bool-cases, inl, inr,
}
use hump.Model.{Ptr, Player, Store, load, Hand, needs_top_up}
use hump.Model
use hump.Action.{can_act, validate_action, get_min_raise, get_max_raise}
use hump.Client.{Uniform, choose_amount, should_top_up, top_up_amount, top_up, random_delay}

-- What the documentation of the distribution promises.
pub record IsUniform (u : Uniform) : Type 0 where
  pub in_list : (n : ℕ) → u.pick_index (suc n) < suc n
  pub in_range : (a b : ℤ) → a ≤ℤ b → (a ≤ℤ u.pick_raise a b) × (u.pick_raise a b ≤ℤ b)

-- The delay is between the two bounds, in whichever order they come.
random_delay-within :
    (u : Uniform) (a b : ℤ)
    → IsUniform u
    → let d = random_delay u a b in ((a ≤ℤ d) × (d ≤ℤ b)) ⊎ ((b ≤ℤ d) × (d ≤ℤ a))
unfolding random_delay
random_delay-within u a b iu = elim (Bool-cases (ltb_ℤ b a)) [
  | inl e ↦ rw e (inr (iu.in_range b a (ground (arith, e))))
  | inr e ↦ rw e (inl (iu.in_range a b (ground (arith, e))))
]

-- The bot and the server agree on when a stack is topped up and on what it is then, and the amount asked for
-- is the one that is missing.
top_up-agrees :
    (q : Player)
    → (should_top_up q.stack ≡ needs_top_up q)
      × (top_up q.stack ≡ q.stack +ℤ top_up_amount q.stack)
      × ((Model.top_up q).stack ≡ (if should_top_up q.stack then top_up q.stack else q.stack))
unfolding should_top_up top_up_amount top_up needs_top_up Model.top_up ◌+ℤ◌ ◌-ℤ◌
top_up-agrees q = (refl, ground arith, ground arith)

-- Asked to act in his turn, with the bounds that the server computes and a call that the player can
-- pay, the bot answers with an amount that passes the server's validation of the action it chose,
-- wherever it chooses one.
validate-choose_amount :
    (u : Uniform) (st : Store) (h : Hand) (p : Ptr) (action : String) (call_amount amount : ℤ)
    → IsUniform u
    → can_act st h p ≡ true
    → h.current_player_to_act ≡ p
    → pos 0 ≤ℤ call_amount
    → call_amount ≤ℤ (load st p).stack
    → pos 0 ≤ℤ h.min_raise
    → choose_amount u action call_amount (get_min_raise h) (get_max_raise st h p) ≡ ok amount
    → validate_action st h p action amount ≡ true
unfolding choose_amount validate_action get_min_raise get_max_raise
validate-choose_amount u st h p action c amount iu act turn c0 cs m0 e =
    elim (Bool-cases (str_eq action "raise")) [
      | inl r ↦
          let a = (eq_iff action "raise").0 r in
          rw a (let e' = rw a at e in ground (arith, e', iu.in_range h.min_raise (load st p).stack))
      | inr r ↦ elim (Bool-cases (str_eq action "call")) [
        | inl k ↦
            let a = (eq_iff action "call").0 k in rw a (let e' = rw a at e in ground (arith, e'))
        | inr k ↦ elim (Bool-cases (str_eq action "fold")) [
          | inl f ↦
              let a = (eq_iff action "fold").0 f in rw a (let e' = rw a at e in ground (arith, e'))
          | inr f ↦ absurd (let e' = rw (r, k, f) at e in cc)
        ]
      ]
    ]
