-- ===== src/Action/Apply.antt =====
-- What an action does to the store and the hand.
use hump.Prelude.{
  ==_iff, ◌==◌, sym, ℕ, zero, suc, ◌+◌, ◌≤◌, ◌<◌, ◌≡◌, ◌≢◌, refl, ◌∙◌, ap, ap₂, inl, inr, true,
  false, not, ◌&&◌, ◌||◌, List, [], ◌∷◌, arith, ℤ, pos, ◌+ℤ◌, ◌-ℤ◌, ltb, leb, ◌≤ℤ◌, int_laws, parts,
  ==ℤ_eq, length, get_or, set, sum, if◌then◌else◌, Bool-cases, String, str_eq, leb→le,
}
use hump.Model.{Ptr, Player, Store, load, Hand}
use hump.Model.Store.{IsLive, chips, chips-modify, load-modify_self, load-modify_ne}
use hump.Hand.{resize, record_action}
use hump.Action.{
  index_of, in_hand, can_act, validate_action, mark_folded, add_bet, take_chips, apply_action,
}

-- What validation makes sure of.
pub record IsAllowed (st : Store) (h : Hand) (p : Ptr) (action : String) (amount : ℤ) : Type 0 where
  pub active : can_act st h p ≡ true
  pub turn : h.current_player_to_act ≡ p
  pub known : (str_eq action "fold" || str_eq action "call" || str_eq action "raise") ≡ true
  pub nonnegative : pos 0 ≤ℤ amount
  pub covered : amount ≤ℤ (load st p).stack
  pub fold_free : str_eq action "fold" ≡ true → amount ≡ pos 0
  pub raise_enough : str_eq action "raise" ≡ true → h.min_raise ≤ℤ amount

validate_action-IsAllowed :
    (st : Store) (h : Hand) (p : Ptr) (action : String) (amount : ℤ)
    → validate_action st h p action amount ≡ true
    → IsAllowed st h p action amount
unfolding validate_action
validate_action-IsAllowed st h p action amount v = ground (arith, ==ℤ_eq amount (pos 0))

-- A refused action changes nothing, and an action is refused exactly when validation refuses it.
pub apply_action_refused :
    (now : ℕ) (st : Store) (h : Hand) (p : Ptr) (action : String) (amount : ℤ)
    → ((apply_action now st h p action amount).0 ≡ validate_action st h p action amount)
      × (validate_action st h p action amount ≡ false
          → apply_action now st h p action amount ≡ (false, st, h))
unfolding apply_action
apply_action_refused now st h p action amount = ground arith

sum-set :
    (bets : List ℤ) (i : ℕ) (a : ℤ)
    → i < length bets
    → sum (set bets i (get_or bets i (pos 0) +ℤ a)) ≡ sum bets +ℤ a
sum-set [] i a h = elim h [ ]
sum-set (b ∷ bets) zero a h = omega int_laws
sum-set (b ∷ bets) (suc i) a h = omega (int_laws, parts (sum-set bets i a (omega arith)))

sum-resize : (n : ℕ) (bets : List ℤ) → length bets ≤ n → sum (resize n (pos 0) bets) ≡ sum bets
unfolding resize
sum-resize zero [] h = refl
sum-resize zero (b ∷ bets) h = absurd (omega arith)
sum-resize (suc n) [] h = omega (int_laws, parts (sum-resize n [] (omega arith)))
sum-resize (suc n) (b ∷ bets) h = ap (λ t. b +ℤ t) (sum-resize n bets (omega arith))

pub length-resize {ℓ} : {A : Type ℓ} (n : ℕ) (d : A) (xs : List A) → length (resize n d xs) ≡ n
unfolding resize
length-resize zero d xs = refl
length-resize (suc n) d [] = ap suc (length-resize n d [])
length-resize (suc n) d (x ∷ xs) = ap suc (length-resize n d xs)

-- The bets of the hand rise by the amount.
sum-add_bet :
    (h : Hand) (p : Ptr) (a : ℤ)
    → index_of h.players p < length h.players
    → sum (add_bet h p a).player_bets ≡ sum h.player_bets +ℤ a
unfolding add_bet
sum-add_bet h p a k =
    let i = index_of h.players p in
    let t : ltb i (length h.players) ≡ true = ground arith in
    elim (Bool-cases (leb (length h.player_bets) i)) [
      | inl e ↦
          rw (t, e)
            (sum-set (resize (i + 1) (pos 0) h.player_bets) i a
                (omega (arith, length-resize {0} (i + 1) (pos 0) h.player_bets))
              ∙ ap (λ u. u +ℤ a) (sum-resize (i + 1) h.player_bets (omega (arith, leb→le _ _ e))))
      | inr e ↦ rw (t, e) (sum-set h.player_bets i a (ground arith))
    ]

can_act-index :
    (st : Store) (h : Hand) (p : Ptr)
    → can_act st h p ≡ true
    → index_of h.players p < length h.players
unfolding can_act in_hand
can_act-index st h p e = ground arith

mark_folded-bets : (h : Hand) (p : Ptr) → (mark_folded h p).player_bets ≡ h.player_bets
unfolding mark_folded
mark_folded-bets h p = ground arith

module _ (now : ℕ) (st : Store) (h : Hand) (p : Ptr) (action : String) (amount : ℤ)
    (v : validate_action st h p action amount ≡ true) where
  store_after :
      (apply_action now st h p action amount).1
      ≡ (if str_eq action "fold" then st else take_chips st p amount)
  unfolding apply_action
  store_after = ground (arith, validate_action-IsAllowed st h p action amount v)

  pot_after :
      (apply_action now st h p action amount).2.pot
      ≡ (if str_eq action "fold" then h.pot else h.pot +ℤ amount)
  unfolding apply_action record_action mark_folded add_bet
  pot_after = ground (arith, validate_action-IsAllowed st h p action amount v)

  min_raise_after : (apply_action now st h p action amount).2.min_raise ≡ (
      if str_eq action "raise" && not (str_eq action "fold") && not (str_eq action "call")
      then amount
      else h.min_raise)
  unfolding apply_action record_action mark_folded add_bet
  min_raise_after = ground (arith, validate_action-IsAllowed st h p action amount v)

  min_raise_grows : h.min_raise ≤ℤ (apply_action now st h p action amount).2.min_raise
  min_raise_grows =
      ground (arith, min_raise_after, validate_action-IsAllowed st h p action amount v)

  bets_after :
      sum (apply_action now st h p action amount).2.player_bets
      ≡ (if str_eq action "fold" then sum h.player_bets else sum h.player_bets +ℤ amount)
  unfolding apply_action record_action
  bets_after =
      let idx = can_act-index st h p (validate_action-IsAllowed st h p action amount v).active in
      elim (Bool-cases (str_eq action "fold")) [
        | inl f ↦ rw (v, f) (ap sum (mark_folded-bets h p))
        | inr f ↦ elim (Bool-cases (str_eq action "call")) [
          | inl c ↦ rw (v, f, c) (sum-add_bet (record h { pot = h.pot +ℤ amount }) p amount idx)
          | inr c ↦ elim (Bool-cases (str_eq action "raise")) [
            | inl r ↦
                rw (v, f, c, r)
                  (sum-add_bet (record h { pot = h.pot +ℤ amount; min_raise = amount }) p amount
                    idx)
            | inr r ↦ rw (v, f, c, r) (sum-add_bet h p amount idx)
          ]
        ]
      ]

-- What an accepted action does to the chips.
pub record MovesChips (st : Store) (h : Hand) (p : Ptr) (amount : ℤ) (st' : Store) (h' : Hand)
    : Type 0 where
  pub conserved : chips st' +ℤ h'.pot ≡ chips st +ℤ h.pot
  pub paid : (load st' p).stack ≡ (load st p).stack -ℤ amount
  pub solvent : pos 0 ≤ℤ (load st' p).stack
  pub in_pot : h'.pot ≡ h.pot +ℤ amount
  pub in_bets : sum h'.player_bets ≡ sum h.player_bets +ℤ amount
  pub min_raise_kept : h.min_raise ≤ℤ h'.min_raise
  pub others : (q : Ptr) → load st' q ≡ (if p == q then load st' p else load st q)

others_of :
    (st st' : Store) (p q : Ptr)
    → (p ≢ q → load st' q ≡ load st q)
    → load st' q ≡ (if p == q then load st' p else load st q)
others_of st st' p q h = elim (Bool-cases (p == q)) [
  | inl e ↦ rw e (ap (load st') (sym ((==_iff p q).0 e)))
  | inr e ↦ rw e (h (λ f. let g = (==_iff p q).1 f in cc))
]

fold_moves :
    {st : Store} {h : Hand} {p : Ptr} {amount : ℤ} {st' : Store} {h' : Hand}
    → amount ≡ pos 0
    → amount ≤ℤ (load st p).stack
    → st' ≡ st
    → h'.pot ≡ h.pot
    → sum h'.player_bets ≡ sum h.player_bets
    → h.min_raise ≤ℤ h'.min_raise
    → MovesChips st h p amount st' h'
fold_moves {st} {h} {p} {amount} {st'} a c s e b m = record {
  conserved = ap₂ (λ t u. chips t +ℤ u) s e;
  paid = rw (s, a) (omega int_laws);
  solvent = rw s (rw a at c);
  in_pot = rw (e, a) (omega int_laws);
  in_bets = rw (b, a) (omega int_laws);
  min_raise_kept = m;
  others = λ q. others_of st st' p q (λ _. ap (λ t. load t q) s);
}

pay_moves :
    {st : Store} {h : Hand} {p : Ptr} {amount : ℤ} {st' : Store} {h' : Hand}
    → IsLive st p
    → amount ≤ℤ (load st p).stack
    → st' ≡ take_chips st p amount
    → h'.pot ≡ h.pot +ℤ amount
    → sum h'.player_bets ≡ sum h.player_bets +ℤ amount
    → h.min_raise ≤ℤ h'.min_raise
    → MovesChips st h p amount st' h'
pay_moves {st} {h} {p} {amount} {st'} l c s e b m =
    let f = λ (q : Player). record q { stack = q.stack -ℤ amount } in
    let new = load-modify_self f p st l in
    record {
      conserved = rw (s, e) (omega (int_laws, parts (chips-modify f p st l)));
      paid = rw s (ap (λ (q : Player). q.stack) new);
      solvent = rw (s, new) (omega int_laws);
      in_pot = e;
      in_bets = b;
      min_raise_kept = m;
      others = λ q. others_of st st' p q (λ n. rw s (load-modify_ne f p q st n));
    }

-- An accepted fold, call or raise of a player in the store moves exactly its amount from that player's
-- stack to the pot and to the bets, leaves the stack at 0 or more and every other player as he was,
-- and never lowers the minimum raise.
pub apply_action-MovesChips :
    (now : ℕ) (st : Store) (h : Hand) (p : Ptr) (action : String) (amount : ℤ)
    → IsLive st p
    → validate_action st h p action amount ≡ true
    → let (done, st', h') = apply_action now st h p action amount in MovesChips st h p amount st' h'
apply_action-MovesChips now st h p action amount l v =
    let allowed = validate_action-IsAllowed st h p action amount v in
    let s = store_after now st h p action amount v in
    let e = pot_after now st h p action amount v in
    let b = bets_after now st h p action amount v in
    let m = min_raise_grows now st h p action amount v in
    elim (Bool-cases (str_eq action "fold")) [
      | inl f ↦
          fold_moves (allowed.fold_free f) allowed.covered (rw f at s) (rw f at e) (rw f at b) m
      | inr f ↦ pay_moves l allowed.covered (rw f at s) (rw f at e) (rw f at b) m
    ]
