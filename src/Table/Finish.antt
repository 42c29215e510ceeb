-- ===== src/Table/Finish.antt =====
-- The end of a hand: the pot is paid, and the players are topped up.
use hump.Prelude.{
  ℕ, suc, ◌/◌, ◌%◌, ◌≡◌, ◌≢◌, refl, ◌∙◌, ap, true, false, List, [], ◌∷◌, arith, ◌==◌, ==_iff, none,
  some, ok, ◌>>=◌, ℤ, pos, ◌+ℤ◌, rem, +ℤ_zero, ltb_ℤ, Bool-cases, inl, inr, ◌⊎◌,
}
use hump.Model.{
  Ptr, null, Player, Store, load, modify, Hand, waiting_for_players, top_up, needs_top_up,
}
use hump.Model.Store.{IsLive, load-modify_self, load-modify_ne, modify-IsLive}
use hump.Pot.{distribute_pot, pay_main_pot, pay_side_pots, split, share_loop, award_pot}
use hump.Hand.{active_players}
use hump.Hand.Winners.{determine_winners-last}
use hump.Ranking.Evaluation.{Any}
use hump.Table.{TableManager, top_up_all, close_hand, end_of, end_hand}

abbrev give_chips : ℤ → Ptr → Store → Store
give_chips a p st = modify (λ q. record q { stack = q.stack +ℤ a }) p st

split_sole :
    (st : Store) (p : Ptr) (a : ℕ)
    → IsLive st p
    → split st (p ∷ []) (pos (suc a)) ≡ give_chips (pos (suc a)) p st
unfolding split share_loop award_pot
split_sole st p a l =
    let q : suc a / 1 ≡ suc a = omega arith in
    let r : suc a % 1 ≡ 0 = omega arith in
    let n : (p == null) ≡ false = ground arith in
    let t : ltb_ℤ (pos 0) (pos (suc a)) ≡ true = ground arith in
    rw (q, r, +ℤ_zero (pos (suc a)), n, t)

-- A sole winner is given the whole pot.
distribute_pot-sole :
    (st : Store) (h : Hand) (p : Ptr) (a : ℕ)
    → IsLive st p
    → h.side_pots ≡ []
    → h.pot ≡ pos (suc a)
    → (distribute_pot st h (p ∷ [])).0 ≡ give_chips (pos (suc a)) p st
unfolding distribute_pot pay_main_pot pay_side_pots
distribute_pot-sole st h p a l s e =
    let t : ltb_ℤ (pos 0) h.pot ≡ true = ground (arith, e) in
    let main : (pay_main_pot st h (p ∷ [])).0 ≡ split st (p ∷ []) h.pot = rw t in
    let sides : (pay_main_pot st h (p ∷ [])).1.side_pots ≡ h.side_pots = rw t in
    ap (λ ss. (pay_side_pots (p ∷ []) (pay_main_pot st h (p ∷ [])).0 ss).0) (sides ∙ s)
    ∙ main
    ∙ ap (split st (p ∷ [])) e
    ∙ split_sole st p a l

top_up-stays : (q : Player) → top_up (top_up q) ≡ top_up q
unfolding top_up needs_top_up
top_up-stays q = ground arith

eq_or_ne : (q p : Ptr) → (q ≡ p) ⊎ (q ≢ p)
eq_or_ne q p = elim (Bool-cases (q == p)) [
  | inl e ↦ inl ((==_iff q p).0 e)
  | inr e ↦ inr (λ f. let g = (==_iff q p).1 f in cc)
]

load-modify-top_up :
    (q p : Ptr) (st : Store)
    → IsLive st p
    → (load (modify top_up q st) p ≡ load st p) ⊎ (load (modify top_up q st) p ≡ top_up (load st p))
load-modify-top_up q p st l = elim (eq_or_ne q p) [
  | inl e ↦ inr (rw e (load-modify_self top_up p st l))
  | inr n ↦ inl (load-modify_ne top_up q p st n)
]

-- Who has been topped up stays so.
top_up_all-stays :
    (ps : List Ptr) (st : Store) (p : Ptr) (x : Player)
    → IsLive st p
    → load st p ≡ top_up x
    → load (top_up_all ps st) p ≡ top_up x
unfolding top_up_all
top_up_all-stays [] st p x l e = e
top_up_all-stays (q ∷ ps) st p x l e =
    let l' = modify-IsLive top_up q {st = st} {q = p} l in
    elim (load-modify-top_up q p st l) [
      | inl f ↦ top_up_all-stays ps (modify top_up q st) p x l' (f ∙ e)
      | inr f ↦ top_up_all-stays ps (modify top_up q st) p x l' (f ∙ ap top_up e ∙ top_up-stays x)
    ]

-- Everyone in the list is topped up once, as often as he is in it.
load-top_up_all :
    (ps : List Ptr) (st : Store) (p : Ptr)
    → IsLive st p
    → Any (λ q. q ≡ p) ps
    → load (top_up_all ps st) p ≡ top_up (load st p)
unfolding top_up_all
load-top_up_all [] st p l m = elim m [ ]
load-top_up_all (q ∷ ps) st p l (inl e) =
    top_up_all-stays ps (modify top_up q st) p (load st p)
      (modify-IsLive top_up q {st = st} {q = p} l) (rw e (load-modify_self top_up p st l))
load-top_up_all (q ∷ ps) st p l (inr m) =
    let l' = modify-IsLive top_up q {st = st} {q = p} l in
    elim (load-modify-top_up q p st l) [
      | inl f ↦ load-top_up_all ps (modify top_up q st) p l' m ∙ ap top_up f
      | inr f ↦ top_up_all-stays ps (modify top_up q st) p (load st p) l' f
    ]

-- When all but one player have folded, the pot is positive and there are no side pots, the end of
-- the hand does not throw: the whole pot goes to the one who is left, and then every seated player
-- is topped up, the winner included. The table waits for a new hand, with the button moved on.
pub end_hand-last :
    (m : TableManager) (h : Hand) (w p : Ptr) (a : ℕ)
    → m.table.current_hand ≡ some h
    → active_players h.players h.folded ≡ w ∷ []
    → h.side_pots ≡ []
    → h.pot ≡ pos (suc a)
    → IsLive m.store w
    → IsLive m.store p
    → Any (λ q. q ≡ p) m.players
    → (m' : TableManager) × (end_hand m ≡ ok m')
      × (m'.table.current_hand ≡ none)
      × (m'.table.state ≡ waiting_for_players)
      × (m'.table.dealer_button_position ≡ rem (m.table.dealer_button_position +ℤ pos 1) 2)
      × (load m'.store p
          ≡ top_up (load (modify (λ q. record q { stack = q.stack +ℤ pos (suc a) }) w m.store) p))
unfolding end_hand end_of close_hand
end_hand-last m h w p a e one s pot l k i =
    let st = (distribute_pot m.store (record h { winners = w ∷ [] }) (w ∷ [])).0 in
    let paid : st ≡ give_chips (pos (suc a)) w m.store =
      distribute_pot-sole m.store (record h { winners = w ∷ [] }) w a l s pot in
    (
      close_hand m st,
      ap (end_of m) e
          ∙ ap
              (λ r. r >>= λ ws.
                ok (close_hand m (distribute_pot m.store (record h { winners = ws }) ws).0))
              (determine_winners-last m.store h w one),
      refl,
      refl,
      refl,
      rw paid (
          load-top_up_all m.players (give_chips (pos (suc a)) w m.store) p
            (modify-IsLive (λ q. record q { stack = q.stack +ℤ pos (suc a) }) w {st = m.store}
              {q = p} k)
            i),
    )
