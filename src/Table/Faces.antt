-- ===== src/Table/Faces.antt =====
-- What the operations of a hand leave alone: the players' ids and whether they are connected.
use hump.Prelude.{
  ℕ, zero, suc, ◌≡◌, refl, ◌∙◌, >>=-eq-ok, List, [], ◌∷◌, arith, ℤ, pos, ltb_ℤ, ltb, ◌+ℤ◌, ◌-ℤ◌,
  Bool-cases, inl, inr, if◌then◌else◌, String, ok, to_size,
}
use hump.Action.{apply_action}
use hump.Deck.{Deck, deal}
use hump.Hand.{deal_hole_cards}
use hump.Model.{
  Ptr, Player, Store, load, modify, top_up, needs_top_up, ConnectionStatus, Hand, SidePot,
}
use hump.Pot.{
  award_pot, share_loop, split, pay_side_pot, pay_side_pots, pay_main_pot, distribute_pot,
  eligible_winners,
}
use hump.Table.{top_up_all}

abbrev pub face : Player → String × ConnectionStatus
face q = (q.id, q.connection_status)

abbrev pub SameFaces : Store → Store → Type 0
SameFaces st st' = (p : Ptr) → face (load st' p) ≡ face (load st p)

pub modify-SameFaces :
    (f : Player → Player)
    → ((q : Player) → face (f q) ≡ face q)
    → (p : Ptr) (st : Store) → SameFaces st (modify f p st)
unfolding load modify
modify-SameFaces f k zero st q = refl
modify-SameFaces f k (suc n) [] q = refl
modify-SameFaces f k (suc zero) (x ∷ st) zero = refl
modify-SameFaces f k (suc zero) (x ∷ st) (suc zero) = k x
modify-SameFaces f k (suc zero) (x ∷ st) (suc (suc m)) = refl
modify-SameFaces f k (suc (suc n)) (x ∷ st) zero = refl
modify-SameFaces f k (suc (suc n)) (x ∷ st) (suc zero) = refl
modify-SameFaces f k (suc (suc n)) (x ∷ st) (suc (suc m)) = modify-SameFaces f k (suc n) st (suc m)

award_pot-SameFaces : (st : Store) (w : Ptr) (a : ℤ) → SameFaces st (award_pot st w a)
unfolding award_pot
award_pot-SameFaces st w a q =
    ground (arith, modify-SameFaces (λ p. record p { stack = p.stack +ℤ a }) (λ p. refl) w st q)

share_loop-SameFaces :
    (st : Store) (ws : List Ptr) (share remainder : ℤ) (i : ℕ)
    → SameFaces st (share_loop st ws share remainder i)
unfolding share_loop
share_loop-SameFaces st [] share remainder i q = refl
share_loop-SameFaces st (w ∷ ws) share remainder i q =
    let a = share +ℤ (if ltb i (to_size remainder) then pos 1 else pos 0) in
    elim (Bool-cases (ltb_ℤ (pos 0) a)) [
      | inl e ↦ rw e (
          share_loop-SameFaces (award_pot st w a) ws share remainder (suc i) q
          ∙ award_pot-SameFaces st w a q)
      | inr e ↦ rw e (share_loop-SameFaces st ws share remainder (suc i) q)
    ]

split-SameFaces : (st : Store) (ws : List Ptr) (a : ℤ) → SameFaces st (split st ws a)
unfolding split
split-SameFaces st ws a = share_loop-SameFaces st ws _ _ 0

pay_side_pot-SameFaces :
    (ws : List Ptr) (st : Store) (s : SidePot) → SameFaces st (pay_side_pot ws st s).0
unfolding pay_side_pot
pay_side_pot-SameFaces ws st s q =
    ground (arith, split-SameFaces st (eligible_winners s.eligible_players ws) s.amount q)

pay_side_pots-SameFaces :
    (ws : List Ptr) (st : Store) (ss : List SidePot) → SameFaces st (pay_side_pots ws st ss).0
unfolding pay_side_pots
pay_side_pots-SameFaces ws st [] q = refl
pay_side_pots-SameFaces ws st (s ∷ ss) q =
    pay_side_pots-SameFaces ws (pay_side_pot ws st s).0 ss q ∙ pay_side_pot-SameFaces ws st s q

pay_main_pot-SameFaces :
    (st : Store) (h : Hand) (ws : List Ptr) → SameFaces st (pay_main_pot st h ws).0
unfolding pay_main_pot
pay_main_pot-SameFaces st h [] q = refl
pay_main_pot-SameFaces st h (w ∷ ws) q = ground (arith, split-SameFaces st (w ∷ ws) h.pot q)

pub distribute_pot-SameFaces :
    (st : Store) (h : Hand) (ws : List Ptr) → SameFaces st (distribute_pot st h ws).0
unfolding distribute_pot
distribute_pot-SameFaces st h ws q =
    pay_side_pots-SameFaces ws (pay_main_pot st h ws).0 (pay_main_pot st h ws).1.side_pots q
    ∙ pay_main_pot-SameFaces st h ws q

pub face-top_up : (q : Player) → face (top_up q) ≡ face q
unfolding top_up
face-top_up q = elim (Bool-cases (needs_top_up q)) [ inl e ↦ rw e refl | inr e ↦ rw e refl ]

pub top_up_all-SameFaces : (ps : List Ptr) (st : Store) → SameFaces st (top_up_all ps st)
unfolding top_up_all
top_up_all-SameFaces [] st q = refl
top_up_all-SameFaces (p ∷ ps) st q =
    top_up_all-SameFaces ps (modify top_up p st) q ∙ modify-SameFaces top_up face-top_up p st q

pub deal_hole_cards-SameFaces :
    (ps : List Ptr) (st : Store) (d : Deck) {st' : Store} {d' : Deck}
    → deal_hole_cards ps st d ≡ ok (st', d')
    → SameFaces st st'
unfolding deal_hole_cards
deal_hole_cards-SameFaces [] st d {st'} {d'} e q =
    let same : st ≡ st' = ground (arith, e) in rw same refl
deal_hole_cards-SameFaces (p ∷ ps) st d e q =
    let ((c1, d1), a, e') = >>=-eq-ok (deal d) _ e in
    let ((c2, d2), b, e'') = >>=-eq-ok (deal d1) _ e' in
    let f = λ (x : Player). record x { hole_cards = c1 ∷ c2 ∷ [] } in
    deal_hole_cards-SameFaces ps (modify f p st) d2 e'' q ∙ modify-SameFaces f (λ x. refl) p st q

pub apply_action-SameFaces :
    (now : ℕ) (st : Store) (h : Hand) (p : Ptr) (action : String) (amount : ℤ)
    → SameFaces st (apply_action now st h p action amount).1
unfolding apply_action
apply_action-SameFaces now st h p action amount q =
    ground
      (arith, modify-SameFaces (λ x. record x { stack = x.stack -ℤ amount }) (λ x. refl) p st q)
