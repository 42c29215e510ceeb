-- ===== src/Table/Ownership.antt =====
-- The players of the table manager as objects of the store.
use hump.Prelude.{
  ℕ, ◌≤◌, ◌≡◌, refl, ◌∙◌, subst, ok-injective, Bool, List, [], ◌∷◌, ◌++◌, arith, Option, none, some,
  Bool-cases, inl, inr, length, String, ok, >>=-eq-ok, ℤ,
}
use hump.Card.{Card}
use hump.Deck.{Deck, deal}
use hump.Model.{Ptr, Store, Player, modify, top_up, Hand, is_ready_for_hand}
use hump.Model.Store.{IsLive, length-modify}
use hump.Hand.{determine_winners, deal_hole_cards}
use hump.Pot.{distribute_pot}
use hump.Pot.Split.{AllLive}
use hump.Pot.Distribution.{distribute_pot-AllLive}
use hump.Table.{
  TableManager, top_up_all, close_hand, end_of, end_hand, process_player_action, assign_seat,
  new_hand, start_on, start_hand,
}
use hump.Table.Play.{AllLive-length, step-chips}

abbrev pub Owns : TableManager → Type 0
Owns m = AllLive m.store m.players

pub AllLive-le :
    (st st' : Store) (ps : List Ptr) → length st ≤ length st' → AllLive st ps → AllLive st' ps
AllLive-le st st' [] h l = tt
AllLive-le st st' (p ∷ ps) h l = (omega arith, AllLive-le st st' ps h l.1)

AllLive-append :
    (st : Store) (ps : List Ptr) (p : Ptr) → AllLive st ps → IsLive st p → AllLive st (ps ++ p ∷ [])
AllLive-append st [] p l h = (h, tt)
AllLive-append st (q ∷ ps) p l h = (l.0, AllLive-append st ps p l.1 h)

-- The action of a player.
pub process_player_action-Owns :
    (now : ℕ) (m : TableManager) (id action : String) (amount : ℤ)
    → Owns m
    → Owns (process_player_action now m id action amount).0
process_player_action-Owns now m id action amount l = (step-chips now m id action amount l).1

length-top_up_all : (ps : List Ptr) (st : Store) → length (top_up_all ps st) ≡ length st
unfolding top_up_all
length-top_up_all [] st = refl
length-top_up_all (p ∷ ps) st =
    length-top_up_all ps (modify top_up p st) ∙ length-modify top_up p st

close_hand-Owns : (m : TableManager) (st : Store) → AllLive st m.players → Owns (close_hand m st)
unfolding close_hand
close_hand-Owns m st l =
    AllLive-length st (top_up_all m.players st) m.players (length-top_up_all m.players st) l

end_of-Owns :
    (m : TableManager) (o : Option Hand) {m' : TableManager} → end_of m o ≡ ok m' → Owns m → Owns m'
unfolding end_of
end_of-Owns m none {m'} e l = let same : m ≡ m' = ground (arith, e) in rw (← same) l
end_of-Owns m (some hand) {m'} e l =
    let (ws, won, e') = >>=-eq-ok (determine_winners m.store hand) _ e in
    let st = (distribute_pot m.store (record hand { winners = ws }) ws).0 in
    let same : close_hand m st ≡ m' = ground (arith, e') in
    rw (← same) (
      close_hand-Owns m st
        (distribute_pot-AllLive m.store (record hand { winners = ws }) ws m.players l))

pub end_hand-Owns : (m : TableManager) {m' : TableManager} → end_hand m ≡ ok m' → Owns m → Owns m'
unfolding end_hand
end_hand-Owns m e l = end_of-Owns m m.table.current_hand e l

pub assign_seat-Owns :
    (m : TableManager) (p : Ptr) (seat : ℤ)
    → Owns m
    → IsLive m.store p
    → Owns (assign_seat m p seat).0
unfolding assign_seat
assign_seat-Owns m p seat l h =
    let f = λ (q : Player). record q { seat = seat } in
    let seated : AllLive (modify f p m.store) (m.players ++ p ∷ []) =
      AllLive-length m.store (modify f p m.store) (m.players ++ p ∷ []) (length-modify f p m.store)
        (AllLive-append m.store m.players p l h) in
    ground (arith, l, seated)

deal_hole_cards-length :
    (ps : List Ptr) (st : Store) (d : Deck) {st' : Store} {d' : Deck}
    → deal_hole_cards ps st d ≡ ok (st', d')
    → length st' ≡ length st
unfolding deal_hole_cards
deal_hole_cards-length [] st d {st'} {d'} e =
    let same : st ≡ st' = ground (arith, e) in rw same refl
deal_hole_cards-length (p ∷ ps) st d e =
    let ((c1, d1), a, e') = >>=-eq-ok (deal d) _ e in
    let ((c2, d2), b, e'') = >>=-eq-ok (deal d1) _ e' in
    let f = λ (q : Player). record q { hole_cards = c1 ∷ c2 ∷ [] } in
    deal_hole_cards-length ps (modify f p st) d2 e'' ∙ length-modify f p st

start_on-Owns :
    (m : TableManager) (hand : Hand) (o : Option Hand) {r : TableManager × Bool}
    → start_on m hand o ≡ ok r
    → Owns m
    → Owns r.0
unfolding start_on
start_on-Owns m hand (some h) {r} e l = let same : m ≡ r.0 = ground (arith, e) in rw (← same) l
start_on-Owns m hand none {r} e l =
    let ((st, d), a, e') = >>=-eq-ok (deal_hole_cards hand.players m.store hand.deck) _ e in
    let n = deal_hole_cards-length hand.players m.store hand.deck a in
    subst (λ (x : TableManager × Bool). Owns x.0) (ok-injective e')
      (AllLive-length m.store st m.players n l)

pub start_hand-Owns :
    (σ₁ σ₂ : List Card → List Card) (id : String) (m : TableManager) {r : TableManager × Bool}
    → start_hand σ₁ σ₂ id m ≡ ok r
    → Owns m
    → Owns r.0
unfolding start_hand
start_hand-Owns σ₁ σ₂ id m {r} e l = elim (Bool-cases (is_ready_for_hand m.table)) [
  | inl t ↦ start_on-Owns m (new_hand σ₁ σ₂ id m.table) m.table.current_hand (rw t at e) l
  | inr t ↦ subst (λ (x : TableManager × Bool). Owns x.0) (ok-injective (rw t at e)) l
]
