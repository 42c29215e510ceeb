-- ===== src/Hand/Winners.antt =====
-- Who wins a hand, and when it is over.
use mathlib.Core.List.{append_assoc}
use hump.Prelude.{
  ℕ, suc, ◌+◌, ◌≤◌, ◌<◌, ◌≡◌, refl, ap, inl, inr, Bool, true, false, not, ◌||◌, List, [], ◌∷◌, ◌++◌,
  map, arith, ltb, leb, ◌==◌, length, length-append, if◌then◌else◌, Bool-cases, All, ok,
}
use hump.Card.{Card}
use hump.Model.{Ptr, Store, load, Hand}
use hump.Pot.{is_empty}
use hump.Ranking.{HandRank, hand_rank_to_int, evaluate}
use hump.Ranking.Evaluation.{Any, evaluate-choose}
use hump.Hand.{
  active_players, evaluations, max_from, max_element, determine_winners, is_hand_complete,
  active_from, folded_at, is_showdown,
}

length-snoc : (pre : List Bool) (b : Bool) → length (pre ++ b ∷ []) ≡ suc (length pre)
length-snoc pre b = omega (arith, length-append {0} pre (b ∷ []))

folded_at-append :
    (wild : ℕ → Bool) (pre : List Bool) (b : Bool) (bs : List Bool)
    → folded_at wild (pre ++ b ∷ bs) (length pre) ≡ b
unfolding folded_at
folded_at-append wild [] b bs = ground arith
folded_at-append wild (c ∷ pre) b bs = ground (arith, folded_at-append (λ i. wild (suc i)) pre b bs)

last_step :
    (b : Bool) (n k : ℕ) (p : Ptr) (act : List Ptr)
    → k < n
    → (if leb n k || not b then suc (length act) else length act)
      ≡ length (if b then act else p ∷ act)
last_step true n k p act h = ground arith
last_step false n k p act h = ground arith

-- The active players counted by index are those of the list.
active_from_lem :
    (wild : ℕ → Bool) (n : ℕ) (pre bs : List Bool) (ps : List Ptr)
    → n ≡ length pre + length ps
    → length bs ≡ length ps
    → active_from wild n (pre ++ bs) ps (length pre) ≡ length (active_players ps bs)
unfolding active_from active_players
active_from_lem wild n pre [] [] e f = refl
active_from_lem wild n pre (b ∷ bs) [] e f = absurd (omega arith)
active_from_lem wild n pre [] (p ∷ ps) e f = absurd (omega arith)
active_from_lem wild n pre (b ∷ bs) (p ∷ ps) e f =
    let ih =
      rw (append_assoc pre (b ∷ []) bs, length-snoc pre b) at
        (active_from_lem wild n (pre ++ b ∷ []) bs ps (omega (arith, length-snoc pre b))
          (omega arith)) in
    rw (folded_at-append wild pre b bs, ih)
      (last_step b n (length pre) p (active_players ps bs) (omega arith))

max_from_lem :
    (P : Ptr × HandRank → Type 0) (best : Ptr × HandRank) (es : List (Ptr × HandRank))
    → P best
    → All P es
    → (w : Ptr × HandRank) × (max_from best es ≡ w.0)
      × P w
      × (hand_rank_to_int best.1 ≤ hand_rank_to_int w.1)
      × All (λ e. hand_rank_to_int e.1 ≤ hand_rank_to_int w.1) es
unfolding max_from
max_from_lem P best [] p a = (best, refl, p, omega arith, tt)
max_from_lem P best (e ∷ es) p a =
    elim (Bool-cases (ltb (hand_rank_to_int best.1) (hand_rank_to_int e.1))) [
      | inl t ↦
          let (w, q, r, le, all) = max_from_lem P e es a.0 a.1 in
          (w, rw t q, r, ground arith, (le, all))
      | inr t ↦
          let (w, q, r, le, all) = max_from_lem P best es p a.1 in
          (w, rw t q, r, le, (ground arith, all))
    ]

-- With a flag for each player, a hand is complete exactly at showdown or when at most one player has not
-- folded: those among whom the winners are then looked for.
is_hand_complete-active :
    (wild : ℕ → Bool) (h : Hand)
    → length h.folded ≡ length h.players
    → is_hand_complete wild h
      ≡ (is_showdown h.current_betting_round || leb (length (active_players h.players h.folded)) 1)
unfolding is_hand_complete
is_hand_complete-active wild h e =
    ground (arith, active_from_lem wild (length h.folded) [] h.folded h.players (omega arith) e)

-- With no flags at all, as after the start of a hand by the table manager, the answer before showdown is
-- up to what lies behind the end of the empty vector: both players count as folded or not by it.
is_hand_complete-unset :
    (wild : ℕ → Bool) (h : Hand) (p q : Ptr)
    → h.players ≡ p ∷ q ∷ []
    → h.folded ≡ []
    → is_showdown h.current_betting_round ≡ false
    → is_hand_complete wild h ≡ (wild 0 || wild 1)
unfolding is_hand_complete active_from folded_at
is_hand_complete-unset wild h p q e f r = rw (e, f, r) (ground arith)

-- Seven cards for each player who is left.
abbrev pub Dealt : Store → List Card → List Ptr → Type 0
Dealt st community ps = All (λ p. length ((load st p).hole_cards ++ community) ≡ 7) ps

-- The rank of a player's seven cards.
abbrev pub Ranks : Store → List Card → Ptr × HandRank → Type 0
Ranks st community e = evaluate ((load st e.0).hole_cards ++ community) ≡ ok e.1

evaluations_lem :
    (st : Store) (community : List Card) (ps : List Ptr)
    → Dealt st community ps
    → (es : List (Ptr × HandRank)) × (evaluations st community ps ≡ ok es)
      × All (Ranks st community) es
      × (map (λ e. e.0) es ≡ ps)
unfolding evaluations
evaluations_lem st community [] d = ([], refl, tt, refl)
evaluations_lem st community (p ∷ ps) d =
    let (r, e, any, all) = evaluate-choose ((load st p).hole_cards ++ community) (inr d.0) in
    let (es, f, ranks, same) = evaluations_lem st community ps d.1 in
    ((p, r) ∷ es, rw (e, f), (e, ranks), ap (λ t. p ∷ t) same)

All-imp {ℓ} :
    {A : Type ℓ} (P Q : A → Type 0) (xs : List A) → ((a : A) → P a → Q a) → All P xs → All Q xs
All-imp P Q [] f h = tt
All-imp P Q (x ∷ xs) f h = (f x h.0, All-imp P Q xs f h.1)

All-both {ℓ} :
    {A : Type ℓ} (P Q : A → Type 0) (xs : List A) → All P xs → All Q xs → All (λ a. P a × Q a) xs
All-both P Q [] h k = tt
All-both P Q (x ∷ xs) h k = ((h.0, k.0), All-both P Q xs h.1 k.1)

abbrev firsts : List (Ptr × HandRank) → List Ptr
firsts es = map (λ e. e.0) es

All-firsts :
    (P : Ptr → Type 0) (es : List (Ptr × HandRank)) → All (λ e. P e.0) es → All P (firsts es)
All-firsts P [] h = tt
All-firsts P (e ∷ es) h = (h.0, All-firsts P es h.1)

All-Any-firsts : (es : List (Ptr × HandRank)) → All (λ e. Any (λ p. p ≡ e.0) (firsts es)) es
All-Any-firsts [] = tt
All-Any-firsts (e ∷ es) = (
  inl refl,
  All-imp (λ x. Any (λ p. p ≡ x.0) (firsts es)) (λ x. Any (λ p. p ≡ x.0) (firsts (e ∷ es))) es
      (λ x h. inr h) (All-Any-firsts es),
)

abbrev pub IsBelow : Store → List Card → HandRank → Ptr → Type 0
IsBelow st community r p =
    (s : HandRank) × (evaluate ((load st p).hole_cards ++ community) ≡ ok s)
    × (hand_rank_to_int s ≤ hand_rank_to_int r)

-- What is shown of the winner: he is one of the players left, and none of them has a higher rank.
pub record IsBest (st : Store) (community : List Card) (active : List Ptr) (w : Ptr) (r : HandRank)
    : Type 0 where
  pub left : Any (λ p. p ≡ w) active
  pub ranked : evaluate ((load st w).hole_cards ++ community) ≡ ok r
  pub highest : All (IsBelow st community r) active

max_element-IsBest :
    (st : Store) (community : List Card) (e : Ptr × HandRank) (es : List (Ptr × HandRank))
    → All (Ranks st community) (e ∷ es)
    → (w : Ptr) × (r : HandRank) × (max_element (e ∷ es) ≡ w ∷ [])
      × IsBest st community (firsts (e ∷ es)) w r
unfolding max_element
max_element-IsBest st community e es h =
    let P = λ (x : Ptr × HandRank). Ranks st community x × Any (λ p. p ≡ x.0) (firsts (e ∷ es)) in
    let mems = All-Any-firsts (e ∷ es) in
    let (w, q, (ranked, left), le, all) =
      max_from_lem P e es (h.0, mems.0)
        (All-both (Ranks st community) (λ x. Any (λ p. p ≡ x.0) (firsts (e ∷ es))) es h.1 mems.1) in
    (
      w.0,
      w.1,
      ap (λ t. t ∷ []) q,
      record {
        left = left;
        ranked = ranked;
        highest = All-firsts (IsBelow st community w.1) (e ∷ es) (
            All-imp (λ x. Ranks st community x × (hand_rank_to_int x.1 ≤ hand_rank_to_int w.1))
              (λ x. IsBelow st community w.1 x.0) (e ∷ es) (λ x k. (x.1, k.0, k.1))
              (All-both (Ranks st community) (λ x. hand_rank_to_int x.1 ≤ hand_rank_to_int w.1)
                (e ∷ es) h (le, all)));
      },
    )

players_left :
    (h : Hand) {p : Ptr} {ps : List Ptr}
    → active_players h.players h.folded ≡ p ∷ ps
    → is_empty h.players ≡ false
unfolding active_players
players_left h {p} {ps} a = go h.players a
  where
    go : (xs : List Ptr) → active_players xs h.folded ≡ p ∷ ps → is_empty xs ≡ false
    go [] e = cc
    go (x ∷ xs) e = refl

nonempty-IsBest :
    (st : Store) (community : List Card) (es : List (Ptr × HandRank)) (active : List Ptr)
    → is_empty active ≡ false
    → firsts es ≡ active
    → All (Ranks st community) es
    → (w : Ptr) × (r : HandRank) × (max_element es ≡ w ∷ []) × IsBest st community active w r
nonempty-IsBest st community [] active f e h = absurd (let f' = rw (← e) at f in cc)
nonempty-IsBest st community (e ∷ es) active f same h =
    let (w, r, m, best) = max_element-IsBest st community e es h in (w, r, m, rw same at best)

-- With two or more players left and seven cards for each of them, exactly one is named as the
-- winner, without an exception: one of those who are left, whose rank no other's exceeds. Players of
-- the same rank do not share.
pub determine_winners-IsBest :
    (st : Store) (h : Hand) (p q : Ptr) (ps : List Ptr)
    → active_players h.players h.folded ≡ p ∷ q ∷ ps
    → Dealt st h.community_cards (p ∷ q ∷ ps)
    → (w : Ptr) × (r : HandRank) × (determine_winners st h ≡ ok (w ∷ []))
      × IsBest st h.community_cards (p ∷ q ∷ ps) w r
unfolding determine_winners
determine_winners-IsBest st h p q ps a d =
    let (es, e, ranks, same) = evaluations_lem st h.community_cards (p ∷ q ∷ ps) d in
    let (w, r, m, best) = nonempty-IsBest st h.community_cards es (p ∷ q ∷ ps) refl same ranks in
    let two : (length (p ∷ q ∷ ps) == 1) ≡ false = ground arith in
    (w, r, rw (players_left h a, a, two, e) (ap ok m), best)

-- If all but one have folded, the one who is left wins, whatever the cards are.
pub determine_winners-last :
    (st : Store) (h : Hand) (p : Ptr)
    → active_players h.players h.folded ≡ p ∷ []
    → determine_winners st h ≡ ok (p ∷ [])
unfolding determine_winners
determine_winners-last st h p a = rw (players_left h a, a)
