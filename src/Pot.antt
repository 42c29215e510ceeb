-- ===== src/Pot.antt =====
-- Pots: src/core/pot.hpp and src/core/pot.cpp. `std::sort` is an insertion sort here: the code leaves
-- the order of equal bets open, and the standard lets any be chosen.
use hump.Prelude.{
  ℕ, zero, suc, ◌+◌, ◌*◌, ◌%◌, ◌^◌, Bool, true, false, not, ◌&&◌, List, [], ◌∷◌, map, ℤ, pos, ◌+ℤ◌,
  ◌-ℤ◌, ◌==ℤ◌, leb_ℤ, ltb_ℤ, ltb, ◌==◌, length, get_or, if◌then◌else◌, quot, rem, to_size, to_int,
}
use hump.Model.{Ptr, null, Player, Store, modify, SidePot, Hand}
pub mod SidePots
pub mod Split
pub mod Distribution
mod Examples

-- `bets[i]`, for an index in range.
abbrev pub bet_at : List ℤ → ℕ → ℤ
bet_at bets i = get_or bets i (pos 0)

-- 0, 1, ... n - 1, from k on.
unfoldable pub indices_from : ℕ → ℕ → List ℕ
indices_from zero k = []
indices_from (suc n) k = k ∷ indices_from n (suc k)

-- Sorting by `bets[a] < bets[b]`.
unfoldable pub insert_index : List ℤ → ℕ → List ℕ → List ℕ
insert_index bets i [] = i ∷ []
insert_index bets i (j ∷ js) =
    if ltb_ℤ (bet_at bets j) (bet_at bets i) then j ∷ insert_index bets i js else i ∷ j ∷ js

unfoldable pub sort_indices : List ℤ → List ℕ → List ℕ
unfolding insert_index
sort_indices bets [] = []
sort_indices bets (i ∷ is) = insert_index bets i (sort_indices bets is)

-- The loop over the sorted indices; `i ∷ is` are those from the current one on. The product of an
-- `int` and a `size_t` is a `size_t`, which is converted back to the `int` amount.
unfoldable pub pots_loop : List Ptr → List ℤ → List ℕ → ℤ → List SidePot
pots_loop players bets [] previous_bet = []
pots_loop players bets (i ∷ is) previous_bet =
    let current_bet = bet_at bets i in
    let same = current_bet ==ℤ previous_bet in
    let rest = pots_loop players bets is (if same then previous_bet else current_bet) in
    if same
    then rest
    else (record {
      amount = to_int (to_size (current_bet -ℤ previous_bet) * length (i ∷ is) % 2 ^ 64);
      eligible_players = map (λ j. get_or players j null) (i ∷ is);
    }
        ∷ rest)

unfoldable pub calculate_side_pots : List Ptr → List ℤ → List SidePot
calculate_side_pots players bets =
    pots_loop players bets (sort_indices bets (indices_from (length players) 0)) (pos 0)

-- The loop of `getEligiblePlayersForPot`, from index i on.
unfoldable pub eligible_from : List Ptr → List ℤ → ℕ → ℤ → List Ptr
eligible_from [] bets i pot_threshold = []
eligible_from (p ∷ ps) bets i pot_threshold =
    if leb_ℤ pot_threshold (bet_at bets i)
    then p ∷ eligible_from ps bets (suc i) pot_threshold
    else eligible_from ps bets (suc i) pot_threshold

unfoldable pub get_eligible_players_for_pot : List Ptr → List ℤ → ℤ → List Ptr
unfolding eligible_from
get_eligible_players_for_pot players bets pot_threshold = eligible_from players bets 0 pot_threshold

unfoldable pub award_pot : Store → Ptr → ℤ → Store
award_pot st p amount =
    if not (p == null) && ltb_ℤ (pos 0) amount
    then modify (λ q. record q { stack = q.stack +ℤ amount }) p st
    else st

-- The loop that hands out the shares, from the i-th winner on.
unfoldable pub share_loop : Store → List Ptr → ℤ → ℤ → ℕ → Store
share_loop st [] share remainder i = st
share_loop st (w ∷ ws) share remainder i =
    let amount = share +ℤ (if ltb i (to_size remainder) then pos 1 else pos 0) in
    share_loop (if ltb_ℤ (pos 0) amount then award_pot st w amount else st) ws share remainder
      (suc i)

-- `amount / n` to each, and one chip more to the first `amount % n`. The number of winners is cast to
-- an int, which is exact below 2 ^ 31.
unfoldable pub split : Store → List Ptr → ℤ → Store
split st ws amount = share_loop st ws (quot amount (length ws)) (rem amount (length ws)) 0

unfoldable pub contains : List Ptr → Ptr → Bool
contains [] p = false
contains (q ∷ qs) p = if q == p then true else contains qs p

-- The winners that may take part in a side pot.
unfoldable pub eligible_winners : List Ptr → List Ptr → List Ptr
unfolding contains
eligible_winners eligible [] = []
eligible_winners eligible (w ∷ ws) =
    if contains eligible w then w ∷ eligible_winners eligible ws else eligible_winners eligible ws

abbrev pub is_empty {ℓ} : {A : Type ℓ} → List A → Bool
is_empty [] = true
is_empty (x ∷ xs) = false

-- One round of the loop over the side pots.
unfoldable pub pay_side_pot : List Ptr → Store → SidePot → Store × SidePot
pay_side_pot winners st side_pot =
    let ws = eligible_winners side_pot.eligible_players winners in
    if side_pot.amount ==ℤ pos 0
    then (st, side_pot)
    else if is_empty ws
    then (st, side_pot)
    else (split st ws side_pot.amount, record side_pot { amount = pos 0 })

unfoldable pub pay_side_pots : List Ptr → Store → List SidePot → Store × List SidePot
pay_side_pots winners st [] = (st, [])
pay_side_pots winners st (s ∷ ss) =
    let (st', s') = pay_side_pot winners st s in
    let (st'', ss') = pay_side_pots winners st' ss in (st'', s' ∷ ss')

-- `erase(remove_if(... amount == 0))`.
unfoldable pub remove_paid : List SidePot → List SidePot
remove_paid [] = []
remove_paid (s ∷ ss) = if s.amount ==ℤ pos 0 then remove_paid ss else s ∷ remove_paid ss

-- The first part: the main pot.
unfoldable pub pay_main_pot : Store → Hand → List Ptr → Store × Hand
pay_main_pot st hand winners =
    if not (is_empty winners) && ltb_ℤ (pos 0) hand.pot
    then (split st winners hand.pot, record hand { pot = pos 0 })
    else (st, hand)

unfoldable pub distribute_pot : Store → Hand → List Ptr → Store × Hand
distribute_pot st hand winners =
    let (st', hand') = pay_main_pot st hand winners in
    let (st'', pots) = pay_side_pots winners st' hand'.side_pots in
    (st'', record hand' { side_pots = remove_paid pots })
