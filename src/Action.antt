-- ===== src/Action.antt =====
-- Player actions: src/server/player_action.hpp and src/server/player_action.cpp. A player is passed by
-- reference, so by pointer here; `now` is the clock's time.
use hump.Prelude.{
  ℕ, suc, ◌+◌, Bool, true, false, not, ◌&&◌, ◌||◌, List, [], ◌∷◌, ◌++◌, ℤ, pos, ◌+ℤ◌, ◌-ℤ◌, ltb_ℤ,
  ◌==ℤ◌, ltb, leb, ◌==◌, length, get_or, set, if◌then◌else◌, String, str_eq,
}
use hump.Model.{Ptr, null, Player, Store, load, modify, Hand, ActionHistory, is_connected}
use hump.Hand.{resize, record_action}
pub mod Apply
mod Examples

-- The index of the first entry that is the player, or the length.
unfoldable pub index_of : List Ptr → Ptr → ℕ
index_of [] p = 0
index_of (q ∷ qs) p = if q == p then 0 else suc (index_of qs p)

-- The loop of `canAct`.
unfoldable pub in_hand : List Ptr → List Bool → Ptr → Bool
in_hand players folded p =
    let i = index_of players p in
    if ltb i (length players)
    then (if ltb i (length folded) && get_or folded i false then false else true)
    else false

unfoldable pub can_act : Store → Hand → Ptr → Bool
can_act st hand p =
    let player = load st p in
    if not (is_connected player.connection_status)
    then false
    else if player.is_sitting_out
    then false
    else in_hand hand.players hand.folded p

unfoldable pub get_min_raise : Hand → ℤ
get_min_raise hand = hand.min_raise

unfoldable pub get_max_raise : Store → Hand → Ptr → ℤ
get_max_raise st hand p = (load st p).stack

unfoldable pub validate_action : Store → Hand → Ptr → String → ℤ → Bool
validate_action st hand p action amount =
    let player = load st p in
    let fold = str_eq action "fold" in
    let call = str_eq action "call" in
    let raise = str_eq action "raise" in
    if not (can_act st hand p)
    then false
    else if not fold && not call && not raise
    then false
    else if ltb_ℤ amount (pos 0)
    then false
    else if fold && not (amount ==ℤ pos 0)
    then false
    else if ltb_ℤ player.stack (pos 0)
    then false
    else if (call || raise) && ltb_ℤ player.stack amount
    then false
    else if raise && ltb_ℤ amount hand.min_raise
    then false
    else if not (hand.current_player_to_act == p)
    then false
    else true

-- `folded[i] = true`, the vector made long enough first.
unfoldable pub mark_folded : Hand → Ptr → Hand
mark_folded h p =
    let i = index_of h.players p in
    let folded = if leb (length h.folded) i then resize (i + 1) false h.folded else h.folded in
    if ltb i (length h.players) then record h { folded = set folded i true } else h

-- `player_bets[i] += amount`, the vector made long enough first.
unfoldable pub add_bet : Hand → Ptr → ℤ → Hand
add_bet h p amount =
    let i = index_of h.players p in
    let bets =
      if leb (length h.player_bets) i
      then resize (i + 1) (pos 0) h.player_bets
      else h.player_bets in
    if ltb i (length h.players)
    then record h { player_bets = set bets i (get_or bets i (pos 0) +ℤ amount) }
    else h

abbrev pub take_chips : Store → Ptr → ℤ → Store
take_chips st p amount = modify (λ q. record q { stack = q.stack -ℤ amount }) p st

unfoldable pub apply_action : ℕ → Store → Hand → Ptr → String → ℤ → Bool × Store × Hand
apply_action now st hand p action amount =
    if not (validate_action st hand p action amount)
    then (false, st, hand)
    else if str_eq action "fold"
    then (true, st, record_action now p action amount (mark_folded hand p))
    else if str_eq action "call"
    then (
      true,
      take_chips st p amount,
      record_action now p action amount
          (add_bet (record hand { pot = hand.pot +ℤ amount }) p amount),
    )
    else if str_eq action "raise"
    then (
      true,
      take_chips st p amount,
      record_action now p action amount
          (add_bet (record hand { pot = hand.pot +ℤ amount; min_raise = amount }) p amount),
    )
    else (true, st, record_action now p action amount (add_bet hand p amount))
