-- ===== src/Betting.antt =====
-- The betting rules: src/core/betting_rules.hpp and src/core/betting_rules.cpp.
use hump.Prelude.{
  ℕ, Bool, true, false, not, ◌&&◌, List, [], ◌∷◌, ℤ, pos, negsuc, ◌+ℤ◌, ◌==ℤ◌, leb_ℤ, ltb_ℤ, ◌==◌,
  length, if◌then◌else◌,
}
use hump.Model.{big_blind}
pub mod Rounds
mod Examples

pub data Action : Type 0 where
  fold call raise : Action

pub record BettingState : Type 0 where
  pub current_bet : ℤ
  pub min_raise : ℤ
  pub pot : ℤ

-- `FOLDED_BET`.
abbrev pub folded_bet : ℤ
folded_bet = negsuc 0

unfoldable pub is_valid_action : Action → ℤ → BettingState → ℤ → Bool
is_valid_action fold amount round player_stack = amount ==ℤ pos 0
is_valid_action call amount round player_stack =
    amount ==ℤ round.current_bet && leb_ℤ amount player_stack
is_valid_action raise amount round player_stack =
    leb_ℤ round.min_raise amount && leb_ℤ amount player_stack && ltb_ℤ round.current_bet amount

-- The second argument is the big blind.
unfoldable pub calculate_min_raise : ℤ → ℤ → ℤ
calculate_min_raise current_bet blind =
    if current_bet ==ℤ pos 0 then blind else current_bet +ℤ blind

unfoldable pub calculate_max_raise : ℤ → ℤ
calculate_max_raise player_stack = player_stack

unfoldable pub apply_action : Action → ℤ → BettingState → ℤ → BettingState
apply_action fold amount round player_stack = round
apply_action call amount round player_stack = record round { pot = round.pot +ℤ amount }
apply_action raise amount round player_stack = record round {
  pot = round.pot +ℤ amount;
  current_bet = amount;
  min_raise = calculate_min_raise amount big_blind;
}

unfoldable pub all_acted : List Bool → Bool
all_acted [] = true
all_acted (b ∷ bs) = b && all_acted bs

unfoldable pub all_settled : List ℤ → ℤ → Bool
all_settled [] current_bet = true
all_settled (b ∷ bs) current_bet =
    (if b ==ℤ current_bet then true else b ==ℤ folded_bet) && all_settled bs current_bet

unfoldable pub is_round_complete : List Bool → List ℤ → ℤ → Bool
is_round_complete has_acted bets current_bet =
    if not (length has_acted == length bets)
    then false
    else if not (all_acted has_acted)
    then false
    else all_settled bets current_bet
