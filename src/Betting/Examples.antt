-- ===== src/Betting/Examples.antt =====
-- Runs of the betting rules, and the theorems at inputs.
use hump.Prelude.{◌≡◌, refl, true, [], ◌∷◌, arith, pos, ◌+ℤ◌, ◌≤ℤ◌}
use hump.Betting.{
  raise, BettingState, folded_bet, is_valid_action, apply_action, is_round_complete, all_acted,
  all_settled,
}
use hump.Betting.Rounds.{IsOpen, apply_action-IsOpen}

abbrev opened : BettingState
opened = record { current_bet = pos 4; min_raise = pos 8; pot = pos 6 }

complete_with_fold : is_round_complete (true ∷ true ∷ []) (pos 4 ∷ folded_bet ∷ []) (pos 4) ≡ true
unfolding is_round_complete all_acted all_settled
complete_with_fold = refl

apply_action-IsOpen_example :
    IsOpen (apply_action raise (pos 10) opened (pos 50))
    × (pos 4 ≤ℤ (apply_action raise (pos 10) opened (pos 50)).current_bet)
    × ((apply_action raise (pos 10) opened (pos 50)).pot ≡ pos 6 +ℤ pos 10)
    × (pos 0 ≤ℤ pos 10)
    × (pos 10 ≤ℤ pos 50)
unfolding is_valid_action
apply_action-IsOpen_example =
    apply_action-IsOpen raise (pos 10) opened (pos 50) (omega arith) (omega arith) refl
