-- ===== src/Action/Examples.antt =====
-- Runs of player actions, and the theorem at an input.
use hump.Prelude.{◌≡◌, refl, true, arith, pos}
use hump.Model.{load}
use hump.Model.Samples.{two_players, a_hand}
use hump.Action.{index_of, in_hand, can_act, validate_action, apply_action}
use hump.Action.Apply.{MovesChips, apply_action-MovesChips}

raise_is_valid : validate_action two_players a_hand 1 "raise" (pos 8) ≡ true
unfolding validate_action can_act in_hand index_of load
raise_is_valid = refl

apply_action-MovesChips_example :
    let (done, st', h') = apply_action 7 two_players a_hand 1 "raise" (pos 8) in
    MovesChips two_players a_hand 1 (pos 8) st' h'
apply_action-MovesChips_example =
    apply_action-MovesChips 7 two_players a_hand 1 "raise" (pos 8) (omega arith) raise_is_valid
