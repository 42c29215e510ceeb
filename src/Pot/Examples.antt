-- ===== src/Pot/Examples.antt =====
-- Runs of the pots, and the theorems at inputs.
use hump.Prelude.{◌≡◌, refl, List, [], ◌∷◌, arith, ℤ, pos, ◌+ℤ◌, sum}
use hump.Model.{Ptr, Store, Hand, no_player, preflop}
use hump.Pot.{calculate_side_pots, distribute_pot}
use hump.Pot.Distribution.{side_chips, total, total-distribute_pot}
use hump.Pot.SidePots.{side_chips-calculate_side_pots}

abbrev three_players : List Ptr
three_players = 1 ∷ 2 ∷ 3 ∷ []

abbrev three_bets : List ℤ
three_bets = pos 30 ∷ pos 10 ∷ pos 30 ∷ []

abbrev three_stacks : Store
three_stacks = no_player ∷ no_player ∷ no_player ∷ []

abbrev split_hand : Hand
split_hand = record {
  id = "";
  table = 0;
  players = three_players;
  deck = record { cards = []; next_card = 0 };
  community_cards = [];
  pot = pos 7;
  side_pots = record { amount = pos 20; eligible_players = 1 ∷ 3 ∷ [] } ∷ [];
  player_bets = three_bets;
  folded = [];
  current_betting_round = preflop;
  current_player_to_act = 1;
  min_raise = pos 4;
  history = [];
  winners = [];
  completed_at = 0;
}

side_chips-calculate_side_pots_example :
    side_chips (calculate_side_pots three_players three_bets) ≡ sum three_bets
unfolding ◌+ℤ◌
side_chips-calculate_side_pots_example =
    side_chips-calculate_side_pots three_players three_bets refl
      (omega arith, (omega arith, (omega arith, tt))) (omega arith)

total-distribute_pot_example :
    total (distribute_pot three_stacks split_hand (1 ∷ 2 ∷ [])) ≡ total (three_stacks, split_hand)
total-distribute_pot_example =
    total-distribute_pot three_stacks split_hand (1 ∷ 2 ∷ []) (omega arith)
      (omega arith, (omega arith, tt)) (omega arith, tt)
