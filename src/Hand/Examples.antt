-- ===== src/Hand/Examples.antt =====
-- Runs of a hand's operations, and the theorems at inputs.
use hump.Prelude.{◌≡◌, ◌⊎◌, refl, true, false, [], ◌∷◌, arith, ok}
use hump.Model.{Ptr, Hand, river, showdown, load}
use hump.Model.Samples.{two_players, a_board, a_hand}
use hump.Ranking.{HandRank}
use hump.Hand.{active_players, determine_winners, advance_betting_round}
use hump.Hand.Actions.{}
use hump.Hand.Rounds.{IsAdvanced, advance_betting_round_lem}
use hump.Hand.Winners.{determine_winners-IsBest, IsBest}

abbrev at_river : Hand
at_river = record a_hand { community_cards = a_board; current_betting_round = river }

abbrev unset : Hand
unset = record a_hand { folded = [] }

determine_winners-IsBest_example :
    (w : Ptr) × (r : HandRank) × (determine_winners two_players at_river ≡ ok (w ∷ []))
    × IsBest two_players a_board (1 ∷ 2 ∷ []) w r
unfolding load
determine_winners-IsBest_example =
    determine_winners-IsBest two_players at_river 1 2 [] (unfold active_players in refl)
      (refl, (refl, tt))

advance_betting_round_lem_example :
    ((a_hand.current_betting_round ≡ showdown)
      × (advance_betting_round a_hand ≡ ok (a_hand, false)))
    ⊎ ((h : Hand) × (advance_betting_round a_hand ≡ ok (h, true)) × IsAdvanced a_hand h)
advance_betting_round_lem_example = advance_betting_round_lem a_hand (omega arith) refl
