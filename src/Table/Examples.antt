-- ===== src/Table/Examples.antt =====
-- Runs of the table manager, and the theorems at inputs.
use hump.Prelude.{
  ℕ, ◌≡◌, refl, ◌⊎◌, inl, inr, true, false, List, [], ◌∷◌, ◌++◌, arith, none, some, ok, String, ℤ,
  pos, ◌+ℤ◌, rem, get_or,
}
use hump.Card.{default_card}
use hump.Deck.Deals.{IsShuffle-id}
use hump.Model.{
  Store, Hand, load, modify, waiting_for_players, hand_in_progress, top_up, is_ready_for_hand,
}
use hump.Model.Samples.{two_players, a_hand}
use hump.Hand.{active_players}
use hump.Table.{
  TableManager, new, start_hand, process_player_action, end_hand, advance_betting_round,
}
use hump.Table.Finish.{end_hand-last}
use hump.Table.Play.{
  process_player_action_lem, IsRefusable, IsAccepted, after, run_actions, table_chips,
  table_chips-run_actions,
}
use hump.Table.Seats.{seated_at, remove_player-assign_seat}
use hump.Table.{assign_seat, remove_player, get_player, find_player}
use hump.Table.Start.{start_hand_lem, flop_repeats_hole_cards, started, two_cards, order}

abbrev ready : TableManager
ready = record {
  table = record (new "t").table { seat_1 = 1; seat_2 = 2 };
  players = 1 ∷ 2 ∷ [];
  store = two_players;
}

abbrev playing : TableManager
playing = record ready {
  table = record ready.table { current_hand = some a_hand; state = hand_in_progress; pot = pos 4 };
}

abbrev requests : List (ℕ × String × String × ℤ)
requests =
    (7, "ann", "raise", pos 8)
    ∷ (8, "ann", "call", pos 4)
    ∷ (9, "carl", "fold", pos 0)
    ∷ (9, "bob", "call", pos 4)
    ∷ []

table_chips-run_actions_example : table_chips (run_actions playing requests) ≡ table_chips playing
table_chips-run_actions_example =
    table_chips-run_actions playing requests (omega arith, (omega arith, tt))

process_player_action_lem_example :
    (IsRefusable playing "ann" "raise" (pos 8)
      × (process_player_action 7 playing "ann" "raise" (pos 8) ≡ (playing, false)))
    ⊎ ((h : Hand) × IsAccepted 7 playing "ann" "raise" (pos 8) h
        × (process_player_action 7 playing "ann" "raise" (pos 8)
            ≡ (after 7 playing h "ann" "raise" (pos 8), true)))
process_player_action_lem_example =
    process_player_action_lem 7 playing "ann" "raise" (pos 8) (omega arith, (omega arith, tt))

start_hand_lem_example :
    (st : Store) × (start_hand (λ cs. cs) (λ cs. cs) "h" ready
      ≡ ok (started (λ cs. cs) (λ cs. cs) "h" ready st, true))
    × ((load st 1).hole_cards ≡ two_cards (order (λ cs. cs) (λ cs. cs)) 0)
    × ((load st 2).hole_cards ≡ two_cards (order (λ cs. cs) (λ cs. cs)) 2)
unfolding new
start_hand_lem_example =
    start_hand_lem (λ cs. cs) (λ cs. cs) "h" ready IsShuffle-id IsShuffle-id
      (unfold is_ready_for_hand in refl) refl (omega arith) (omega arith)
      (λ e. absurd (omega arith))

flop_repeats_hole_cards_example :
    (m' : TableManager) × (start_hand (λ cs. cs) (λ cs. cs) "h" ready ≡ ok (m', true))
    × ((advance_betting_round m').table.community_cards
        ≡ (load m'.store 1).hole_cards ++ get_or (load m'.store 2).hole_cards 0 default_card ∷ [])
unfolding new
flop_repeats_hole_cards_example =
    flop_repeats_hole_cards (λ cs. cs) (λ cs. cs) "h" ready IsShuffle-id IsShuffle-id
      (unfold is_ready_for_hand in refl) refl (omega arith) (omega arith)
      (λ e. absurd (omega arith))

abbrev bob_folded : Hand
bob_folded = record a_hand { folded = false ∷ true ∷ [] }

end_hand-last_example :
    let m = record playing { table = record playing.table { current_hand = some bob_folded } } in
    (m' : TableManager) × (end_hand m ≡ ok m')
    × (m'.table.current_hand ≡ none)
    × (m'.table.state ≡ waiting_for_players)
    × (m'.table.dealer_button_position ≡ rem (playing.table.dealer_button_position +ℤ pos 1) 2)
    × (load m'.store 2
        ≡ top_up (load (modify (λ q. record q { stack = q.stack +ℤ pos 4 }) 1 two_players) 2))
end_hand-last_example =
    end_hand-last
      (record playing { table = record playing.table { current_hand = some bob_folded } })
      bob_folded 1 2 3 refl (unfold active_players in refl) refl refl (omega arith) (omega arith)
      (inr (inl refl))

abbrev ann_only : TableManager
ann_only = record ready { table = record (new "t").table { seat_1 = 1 }; players = 1 ∷ [] }

remove_player-assign_seat_example :
    let (m', done) = assign_seat ann_only 2 (pos 1) in
    (done ≡ true)
    × (get_player m' (load two_players 2).id ≡ 2)
    × (remove_player m' (load two_players 2).id
        ≡ (record ann_only { store = seated_at (pos 1) 2 two_players }, true))
unfolding new get_player find_player load
remove_player-assign_seat_example =
    remove_player-assign_seat ann_only 2 (pos 1) (omega arith, tt) (omega arith)
      (inr (refl, refl, λ e. absurd (omega arith))) refl
