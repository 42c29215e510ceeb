-- ===== src/Session/Examples.antt =====
-- Runs of the game session, and the theorems at inputs.
use hump.Prelude.{
  inl, ℕ, ℤ, String, map, List, ◌≡◌, true, false, refl, [], ◌∷◌, ◌++◌, arith, none, some, pos, ◌+ℤ◌,
}
use hump.Json.Sample.{Tree, string, number, trees}
use hump.Model.{connected, Hand, Store, load, top_up, hand_in_progress}
use hump.Model.Samples.{a_player, a_hand}
use hump.Table
use hump.Table.{get_player, find_player, close_hand}
use hump.Hand.{determine_winners, active_players}
use hump.Session.Act.{complete_hand}
use hump.Session.Broadcasts.{stacks_loop}
use hump.Session.Shares.{amounts, sum, award_each}
use hump.Session.Winnings.{complete_hand_lem}
use hump.Table.Play.{table_chips}
use hump.Session.{
  GameSession, Env, Reply, hand_completed, with_manager, broadcast_json, join_ack, returned,
  manager, find, top_up_ack, session_of, player_of, register_session, on_disconnect, handle_top_up,
}
use hump.Session.Answered.{IsSound, Answered}
use hump.Session.Act.{handle_action}
use hump.Session.Dispatch.{caught, handle_message}
use hump.Presence.{find_timers, cancel_timers}
use hump.Presence.Quiet.{IsQuiet}
use hump.Presence.Timed.{IsTimed}
use hump.Session.Join.{join}
use hump.Session.Return.{rejoin-on_disconnect}
use hump.Session.Refused.{IsActed, handle_action-IsActed}
use hump.Session.Reached.{Reachable-new}
use hump.Session.Runs.{new, received, on_accept, on_read, accepts, reads, here, after}
use hump.Session.Service.{handle_message-Answered}
use hump.Table.Ownership.{Owns}
use hump.Session.Maps.{IsInverse, on_disconnect-IsInverse, register_session-IsInverse}
use hump.Session.TopUp.{handle_top_up_lem}

-- Ann has 12 chips left, and a hand is played.
abbrev ann_is_low : Store
ann_is_low = a_player "ann" (pos 12) (pos 0) [] ∷ a_player "bob" (pos 396) (pos 1) [] ∷ []

abbrev opened : GameSession
opened = record {
  players = record {
    table_manager = record {
      table = record (Table.new "t").table {
        seat_1 = 1;
        seat_2 = 2;
        current_hand = some a_hand;
        state = hand_in_progress;
      };
      players = 1 ∷ 2 ∷ [];
      store = ann_is_low;
    };
    timers = [];
    grace_time_ms = pos 30000;
    removal_time_ms = pos 60000;
    removed_messages = [];
    queued = [];
  };
  player_sessions = [];
  session_to_player = [];
  disconnect_grace_time_ms = pos 30000;
  outbox = [];
}

opened-IsInverse : IsInverse opened
unfolding find
opened-IsInverse = record { there = λ id s e. cc; back = λ s id e. cc }

registered-IsInverse :
    let g = register_session opened "ann" 7 in
    IsInverse g × (player_of g 7 ≡ some "ann") × (session_of g "ann" ≡ some 7)
unfolding find
registered-IsInverse = register_session-IsInverse opened "ann" 7 opened-IsInverse refl refl

on_disconnect-IsInverse_example :
    let g = on_disconnect 5 (register_session opened "ann" 7) 7 in
    IsInverse g × (player_of g 7 ≡ none)
on_disconnect-IsInverse_example =
    on_disconnect-IsInverse 5 (register_session opened "ann" 7) 7 refl registered-IsInverse.0

handle_top_up_lem_example :
    let g = register_session opened "ann" 7 in
    let g' = handle_top_up g 7 in
    (g'.outbox ≡ [] ++ (7, top_up_ack "ann" (top_up (load ann_is_low 1)).stack) ∷ [])
    × (load g'.players.table_manager.store 1 ≡ top_up (load ann_is_low 1))
    × (table_chips g'.players.table_manager +ℤ (load ann_is_low 1).stack
        ≡ table_chips g.players.table_manager +ℤ (top_up (load ann_is_low 1)).stack)
unfolding register_session get_player find_player load
handle_top_up_lem_example =
    handle_top_up_lem (register_session opened "ann" 7) 7 "ann" 1 refl registered-IsInverse.1 refl
      (omega arith)

abbrev an_env : Env
an_env = record {
  now = 5;
  wild = λ i. true;
  first_order = λ cards. cards;
  second_order = λ cards. cards;
  hand_id = "next";
  player_id = "cyd";
}

with_ann-IsSound : IsSound (register_session opened "ann" 7)
unfolding register_session find_timers
with_ann-IsSound = record {
  inverse = registered-IsInverse.0;
  owned = (omega arith, (omega arith, tt));
  timed = tt;
  quiet = λ k. inl refl;
}

-- Ann calls.
abbrev a_call_payload : Tree
a_call_payload =
    trees.object
      (("hand_id", string "h") ∷ ("action", string "call") ∷ ("amount", number (pos 4)) ∷ [])

abbrev a_call : Tree
a_call = trees.object (("type", string "action") ∷ ("payload", a_call_payload) ∷ [])

handle_message-Answered_example :
    let g = register_session opened "ann" 7 in
    Answered 7 g.outbox (handle_message trees an_env g a_call 7)
handle_message-Answered_example =
    handle_message-Answered trees an_env (register_session opened "ann" 7) a_call 7 refl
      with_ann-IsSound

-- A connection is accepted, and its bot asks to join.
abbrev a_join : Tree
a_join =
    trees.object
      (("type", string "join") ∷ ("payload", trees.object (("name", string "Cyd") ∷ [])) ∷ [])

Reachable-new_example :
    let start = new "t" (pos 30000) (pos 60000) in
    let g = on_read trees an_env (on_accept an_env false start 7) (received a_join) 7 in
    IsInverse g × Owns (manager g) × IsTimed g.players × IsQuiet g.players
unfolding find
Reachable-new_example =
    let start = new "t" (pos 30000) (pos 60000) in
    Reachable-new trees "t" (pos 30000) (pos 60000)
      (on_read trees an_env (on_accept an_env false start 7) (received a_join) 7)
      (after (after here (accepts an_env false 7 refl refl refl))
        (reads an_env (received a_join) 7 refl))

handle_action-IsActed_example :
    let g = register_session opened "ann" 7 in
    IsActed trees an_env g a_call_payload 7
      (caught 7 (handle_action trees an_env g a_call_payload 7))
handle_action-IsActed_example =
    handle_action-IsActed trees an_env (register_session opened "ann" 7) a_call_payload 7 refl
      with_ann-IsSound.owned

rejoin-on_disconnect_example :
    let g = register_session opened "ann" 7 in
    (h : GameSession) × (join an_env (on_disconnect 5 g 7) 9 "Ann" "ann" ≡ returned h)
    × (player_of h 9 ≡ some "ann")
    × (session_of h "ann" ≡ some 9)
    × ((manager h).table ≡ (manager g).table)
    × ((manager h).players ≡ (manager g).players)
    × (h.players.timers ≡ cancel_timers g.players.timers "ann")
    × (load (manager h).store 1 ≡ record (load (manager g).store 1) {
      connection_status = connected;
      disconnected_at = none;
      is_sitting_out = false;
    })
    × (sent : List (ℕ × Reply)) × (h.outbox
        ≡ sent ++ (9, join_ack "ann" (load (manager g).store 1).seat) ∷ [])
unfolding register_session get_player find_player load find_timers
rejoin-on_disconnect_example =
    rejoin-on_disconnect an_env 5 (register_session opened "ann" 7) 7 9 "ann" "Ann" refl refl refl
      registered-IsInverse.0 with_ann-IsSound.owned registered-IsInverse.1 refl

-- Ann has folded, and Bob gets the pot of 4 chips.
abbrev ann_has_folded : Hand
ann_has_folded = record a_hand { folded = true ∷ false ∷ [] }

abbrev with_folded : GameSession
with_folded = with_manager opened (record (manager opened) {
  table = record (manager opened).table { current_hand = some ann_has_folded };
})

complete_hand_lem_example :
    (entries : List (String × ℤ)) × (map (λ e. e.0) entries
      ≡ map (λ p. (load ann_is_low p).id) (2 ∷ []))
    × (sum (amounts entries) ≡ pos 4)
    × (complete_hand with_folded
        ≡ returned (
            with_manager
              (broadcast_json with_folded (
                hand_completed (record {
                  hand_id = "h";
                  winners = entries;
                  updated_stacks = stacks_loop ann_is_low (1 ∷ 2 ∷ []) [];
                })))
              (close_hand
                (manager with_folded)
                (award_each ann_is_low (2 ∷ []) (amounts entries)))))
unfolding determine_winners active_players
complete_hand_lem_example =
    complete_hand_lem with_folded ann_has_folded 2 [] 3 refl refl refl refl refl (omega arith)
      (omega arith, tt)
