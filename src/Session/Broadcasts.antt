-- ===== src/Session/Broadcasts.antt =====
-- The messages made from the state of a hand: `broadcastHandStarted`, `sendActionRequest`,
-- `broadcastActionApplied`, `broadcastHandCompleted`, `broadcastPlayerRemoved` and `broadcastPlayerReconnected`
-- of src/server/game_session.cpp. A division by `size()` is one of positive numbers.
use hump.Prelude.{
  ℕ, suc, not, ◌&&◌, List, [], ◌∷◌, Option, none, some, ℤ, pos, ◌+ℤ◌, ◌-ℤ◌, ltb_ℤ, ltb, ◌==◌,
  length, quot, rem, to_size, if◌then◌else◌, String, str_eq, Result, ok,
}
use hump.Model.{Ptr, null, Store, load, Hand, SidePot}
use hump.Hand.{determine_winners}
use hump.Pot.{is_empty}
use hump.Table.{get_player}
use hump.Session.{
  GameSession, StartedPlayer, Reply, hand_started, action_request, action_applied, hand_completed,
  player_removed, player_reconnected, Handled, returned, with_value, manager, put, session_of,
  send_json, broadcast_json,
}

-- The id of the player to act, or the empty text.
abbrev pub id_or_empty : Store → Ptr → String
id_or_empty st p = if p == null then "" else (load st p).id

-- The loop over the players of the hand.
unfoldable pub started_players : Store → List Ptr → List StartedPlayer
started_players st [] = []
started_players st (p ∷ ps) =
    let rest = started_players st ps in
    let q = load st p in
    if p == null
    then rest
    else record { player_id = q.id; stack = q.stack; hole_cards = q.hole_cards } ∷ rest

unfoldable pub started_with : GameSession → Option Hand → GameSession
started_with g none = g
started_with g (some hand) = broadcast_json g (
    hand_started (record {
      hand_id = hand.id;
      players = started_players (manager g).store hand.players;
      dealer_position = (manager g).table.dealer_button_position;
      current_player_to_act = id_or_empty (manager g).store hand.current_player_to_act;
      min_raise = hand.min_raise;
    }))

unfoldable pub broadcast_hand_started : GameSession → GameSession
broadcast_hand_started g = started_with g (manager g).table.current_hand

-- The loop for the highest bet and the player's own, which the last match sets.
unfoldable pub bets_loop : Store → String → List Ptr → List ℤ → ℤ → ℤ → ℤ × ℤ
bets_loop st player_id [] bets max_bet player_bet = (max_bet, player_bet)
bets_loop st player_id (p ∷ ps) [] max_bet player_bet = (max_bet, player_bet)
bets_loop st player_id (p ∷ ps) (b ∷ bs) max_bet player_bet =
    bets_loop st player_id ps bs (if ltb_ℤ max_bet b then b else max_bet)
      (if not (p == null) && str_eq (load st p).id player_id then b else player_bet)

unfoldable pub call_amount : Store → Hand → String → ℤ
call_amount st hand player_id =
    let (max_bet, player_bet) =
      bets_loop st player_id hand.players hand.player_bets (pos 0) (pos 0) in
    max_bet -ℤ player_bet

-- The message goes to the player's session, if there is one.
abbrev pub send_to : GameSession → Option ℕ → Reply → GameSession
send_to g none reply = g
send_to g (some session) reply = send_json g session reply

unfoldable pub request_with : GameSession → String → Option Hand → GameSession
request_with g player_id none = g
request_with g player_id (some hand) =
    let p = get_player (manager g) player_id in
    let st = (manager g).store in
    if p == null
    then g
    else send_to g (session_of g player_id) (
        action_request (record {
          hand_id = hand.id;
          call_amount = call_amount st hand player_id;
          min_raise = hand.min_raise;
          max_raise = (load st p).stack;
        }))

unfoldable pub send_action_request : GameSession → String → GameSession
send_action_request g player_id = request_with g player_id (manager g).table.current_hand

unfoldable pub applied_with : GameSession → String → String → ℤ → Option Hand → GameSession
applied_with g player_id action amount none = g
applied_with g player_id action amount (some hand) =
    let p = get_player (manager g) player_id in
    let st = (manager g).store in
    if p == null
    then g
    else broadcast_json g (
        action_applied (record {
          hand_id = hand.id;
          player_id = player_id;
          action = action;
          amount = amount;
          new_stack = (load st p).stack;
          pot = hand.pot;
          next_player_to_act = id_or_empty st hand.current_player_to_act;
        }))

unfoldable pub broadcast_action_applied : GameSession → String → String → ℤ → GameSession
broadcast_action_applied g player_id action amount =
    applied_with g player_id action amount (manager g).table.current_hand

-- The main pot and the side pots, summed.
unfoldable pub total_pot : ℤ → List SidePot → ℤ
total_pot pot [] = pot
total_pot pot (s ∷ ss) = total_pot (pot +ℤ s.amount) ss

-- The winners' entries, from the i-th on.
unfoldable pub winner_entries : Store → List Ptr → ℤ → ℤ → ℕ → List (String × ℤ)
winner_entries st [] share remainder i = []
winner_entries st (w ∷ ws) share remainder i =
    let rest = winner_entries st ws share remainder (suc i) in
    let amount = share +ℤ (if ltb i (to_size remainder) then pos 1 else pos 0) in
    if w == null then rest else ((load st w).id, amount) ∷ rest

unfoldable pub won : Store → List Ptr → ℤ → List (String × ℤ)
won st ws total =
    let n = length ws in
    let remainder = rem total n in
    let share = quot (total -ℤ remainder) n in
    if not (is_empty ws) && ltb_ℤ (pos 0) total then winner_entries st ws share remainder 0 else []

-- `updated_stacks[player->id] = player->stack`, for each player.
unfoldable pub stacks_loop : Store → List Ptr → List (String × ℤ) → List (String × ℤ)
stacks_loop st [] stacks = stacks
stacks_loop st (p ∷ ps) stacks =
    let q = load st p in
    stacks_loop st ps (if p == null then stacks else put str_eq stacks q.id q.stack)

-- The winners that the hand has, or those that are determined now.
abbrev pub winners_of : Store → Hand → Result (List Ptr)
winners_of st hand = if is_empty hand.winners then determine_winners st hand else ok hand.winners

unfoldable pub completed_reply : Store → Hand → List Ptr → Reply
completed_reply st hand ws = hand_completed (record {
  hand_id = hand.id;
  winners = won st ws (total_pot hand.pot hand.side_pots);
  updated_stacks = stacks_loop st hand.players [];
})

unfoldable pub completed_with : GameSession → Option Hand → Handled
completed_with g none = returned g
completed_with g (some hand) =
    let st = (manager g).store in
    with_value g (winners_of st hand) λ ws. returned (broadcast_json g (completed_reply st hand ws))

unfoldable pub broadcast_hand_completed : GameSession → Handled
broadcast_hand_completed g = completed_with g (manager g).table.current_hand

unfoldable pub broadcast_player_removed : GameSession → String → GameSession
broadcast_player_removed g player_id =
    let p = get_player (manager g) player_id in
    if p == null
    then g
    else broadcast_json g (player_removed player_id (load (manager g).store p).seat)

unfoldable pub broadcast_player_reconnected : GameSession → String → GameSession
broadcast_player_reconnected g player_id = broadcast_json g (player_reconnected player_id)
