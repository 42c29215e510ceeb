-- ===== src/Client/Examples.antt =====
-- Runs of the bot, and the theorems at inputs.
use hump.Prelude.{false, some, inl, inr, ℤ, String, ◌∷◌, ◌++◌, ◌≡◌, refl, true, [], arith, pos, ok}
use hump.Model.{load, Hand}
use hump.Model.Samples.{a_player, two_players, a_hand}
use hump.Action.{can_act, in_hand, index_of, get_min_raise, get_max_raise}
use hump.Client.{Uniform, choose_amount, choose_action}
use hump.Client.Bot.{Client, goes_on, breaks, on_message, main_loop}
use hump.Client.Conversation.{on_message-action_request, on_message-hand_completed}
use hump.Client.Exchange.{possible, IsPossible}
use hump.Client.Stall.{IsSilent, texts_for, join-stalls}
use hump.Json.{entry}
use hump.Json.Sample.{Tree, trees}
use hump.Session.{
  GameSession, Env, returned, send_json, find, ActionRequest, HandCompleted, action_request,
  hand_completed, state, handle_top_up,
}
use hump.Client.Stale.{no_hand, after_action-stale}
use hump.Hand.{active_players, is_hand_complete, active_from, folded_at}
use hump.Session.Outbox.{Extends}
use hump.Session.Told.{request}
use hump.Session.Act.{act, after_action}
use hump.Session.Dispatch.{caught, handle_message}
use hump.Session.Join.{join}
use hump.Session.Messages.{reply_to_json}
use hump.Session.Runs.{new}
use hump.Table
use hump.Table.{get_player, find_player}
use hump.Client.Strategy.{IsUniform}

-- A distribution that always draws its lowest number.
abbrev lowest : Uniform
lowest = record { pick_index = λ n. 0; pick_raise = λ a b. a }

lowest-IsUniform : IsUniform lowest
lowest-IsUniform = record { in_list = λ n. omega arith; in_range = λ a b h. (omega arith, h) }

ann_can_act : can_act two_players a_hand 1 ≡ true
unfolding can_act in_hand index_of load
ann_can_act = refl

raise_chosen :
    choose_amount lowest "raise" (pos 4) (get_min_raise a_hand) (get_max_raise two_players a_hand 1)
    ≡ ok (pos 4)
unfolding choose_amount get_min_raise get_max_raise load
raise_chosen = refl

abbrev ann : Client
ann = record { name = "Ann"; player_id = "ann"; stack = pos 400 }

abbrev fresh : GameSession
fresh = new "t" (pos 30000) (pos 60000)

abbrev an_env : Env
an_env = record {
  now = 5;
  wild = λ i. true;
  first_order = λ cards. cards;
  second_order = λ cards. cards;
  hand_id = "next";
  player_id = "cyd";
}

abbrev a_request : ActionRequest
a_request = record { hand_id = "h"; call_amount = pos 4; min_raise = pos 4; max_raise = pos 400 }

on_message-action_request_example :
    (action : String) × (amount : ℤ) × (answer : Tree) × (choose_action lowest possible
        (pos 4)
        (pos 4)
        (pos 400)
      ≡ ok (action, amount))
    × IsPossible action
    × (on_message trees lowest ann (reply_to_json trees (action_request a_request))
        ≡ goes_on ann (answer ∷ []))
    × (handle_message trees an_env fresh answer 7 ≡ caught 7 (act an_env fresh 7 "h" action amount))
on_message-action_request_example =
    on_message-action_request trees lowest ann a_request an_env fresh 7 lowest-IsUniform
      (omega arith) refl

abbrev a_completion : HandCompleted
a_completion = record {
  hand_id = "h";
  winners = ("bob", pos 8) ∷ [];
  updated_stacks = ("bob", pos 788) ∷ ("ann", pos 12) ∷ [];
}

on_message-hand_completed_example :
    (request : Tree) × (on_message trees lowest ann
        (reply_to_json trees (hand_completed a_completion))
      ≡ goes_on (record ann { stack = pos 12 }) (request ∷ []))
    × (handle_message trees an_env fresh request 7 ≡ handle_top_up fresh 7)
unfolding entry
on_message-hand_completed_example =
    on_message-hand_completed trees lowest ann a_completion (pos 12) an_env fresh 7 refl refl

-- Ann is seated, and Bob's connection is registered.
abbrev ann_waits : GameSession
ann_waits = record {
  players = record {
    table_manager = record {
      table = record (Table.new "t").table { seat_1 = 1 };
      players = 1 ∷ [];
      store = a_player "ann" (pos 400) (pos 0) [] ∷ [];
    };
    timers = [];
    grace_time_ms = pos 30000;
    removal_time_ms = pos 60000;
    removed_messages = [];
    queued = [];
  };
  player_sessions = ("bob", 8) ∷ ("ann", 7) ∷ [];
  session_to_player = (8, "bob") ∷ (7, "ann") ∷ [];
  disconnect_grace_time_ms = pos 30000;
  outbox = [];
}

join-stalls_example :
    let g' = state (join an_env ann_waits 8 "Bob" "") in
    IsSilent g'.outbox × (main_loop trees (λ n. lowest) 0 ann (texts_for trees 7 g'.outbox) ≡ [])
join-stalls_example = join-stalls trees an_env ann_waits 8 "Bob" "" (λ n. lowest) 0 ann 7 tt

-- Ann has folded, and Bob is next.
abbrev ann_folded : Hand
ann_folded = record a_hand { folded = true ∷ false ∷ []; current_player_to_act = 2 }

abbrev bob_is_left : GameSession
bob_is_left = record ann_waits {
  players = record ann_waits.players {
    table_manager = record ann_waits.players.table_manager {
      table = record (Table.new "t").table {
        seat_1 = 1;
        seat_2 = 2;
        current_hand = some ann_folded;
      };
      players = 1 ∷ 2 ∷ [];
      store = two_players;
    };
  };
}

after_action-stale_example :
    (h : GameSession) × (after_action an_env bob_is_left (some ann_folded) ≡ returned h)
    × Extends ([] ++ (8, request bob_is_left ann_folded "bob") ∷ []) h.outbox
    × (act an_env h 8 "h" "call" (pos 0) ≡ returned (send_json h 8 no_hand))
    × (on_message trees lowest ann (reply_to_json trees no_hand) ≡ breaks ann)
unfolding active_players is_hand_complete active_from folded_at find get_player find_player load
after_action-stale_example =
    after_action-stale trees lowest ann an_env bob_is_left ann_folded 2 8 8 "bob" "call" (pos 0)
      refl refl refl refl refl refl refl refl refl (inr (inl refl)) (omega arith) (omega arith)
