-- ===== src/Client.antt =====
-- The bot: src/client/stack_management.hpp and stack_management.cpp, src/client/random_strategy.hpp and
-- random_strategy.cpp, the delay of src/client/delay.cpp and the command line of src/client/main.cpp. A uniform
-- distribution is an argument: a function that picks a number between its two bounds.
use Prim.Native.String.{◌++◌ as str_append}
use hump.Prelude.{
  ℕ, ◌*◌, Bool, true, false, List, [], ◌∷◌, ℤ, pos, ◌-ℤ◌, ltb_ℤ, leb_ℤ, length, get_or,
  if◌then◌else◌, Option, none, some, String, str_eq, Result, ok, err, ◌>>=◌, invalid_argument,
  runtime_error,
}
use hump.Pot.{is_empty}
pub mod Strategy
pub mod Bot
pub mod Exchange
pub mod Conversation
pub mod Silence
pub mod Stall
pub mod Stale
mod Examples

abbrev pub big_blind : ℕ
big_blind = 4

abbrev pub top_up_threshold_bb : ℕ
top_up_threshold_bb = 5

abbrev pub target_stack_bb : ℕ
target_stack_bb = 100

unfoldable pub should_top_up : ℤ → Bool
should_top_up current_stack = ltb_ℤ current_stack (pos (top_up_threshold_bb * big_blind))

unfoldable pub top_up_amount : ℤ → ℤ
top_up_amount current_stack =
    if leb_ℤ (pos (target_stack_bb * big_blind)) current_stack
    then pos 0
    else pos (target_stack_bb * big_blind) -ℤ current_stack

unfoldable pub top_up : ℤ → ℤ
top_up current_stack =
    if ltb_ℤ current_stack (pos (target_stack_bb * big_blind))
    then pos (target_stack_bb * big_blind)
    else current_stack

-- What the code relies on in `std::uniform_int_distribution`.
pub record Uniform : Type 0 where
  pub pick_index : ℕ → ℕ
  pub pick_raise : ℤ → ℤ → ℤ

-- `pick_index n` is drawn from 0 to n - 1, and `pick_raise` from the first bound to the second.
unfoldable pub choose_amount : Uniform → String → ℤ → ℤ → ℤ → Result ℤ
choose_amount u action call_amount min_raise max_raise =
    if str_eq action "raise"
    then (if ltb_ℤ max_raise min_raise
        then err (invalid_argument "min_raise cannot exceed max_raise")
        else ok (u.pick_raise min_raise max_raise))
    else if str_eq action "call"
    then ok call_amount
    else if str_eq action "fold"
    then ok (pos 0)
    else err (runtime_error (str_append "unknown action: " action))

unfoldable pub choose_action : Uniform → List String → ℤ → ℤ → ℤ → Result (String × ℤ)
choose_action u possible_actions call_amount min_raise max_raise =
    let action = get_or possible_actions (u.pick_index (length possible_actions)) "" in
    if is_empty possible_actions
    then err (invalid_argument "possible_actions must not be empty")
    else (do amount ← choose_amount u action call_amount min_raise max_raise; ok (action, amount))

-- The milliseconds that `random_delay` sleeps; bounds in the wrong order are swapped.
unfoldable pub random_delay : Uniform → ℤ → ℤ → ℤ
random_delay u min_ms max_ms =
    if ltb_ℤ max_ms min_ms then u.pick_raise max_ms min_ms else u.pick_raise min_ms max_ms

-- The bot's command line, without the program's name: the host, the port and the name, or nothing where `main`
-- returns 1.
unfoldable pub arguments : List String → Option (String × String × String)
arguments [] = none
arguments (host ∷ []) = none
arguments (host ∷ port ∷ []) = some (host, port, "Bot")
arguments (host ∷ port ∷ name ∷ rest) = some (host, port, name)
