-- ===== src/Lib.antt =====
-- Verification library for hump, a heads-up no-limit hold'em server and its bot.
--
-- The server deals no-limit hold'em to two players over a websocket, and a bot plays on it. A
-- game session hands each request to the table manager, which owns the players and the current hand; a
-- hand carries its own deck, board, bets and pot. Player actions change the hand and the acting player's
-- stack, the pots are paid out at the end of a hand by the evaluation of the cards, and the
-- connection timers mark players who are gone and tell the clients.
--
-- The files:
-- Prelude: the integers over the native numbers, C++'s division and casts, lists, exceptions.
-- Card: src/core/card.cpp. Deck: src/core/deck.cpp.
-- Model: the structs of src/core/models and src/common/constants.hpp, and the store of players.
-- Pot: src/core/pot.cpp (calculateSidePots is `calculate_side_pots`, distributePot is `distribute_pot`).
-- Ranking: src/core/hand_ranking.cpp (evaluate, evaluateBestFiveCards, getComparisonKey, compare).
-- Betting: src/core/betting_rules.cpp.
-- Hand: the functions of namespace poker in src/core/hand.cpp.
-- Action: src/server/player_action.cpp (validateAction, applyAction, canAct).
-- Table: src/server/table_manager.cpp (assignSeat, removePlayer, startHand, endHand,
--   processPlayerAction, advanceBettingRound).
-- Presence: src/server/connection_manager.cpp and src/server/player_state.cpp, with the timers' handlers that
--   wait on the executor.
-- Client: src/client/random_strategy.cpp, stack_management.cpp, delay.cpp and main.cpp.
-- Socket: src/server/websocket_session.cpp, the queue of outgoing messages and the pings. The text
--   that a write takes from its dead buffer is any text.
-- Session: src/server/game_session.cpp. Session/Dispatch, Join and Act have handleMessage, handleJoin and
--   handleAction, Broadcasts the messages about a hand, Messages their JSON, Runs the calls from
--   src/server/websocket_session.cpp and from the timers.
-- Json: nlohmann::json, an argument of all that reads or writes JSON. Json/Sample is a concrete one, of trees.
-- Serialization: src/common/json_serialization.cpp.
-- Client/Bot: src/client/client.cpp, the bot's handshake and main loop over lists of texts.
-- Settings: the command line of src/server/main.cpp.
-- Server: src/server/server.cpp and the whole of src/server/main.cpp.
-- Uuid: src/common/uuid.cpp.
-- Each of them has child modules named for what they prove, and Examples with runs and the theorems at
-- concrete inputs.
--
-- State and names: a C++ function keeps its name, in snake case, and takes and gives back the state that it
-- changes. Pointers to players are indices into a store, so the aliasing of table, hand and players is
-- that of the code. An exception is an `err` result. Assertions are left out.
--
-- Numbers: an `int` is an integer without bounds, since its overflow is undefined in C++; where the code
-- casts to size_t or uint8_t the wrap-around is written out, and theorems that need it bound the amounts
-- by 2 ^ 31. The order of a shuffle, the draws of a distribution, identifiers, the clock and reads behind the
-- end of a vector are arguments.
--
-- Loops are structural, except these: the loop over the five-card choices has a fuel of 22 rounds, one more
-- than the 21 choices out of seven cards; and the digits of a draw in an identifier, with a fuel of 8, since a number of
-- 32 bits has no more hexadecimal digits.
--
-- Not modelled: the streams, resolvers and acceptors of boost (the accept and the reads in
-- src/server/websocket_session.cpp, the connecting in src/client/client.cpp) and logging, which nothing depends on:
-- they are input and output around the parts above. The game session's theorems start from a constructor that has
-- returned; that it calls `shared_from_this` is in Server only.
-- The mutexes are left out but for that of the outgoing queue: an operation is one step.
mod Prelude
pub mod Card
pub mod Deck
pub mod Model
pub mod Pot
pub mod Ranking
pub mod Betting
pub mod Hand
pub mod Action
pub mod Table
pub mod Presence
pub mod Client
pub mod Socket
pub mod Session
pub mod Json
pub mod Serialization
pub mod Settings
pub mod Server
pub mod Uuid
