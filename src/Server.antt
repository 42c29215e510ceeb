-- ===== src/Server.antt =====
-- The server: src/server/server.hpp and src/server/server.cpp, and `main` of src/server/main.cpp as a whole. An acceptor of
-- boost is opened on a port by the argument `listen`, with its exceptions as an `err`; when it hands over a
-- connection, or an error, is up to the environment. A connection is named by a number, as in the game session.
use hump.Prelude.{
  ℕ, Bool, true, false, List, [], ◌∷◌, ◌++◌, ℤ, if◌then◌else◌, String, Result, ok, err, ◌>>=◌,
  bad_weak_ptr,
}
use hump.Session.{GameSession}
use hump.Session.Runs
use hump.Settings.{Settings, defaults, starts, exits, overflows, parse}
pub mod Starts
mod Examples

-- `accepting` says that an accept is under way, and `started` are the connections with which the server has
-- called `setGameSession` and `start`, the latest last.
pub record Server : Type 0 where
  pub port : ℤ
  pub action_timeout_ms : ℤ
  pub disconnect_grace_time_ms : ℤ
  pub removal_timeout_ms : ℤ
  pub game_session : GameSession
  pub accepting : Bool
  pub started : List ℕ

-- `shared_from_this` of an object that a `shared_ptr` owns, or that none owns yet.
abbrev pub shared_from_this : Bool → Result (Unit {0})
shared_from_this owned = if owned then ok tt else err (bad_weak_ptr "bad_weak_ptr")

-- The constructor of the game session, which the callback of its player state manager is made in.
unfoldable pub construct_session : Bool → String → Settings → Result GameSession
construct_session owned table_id s = do
  self ← shared_from_this owned
  ok (Runs.new table_id s.disconnect_grace_time_ms s.removal_timeout_ms)

-- `make_shared` owns the object when its constructor has returned.
abbrev pub make_session : String → Settings → Result GameSession
make_session table_id s = construct_session false table_id s

unfoldable pub start_accept : Server → Server
start_accept server = record server { accepting = true }

-- The members are made in the order of their declaration, and then the first accept is started.
unfoldable pub new : (ℤ → Result (Unit {0})) → String → Settings → Result Server
new listen table_id s = do
  acceptor ← listen s.port
  session ← make_session table_id s
  ok (
      start_accept (record {
        port = s.port;
        action_timeout_ms = s.action_timeout_ms;
        disconnect_grace_time_ms = s.disconnect_grace_time_ms;
        removal_timeout_ms = s.removal_timeout_ms;
        game_session = session;
        accepting = false;
        started = [];
      }))

-- The end of an accept: an error, or a connection that is started.
pub data Accepted : Type 0 where
  failed : Accepted
  connected : ℕ → Accepted

abbrev start_session : Server → Accepted → Server
start_session server failed = server
start_session server (connected session) = record server {
  started = server.started ++ session ∷ [];
}

-- The handler of an accept, which starts the next one.
unfoldable pub on_accept : Server → Accepted → Server
on_accept server accepted =
    start_accept (start_session (record server { accepting = false }) accepted)

unfoldable pub run : Server → List Accepted → Server
run server [] = server
run server (a ∷ more) = run (on_accept server a) more

-- `main` runs the server, returns the number, or has an overflow on its way.
pub data Main : Type 0 where
  serves : Server → Main
  returns : ℕ → Main
  overflow : Main

abbrev serve : Result Server → Main
serve (ok server) = serves server
serve (err e) = returns 1

unfoldable pub main : (String → Result ℤ) → (ℤ → Result (Unit {0})) → String → List String → Main
main stoi listen table_id args = elim (parse stoi defaults args) [
  | starts s ↦ serve (new listen table_id s)
  | exits n ↦ returns n
  | overflows ↦ overflow
]
