-- ===== src/Server/Examples.antt =====
-- Starts of the server, and its accepts.
use hump.Prelude.{◌≡◌, refl, true, [], ◌∷◌, ℤ, String, Result, ok, pos}
use hump.Server.{
  Server, main, returns, construct_session, start_accept, failed, connected, on_accept, run,
}
use hump.Server.Starts.{main-without_server}
use hump.Session.Runs
use hump.Settings.{defaults, parse, set_option}

abbrev reads_9000 : String → Result ℤ
reads_9000 text = ok (pos 9000)

-- The settings are taken.
main-without_server_example :
    main reads_9000 (λ port. ok tt) "t" ("--port" ∷ "9000" ∷ []) ≡ returns 1
unfolding parse set_option
main-without_server_example =
    main-without_server reads_9000 (λ port. ok tt) "t" ("--port" ∷ "9000" ∷ [])

-- In a shared object the constructor would return.
owned_session : construct_session true "t" defaults ≡ ok (Runs.new "t" (pos 30000) (pos 60000))
unfolding construct_session
owned_session = refl

abbrev listening : Server
listening = record {
  port = pos 8080;
  action_timeout_ms = pos 30000;
  disconnect_grace_time_ms = pos 30000;
  removal_timeout_ms = pos 60000;
  game_session = Runs.new "t" (pos 30000) (pos 60000);
  accepting = true;
  started = [];
}

-- An error ends one accept, and the next one is started all the same.
two_accepts : run listening (failed ∷ connected 7 ∷ []) ≡ record listening { started = 7 ∷ [] }
unfolding run on_accept start_accept
two_accepts = refl
