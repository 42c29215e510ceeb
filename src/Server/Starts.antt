-- ===== src/Server/Starts.antt =====
-- The start of the server.
use hump.Prelude.{◌≡◌, refl, List, ℤ, String, Result, ok, err, Error, ◌>>=◌, bad_weak_ptr}
use hump.Server.{Main, returns, construct_session, new, main, serve, overflow}
use hump.Settings.{Settings, defaults, Parsed, starts, exits, overflows, parse}

abbrev thrown : (B : Type 0) → Error → Result B
thrown B e = err e

throws_after :
    {A B : Type 0} (first : Result A) (e : Error)
    → (e' : Error) × ((first >>= λ a. thrown B e) ≡ err e')
throws_after (ok a) e = (e, refl)
throws_after (err e') e = (e', refl)

-- The exception of the acceptor, or that of the game session.
new_throws :
    (listen : ℤ → Result (Unit {0})) (table_id : String) (s : Settings)
    → (e : Error) × (new listen table_id s ≡ err e)
unfolding new construct_session
new_throws listen table_id s = throws_after (listen s.port) (bad_weak_ptr "bad_weak_ptr")

-- What is left of a command line.
abbrev pub without_server : Parsed → Main
without_server (starts s) = returns 1
without_server (exits n) = returns n
without_server overflows = overflow

serve-new :
    (listen : ℤ → Result (Unit {0})) (table_id : String) (p : Parsed)
    → elim p [
      | starts s ↦ serve (new listen table_id s)
      | exits n ↦ returns n
      | overflows ↦ overflow
    ]
      ≡ without_server p
serve-new listen table_id (starts s) =
    let (e, thrown) = new_throws listen table_id s in rw thrown refl
serve-new listen table_id (exits n) = refl
serve-new listen table_id overflows = refl

-- The bug: the server never runs. Whether the port can be opened or not, `main` returns 1 for a command line whose
-- settings are taken, since the game session's constructor throws; for any other it ends as the parsing says.
pub main-without_server :
    (stoi : String → Result ℤ) (listen : ℤ → Result (Unit {0})) (table_id : String)
    (args : List String)
    → main stoi listen table_id args ≡ without_server (parse stoi defaults args)
unfolding main
main-without_server stoi listen table_id args = serve-new listen table_id (parse stoi defaults args)
