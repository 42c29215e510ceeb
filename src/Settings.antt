-- ===== src/Settings.antt =====
-- The command line of the server: `main` of src/server/main.cpp, up to the start of the server. `argv[1]` and what follows it
-- are a list of texts; `std::stoi` is an argument, with its exceptions as an `err`.
use hump.Prelude.{
  ℕ, suc, ◌*◌, ◌≡◌, Bool, true, false, ◌||◌, List, [], ◌∷◌, ℤ, pos, negsuc, neg, ltb_ℤ, ◌≤ℤ◌,
  if◌then◌else◌, String, str_eq, Result, ok, err,
}
pub mod Bounds
mod Examples

-- The four variables, by their names.
pub record Settings : Type 0 where
  pub port : ℤ
  pub action_timeout_ms : ℤ
  pub disconnect_grace_time_ms : ℤ
  pub removal_timeout_ms : ℤ

abbrev pub defaults : Settings
defaults = record {
  port = pos 8080;
  action_timeout_ms = pos 30000;
  disconnect_grace_time_ms = pos 30000;
  removal_timeout_ms = pos 60000;
}

abbrev pub min_action_timeout_ms : ℤ
min_action_timeout_ms = pos 1000

abbrev pub max_action_timeout_ms : ℤ
max_action_timeout_ms = pos 300000

-- The server is started, `main` returns the number, or the multiplication by 1000 overflows an `int`, whose
-- behaviour is undefined.
pub data Parsed : Type 0 where
  starts : Settings → Parsed
  exits : ℕ → Parsed
  overflows : Parsed

-- What `stoi` throws ends in `return 1`.
abbrev pub valued : Result ℤ → (ℤ → Parsed) → Parsed
valued (ok n) rest = rest n
valued (err e) rest = exits 1

abbrev pub min_int : ℤ
min_int = negsuc 2147483647

abbrev pub max_int : ℤ
max_int = pos 2147483647

abbrev pub times_1000 : ℤ → ℤ
times_1000 (pos n) = pos (n * 1000)
times_1000 (negsuc n) = neg (suc n * 1000)

abbrev pub not_port : ℤ → Bool
not_port n = ltb_ℤ n (pos 1) || ltb_ℤ (pos 65535) n

abbrev pub not_int : ℤ → Bool
not_int n = ltb_ℤ n min_int || ltb_ℤ max_int n

abbrev pub not_action_timeout : ℤ → Bool
not_action_timeout n = ltb_ℤ n min_action_timeout_ms || ltb_ℤ max_action_timeout_ms n

-- An option with its value.
unfoldable pub set_option : Settings → String → Result ℤ → Parsed
set_option s arg value =
    if str_eq arg "--port"
    then valued value (λ n. if not_port n then exits 1 else starts (record s { port = n }))
    else if str_eq arg "--ample-time"
    then valued value (λ n.
      if not_int (times_1000 n)
      then overflows
      else starts (record s { disconnect_grace_time_ms = times_1000 n }))
    else if str_eq arg "--disconnect-grace-time"
    then valued value (λ n. starts (record s { disconnect_grace_time_ms = n }))
    else if str_eq arg "--action-timeout"
    then valued value
        (λ n. if not_action_timeout n then exits 1 else starts (record s { action_timeout_ms = n }))
    else if str_eq arg "--removal-timeout"
    then valued value
        (λ n. if ltb_ℤ n (pos 1000) then exits 1 else starts (record s { removal_timeout_ms = n }))
    else if str_eq arg "--help"
    then exits 0
    else exits 1

-- The loop over the arguments; an option in the last place has no value and is not one.
unfoldable pub parse : (String → Result ℤ) → Settings → List String → Parsed
parse stoi s [] = starts s
parse stoi s (arg ∷ []) = if str_eq arg "--help" then exits 0 else exits 1
parse stoi s (arg ∷ value ∷ rest) = elim (set_option s arg (stoi value)) [
  | starts s' ↦ parse stoi s' rest
  | exits n ↦ exits n
  | overflows ↦ overflows
]
