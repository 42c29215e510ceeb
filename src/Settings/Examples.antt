-- ===== src/Settings/Examples.antt =====
-- A command line.
use hump.Prelude.{
  refl, [], ◌∷◌, arith, ℤ, pos, String, str_eq, Result, ok, err, invalid_argument, if◌then◌else◌,
  Bool-cases, inl, inr,
}
use hump.Settings.{defaults, set_option, parse}
use hump.Settings.Bounds.{IsStoi, InRange, parse-InRange}

-- A function for one number.
abbrev reads_9000 : String → Result ℤ
reads_9000 text = if str_eq text "9000" then ok (pos 9000) else err (invalid_argument "stoi")

reads_9000-IsStoi : IsStoi reads_9000
reads_9000-IsStoi text n e = elim (Bool-cases (str_eq text "9000")) [
  | inl t ↦ let e' = rw t at e in ground (arith, e')
  | inr t ↦ let e' = rw t at e in absurd cc
]

parse-InRange_example :
    InRange (record (record defaults { port = pos 9000 }) { action_timeout_ms = pos 9000 })
unfolding parse set_option
parse-InRange_example =
    parse-InRange reads_9000 ("--port" ∷ "9000" ∷ "--action-timeout" ∷ "9000" ∷ [])
      (record (record defaults { port = pos 9000 }) { action_timeout_ms = pos 9000 })
      reads_9000-IsStoi refl
