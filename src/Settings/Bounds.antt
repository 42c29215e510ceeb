-- ===== src/Settings/Bounds.antt =====
-- The settings with which the server starts.
use hump.Prelude.{
  ◌≡◌, refl, subst, Bool, true, false, List, [], ◌∷◌, arith, ℤ, pos, ltb_ℤ, ◌≤ℤ◌, if◌then◌else◌,
  String, str_eq, Result, ok, err, Bool-cases, inl, inr,
}
use hump.Settings.{
  Settings, defaults, min_action_timeout_ms, max_action_timeout_ms, Parsed, starts, exits,
  overflows, valued, min_int, max_int, times_1000, not_port, not_int, not_action_timeout,
  set_option, parse,
}

-- `std::stoi` returns an `int`.
abbrev pub IsStoi : (String → Result ℤ) → Type 0
IsStoi stoi = (text : String) (n : ℤ) → stoi text ≡ ok n → (min_int ≤ℤ n) × (n ≤ℤ max_int)

pub record InRange (s : Settings) : Type 0 where
  pub port : (pos 1 ≤ℤ s.port) × (s.port ≤ℤ pos 65535)
  pub action :
      (min_action_timeout_ms ≤ℤ s.action_timeout_ms)
      × (s.action_timeout_ms ≤ℤ max_action_timeout_ms)
  pub grace : (min_int ≤ℤ s.disconnect_grace_time_ms) × (s.disconnect_grace_time_ms ≤ℤ max_int)
  pub removal : (pos 1000 ≤ℤ s.removal_timeout_ms) × (s.removal_timeout_ms ≤ℤ max_int)

-- Where the server starts, its settings are in range.
abbrev Starts : Parsed → Type 0
Starts (starts s) = InRange s
Starts (exits n) = Unit
Starts overflows = Unit

abbrev IsInt : ℤ → Type 0
IsInt n = (min_int ≤ℤ n) × (n ≤ℤ max_int)

valued-Starts :
    (v : Result ℤ) (rest : ℤ → Parsed)
    → ((n : ℤ) → v ≡ ok n → IsInt n)
    → ((n : ℤ) → IsInt n → Starts (rest n))
    → Starts (valued v rest)
valued-Starts (ok n) rest h k = k n (h n refl)
valued-Starts (err e) rest h k = tt

guard-Starts :
    (b : Bool) (failed : Parsed) (s : Settings)
    → Starts failed
    → (b ≡ false → InRange s)
    → Starts (if b then failed else starts s)
guard-Starts true failed s f h = f
guard-Starts false failed s f h = h refl

module _ (s : Settings) (i : InRange s) where
  port-Starts : (n : ℤ) → Starts (if not_port n then exits 1 else starts (record s { port = n }))
  port-Starts n =
      guard-Starts (not_port n) (exits 1) (record s { port = n }) tt
        λ h. record {
          port = ground (arith, h);
          action = i.action;
          grace = i.grace;
          removal = i.removal;
        }

  grace-InRange : (n : ℤ) → IsInt n → InRange (record s { disconnect_grace_time_ms = n })
  grace-InRange n h = record { port = i.port; action = i.action; grace = h; removal = i.removal }

  ample-Starts :
      (n : ℤ)
      → Starts (if not_int n then overflows else starts (record s { disconnect_grace_time_ms = n }))
  ample-Starts n =
      guard-Starts (not_int n) overflows (record s { disconnect_grace_time_ms = n }) tt
        λ h. grace-InRange n (ground (arith, h))

  action-Starts :
      (n : ℤ)
      → Starts
          (if not_action_timeout n then exits 1 else starts (record s { action_timeout_ms = n }))
  action-Starts n =
      guard-Starts (not_action_timeout n) (exits 1) (record s { action_timeout_ms = n }) tt
        λ h. record {
          port = i.port;
          action = ground (arith, h);
          grace = i.grace;
          removal = i.removal;
        }

  removal-Starts :
      (n : ℤ)
      → IsInt n
      → Starts
          (if ltb_ℤ n (pos 1000) then exits 1 else starts (record s { removal_timeout_ms = n }))
  removal-Starts n k =
      guard-Starts (ltb_ℤ n (pos 1000)) (exits 1) (record s { removal_timeout_ms = n }) tt
        λ h. record {
          port = i.port;
          action = i.action;
          grace = i.grace;
          removal = (ground (arith, h), k.1);
        }

  -- One option keeps the settings in range.
  set_option-Starts :
      (arg : String) (v : Result ℤ) → ((n : ℤ) → v ≡ ok n → IsInt n) → Starts (set_option s arg v)
  unfolding set_option
  set_option-Starts arg v h = elim (Bool-cases (str_eq arg "--port")) [
    | inl e ↦ rw e (valued-Starts v _ h λ n k. port-Starts n)
    | inr a ↦ elim (Bool-cases (str_eq arg "--ample-time")) [
      | inl e ↦ rw (a, e) (valued-Starts v _ h λ n k. ample-Starts (times_1000 n))
      | inr b ↦ elim (Bool-cases (str_eq arg "--disconnect-grace-time")) [
        | inl e ↦ rw (a, b, e) (valued-Starts v _ h grace-InRange)
        | inr c ↦ elim (Bool-cases (str_eq arg "--action-timeout")) [
          | inl e ↦ rw (a, b, c, e) (valued-Starts v _ h λ n k. action-Starts n)
          | inr d ↦ elim (Bool-cases (str_eq arg "--removal-timeout")) [
            | inl e ↦ rw (a, b, c, d, e) (valued-Starts v _ h removal-Starts)
            | inr f ↦ elim (Bool-cases (str_eq arg "--help")) [
              | inl e ↦ rw (a, b, c, d, f, e) tt
              | inr g ↦ rw (a, b, c, d, f, g) tt
            ]
          ]
        ]
      ]
    ]
  ]

-- What follows an option.
rest-Starts :
    (stoi : String → Result ℤ) (rest : List String) (p : Parsed)
    → Starts p
    → ((s : Settings) → InRange s → Starts (parse stoi s rest))
    → Starts (elim p [ starts s ↦ parse stoi s rest | exits n ↦ exits n | overflows ↦ overflows ])
rest-Starts stoi rest (starts s) k h = h s k
rest-Starts stoi rest (exits n) k h = tt
rest-Starts stoi rest overflows k h = tt

parse-Starts :
    (stoi : String → Result ℤ)
    → IsStoi stoi
    → (s : Settings) (args : List String) → InRange s
    → Starts (parse stoi s args)
unfolding parse
parse-Starts stoi h s [] i = i
parse-Starts stoi h s (arg ∷ []) i = elim (Bool-cases (str_eq arg "--help")) [
  | inl e ↦ rw e tt
  | inr e ↦ rw e tt
]
parse-Starts stoi h s (arg ∷ value ∷ rest) i =
    rest-Starts stoi rest (set_option s arg (stoi value))
      (set_option-Starts s i arg (stoi value) (h value)) λ s' k. parse-Starts stoi h s' rest k

-- Whatever the arguments are, if `stoi` gives what an `int` can hold: where the server starts, its port is
-- from 1 to 65535, the time for an action from 1000 to 300000 ms, the time until a removal at least 1000
-- ms, and this and the grace time are what an `int` can hold.
pub parse-InRange :
    (stoi : String → Result ℤ) (args : List String) (s : Settings)
    → IsStoi stoi
    → parse stoi defaults args ≡ starts s
    → InRange s
parse-InRange stoi args s h e = subst Starts e (
    parse-Starts stoi h defaults args (record {
      port = (omega arith, omega arith);
      action = (omega arith, omega arith);
      grace = (omega arith, omega arith);
      removal = (omega arith, omega arith);
    }))
