-- ===== src/Session/Refused.antt =====
-- `handleAction`, on any payload: what is refused, and what is played.
use hump.Prelude.{
  ℕ, ◌≡◌, ◌⊎◌, refl, false, not, ◌||◌, ◌==◌, Bool-cases, inl, inr, String, Result, ok, err, ℤ,
}
use hump.Json.{Json, string_at, int_at}
use hump.Session.{GameSession, Env, with_value, manager}
use hump.Session.Act.{act, handle_action}
use hump.Session.Dispatch.{caught}
use hump.Table.Ownership.{Owns}
use hump.Session.Ended.{IsRefused, thrown-IsRefused}
use hump.Session.Played.{IsPlayed, act-Outcome}

-- An action, as its payload is read.
abbrev pub IsRead : (J : Json) → J.Value → String → String → ℤ → Type 0
IsRead J payload hand_id action amount =
    (string_at J payload "hand_id" ≡ ok hand_id)
    × (string_at J payload "action" ≡ ok action)
    × (int_at J payload "amount" ≡ ok amount)

abbrev pub IsActed : (J : Json) → Env → GameSession → J.Value → ℕ → GameSession → Type 0
IsActed J env g payload session h =
    IsRefused g session h
    ⊎ ((hand_id : String) × (action : String) × (amount : ℤ) × IsRead J payload hand_id action
          amount
        × IsPlayed env g session hand_id action amount h)

read-IsActed :
    (J : Json) (env : Env) (g : GameSession) (payload : J.Value) (session : ℕ)
    (hand_id action : String) (v : Result ℤ)
    → Owns (manager g)
    → string_at J payload "hand_id" ≡ ok hand_id
    → string_at J payload "action" ≡ ok action
    → int_at J payload "amount" ≡ v
    → IsActed J env g payload session
        (caught session (with_value g v λ amount. act env g session hand_id action amount))
read-IsActed J env g payload session hand_id action (err e) owned a b c =
    inl (thrown-IsRefused g session e)
read-IsActed J env g payload session hand_id action (ok amount) owned a b c =
    elim (act-Outcome env g session hand_id action amount owned) [
      | inl r ↦ inl r
      | inr p ↦ inr (hand_id, action, amount, (a, b, c), p)
    ]

module _ (J : Json) (env : Env) (g : GameSession) (payload : J.Value) (session : ℕ)
    (owned : Owns (manager g)) where
  action-IsActed :
      (hand_id : String) (v : Result String)
      → string_at J payload "hand_id" ≡ ok hand_id
      → string_at J payload "action" ≡ v
      → IsActed J env g payload session (
          caught session (
            with_value g v λ action.
              with_value g
                (int_at J payload "amount")
                λ amount. act env g session hand_id action amount))
  action-IsActed hand_id (err e) a b = inl (thrown-IsRefused g session e)
  action-IsActed hand_id (ok action) a b =
      read-IsActed J env g payload session hand_id action (int_at J payload "amount") owned a b refl

  hand_id-IsActed :
      (v : Result String)
      → string_at J payload "hand_id" ≡ v
      → IsActed J env g payload session (
          caught session (
            with_value g v λ hand_id. with_value g (string_at J payload "action") λ action.
              with_value g
                (int_at J payload "amount")
                λ amount. act env g session hand_id action amount))
  hand_id-IsActed (err e) a = inl (thrown-IsRefused g session e)
  hand_id-IsActed (ok hand_id) a = action-IsActed hand_id (string_at J payload "action") a refl

-- If the table manager's players are in the store, an action message from a session that is not null is either
-- refused, with one error for its sender and no other change; or it is read as a valid move of the sender's own
-- player in the current hand, with the hand's id and an amount from 0 to 4000. Then the move is made; each registered session
-- that is not null is sent the action with the player's new stack, the pot and the next player; the next player, if there
-- is one, at the table and with a session that is not null, is sent a request; and if the hand is not complete, that
-- is all. If it is, each registered session that is not null is sent the winners, and the table ends the hand;
-- where the winners cannot be determined or the hand cannot be ended, the sender is sent one error instead of what would follow.
-- Unless the hand is complete then, the chips at the table are as many as before.
pub handle_action-IsActed :
    (J : Json) (env : Env) (g : GameSession) (payload : J.Value) (session : ℕ)
    → (session == 0) ≡ false
    → Owns (manager g)
    → IsActed J env g payload session (caught session (handle_action J env g payload session))
unfolding handle_action caught
handle_action-IsActed J env g payload session n owned =
    elim (Bool-cases (
      not (J.contains payload "hand_id")
      || not (J.contains payload "action")
      || not (J.contains payload "amount"))) [
        | inl e ↦ rw (n, e) (inl (_, _, refl))
        | inr e ↦
            rw (n, e)
              (hand_id-IsActed J env g payload session owned (string_at J payload "hand_id") refl)
      ]
