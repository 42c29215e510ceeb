-- ===== src/Presence/Lookup.antt =====
-- Looking a player's timers up in the map after a change.
use hump.Prelude.{
  ◌≡◌, refl, ap, inl, inr, false, [], ◌∷◌, none, some, Bool-cases, String, str_eq, eq_iff,
  if◌then◌else◌,
}
use hump.Presence.{PlayerTimers, TimerMap, find_timers, put_timers, erase_timers}

pub find-put_ne :
    (m : TimerMap) (id : String) (t : PlayerTimers) (k : String)
    → str_eq id k ≡ false
    → find_timers (put_timers m id t) k ≡ find_timers m k
unfolding find_timers put_timers
find-put_ne [] id t k n = rw n refl
find-put_ne ((l, u) ∷ m) id t k n = elim (Bool-cases (str_eq l id)) [
  | inl e ↦ let n' : str_eq l k ≡ false = rw ((eq_iff l id).0 e) n in rw (e, n') refl
  | inr e ↦ rw e (ap (λ r. if str_eq l k then some u else r) (find-put_ne m id t k n))
]

pub find-erase_self : (m : TimerMap) (id : String) → find_timers (erase_timers m id) id ≡ none
unfolding find_timers erase_timers
find-erase_self [] id = refl
find-erase_self ((k, u) ∷ m) id = elim (Bool-cases (str_eq k id)) [
  | inl e ↦ rw e (find-erase_self m id)
  | inr e ↦ rw (e, e) (find-erase_self m id)
]

pub find-erase_none :
    (m : TimerMap) (id k : String)
    → find_timers m k ≡ none
    → find_timers (erase_timers m id) k ≡ none
unfolding find_timers erase_timers
find-erase_none [] id k n = refl
find-erase_none ((l, u) ∷ m) id k n = elim (Bool-cases (str_eq l k)) [
  | inl b ↦ absurd (let n' = rw b at n in cc)
  | inr b ↦
      let rest = find-erase_none m id k (rw b at n) in
      elim (Bool-cases (str_eq l id)) [ inl e ↦ rw e rest | inr e ↦ rw (e, b) rest ]
]

pub find-erase_ne :
    (m : TimerMap) (id k : String)
    → str_eq id k ≡ false
    → find_timers (erase_timers m id) k ≡ find_timers m k
unfolding find_timers erase_timers
find-erase_ne [] id k n = refl
find-erase_ne ((l, u) ∷ m) id k n = elim (Bool-cases (str_eq l id)) [
  | inl e ↦
      let n' : str_eq l k ≡ false = rw ((eq_iff l id).0 e) n in rw (e, n') (find-erase_ne m id k n)
  | inr e ↦ rw e (ap (λ r. if str_eq l k then some u else r) (find-erase_ne m id k n))
]
