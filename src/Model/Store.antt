-- ===== src/Model/Store.antt =====
-- Loads, writes and the chips on the store.
use hump.Prelude.{
  zero, suc, ◌≤◌, ◌<◌, ◌≡◌, ◌≢◌, refl, ap, [], ◌∷◌, arith, ℤ, pos, ◌+ℤ◌, int_laws, parts, length,
}
use hump.Model.{Player, Ptr, Store, load, modify}

-- The pointer is that of an object in the store.
pub record IsLive (st : Store) (p : Ptr) : Type 0 where
  pub nonnull : 0 < p
  pub allocated : p ≤ length st

-- All chips in the players' stacks.
pub chips : Store → ℤ
chips [] = pos 0
chips (q ∷ st) = q.stack +ℤ chips st

pub length-modify :
    (f : Player → Player) (p : Ptr) (st : Store) → length (modify f p st) ≡ length st
unfolding modify
length-modify f zero st = refl
length-modify f (suc n) [] = refl
length-modify f (suc zero) (q ∷ st) = refl
length-modify f (suc (suc n)) (q ∷ st) = ap suc (length-modify f (suc n) st)

pub modify-IsLive :
    (f : Player → Player) (p : Ptr) {st : Store} {q : Ptr} → IsLive st q → IsLive (modify f p st) q
modify-IsLive f p {st} l = omega (arith, length-modify f p st)

pub load-modify_self :
    (f : Player → Player) (p : Ptr) (st : Store)
    → IsLive st p
    → load (modify f p st) p ≡ f (load st p)
unfolding load modify
load-modify_self f zero st l = absurd (omega arith)
load-modify_self f (suc n) [] l = absurd (omega arith)
load-modify_self f (suc zero) (q ∷ st) l = refl
load-modify_self f (suc (suc n)) (q ∷ st) l = load-modify_self f (suc n) st (omega arith)

pub load-modify_ne :
    (f : Player → Player) (p q : Ptr) (st : Store) → p ≢ q → load (modify f p st) q ≡ load st q
unfolding load modify
load-modify_ne f zero q st h = refl
load-modify_ne f (suc n) q [] h = refl
load-modify_ne f (suc zero) zero (x ∷ st) h = refl
load-modify_ne f (suc zero) (suc zero) (x ∷ st) h = absurd (h refl)
load-modify_ne f (suc zero) (suc (suc m)) (x ∷ st) h = refl
load-modify_ne f (suc (suc n)) zero (x ∷ st) h = refl
load-modify_ne f (suc (suc n)) (suc zero) (x ∷ st) h = refl
load-modify_ne f (suc (suc n)) (suc (suc m)) (x ∷ st) h =
    load-modify_ne f (suc n) (suc m) st (λ e. h (ap suc e))

-- What a write does to one stack it does to the whole.
pub chips-modify :
    (f : Player → Player) (p : Ptr) (st : Store)
    → IsLive st p
    → chips (modify f p st) +ℤ (load st p).stack ≡ chips st +ℤ (f (load st p)).stack
unfolding load modify chips
chips-modify f zero st l = absurd (omega arith)
chips-modify f (suc n) [] l = absurd (omega arith)
chips-modify f (suc zero) (q ∷ st) l = omega int_laws
chips-modify f (suc (suc n)) (q ∷ st) l =
    omega (int_laws, parts (chips-modify f (suc n) st (omega arith)))
