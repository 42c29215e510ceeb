-- ===== src/Ranking/Order.antt =====
-- Hands in another order.
use hump.Prelude.{
  ℕ, suc, ◌≡◌, refl, sym, ◌∙◌, ap, Bool, true, false, ◌&&◌, List, [], ◌∷◌, length, arith, ◌==◌,
  Bool-cases, inl, inr,
}
use hump.Ranking.Evaluation.{five}
use hump.Ranking.{
  CardValue, insert_descending, sort_descending, increment, count_from, any_from, suits, ranks,
  is_flush,
}

-- One list is the other in another order.
pub data Shuffled {A : Type 0} : List A → List A → Type 0 where
  done : Shuffled [] []
  keep : (x : A) {xs ys : List A} → Shuffled xs ys → Shuffled (x ∷ xs) (x ∷ ys)
  swap : (x y : A) (xs : List A) → Shuffled (x ∷ y ∷ xs) (y ∷ x ∷ xs)
  after : {xs ys zs : List A} → Shuffled xs ys → Shuffled ys zs → Shuffled xs zs

insert-insert :
    (x y : ℕ) (l : List ℕ)
    → insert_descending x (insert_descending y l) ≡ insert_descending y (insert_descending x l)
unfolding insert_descending
insert-insert x y [] = ground arith
insert-insert x y (z ∷ l) = ground (arith, insert-insert x y l)

sort-Shuffled : {xs ys : List ℕ} → Shuffled xs ys → sort_descending xs ≡ sort_descending ys
unfolding sort_descending
sort-Shuffled done = refl
sort-Shuffled (keep x s) = ap (insert_descending x) (sort-Shuffled s)
sort-Shuffled (swap x y xs) = insert-insert x y (sort_descending xs)
sort-Shuffled (after s t) = sort-Shuffled s ∙ sort-Shuffled t

abbrev all_are : ℕ → List ℕ → Bool
all_are a [] = true
all_are a (x ∷ xs) = x == a && all_are a xs

any_from-five :
    (a b c d e : ℕ)
    → any_from 5 (count_from [] (a ∷ b ∷ c ∷ d ∷ e ∷ [])) ≡ all_are a (b ∷ c ∷ d ∷ e ∷ [])
unfolding any_from count_from increment
any_from-five a b c d e = ground arith

all_are-Shuffled : (a : ℕ) {xs ys : List ℕ} → Shuffled xs ys → all_are a xs ≡ all_are a ys
all_are-Shuffled a done = refl
all_are-Shuffled a (keep x s) = ap (λ b. x == a && b) (all_are-Shuffled a s)
all_are-Shuffled a (swap x y xs) = ground arith
all_are-Shuffled a (after s t) = all_are-Shuffled a s ∙ all_are-Shuffled a t

-- All numbers of the list are the same.
abbrev all_same : List ℕ → Bool
all_same [] = true
all_same (x ∷ xs) = all_are x xs

all_are-same : (a b : ℕ) (xs : List ℕ) → (a == b) ≡ true → all_are a xs ≡ all_are b xs
all_are-same a b xs h = let e : a ≡ b = ground (arith, h) in rw e refl

all_same-Shuffled : {xs ys : List ℕ} → Shuffled xs ys → all_same xs ≡ all_same ys
all_same-Shuffled done = refl
all_same-Shuffled (keep x s) = all_are-Shuffled x s
all_same-Shuffled (swap x y xs) = elim (Bool-cases (x == y)) [
  | inl e ↦ let f : (y == x) ≡ true = ground (arith, e) in rw (e, f) (all_are-same x y xs e)
  | inr e ↦ let f : (y == x) ≡ false = ground (arith, e) in rw (e, f) refl
]
all_same-Shuffled (after s t) = all_same-Shuffled s ∙ all_same-Shuffled t

pub length-Shuffled : {A : Type 0} {xs ys : List A} → Shuffled xs ys → length xs ≡ length ys
length-Shuffled done = refl
length-Shuffled (keep x s) = ap suc (length-Shuffled s)
length-Shuffled (swap x y xs) = refl
length-Shuffled (after s t) = length-Shuffled s ∙ length-Shuffled t

suits-Shuffled : {cs ds : List CardValue} → Shuffled cs ds → Shuffled (suits cs) (suits ds)
unfolding suits
suits-Shuffled done = done
suits-Shuffled (keep c s) = keep c.suit (suits-Shuffled s)
suits-Shuffled (swap c d cs) = swap c.suit d.suit (suits cs)
suits-Shuffled (after s t) = after (suits-Shuffled s) (suits-Shuffled t)

ranks-Shuffled : {cs ds : List CardValue} → Shuffled cs ds → Shuffled (ranks cs) (ranks ds)
unfolding ranks
ranks-Shuffled done = done
ranks-Shuffled (keep c s) = keep c.rank (ranks-Shuffled s)
ranks-Shuffled (swap c d cs) = swap c.rank d.rank (ranks cs)
ranks-Shuffled (after s t) = after (ranks-Shuffled s) (ranks-Shuffled t)

-- A flush of five cards, by their suits alone.
is_flush-five : (cs : List CardValue) → length cs ≡ 5 → is_flush cs ≡ all_same (suits cs)
unfolding is_flush suits
is_flush-five [] h = absurd (omega arith)
is_flush-five (a ∷ []) h = absurd (omega arith)
is_flush-five (a ∷ b ∷ []) h = absurd (omega arith)
is_flush-five (a ∷ b ∷ c ∷ []) h = absurd (omega arith)
is_flush-five (a ∷ b ∷ c ∷ d ∷ []) h = absurd (omega arith)
is_flush-five (a ∷ b ∷ c ∷ d ∷ e ∷ []) h = any_from-five a.suit b.suit c.suit d.suit e.suit
is_flush-five (a ∷ b ∷ c ∷ d ∷ e ∷ f ∷ r) h = absurd (omega arith)

-- Five cards have the same rank in every order.
pub five-Shuffled : {cs ds : List CardValue} → Shuffled cs ds → length cs ≡ 5 → five cs ≡ five ds
unfolding five
five-Shuffled {cs} {ds} s h =
    let ordered = sort-Shuffled (ranks-Shuffled s) in
    let flush =
      is_flush-five cs h
      ∙ all_same-Shuffled (suits-Shuffled s)
      ∙ sym (is_flush-five ds (sym (length-Shuffled s) ∙ h)) in
    rw (ordered, flush) refl
