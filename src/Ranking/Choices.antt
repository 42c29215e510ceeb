-- ===== src/Ranking/Choices.antt =====
-- The choices out of a list, and the evaluation of a hand, in another order.
use hump.Prelude.{ℕ, zero, suc, List, [], ◌∷◌, ◌++◌, map, ◌⊎◌, inl, inr}
use hump.Ranking.Combinations.{choose}
use hump.Ranking.Evaluation.{Any}
use hump.Ranking.Order.{Shuffled, done, keep, swap, after}

-- Some choice of `k` elements, in their order, has the property.
Chosen : {A : Type 0} → (List A → Type 0) → ℕ → List A → Type 0
Chosen P zero xs = P []
Chosen P (suc k) [] = ⊥
Chosen P (suc k) (x ∷ xs) = Chosen (λ ys. P (x ∷ ys)) k xs ⊎ Chosen P (suc k) xs

Chosen-map :
    {A : Type 0} (P Q : List A → Type 0) (k : ℕ) (xs : List A)
    → ((ys : List A) → P ys → Q ys)
    → Chosen P k xs
    → Chosen Q k xs
unfolding Chosen
Chosen-map P Q zero xs f h = f [] h
Chosen-map P Q (suc k) [] f h = h
Chosen-map P Q (suc k) (x ∷ xs) f (inl h) =
    inl (Chosen-map (λ ys. P (x ∷ ys)) (λ ys. Q (x ∷ ys)) k xs (λ ys. f (x ∷ ys)) h)
Chosen-map P Q (suc k) (x ∷ xs) f (inr h) = inr (Chosen-map P Q (suc k) xs f h)

-- A property that a list keeps in every order.
abbrev Respects : {A : Type 0} → (List A → Type 0) → Type 0
Respects {A} P = (xs ys : List A) → Shuffled xs ys → P xs → P ys

Respects-cons :
    {A : Type 0} (P : List A → Type 0) (x : A) → Respects P → Respects (λ ys. P (x ∷ ys))
Respects-cons P x r xs ys s h = r (x ∷ xs) (x ∷ ys) (keep x s) h

Chosen-swap :
    {A : Type 0} (P : List A → Type 0) (k : ℕ) (x y : A) (zs : List A)
    → Respects P
    → Chosen P k (x ∷ y ∷ zs)
    → Chosen P k (y ∷ x ∷ zs)
unfolding Chosen
Chosen-swap P zero x y zs r h = h
Chosen-swap P (suc zero) x y zs r (inl h) = inr (inl h)
Chosen-swap P (suc zero) x y zs r (inr (inl h)) = inl h
Chosen-swap P (suc zero) x y zs r (inr (inr h)) = inr (inr h)
Chosen-swap P (suc (suc k)) x y zs r (inl (inl h)) = inl (
    inl (
      Chosen-map (λ ys. P (x ∷ y ∷ ys)) (λ ys. P (y ∷ x ∷ ys)) k zs
        (λ ys. r (x ∷ y ∷ ys) (y ∷ x ∷ ys) (swap x y ys)) h))
Chosen-swap P (suc (suc k)) x y zs r (inl (inr h)) = inr (inl h)
Chosen-swap P (suc (suc k)) x y zs r (inr (inl h)) = inl (inr h)
Chosen-swap P (suc (suc k)) x y zs r (inr (inr h)) = inr (inr h)

Chosen-Shuffled :
    {A : Type 0} (P : List A → Type 0) (k : ℕ) {xs ys : List A}
    → Respects P
    → Shuffled xs ys
    → Chosen P k xs
    → Chosen P k ys
unfolding Chosen
Chosen-Shuffled P k r done h = h
Chosen-Shuffled P zero r (keep x s) h = h
Chosen-Shuffled P (suc k) r (keep x s) (inl h) =
    inl (Chosen-Shuffled (λ ys. P (x ∷ ys)) k (Respects-cons P x r) s h)
Chosen-Shuffled P (suc k) r (keep x s) (inr h) = inr (Chosen-Shuffled P (suc k) r s h)
Chosen-Shuffled P k r (swap x y zs) h = Chosen-swap P k x y zs r h
Chosen-Shuffled P k r (after s t) h = Chosen-Shuffled P k r t (Chosen-Shuffled P k r s h)

module _ {A : Type 0} where
  Any-map-cons :
      (P : List A → Type 0) (x : A) (cs : List (List A))
      → Any P (map (λ ys. x ∷ ys) cs)
      → Any (λ ys. P (x ∷ ys)) cs
  Any-map-cons P x [] h = elim h [ ]
  Any-map-cons P x (c ∷ cs) (inl h) = inl h
  Any-map-cons P x (c ∷ cs) (inr h) = inr (Any-map-cons P x cs h)

  map-cons-Any :
      (P : List A → Type 0) (x : A) (cs : List (List A))
      → Any (λ ys. P (x ∷ ys)) cs
      → Any P (map (λ ys. x ∷ ys) cs)
  map-cons-Any P x [] h = elim h [ ]
  map-cons-Any P x (c ∷ cs) (inl h) = inl h
  map-cons-Any P x (c ∷ cs) (inr h) = inr (map-cons-Any P x cs h)

  Any-append :
      (P : List A → Type 0) (xs ys : List (List A)) → Any P (xs ++ ys) → Any P xs ⊎ Any P ys
  Any-append P [] ys h = inr h
  Any-append P (x ∷ xs) ys (inl h) = inl (inl h)
  Any-append P (x ∷ xs) ys (inr h) = elim (Any-append P xs ys h) [
    | inl k ↦ inl (inr k)
    | inr k ↦ inr k
  ]

  append-Any :
      (P : List A → Type 0) (xs ys : List (List A)) → Any P xs ⊎ Any P ys → Any P (xs ++ ys)
  append-Any P [] ys (inl h) = elim h [ ]
  append-Any P [] ys (inr h) = h
  append-Any P (x ∷ xs) ys (inl (inl h)) = inl h
  append-Any P (x ∷ xs) ys (inl (inr h)) = inr (append-Any P xs ys (inl h))
  append-Any P (x ∷ xs) ys (inr h) = inr (append-Any P xs ys (inr h))

  Any-Chosen : (P : List A → Type 0) (k : ℕ) (xs : List A) → Any P (choose k xs) → Chosen P k xs
  unfolding choose Chosen
  Any-Chosen P zero xs (inl h) = h
  Any-Chosen P zero xs (inr h) = elim h [ ]
  Any-Chosen P (suc k) [] h = h
  Any-Chosen P (suc k) (x ∷ xs) h =
      elim (Any-append P (map (λ ys. x ∷ ys) (choose k xs)) (choose (suc k) xs) h) [
        | inl a ↦ inl (Any-Chosen (λ ys. P (x ∷ ys)) k xs (Any-map-cons P x (choose k xs) a))
        | inr b ↦ inr (Any-Chosen P (suc k) xs b)
      ]

  Chosen-Any : (P : List A → Type 0) (k : ℕ) (xs : List A) → Chosen P k xs → Any P (choose k xs)
  unfolding choose Chosen
  Chosen-Any P zero xs h = inl h
  Chosen-Any P (suc k) [] h = h
  Chosen-Any P (suc k) (x ∷ xs) (inl h) =
      append-Any P (map (λ ys. x ∷ ys) (choose k xs)) (choose (suc k) xs)
        (inl (map-cons-Any P x (choose k xs) (Chosen-Any (λ ys. P (x ∷ ys)) k xs h)))
  Chosen-Any P (suc k) (x ∷ xs) (inr h) =
      append-Any P (map (λ ys. x ∷ ys) (choose k xs)) (choose (suc k) xs)
        (inr (Chosen-Any P (suc k) xs h))

-- What some choice of a list has, some choice of the list in another order has.
pub Any-Shuffled :
    {A : Type 0} (P : List A → Type 0) (k : ℕ) {xs ys : List A}
    → Respects P
    → Shuffled xs ys
    → Any P (choose k xs)
    → Any P (choose k ys)
Any-Shuffled P k {xs} {ys} r s h = Chosen-Any P k ys (Chosen-Shuffled P k r s (Any-Chosen P k xs h))
