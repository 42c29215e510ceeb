-- ===== src/Deck/Deals.antt =====
-- Dealing one card after another from a shuffled deck.
use Prim.Native.Nat.add
use native.Mathlib.Nat.{add-zero}
use hump.Prelude.{
  ℕ, zero, suc, ◌+◌, ◌-◌, ◌^◌, ◌≤◌, ◌<◌, ◌≡◌, refl, sym, ◌∙◌, ap, List, [], ◌∷◌, ◌++◌, arith, leb,
  ◌==◌, if◌then◌else◌, length, get_or, take, drop, length-take, Result, ok, err, out_of_range,
  all_below, all_below_sound, ◌>>=◌, take-append-drop, true, ==_iff, Bool-cases, inl, inr, ◌⊎◌,
}
use hump.Card.{Card, make, equals, default_card}
use hump.Card.Text.{IsValid}
use hump.Deck.{Deck, create_standard_deck, new, deal, size}

-- How often a card stands in a list.
pub count : Card → List Card → ℕ
unfolding equals
count c [] = 0
count c (d ∷ ds) = (if equals c d then 1 else 0) + count c ds

-- What the code relies on in `std::shuffle`: the same cards, as often, in some order.
pub record IsShuffle (σ : List Card → List Card) : Type 0 where
  pub same_length : (cs : List Card) → length (σ cs) ≡ length cs
  pub same_count : (c : Card) (cs : List Card) → count c (σ cs) ≡ count c cs

pub IsShuffle-id : IsShuffle (λ cs. cs)
IsShuffle-id = record { same_length = λ cs. refl; same_count = λ c cs. refl }

-- The reader's place is in the deck, which is small enough for `size_t`.
pub record IsSound (d : Deck) : Type 0 where
  pub within : d.next_card ≤ length d.cards
  pub fits : length d.cards < 2 ^ 64

-- A deal takes one card off, or fails exactly when `size` says 0 and changes nothing.
size-deal :
    (d : Deck)
    → IsSound d
    → ((size d ≡ 0) × (deal d ≡ err (out_of_range "No cards left in deck")))
      ⊎ ((c : Card) × (d' : Deck) × (deal d ≡ ok (c, d')) × (size d ≡ size d' + 1) × IsSound d')
unfolding deal size
size-deal d v = elim (Bool-cases (leb (length d.cards) d.next_card)) [
  | inl e ↦ inl (ground arith, ground arith)
  | inr e ↦ inr (
    get_or d.cards d.next_card default_card,
    record d { next_card = d.next_card + 1 },
    ground arith,
    ground arith,
    ground arith,
  )
]

-- `n` calls of `deal`.
pub deal_n : ℕ → Deck → Result (List Card × Deck)
deal_n zero d = ok ([], d)
deal_n (suc n) d = do (c, d') ← deal d; (cs, d'') ← deal_n n d'; ok (c ∷ cs, d'')

count-append : (c : Card) (xs ys : List Card) → count c (xs ++ ys) ≡ count c xs + count c ys
unfolding count
count-append c [] ys = omega arith
count-append c (x ∷ xs) ys = omega (arith, count-append c xs ys)

pub drop_step :
    (cs : List Card) (n : ℕ)
    → n < length cs
    → drop n cs ≡ get_or cs n default_card ∷ drop (suc n) cs
drop_step [] n h = elim h [ ]
drop_step (c ∷ cs) zero h = refl
drop_step (c ∷ cs) (suc n) h = drop_step cs n (omega arith)

pub deal_one :
    (cs : List Card) (k : ℕ)
    → k < length cs
    → deal (record { cards = cs; next_card = k })
      ≡ ok (get_or cs k default_card, record { cards = cs; next_card = suc k })
unfolding deal
deal_one cs k h = ground arith

-- `n` deals take the next `n` cards in order.
deal_n_lem :
    (n : ℕ) (cs : List Card) (k : ℕ)
    → k + n ≤ length cs
    → deal_n n (record { cards = cs; next_card = k })
      ≡ ok (take n (drop k cs), record { cards = cs; next_card = k + n })
unfolding deal_n
deal_n_lem zero cs k h = rw add-zero
deal_n_lem (suc n) cs k h =
    rw
      (
        deal_one cs k (omega arith),
        drop_step cs k (omega arith),
        deal_n_lem n cs (suc k) (omega arith),
      )
      (ground arith)

pub length-standard : length create_standard_deck ≡ 52
unfolding create_standard_deck
length-standard = refl

standard_table : all_below 52 (λ v. count (record { value = v }) create_standard_deck == 1) ≡ true
unfolding all_below create_standard_deck count make
standard_table = refl

-- Every card stands in the standard deck once.
pub count-standard : (c : Card) → IsValid c → count c create_standard_deck ≡ 1
count-standard c h = (==_iff _ 1).0 (
    all_below_sound 52 (λ v. count (record { value = v }) create_standard_deck == 1) c.value
      standard_table h)

-- From a new deck, shuffled in any order, any number of cards up to 52 can be dealt, and every card
-- is either among those dealt or among the rest, once: no card is dealt twice.
pub deal_n-new :
    (σ : List Card → List Card) (n : ℕ) (c : Card)
    → IsShuffle σ
    → n ≤ 52
    → IsValid c
    → (cs : List Card) × (d : Deck) × (deal_n n (new σ) ≡ ok (cs, d))
      × (length cs ≡ n)
      × (size d ≡ 52 - n)
      × (count c cs + count c (drop d.next_card d.cards) ≡ 1)
unfolding new size
deal_n-new σ n c p h v = (
  take n (σ create_standard_deck),
  record { cards = σ create_standard_deck; next_card = 0 + n },
  deal_n_lem n (σ create_standard_deck) 0 (omega (arith, whole)),
  omega (arith, whole, length-take n (σ create_standard_deck)),
  omega (arith, whole),
  omega (arith, all_once),
)
  where
    whole : length (σ create_standard_deck) ≡ 52
    whole = p.same_length create_standard_deck ∙ length-standard

    all_once :
        count c (take n (σ create_standard_deck)) + count c (drop (0 + n) (σ create_standard_deck))
        ≡ 1
    all_once = rw (add.zero n) (
        sym (count-append c (take n (σ create_standard_deck)) (drop n (σ create_standard_deck)))
        ∙ ap (count c) (take-append-drop n (σ create_standard_deck))
        ∙ p.same_count c create_standard_deck
        ∙ count-standard c v)
