-- ===== src/Pot/SidePots.antt =====
-- Side pots against the bets that they are made of.
use native.Mathlib.Nat.{mod-eq_of_lt}
use hump.Prelude.{
  ℕ, zero, suc, ◌+◌, ◌-◌, ◌*◌, ◌%◌, ◌^◌, ◌<◌, ◌≡◌, refl, ◌∙◌, ap, inl, inr, true, false, List, [],
  ◌∷◌, map, arith, ℤ, pos, negsuc, ◌+ℤ◌, ◌-ℤ◌, ◌==ℤ◌, ◌==◌, ==_iff, int_laws, parts, length,
  Bool-cases, ltb_ℤ, to_size, to_int, ◌≤ℤ◌, ◌<ℤ◌, get_or, sum, All,
}
use hump.Model.{Ptr, null, SidePot}
use hump.Pot.{bet_at, indices_from, insert_index, sort_indices, pots_loop, calculate_side_pots}
use hump.Pot.Distribution.{side_chips}

-- Ascending bets.
abbrev Ascending : List ℤ → List ℕ → Type 0
Ascending bets [] = Unit {0}
Ascending bets (i ∷ is) = All (λ j. bet_at bets i ≤ℤ bet_at bets j) is × Ascending bets is

-- The bets at a list of indices, summed.
sum_at : List ℤ → List ℕ → ℤ
sum_at bets [] = pos 0
sum_at bets (i ∷ is) = bet_at bets i +ℤ sum_at bets is

difference : (p d : ℕ) → pos (p + d) -ℤ pos p ≡ pos d
difference p d = omega int_laws

to_int-small : (x : ℕ) → x < 2 ^ 31 → to_int x ≡ pos x
to_int-small x h = ground arith

-- In range the conversions to `size_t` and back lose nothing.
amount_exact :
    (d p m : ℕ)
    → d * suc m < 2 ^ 31
    → to_int (to_size (pos (p + d) -ℤ pos p) * suc m % 2 ^ 64) ≡ pos (d * suc m)
amount_exact d p m k =
    let small : d % 2 ^ 64 ≡ d = omega arith in
    rw (difference p d, small, mod-eq_of_lt {n = d * suc m} {m = 2 ^ 64} (omega arith))
      (to_int-small (d * suc m) k)

-- A bet from `p` on, as `p` and the rest.
above : (p : ℕ) (b : ℤ) → pos p ≤ℤ b → (d : ℕ) × (b ≡ pos (p + d))
above p (pos c) h = (c - p, ground arith)
above p (negsuc c) h = absurd (omega arith)

sum_at-ge :
    (bets : List ℤ) (p : ℕ) (is : List ℕ)
    → All (λ i. pos p ≤ℤ bet_at bets i) is
    → pos (p * length is) ≤ℤ sum_at bets is
unfolding sum_at
sum_at-ge bets p [] h = omega arith
sum_at-ge bets p (i ∷ is) h = omega (int_laws, sum_at-ge bets p is h.1)

pots_loop-same :
    (players : List Ptr) (bets : List ℤ) (i : ℕ) (is : List ℕ) (p : ℕ)
    → bet_at bets i ≡ pos p
    → pots_loop players bets (i ∷ is) (pos p) ≡ pots_loop players bets is (pos p)
unfolding pots_loop
pots_loop-same players bets i is p e = let t : (pos p ==ℤ pos p) ≡ true = ground arith in rw (e, t)

abbrev next_pot : List Ptr → ℕ → List ℕ → ℕ → ℕ → SidePot
next_pot players i is p d = record {
  amount = to_int (to_size (pos (p + d) -ℤ pos p) * suc (length is) % 2 ^ 64);
  eligible_players = map (λ j. get_or players j null) (i ∷ is);
}

pots_loop-new :
    (players : List Ptr) (bets : List ℤ) (i : ℕ) (is : List ℕ) (p d : ℕ)
    → (d == 0) ≡ false
    → bet_at bets i ≡ pos (p + d)
    → pots_loop players bets (i ∷ is) (pos p)
      ≡ next_pot players i is p d ∷ pots_loop players bets is (pos (p + d))
unfolding pots_loop
pots_loop-new players bets i is p d h e =
    let t : (pos (p + d) ==ℤ pos p) ≡ false = ground arith in rw (e, t)

-- The invariant of the loop: the pots still to come and the level already paid for make the bets.
side_chips-pots_loop :
    (players : List Ptr) (bets : List ℤ) (is : List ℕ) (p : ℕ)
    → All (λ i. pos p ≤ℤ bet_at bets i) is
    → Ascending bets is
    → sum_at bets is <ℤ pos (2 ^ 31)
    → side_chips (pots_loop players bets is (pos p)) +ℤ pos (p * length is) ≡ sum_at bets is
unfolding sum_at side_chips
side_chips-pots_loop players bets [] p h asc k = unfold pots_loop in omega int_laws
side_chips-pots_loop players bets (i ∷ is) p h asc k =
    let (d, e) = above p (bet_at bets i) h.0 in
    let up : All (λ j. pos (p + d) ≤ℤ bet_at bets j) is = rw e at asc.0 in
    let room : (p + d) * length is + (p + d) < 2 ^ 31 =
      omega (int_laws, sum_at-ge bets (p + d) is up, parts e) in
    let ih =
      side_chips-pots_loop players bets is (p + d) up asc.1
        (omega (int_laws, sum_at-ge bets (p + d) is up, parts e)) in
    elim (Bool-cases (d == 0)) [
      | inl same ↦
          let z : d ≡ 0 = (==_iff d 0).0 same in
          let q : p + d ≡ p = omega arith in
          let ih' = rw q at ih in
          rw (pots_loop-same players bets i is p (e ∙ ap pos q))
            (omega (int_laws, parts ih', parts e))
      | inr new ↦
          rw (pots_loop-new players bets i is p d new e) (
            omega (int_laws, parts ih, parts e, parts (amount_exact d p (length is) (omega arith))))
    ]

All-insert_index :
    (P : ℕ → Type 0) (bets : List ℤ) (i : ℕ) (is : List ℕ)
    → P i
    → All P is
    → All P (insert_index bets i is)
unfolding insert_index
All-insert_index P bets i [] h k = (h, tt)
All-insert_index P bets i (j ∷ js) h k = ground (arith, All-insert_index P bets i js h k.1)

All-sort_indices :
    (P : ℕ → Type 0) (bets : List ℤ) (is : List ℕ) → All P is → All P (sort_indices bets is)
unfolding sort_indices
All-sort_indices P bets [] h = tt
All-sort_indices P bets (i ∷ is) h =
    All-insert_index P bets i (sort_indices bets is) h.0 (All-sort_indices P bets is h.1)

All-le_trans :
    (bets : List ℤ) (a b : ℤ) (is : List ℕ)
    → a ≤ℤ b
    → All (λ j. b ≤ℤ bet_at bets j) is
    → All (λ j. a ≤ℤ bet_at bets j) is
All-le_trans bets a b [] h k = tt
All-le_trans bets a b (i ∷ is) h k = (omega arith, All-le_trans bets a b is h k.1)

insert_index-Ascending :
    (bets : List ℤ) (i : ℕ) (is : List ℕ)
    → Ascending bets is
    → Ascending bets (insert_index bets i is)
unfolding insert_index
insert_index-Ascending bets i [] h = (tt, tt)
insert_index-Ascending bets i (j ∷ js) h =
    elim (Bool-cases (ltb_ℤ (bet_at bets j) (bet_at bets i))) [
      | inl e ↦ rw e (
        All-insert_index (λ k. bet_at bets j ≤ℤ bet_at bets k) bets i js (ground arith) h.0,
        insert_index-Ascending bets i js h.1,
      )
      | inr e ↦
          let le : bet_at bets i ≤ℤ bet_at bets j = ground arith in
          rw e ((le, All-le_trans bets (bet_at bets i) (bet_at bets j) js le h.0), h)
    ]

sort_indices-Ascending : (bets : List ℤ) (is : List ℕ) → Ascending bets (sort_indices bets is)
unfolding sort_indices
sort_indices-Ascending bets [] = tt
sort_indices-Ascending bets (i ∷ is) =
    insert_index-Ascending bets i (sort_indices bets is) (sort_indices-Ascending bets is)

sum_at-insert_index :
    (bets : List ℤ) (i : ℕ) (is : List ℕ)
    → sum_at bets (insert_index bets i is) ≡ bet_at bets i +ℤ sum_at bets is
unfolding insert_index sum_at
sum_at-insert_index bets i [] = refl
sum_at-insert_index bets i (j ∷ js) = elim (Bool-cases (ltb_ℤ (bet_at bets j) (bet_at bets i))) [
  | inl e ↦ rw e (omega (int_laws, parts (sum_at-insert_index bets i js)))
  | inr e ↦ rw e
]

sum_at-sort_indices :
    (bets : List ℤ) (is : List ℕ) → sum_at bets (sort_indices bets is) ≡ sum_at bets is
unfolding sort_indices sum_at
sum_at-sort_indices bets [] = refl
sum_at-sort_indices bets (i ∷ is) =
    sum_at-insert_index bets i (sort_indices bets is)
    ∙ ap (λ t. bet_at bets i +ℤ t) (sum_at-sort_indices bets is)

-- The indices of a longer list, after the first.
sum_at-indices-suc :
    (b : ℤ) (bets : List ℤ) (n k : ℕ)
    → sum_at (b ∷ bets) (indices_from n (suc k)) ≡ sum_at bets (indices_from n k)
unfolding indices_from sum_at
sum_at-indices-suc b bets zero k = refl
sum_at-indices-suc b bets (suc n) k =
    ap (λ t. bet_at bets k +ℤ t) (sum_at-indices-suc b bets n (suc k))

sum_at-indices : (bets : List ℤ) → sum_at bets (indices_from (length bets) 0) ≡ sum bets
unfolding indices_from sum_at
sum_at-indices [] = refl
sum_at-indices (b ∷ bets) =
    ap (λ t. b +ℤ t) (sum_at-indices-suc b bets (length bets) 0 ∙ sum_at-indices bets)

All-indices-suc :
    (a b : ℤ) (bets : List ℤ) (n k : ℕ)
    → All (λ i. a ≤ℤ bet_at bets i) (indices_from n k)
    → All (λ i. a ≤ℤ bet_at (b ∷ bets) i) (indices_from n (suc k))
unfolding indices_from
All-indices-suc a b bets zero k h = tt
All-indices-suc a b bets (suc n) k h = (h.0, All-indices-suc a b bets n (suc k) h.1)

All-indices :
    (a : ℤ) (bets : List ℤ)
    → All (λ b. a ≤ℤ b) bets
    → All (λ i. a ≤ℤ bet_at bets i) (indices_from (length bets) 0)
unfolding indices_from
All-indices a [] h = tt
All-indices a (b ∷ bets) h =
    (h.0, All-indices-suc a b bets (length bets) 0 (All-indices a bets h.1))

-- The side pots hold exactly what was bet, for any number of players, ties and all-ins at any level,
-- if no bet is negative and the bets fit an int together.
pub side_chips-calculate_side_pots :
    (players : List Ptr) (bets : List ℤ)
    → length players ≡ length bets
    → All (λ b. pos 0 ≤ℤ b) bets
    → sum bets <ℤ pos (2 ^ 31)
    → side_chips (calculate_side_pots players bets) ≡ sum bets
unfolding calculate_side_pots
side_chips-calculate_side_pots players bets same h k =
    let is = indices_from (length bets) 0 in
    let all = sum_at-sort_indices bets is ∙ sum_at-indices bets in
    rw same (
      omega (
        int_laws,
        parts all,
        parts (
            side_chips-pots_loop players bets (sort_indices bets is) 0
              (All-sort_indices (λ i. pos 0 ≤ℤ bet_at bets i) bets is (All-indices (pos 0) bets h))
              (sort_indices-Ascending bets is) (omega (int_laws, parts all))),
      ))
