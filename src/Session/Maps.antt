-- ===== src/Session/Maps.antt =====
-- The two maps between players and connections.
use hump.Prelude.{
  ℕ, ◌≡◌, ◌≢◌, ◌⊎◌, refl, ap, ◌∙◌, sym, ◌↔◌, Bool, true, false, List, [], ◌∷◌, arith, Option, none,
  some, ◌==◌, ==_iff, Bool-cases, inl, inr, String, str_eq, eq_iff, if◌then◌else◌,
}
use hump.Model.{null}
use hump.Table.{get_player}
use hump.Session.{
  GameSession, Reply, find, erase_key, put, session_of, player_of, send_json, send_all,
  broadcast_json, register_session, remove_found, remove_session, disconnect_player,
  disconnect_found, on_disconnect,
}

module _ {K V : Type 0} (eq : K → K → Bool) (sound : (a b : K) → (eq a b ≡ true) ↔ (a ≡ b)) where
  pub find-erase_self : (m : List (K × V)) (k : K) → find eq (erase_key eq m k) k ≡ none
  unfolding find erase_key
  find-erase_self [] k = refl
  find-erase_self ((j, v) ∷ m) k = elim (Bool-cases (eq j k)) [
    | inl e ↦ rw e (find-erase_self m k)
    | inr e ↦ rw (e, e) (find-erase_self m k)
  ]

  pub find-erase_ne :
      (m : List (K × V)) (k j : K) → k ≢ j → find eq (erase_key eq m k) j ≡ find eq m j
  unfolding find erase_key
  find-erase_ne [] k j n = refl
  find-erase_ne ((i, v) ∷ m) k j n = elim (Bool-cases (eq i k)) [
    | inl e ↦ elim (Bool-cases (eq i j)) [
      | inl f ↦ absurd (n (sym ((sound i k).0 e) ∙ (sound i j).0 f))
      | inr f ↦ rw (e, f) (find-erase_ne m k j n)
    ]
    | inr e ↦ rw e (ap (λ r. if eq i j then some v else r) (find-erase_ne m k j n))
  ]

-- Each map is the other one turned round.
pub record IsInverse (g : GameSession) : Type 0 where
  pub there : (id : String) (s : ℕ) → session_of g id ≡ some s → player_of g s ≡ some id
  pub back : (s : ℕ) (id : String) → player_of g s ≡ some id → session_of g id ≡ some s

-- A key that is found after an erasure is another one, and was found before.
module _ {K V : Type 0} (eq : K → K → Bool) (sound : (a b : K) → (eq a b ≡ true) ↔ (a ≡ b)) where
  find-erase_inv :
      (m : List (K × V)) (k j : K) {v : V}
      → find eq (erase_key eq m k) j ≡ some v
      → (k ≢ j) × (find eq m j ≡ some v)
  find-erase_inv m k j {v} h =
      let other : k ≢ j =
        λ e. let gone = find-erase_self eq sound m k in let h' = rw (← e) at h in cc in
      (other, sym (find-erase_ne eq sound m k j other) ∙ h)

  find-put_self : (m : List (K × V)) (k : K) (v : V) → find eq (put eq m k v) k ≡ some v
  unfolding find put
  find-put_self m k v = let t = (sound k k).1 refl in rw t refl

  find-put_ne :
      (m : List (K × V)) (k j : K) (v : V) → k ≢ j → find eq (put eq m k v) j ≡ find eq m j
  unfolding find put
  find-put_ne m k j v n = elim (Bool-cases (eq k j)) [
    | inl e ↦ absurd (n ((sound k j).0 e))
    | inr e ↦ rw e (find-erase_ne eq sound m k j n)
  ]

  find-put_inv :
      (m : List (K × V)) (k j : K) (v : V) {w : V}
      → find eq (put eq m k v) j ≡ some w
      → ((k ≡ j) × (v ≡ w)) ⊎ ((k ≢ j) × (find eq m j ≡ some w))
  find-put_inv m k j v {w} h = elim (Bool-cases (eq k j)) [
    | inl e ↦
        let q = (sound k j).0 e in
        inl (q, let f = find-put_self m k v in let h' = rw (← q) at h in ground (arith, f, h'))
    | inr e ↦
        let n : k ≢ j = λ q. let t = (sound k j).1 q in cc in
        inr (n, sym (find-put_ne m k j v n) ∙ h)
  ]

-- A player and his session, taken out of both maps.
pub remove_found-IsInverse :
    (g : GameSession) (id : String) (s : ℕ)
    → IsInverse g
    → session_of g id ≡ some s
    → IsInverse (remove_found g id (some s))
unfolding remove_found
remove_found-IsInverse g id s i e = record {
  there = λ j t h.
      let (n, f) = find-erase_inv str_eq eq_iff g.player_sessions id j h in
      let b = i.there j t f in
      let c = i.there id s e in
      find-erase_ne (λ a b. a == b) ==_iff g.session_to_player s t
        (λ q. n (let d = rw (← q) at b in ground (arith, c, d)))
      ∙ b;
  back = λ t j h.
      let (n, f) = find-erase_inv (λ a b. a == b) ==_iff g.session_to_player s t h in
      let b = i.back t j f in
      find-erase_ne str_eq eq_iff g.player_sessions id j
        (λ q. n (let d = rw (← q) at b in ground (arith, e, d)))
      ∙ b;
}

-- The two maps alone.
abbrev pub SameMaps : GameSession → GameSession → Type 0
SameMaps g h = (h.player_sessions ≡ g.player_sessions) × (h.session_to_player ≡ g.session_to_player)

send_json-same : (g : GameSession) (s : ℕ) (r : Reply) → SameMaps g (send_json g s r)
unfolding send_json
send_json-same g s r = ground arith

send_all-same : (g : GameSession) (l : List (String × ℕ)) (r : Reply) → SameMaps g (send_all g l r)
unfolding send_all
send_all-same g [] r = (refl, refl)
send_all-same g ((id, s) ∷ l) r =
    let (a, b) = send_json-same g s r in
    let (c, d) = send_all-same (send_json g s r) l r in (c ∙ a, d ∙ b)

disconnect_player-same :
    (now : ℕ) (g : GameSession) (id : String) → SameMaps g (disconnect_player now g id)
unfolding disconnect_player broadcast_json
disconnect_player-same now g id =
    elim (Bool-cases (get_player g.players.table_manager id == null)) [
      | inl e ↦ rw e (refl, refl)
      | inr e ↦ rw e (send_all-same _ _ _)
    ]

pub IsInverse-same : (g h : GameSession) → SameMaps g h → IsInverse g → IsInverse h
IsInverse-same g h (a, b) i = record {
  there = λ id s e.
      ap (λ m. find (λ x y. x == y) m s) b ∙ i.there id s (sym (ap (λ m. find str_eq m id) a) ∙ e);
  back = λ s id e.
      ap (λ m. find str_eq m id) a ∙ i.back s id (sym (ap (λ m. find (λ x y. x == y) m s) b) ∙ e);
}

disconnect_found-IsInverse :
    (now : ℕ) (g : GameSession) (session : ℕ) (o : Option String)
    → player_of g session ≡ o
    → IsInverse g
    → IsInverse (disconnect_found now g o) × (player_of (disconnect_found now g o) session ≡ none)
unfolding disconnect_found remove_session
disconnect_found-IsInverse now g session none e i = (i, e)
disconnect_found-IsInverse now g session (some id) e i =
    let found = i.back session id e in
    let h = remove_found g id (session_of g id) in
    let same = disconnect_player-same now h id in
    let removed : IsInverse h = rw found (remove_found-IsInverse g id session i found) in
    let gone : player_of h session ≡ none =
      rw found (
        unfold remove_found in
        find-erase_self (λ a b. a == b) ==_iff g.session_to_player session) in
    (
      IsInverse-same h (disconnect_player now h id) same removed,
      ap (λ m. find (λ x y. x == y) m session) same.1 ∙ gone,
    )

-- When a connection is lost and the two maps are each other's inverse, its session is in neither map
-- afterwards, and they are each other's inverse still.
pub on_disconnect-IsInverse :
    (now : ℕ) (g : GameSession) (session : ℕ)
    → (session == 0) ≡ false
    → IsInverse g
    → let g' = on_disconnect now g session in IsInverse g' × (player_of g' session ≡ none)
unfolding on_disconnect
on_disconnect-IsInverse now g session n i =
    rw n (disconnect_found-IsInverse now g session (player_of g session) refl i)

-- A new connection with a new player's id is entered in both maps, which stay each other's inverse.
pub register_session-IsInverse :
    (g : GameSession) (id : String) (session : ℕ)
    → IsInverse g
    → session_of g id ≡ none
    → player_of g session ≡ none
    → let g' = register_session g id session in
      IsInverse g' × (player_of g' session ≡ some id) × (session_of g' id ≡ some session)
unfolding register_session
register_session-IsInverse g id session i a b =
    let here = find-put_self str_eq eq_iff g.player_sessions id session in
    let there = find-put_self (λ x y. x == y) ==_iff g.session_to_player session id in
    (
      record {
        there = λ j t h. elim (find-put_inv str_eq eq_iff g.player_sessions id j session h) [
          | inl (p, q) ↦ rw (← p, ← q) there
          | inr (n, f) ↦
              find-put_ne (λ x y. x == y) ==_iff g.session_to_player session t id
                (λ q. let c = i.there j t f in let d = rw q at b in cc)
              ∙ i.there j t f
        ];
        back = λ t j h.
            elim (find-put_inv (λ x y. x == y) ==_iff g.session_to_player session t id h) [
              | inl (p, q) ↦ rw (← p, ← q) here
              | inr (n, f) ↦
                  find-put_ne str_eq eq_iff g.player_sessions id j session
                    (λ q. let c = i.back t j f in let d = rw q at a in cc)
                  ∙ i.back t j f
            ];
      },
      there,
      here,
    )
