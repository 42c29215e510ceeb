-- ===== src/Betting/Rounds.antt =====
-- Valid actions and what they do to a betting round.
use hump.Prelude.{
  ◌≡◌, refl, ◌↔◌, ◌⊎◌, Bool, true, List, [], ◌∷◌, arith, ℤ, pos, ◌+ℤ◌, ◌≤ℤ◌, ◌<ℤ◌, ==ℤ_iff, length,
  All,
}
use hump.Model.{big_blind}
use hump.Betting.{
  Action, fold, call, raise, BettingState, folded_bet, is_valid_action, calculate_min_raise,
  apply_action, all_acted, all_settled, is_round_complete,
}

-- A round in which a further raise has to top the current bet by a big blind.
pub record IsOpen (s : BettingState) : Type 0 where
  pub bet : pos 0 ≤ℤ s.current_bet
  pub pot_made : pos 0 ≤ℤ s.pot
  pub raise_tops : s.current_bet <ℤ s.min_raise
  pub raise_blind : big_blind ≤ℤ s.min_raise

-- A valid action keeps the round in order, never lowers the pot or the current bet, puts no more into the
-- pot than the player has, and puts all of its amount there unless it is a fold.
pub apply_action-IsOpen :
    (a : Action) (amount : ℤ) (s : BettingState) (player_stack : ℤ)
    → IsOpen s
    → pos 0 ≤ℤ player_stack
    → is_valid_action a amount s player_stack ≡ true
    → let t = apply_action a amount s player_stack in
      IsOpen t
      × (s.current_bet ≤ℤ t.current_bet)
      × (t.pot ≡ s.pot +ℤ amount)
      × (pos 0 ≤ℤ amount)
      × (amount ≤ℤ player_stack)
unfolding is_valid_action apply_action calculate_min_raise ◌+ℤ◌
apply_action-IsOpen fold amount s stack o p h = ground arith
apply_action-IsOpen call amount s stack o p h = ground arith
apply_action-IsOpen raise amount s stack o p h = ground arith

abbrev AllTrue : List Bool → Type 0
AllTrue bs = All (λ b. b ≡ true) bs

abbrev Settled : ℤ → List ℤ → Type 0
Settled current_bet bets = All (λ b. (b ≡ current_bet) ⊎ (b ≡ folded_bet)) bets

all_acted_iff : (bs : List Bool) → (all_acted bs ≡ true) ↔ AllTrue bs
unfolding all_acted
all_acted_iff [] = (λ _. tt, λ _. refl)
all_acted_iff (b ∷ bs) = ground (arith, all_acted_iff bs)

all_settled_iff : (bets : List ℤ) (c : ℤ) → (all_settled bets c ≡ true) ↔ Settled c bets
unfolding all_settled
all_settled_iff [] c = (λ _. tt, λ _. refl)
all_settled_iff (b ∷ bets) c =
    ground (arith, ==ℤ_iff b c, ==ℤ_iff b folded_bet, all_settled_iff bets c)

-- A round is complete exactly when there is a flag for each bet, everyone has acted, and every bet is the
-- current one or that of a player who folded.
is_round_complete_iff :
    (has_acted : List Bool) (bets : List ℤ) (current_bet : ℤ)
    → (is_round_complete has_acted bets current_bet ≡ true)
      ↔ ((length has_acted ≡ length bets) × AllTrue has_acted × Settled current_bet bets)
unfolding is_round_complete
is_round_complete_iff has_acted bets c =
    ground (arith, all_acted_iff has_acted, all_settled_iff bets c)
