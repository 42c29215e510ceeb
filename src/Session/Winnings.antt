-- ===== src/Session/Winnings.antt =====
-- The winnings that `broadcastHandCompleted` announces and the chips that `endHand` pays out.

use hump.Prelude.{
  ℕ, suc, ◌^◌, ◌<◌, ◌≡◌, refl, ap, ◌∙◌, List, [], ◌∷◌, map, ℤ, pos, length, String, some, ok,
}
use hump.Model.{Ptr, load, Hand}
use hump.Hand.{determine_winners}
use hump.Pot.{distribute_pot}
use hump.Pot.Split.{AllLive}
use hump.Session.{GameSession, hand_completed, returned, manager, with_manager, broadcast_json}
use hump.Session.Act.{complete_hand, pay_out}
use hump.Session.Outbox.{Sends-broadcast}
use hump.Session.Broadcasts.{
  total_pot, won, completed_reply, stacks_loop, completed_with, broadcast_hand_completed,
}
use hump.Presence.{PlayerStateManager}
use hump.Table.{TableManager, end_hand, end_of, close_hand}
use hump.Session.Shares.{
  amounts, sum, award_each, entries_lem, sum-won, paid_lem, ids-winner_entries, total_alone,
}

-- The announcement, and the payment.
announced_lem :
    (g : GameSession) (h : Hand) (ws : List Ptr)
    → (manager g).table.current_hand ≡ some h
    → h.winners ≡ []
    → determine_winners (manager g).store h ≡ ok ws
    → broadcast_hand_completed g
      ≡ returned (broadcast_json g (completed_reply (manager g).store h ws))
unfolding broadcast_hand_completed completed_with
announced_lem g h ws e none_yet best = ap (completed_with g) e ∙ simp (none_yet, best) refl

end_hand_lem :
    (m : TableManager) (h : Hand) (ws : List Ptr)
    → m.table.current_hand ≡ some h
    → determine_winners m.store h ≡ ok ws
    → end_hand m ≡ ok (close_hand m (distribute_pot m.store (record h { winners = ws }) ws).0)
unfolding end_hand end_of
end_hand_lem m h ws e best = ap (end_of m) e ∙ simp best refl

pay_out_lem :
    (g : GameSession) (m m' : TableManager)
    → manager g ≡ m
    → end_hand m ≡ ok m'
    → pay_out (returned g) ≡ returned (with_manager g m')
unfolding pay_out
pay_out_lem g m m' e r = rw (e, r) refl

-- The end of a hand that is complete, with one winner or more by the showdown, none of them recorded in it yet, a
-- positive pot and no side pots: the code does not throw. The announcement names the winners in their order, each
-- with his share, the shares add up to the pot, and what each is paid is what is announced; then the hand is closed.
-- The stacks in the announcement, `updated_stacks`, are those from before the payment.
pub complete_hand_lem :
    (g : GameSession) (h : Hand) (w : Ptr) (ws : List Ptr) (a : ℕ)
    → (manager g).table.current_hand ≡ some h
    → h.winners ≡ []
    → determine_winners (manager g).store h ≡ ok (w ∷ ws)
    → h.pot ≡ pos (suc a)
    → h.side_pots ≡ []
    → length (w ∷ ws) < 2 ^ 64
    → AllLive (manager g).store (w ∷ ws)
    → (entries : List (String × ℤ)) × (map (λ e. e.0) entries
        ≡ map (λ p. (load (manager g).store p).id) (w ∷ ws))
      × (sum (amounts entries) ≡ h.pot)
      × (complete_hand g
          ≡ returned (
              with_manager
                (broadcast_json g (
                  hand_completed (record {
                    hand_id = h.id;
                    winners = entries;
                    updated_stacks = stacks_loop (manager g).store h.players [];
                  })))
                (close_hand (manager g) (award_each (manager g).store (w ∷ ws) (amounts entries)))))
unfolding complete_hand completed_reply
complete_hand_lem g h w ws a e none_yet best pot side n l =
    let st = (manager g).store in
    let entries = won st (w ∷ ws) (pos (suc a)) in
    let stacks = stacks_loop st h.players [] in
    let total : total_pot h.pot h.side_pots ≡ pos (suc a) = total_alone h a pot side in
    let ids : map (λ e. e.0) entries ≡ map (λ p. (load st p).id) (w ∷ ws) =
      rw (entries_lem st w ws a) (ids-winner_entries st (w ∷ ws) _ _ 0 l) in
    let reply = λ (t : ℤ).
      hand_completed
        (record { hand_id = h.id; winners = won st (w ∷ ws) t; updated_stacks = stacks }) in
    let announced = broadcast_json g (reply (pos (suc a))) in
    let paid = paid_lem st (record h { winners = w ∷ ws }) w ws a pot side l in
    (
      entries,
      ids,
      rw pot (sum-won st w ws a n l),
      ap pay_out (
            announced_lem g h (w ∷ ws) e none_yet best
            ∙ ap (λ t. returned (broadcast_json g (reply t))) total)
          ∙ pay_out_lem announced (manager g) _
              (ap (λ (s : PlayerStateManager). s.table_manager)
                (Sends-broadcast g (reply (pos (suc a)))).players_kept)
              (end_hand_lem (manager g) h (w ∷ ws) e best
                ∙ ap (λ t. ok (close_hand (manager g) t)) paid),
    )
