-- ===== src/Poker/Game/Actions/Laws.antt =====
-- Laws of `reduce` and `onTimeout` of poker.game.ts.
use casino_app.Prelude.{
  ℕ, zero, suc, ◌≡◌, refl, ap, inl, inr, Bool, true, false, not, ◌||◌, ◌==◌, Option, none, some,
  List, [], ◌∷◌, get_elem?, Bool-cases, Option-cases, arith, ==_iff,
}
use casino_app.Poker.Betting.{HandSeat}
use casino_app.Poker.Game.{
  PokerState, Context, config_of, Action, ReduceResult, done, done-inj, refused-not_done,
}
use casino_app.Poker.Game.Finish.Payouts.{DistinctUsers, in_play-PaidOut}
use casino_app.Poker.Game.Flow.Laws.{KeepsChips}
use casino_app.Poker.Game.Actions.{
  is_complete, find_index, is_turn, reduce, timeout_at, timeout_of, on_timeout,
}
use casino_app.Poker.Game.Actions.Chips.{Acts, some-inj, apply_action-Acts, seat_timeout-KeepsChips}

find_index_sound :
    (user : ℕ) (seats : List HandSeat) {found : ℕ × HandSeat}
    → find_index user seats ≡ some found
    → (get_elem? seats found.0 ≡ some found.1) × (found.1.user_id ≡ user)
unfolding find_index
find_index_sound user [] e = absurd (ground arith)
find_index_sound user (s ∷ seats) {found} e = elim (Bool-cases (s.user_id == user)) [
  | inl hit ↦
      (let is : (zero, s) ≡ found = some-inj (rw hit at e) in
        rw (← is) (refl, (==_iff s.user_id user).0 hit))
  | inr miss ↦ elim (Option-cases (find_index user seats)) [
    | inl nobody ↦ absurd (ground arith)
    | inr (r, later) ↦
        (let (there, user_of) = find_index_sound user seats later in
          let is : (suc r.0, r.1) ≡ found = some-inj (rw (miss, later, find_index) at e) in
          rw (← is) (there, user_of))
  ]
]

turn_index : (turn : Option ℕ) (index : ℕ) → is_turn turn index ≡ true → turn ≡ some index
turn_index none index h = absurd (ground arith)
turn_index (some i) index h = ap some ((==_iff i index).0 h)

-- With distinct users and no result yet, an accepted action is that of the seat whose turn it is, made
-- by its user in a hand that is not over. Chips of that seat's stack move into the pot or stay. Then
-- every seat of the table holds its stack, as it was but for that payment, with what the result awards
-- and returns to its user if the hand ends, and has put in what it had but for that payment; and no
-- chip is gained or lost, the rake counted in if the hand ends.
pub reduce_sound :
    (ctx : Context) (state : PokerState) (action : Action) (r : ReduceResult)
    → DistinctUsers state.betting.seats
    → state.result ≡ none
    → reduce ctx state action ≡ done r
    → (i : ℕ) × (seat : HandSeat) × (state.to_act_index ≡ some i)
      × (get_elem? state.betting.seats i ≡ some seat)
      × (seat.user_id ≡ action.user_id)
      × (is_complete state ≡ false)
      × Acts state i seat r.state
unfolding reduce
reduce_sound ctx state action r u n e = elim (Bool-cases (is_complete state)) [
  | inl over ↦ absurd (ground arith)
  | inr open_hand ↦ elim (Option-cases (find_index action.user_id state.betting.seats)) [
    | inl stranger ↦ absurd (refused-not_done (rw (open_hand, stranger, reduce) at e))
    | inr (found, at) ↦ elim (Bool-cases (is_turn state.to_act_index found.0)) [
      | inl turn ↦
          (let (there, user_of) = find_index_sound action.user_id state.betting.seats at in
            let applied = rw (open_hand, at, turn, reduce) at e in
            (
              found.0,
              found.1,
              turn_index state.to_act_index found.0 turn,
              there,
              user_of,
              open_hand,
              apply_action-Acts ctx (config_of ctx) state found.0 found.1 there u n action.kind
                  action.amount applied,
            ))
      | inr wait ↦ absurd (refused-not_done (rw (open_hand, at, wait, reduce) at e))
    ]
  ]
]

-- With distinct users and no result yet, an answer to a timer leaves what every user has put in as it
-- was, and every stack as it was with what the result awards and returns to its user if the hand ends;
-- and the chips of the table add up, whether the hand goes on or ends.
pub on_timeout_spends_nothing :
    (ctx : Context) (state : PokerState) (is_turn_timer : Bool) (r : ReduceResult)
    → DistinctUsers state.betting.seats
    → state.result ≡ none
    → on_timeout ctx state is_turn_timer ≡ done r
    → KeepsChips state.betting.seats r.state
unfolding on_timeout
on_timeout_spends_nothing ctx state is_turn_timer r u n e =
    elim (Bool-cases (not is_turn_timer || is_complete state)) [
      | inl idle ↦
          (let is = done-inj (rw (idle, on_timeout) at e) in
            rw (← is) (in_play-PaidOut state n, rw n refl))
      | inr expired ↦ at_turn state.to_act_index (rw (expired, on_timeout) at e)
    ]
  where
    at_turn :
        (turn : Option ℕ)
        → timeout_of ctx state turn ≡ done r
        → KeepsChips state.betting.seats r.state
    at_turn none h = (let is = done-inj h in rw (← is) (in_play-PaidOut state n, rw n refl))
    at_turn (some index) h = elim (Option-cases (get_elem? state.betting.seats index)) [
      | inl outside ↦ absurd (refused-not_done (rw (outside, timeout_of, timeout_at) at h))
      | inr (seat, at) ↦
          seat_timeout-KeepsChips ctx (config_of ctx) state index seat at u n
            (rw (at, timeout_of, timeout_at) at h)
    ]
