-- ===== src/Poker/Game/Flow/Laws.antt =====
-- What `advance` and `nextStreet` of poker.game.ts leave as it is, and where they leave the turn.
use casino_app.Prelude.{
  ℕ, ◌+◌, ◌≤◌, ◌<◌, ◌≡◌, refl, sym, ap, ◌∙◌, inl, inr, Bool, true, false, ◌==◌, ltb, leb, none,
  some, List, [], ◌∷◌, map, filter, length, get_elem?, sum_of, All, Bool-cases, Option-cases, arith,
}
use casino_app.Prelude.Int.{pos}
use casino_app.Poker.Betting.{
  Street, HandSeat, find_seat, is_live, contenders, next_to_act, betting_round_complete,
}
use casino_app.Poker.Betting.Turns.{OwesAt, next_to_act_finds}
use casino_app.Poker.Config.{PokerConfig}
use casino_app.Poker.Game.{
  PokerState, Context, Event, ReduceResult, Outcome, done, refused, done-inj, seat_chips, arm_timer,
}
use casino_app.Poker.Game.Finish.{finish}
use casino_app.Poker.Game.Finish.Payouts.{
  DistinctUsers, holding, PaidOut, paid_holding, in_play-PaidOut,
}
use casino_app.Poker.Game.Finish.Laws.{table_chips, finish-Finished}
use casino_app.Poker.Game.Flow.{
  end_hand, turn_given, give_turn, streets_after, deal_street, deal_streets, clear_bet,
  clear_street, open_or_end, dealt_from, deal_on, next_street, advance,
}

-- A state whose seats hold what these do, and what the hand pays if it is over, with all their chips
-- on the table or in the result.
abbrev pub KeepsChips : List HandSeat → PokerState → Type 0
KeepsChips seats after = PaidOut seats after × (table_chips after ≡ pos (seat_chips seats))

pub seat_chips-holding :
    (a b : List HandSeat) → map holding a ≡ map holding b → seat_chips a ≡ seat_chips b
seat_chips-holding a b h = held_by a ∙ ap (sum_of (λ t. t.1 + t.2)) h ∙ sym (held_by b)
  where
    held_by :
        (seats : List HandSeat) → seat_chips seats ≡ sum_of (λ t. t.1 + t.2) (map holding seats)
    held_by [] = refl
    held_by (s ∷ seats) = ap (λ n. s.stack + s.committed + n) (held_by seats)

holding-clear_bet : (seats : List HandSeat) → map holding (map clear_bet seats) ≡ map holding seats
holding-clear_bet [] = refl
holding-clear_bet (s ∷ seats) = ap (λ t. holding s ∷ t) (holding-clear_bet seats)

find_seat-clear_bet :
    (user : ℕ) (seats : List HandSeat)
    → find_seat user seats ≡ none
    → find_seat user (map clear_bet seats) ≡ none
find_seat-clear_bet user [] h = refl
find_seat-clear_bet user (s ∷ seats) h = elim (Bool-cases (s.user_id == user)) [
  | inl hit ↦ absurd (ground arith)
  | inr miss ↦ rw miss (find_seat-clear_bet user seats (rw miss at h))
]

DistinctUsers-clear_bet :
    (seats : List HandSeat) → DistinctUsers seats → DistinctUsers (map clear_bet seats)
DistinctUsers-clear_bet [] u = tt
DistinctUsers-clear_bet (s ∷ seats) u =
    (find_seat-clear_bet s.user_id seats u.0, DistinctUsers-clear_bet seats u.1)

pub KeepsChips-trans :
    (a b : List HandSeat) (after : PokerState)
    → map holding a ≡ map holding b
    → KeepsChips a after
    → KeepsChips b after
KeepsChips-trans a b after same (holds, chips) = (
  holds ∙ ap (map (paid_holding after.result)) same,
  chips ∙ ap pos (seat_chips-holding a b same),
)

module _ (ctx : Context) (config : PokerConfig) where
  end_hand-KeepsChips :
      (state : PokerState) (events : List Event) {r : ReduceResult}
      → DistinctUsers state.betting.seats
      → end_hand state config events ≡ done r
      → KeepsChips state.betting.seats r.state
  unfolding end_hand
  end_hand-KeepsChips state events {r} u e = by_finish (finish state config events) refl
    where
      by_finish :
          (o : Outcome (PokerState × List Event))
          → finish state config events ≡ o
          → KeepsChips state.betting.seats r.state
      by_finish (done p) f =
          let is = done-inj (rw (f, end_hand) at e) in
          let closed = finish-Finished state config events u f in rw (← is) (closed.2, closed.4)
      by_finish (refused x) f = absurd (ground arith)

  give_turn-KeepsChips :
      (state : PokerState) (index : ℕ) (events : List Event) {r : ReduceResult}
      → state.result ≡ none
      → give_turn state ctx config index events ≡ done r
      → KeepsChips state.betting.seats r.state
  unfolding give_turn
  give_turn-KeepsChips state index events {r} n e =
      elim (Option-cases (get_elem? state.betting.seats index)) [
        | inl outside ↦ absurd (ground arith)
        | inr (seat, at) ↦
            (let is = done-inj (rw (at, give_turn) at e) in
              rw (← is) (
                in_play-PaidOut (turn_given state ctx config index seat events).state n,
                rw n refl,
              ))
      ]

  deal_streets_keeps :
      (can_still_bet : Bool) (streets : List Street) (state : PokerState) (events : List Event)
      → ((deal_streets can_still_bet streets state events).0.betting.seats ≡ state.betting.seats)
        × ((deal_streets can_still_bet streets state events).0.result ≡ state.result)
  unfolding deal_streets
  deal_streets_keeps can_still_bet [] state events = (refl, refl)
  deal_streets_keeps true (street ∷ streets) state events = (refl, refl)
  deal_streets_keeps false (street ∷ streets) state events =
      deal_streets_keeps false streets (deal_street street state) _

  open_or_end-KeepsChips :
      (can_still_bet : Bool) (state : PokerState) (events : List Event) {r : ReduceResult}
      → DistinctUsers state.betting.seats
      → state.result ≡ none
      → open_or_end can_still_bet state ctx config events ≡ done r
      → KeepsChips state.betting.seats r.state
  unfolding open_or_end
  open_or_end-KeepsChips false state events u n e = end_hand-KeepsChips state events u e
  open_or_end-KeepsChips true state events u n e =
      elim (Option-cases (next_to_act state.betting state.button_index)) [
        | inl nobody ↦ end_hand-KeepsChips state events u (rw (nobody, open_or_end) at e)
        | inr (first, found) ↦
            give_turn-KeepsChips state first events n (rw (found, open_or_end) at e)
      ]

  deal_on-KeepsChips :
      (state : PokerState) (events : List Event) (streets : List Street) {r : ReduceResult}
      → DistinctUsers state.betting.seats
      → state.result ≡ none
      → deal_on state ctx config events streets ≡ done r
      → KeepsChips state.betting.seats r.state
  unfolding deal_on
  deal_on-KeepsChips state events [] u n e = end_hand-KeepsChips state events u e
  deal_on-KeepsChips state events (street ∷ streets) {r} u n e =
      let can_still_bet = ltb 1 (length (filter is_live (map clear_bet state.betting.seats))) in
      let dealt = dealt_from can_still_bet (street ∷ streets) state events in
      let (seats, result) =
        deal_streets_keeps can_still_bet (street ∷ streets) (clear_street state) events in
      let same : map holding dealt.0.betting.seats ≡ map holding state.betting.seats =
        ap (map holding) seats ∙ holding-clear_bet state.betting.seats in
      KeepsChips-trans dealt.0.betting.seats state.betting.seats r.state same (
        open_or_end-KeepsChips can_still_bet dealt.0 dealt.1
          (rw seats (DistinctUsers-clear_bet state.betting.seats u)) (result ∙ n) e)

  pub advance-KeepsChips :
      (state : PokerState) (from_index : ℕ) (events : List Event) {r : ReduceResult}
      → DistinctUsers state.betting.seats
      → state.result ≡ none
      → advance state ctx from_index config events ≡ done r
      → KeepsChips state.betting.seats r.state
  unfolding advance next_street
  advance-KeepsChips state from_index events u n e =
      elim (Bool-cases (leb (length (contenders state.betting)) 1)) [
        | inl alone ↦ end_hand-KeepsChips state events u (rw (alone, advance) at e)
        | inr several ↦ elim (Option-cases (next_to_act state.betting from_index)) [
          | inl nobody ↦
              deal_on-KeepsChips state events (streets_after state.betting.street) u n
                (rw (several, nobody, advance, next_street) at e)
          | inr (next, found) ↦
              give_turn-KeepsChips state next events n (rw (several, found, advance) at e)
        ]
      ]

  -- While the betting round is not complete and nobody has bet more than the current bet, an action
  -- is answered by the turn of a seat that owes an action, with its clock set.
  pub advance_asks :
      (state : PokerState) (from_index : ℕ) (events : List Event)
      → from_index < length state.betting.seats
      → All (λ s. s.street_bet ≤ state.betting.current_bet) state.betting.seats
      → betting_round_complete state.betting ≡ false
      → (r : ReduceResult) × (i : ℕ) × (advance state ctx from_index config events ≡ done r)
        × (r.state.to_act_index ≡ some i)
        × OwesAt r.state.betting i
        × (r.timer ≡ arm_timer config.turn_timer_ms)
        × (r.state.deadline_at ≡ some (ctx.now + config.turn_timer_ms))
  unfolding advance give_turn betting_round_complete
  advance_asks state from_index events lt low open_round =
      let (i, found, (seat, at, owes)) =
        next_to_act_finds state.betting from_index lt low open_round in
      let several : leb (length (contenders state.betting)) 1 ≡ false = ground arith in
      (
        turn_given state ctx config i seat events,
        i,
        rw (several, found, at, advance, give_turn) refl,
        refl,
        (seat, at, owes),
        refl,
        refl,
      )
