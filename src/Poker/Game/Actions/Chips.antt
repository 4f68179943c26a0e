-- ===== src/Poker/Game/Actions/Chips.antt =====
-- The chips that each action of poker.game.ts moves: `applyFold` to `applyRaise`, and the turn clock.
use casino_app.Prelude.{
  ℕ, zero, suc, ◌+◌, ◌-◌, ◌≤◌, ◌≡◌, refl, sym, ap, ◌∙◌, inl, inr, true, false, ◌==◌, ltb, leb, min,
  none, some, or_else, List, [], ◌∷◌, map, get_elem?, set, sum_of-set, Bool-cases, Option-cases,
  arith,
}
use casino_app.Prelude.Int.{ℤ, pos, negsuc, sub_ℕ, Number, int, not_int}
use casino_app.Prelude.Dict.{lookup}
use casino_app.Poker.Betting.{BettingState, HandSeat, find_seat, legal_actions, validate_raise}
use casino_app.Poker.Config.{PokerConfig}
use casino_app.Poker.Game.{
  PokerState, Context, ActionKind, fold, check, call, bet, raise, all_in_action, unknown, Event,
  folded, checked, called, auto_action, ReduceResult, done, done-inj, then-done, commit,
  all_in_target, mark_acted, seat_chips,
}
use casino_app.Poker.Game.Finish.Payouts.{
  DistinctUsers, holding, PaidOut, paid_holding, in_play-PaidOut,
}
use casino_app.Poker.Game.Finish.Laws.{table_chips}
use casino_app.Poker.Game.Flow.{advance}
use casino_app.Poker.Game.Flow.Laws.{KeepsChips, KeepsChips-trans, advance-KeepsChips}
use casino_app.Poker.Game.Actions.{
  with_betting, replace_seat, apply_fold, apply_check, apply_call, raise_to, raised_event,
  raise_checked, apply_raise, apply_action, act_for, seat_timeout, told_first,
}

-- A seat after an action: the same user, no chip gained or lost, and nothing taken back from the pot.
abbrev pub PaysIn : HandSeat → HandSeat → Type 0
PaysIn seat after =
    (after.user_id ≡ seat.user_id)
    × (after.stack + after.committed ≡ seat.stack + seat.committed)
    × (seat.committed ≤ after.committed)

find_seat-set :
    (user : ℕ) (seats : List HandSeat) (i : ℕ) (seat after : HandSeat)
    → get_elem? seats i ≡ some seat
    → after.user_id ≡ seat.user_id
    → find_seat user seats ≡ none
    → find_seat user (set seats i after) ≡ none
find_seat-set user [] i seat after at same h = refl
find_seat-set user (s ∷ seats) zero seat after at same h =
    (let eq : s ≡ seat = ground arith in
      let ids : s.user_id ≡ after.user_id = ap (λ (x : HandSeat). x.user_id) eq ∙ sym same in
      ground (arith, ids))
find_seat-set user (s ∷ seats) (suc i) seat after at same h =
    elim (Bool-cases (s.user_id == user)) [
      | inl hit ↦ absurd (ground arith)
      | inr miss ↦ rw miss (find_seat-set user seats i seat after at same (rw miss at h))
    ]

pub some-inj : {A : Type 0} {a b : A} → some a ≡ some b → a ≡ b
some-inj h = ground arith

DistinctUsers-set :
    (seats : List HandSeat) (i : ℕ) (seat after : HandSeat)
    → get_elem? seats i ≡ some seat
    → after.user_id ≡ seat.user_id
    → DistinctUsers seats
    → DistinctUsers (set seats i after)
DistinctUsers-set [] i seat after at same u = tt
DistinctUsers-set (s ∷ seats) zero seat after at same u =
    (let eq : s ≡ seat = ground arith in
      let ids : s.user_id ≡ after.user_id = ap (λ (x : HandSeat). x.user_id) eq ∙ sym same in
      (rw ids at u.0, u.1))
DistinctUsers-set (s ∷ seats) (suc i) seat after at same u = (
  find_seat-set s.user_id seats i seat after at same u.0,
  DistinctUsers-set seats i seat after at same u.1,
)

commit-PaysIn : (seat : HandSeat) (amount : ℤ) → PaysIn seat (commit seat amount)
unfolding commit
commit-PaysIn seat amount = (refl, omega arith, omega arith)

-- What an action of the seat at `index` leaves: its payment in, every seat with what it then holds and
-- what the hand pays its user if it is over, and the sum.
abbrev pub Acts : PokerState → ℕ → HandSeat → PokerState → Type 0
Acts state index seat next =
    (paid : HandSeat) × PaysIn seat paid
    × PaidOut (set state.betting.seats index paid) next
    × (table_chips next ≡ pos (seat_chips state.betting.seats))

map-holding-set_same :
    (seats : List HandSeat) (i : ℕ) (seat after : HandSeat)
    → get_elem? seats i ≡ some seat
    → holding after ≡ holding seat
    → map holding (set seats i after) ≡ map holding seats
map-holding-set_same [] i seat after at same = refl
map-holding-set_same (s ∷ seats) zero seat after at same =
    (let eq : s ≡ seat = ground arith in
      ap (λ t. t ∷ map holding seats) (same ∙ ap holding (sym eq)))
map-holding-set_same (s ∷ seats) (suc i) seat after at same =
    ap (λ ts. holding s ∷ ts) (map-holding-set_same seats i seat after at same)

module _ (ctx : Context) (config : PokerConfig) (state : PokerState) (index : ℕ) (seat : HandSeat)
    (at : get_elem? state.betting.seats index ≡ some seat) (u : DistinctUsers state.betting.seats)
    (n : state.result ≡ none) where
  advance-Acts :
      (betting : BettingState) (paid : HandSeat) (events : List Event) {r : ReduceResult}
      → betting.seats ≡ set state.betting.seats index paid
      → PaysIn seat paid
      → advance (with_betting state betting) ctx index config events ≡ done r
      → Acts state index seat r.state
  advance-Acts betting paid events {r} is pays e =
      let seats = state.betting.seats in
      let distinct : DistinctUsers betting.seats =
        rw is (DistinctUsers-set seats index seat paid at pays.0 u) in
      let kept =
        advance-KeepsChips ctx config (with_betting state betting) index events distinct n e in
      let sum : seat_chips betting.seats ≡ seat_chips seats =
        rw is (
          omega
            (arith, sum_of-set (λ (s : HandSeat). s.stack + s.committed) seats index paid at)) in
      (
        paid,
        pays,
        kept.0 ∙ ap (λ x. map (paid_holding r.state.result) (map holding x)) is,
        kept.1 ∙ ap pos sum,
      )

  apply_fold-KeepsChips :
      {r : ReduceResult}
      → apply_fold ctx state index seat config ≡ done r
      → KeepsChips state.betting.seats r.state
  unfolding apply_fold mark_acted
  apply_fold-KeepsChips {r} e =
      let out = record seat { folded = true } in
      let distinct : DistinctUsers (set state.betting.seats index out) =
        DistinctUsers-set state.betting.seats index seat out at refl u in
      let (holds, chips) =
        advance-KeepsChips ctx config
          (with_betting state (mark_acted (replace_seat state.betting index out) seat.user_id))
          index (folded seat.user_id ∷ []) distinct n e in
      KeepsChips-trans (set state.betting.seats index out) state.betting.seats r.state
        (map-holding-set_same state.betting.seats index seat out at refl) (holds, chips)

  apply_check-KeepsChips :
      {r : ReduceResult}
      → apply_check ctx state index seat config ≡ done r
      → KeepsChips state.betting.seats r.state
  unfolding apply_check mark_acted
  apply_check-KeepsChips e = elim (Bool-cases (ltb seat.street_bet state.betting.current_bet)) [
    | inl facing ↦ absurd (ground arith)
    | inr level ↦
        advance-KeepsChips ctx config (with_betting state (mark_acted state.betting seat.user_id))
          index (checked seat.user_id ∷ []) u n (rw (level, apply_check) at e)
  ]

  keeps_Acts :
      (next : PokerState) → KeepsChips state.betting.seats next → Acts state index seat next
  keeps_Acts next (holds, chips) = (
    seat,
    (refl, refl, omega arith),
    holds
        ∙ ap (map (paid_holding next.result))
            (sym (map-holding-set_same state.betting.seats index seat seat at refl)),
    chips,
  )

  apply_call-Acts :
      {r : ReduceResult}
      → apply_call ctx state index seat config ≡ done r
      → Acts state index seat r.state
  unfolding apply_call mark_acted
  apply_call-Acts e = elim (Bool-cases (leb state.betting.current_bet seat.street_bet)) [
    | inl level ↦ absurd (ground arith)
    | inr facing ↦
        (let amount = min (state.betting.current_bet - seat.street_bet) seat.stack in
          let paid = commit seat (pos amount) in
          advance-Acts (mark_acted (replace_seat state.betting index paid) seat.user_id) paid
            (called seat.user_id amount ∷ []) refl (commit-PaysIn seat (pos amount))
            (rw (facing, apply_call) at e))
  ]

  raise_checked-Acts :
      (target : Number) {r : ReduceResult}
      → raise_checked ctx state index seat target config ≡ done r
      → Acts state index seat r.state
  raise_checked-Acts (int (pos target)) e =
      advance-Acts (raise_to state.betting index seat target)
        (commit seat (sub_ℕ target seat.street_bet)) (raised_event state.betting seat target ∷ [])
        refl (commit-PaysIn seat (sub_ℕ target seat.street_bet)) e
  raise_checked-Acts (int (negsuc k)) e = absurd (ground arith)
  raise_checked-Acts not_int e = absurd (ground arith)

  apply_raise-Acts :
      (target : Number) {r : ReduceResult}
      → apply_raise ctx state index seat target config ≡ done r
      → Acts state index seat r.state
  unfolding apply_raise
  apply_raise-Acts target e =
      elim (Option-cases (validate_raise state.betting seat.user_id target)) [
        | inl fine ↦ raise_checked-Acts target (rw (fine, apply_raise) at e)
        | inr (problem, bad) ↦ absurd (ground arith)
      ]

  pub apply_action-Acts :
      (kind : ActionKind) (amount : Number) {r : ReduceResult}
      → apply_action ctx state index seat kind amount config ≡ done r
      → Acts state index seat r.state
  unfolding apply_action
  apply_action-Acts fold amount {r} e = keeps_Acts r.state (apply_fold-KeepsChips e)
  apply_action-Acts check amount {r} e = keeps_Acts r.state (apply_check-KeepsChips e)
  apply_action-Acts call amount e = apply_call-Acts e
  apply_action-Acts bet amount e = apply_raise-Acts amount e
  apply_action-Acts raise amount e = apply_raise-Acts amount e
  apply_action-Acts all_in_action amount e = apply_raise-Acts (int (pos (all_in_target seat))) e
  apply_action-Acts unknown amount e = absurd (ground arith)

  act_for-KeepsChips :
      {r : ReduceResult}
      → act_for ctx state index seat config ≡ done r
      → KeepsChips state.betting.seats r.state
  act_for-KeepsChips {r} e =
      elim (Bool-cases (legal_actions state.betting seat.user_id).can_check) [
        | inl free ↦
            (let (q, checks, is) =
                then-done (apply_check ctx state index seat config)
                  (told_first (auto_action seat.user_id true)) (rw free at e) in
              rw (← is) (apply_check-KeepsChips checks))
        | inr facing ↦
            (let (q, folds, is) =
                then-done (apply_fold ctx state index seat config)
                  (told_first (auto_action seat.user_id false)) (rw facing at e) in
              rw (← is) (apply_fold-KeepsChips folds))
      ]

  pub seat_timeout-KeepsChips :
      {r : ReduceResult}
      → seat_timeout ctx state index seat config ≡ done r
      → KeepsChips state.betting.seats r.state
  seat_timeout-KeepsChips {r} e =
      let bank = or_else (lookup seat.user_id state.timebank) 0 in
      elim (Bool-cases (ltb 0 bank)) [
        | inl some_left ↦
            (let is = done-inj (rw some_left at e) in
              rw (← is) (in_play-PaidOut state n, rw n refl))
        | inr empty ↦ act_for-KeepsChips (rw empty at e)
      ]
