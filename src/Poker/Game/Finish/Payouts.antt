-- ===== src/Poker/Game/Finish/Payouts.antt =====
-- What each seat holds after `finish` of poker.game.ts: its stack, and what the result pays its user.
use casino_app.Prelude.{
  ℕ, ◌≡◌, refl, sym, ap, ◌∙◌, inl, inr, Bool, ◌==◌, Option, none, some, or_else, List, [], ◌∷◌,
  ◌++◌, map, Bool-cases, arith, ==_iff, if◌then◌else◌,
}
use casino_app.Prelude.Int.{ℤ, pos, ◌+ℤ◌, eq_parts, int_laws, sum_ℤ}
use casino_app.Prelude.Dict.{Dict, lookup, put, lookup-put}
use casino_app.Poker.Betting.{HandSeat, find_seat}
use casino_app.Poker.Pots.{Showdown, credit}
use casino_app.Poker.Config.{PokerConfig}
use casino_app.Poker.Game.{PokerState, PokerResult, PaidSeat, in_play, table_seats}
use casino_app.Poker.Game.Finish.{
  seat_stacks, add_awards, pay_seat, pay_seats, result_of, close_hand,
}

-- No two seats belong to the same user.
abbrev pub DistinctUsers : List HandSeat → Type 0
DistinctUsers [] = Unit
DistinctUsers (s ∷ seats) = (find_seat s.user_id seats ≡ none) × DistinctUsers seats

-- Who sits at the table, with which stack, and what they have put in.
abbrev pub holding : HandSeat → ℕ × ℕ × ℕ
holding s = (s.user_id, s.stack, s.committed)

-- The same of a seat with its exact stack.
abbrev pub final_holding : PaidSeat → ℕ × ℤ × ℕ
final_holding p = (p.seat.user_id, p.stack, p.seat.committed)

-- The chips that a list of awards has for a user.
abbrev pub paid_by : ℕ → List (ℕ × ℤ) → ℤ
paid_by user awards = sum_ℤ (λ (a : ℕ × ℤ). if a.0 == user then a.1 else pos 0) awards

-- What a hand pays a user: nothing while it is played, then their awards and their returned excess.
abbrev pub payout : Option PokerResult → ℕ → ℤ
payout none user = pos 0
payout (some result) user =
    paid_by user result.awards +ℤ paid_by user (map (λ r. (r.0, pos r.1)) result.returned)

abbrev pub paid_holding : Option PokerResult → ℕ × ℕ × ℕ → ℕ × ℤ × ℕ
paid_holding result h = (h.0, pos h.1 +ℤ payout result h.0, h.2)

-- Each seat of the table holds what it held, and what the hand pays its user if it is over.
abbrev pub PaidOut : List HandSeat → PokerState → Type 0
PaidOut seats after =
    map final_holding (table_seats after) ≡ map (paid_holding after.result) (map holding seats)

plus_nothing : (a : ℤ) → a +ℤ pos 0 ≡ a
plus_nothing a = omega int_laws

-- A hand in play has paid nothing.
pub in_play-PaidOut : (after : PokerState) → after.result ≡ none → PaidOut after.betting.seats after
in_play-PaidOut after n = rw n (each after.betting.seats)
  where
    each :
        (seats : List HandSeat)
        → map final_holding (map in_play seats) ≡ map (paid_holding none) (map holding seats)
    each [] = refl
    each (s ∷ seats) =
        rw (plus_nothing (pos s.stack))
          (ap (λ t. (s.user_id, pos s.stack, s.committed) ∷ t) (each seats))

paid_by-append :
    (user : ℕ) (a b : List (ℕ × ℤ)) → paid_by user (a ++ b) ≡ paid_by user a +ℤ paid_by user b
paid_by-append user [] b = omega int_laws
paid_by-append user ((u, n) ∷ a) b = omega (int_laws, eq_parts _ _ (paid_by-append user a b))

lookup-add_awards :
    (user : ℕ) (n : ℤ) (awards : List (ℕ × ℤ)) (d : Dict ℤ)
    → lookup user d ≡ some n
    → lookup user (add_awards awards d) ≡ some (n +ℤ paid_by user awards)
unfolding add_awards
lookup-add_awards user n [] d h = h ∙ ap some (sym (plus_nothing n))
lookup-add_awards user n ((u, amount) ∷ awards) d h = elim (Bool-cases (u == user)) [
  | inl same ↦
      (let ids : u ≡ user = (==_iff u user).0 same in
        let credited : lookup user (credit u amount d) ≡ some (n +ℤ amount) =
          lookup-put u user (or_else (lookup u d) (pos 0) +ℤ amount) d ∙ rw (same, ids, h) refl in
        let sums : n +ℤ amount +ℤ paid_by user awards ≡ n +ℤ (amount +ℤ paid_by user awards) =
          omega int_laws in
        rw same
          (lookup-add_awards user (n +ℤ amount) awards (credit u amount d) credited ∙ ap some sums))
  | inr other ↦
      (let kept : lookup user (credit u amount d) ≡ some n =
          lookup-put u user (or_else (lookup u d) (pos 0) +ℤ amount) d ∙ rw other h in
        let sums : n +ℤ paid_by user awards ≡ n +ℤ (pos 0 +ℤ paid_by user awards) =
          omega int_laws in
        rw other (lookup-add_awards user n awards (credit u amount d) kept ∙ ap some sums))
]

lookup-seat_stacks :
    (user : ℕ) (n : ℤ) (seats : List HandSeat) (d : Dict ℤ)
    → find_seat user seats ≡ none
    → lookup user d ≡ some n
    → lookup user (seat_stacks seats d) ≡ some n
unfolding seat_stacks
lookup-seat_stacks user n [] d f h = h
lookup-seat_stacks user n (s ∷ seats) d f h = elim (Bool-cases (s.user_id == user)) [
  | inl same ↦ absurd (ground arith)
  | inr other ↦
      lookup-seat_stacks user n seats (put s.user_id (pos s.stack) d) (rw other at f)
        (lookup-put s.user_id user (pos s.stack) d ∙ rw other h)
]

-- The final stack of a seat of the table: its stack, and what its user is awarded and returned.
abbrev stack_after : Showdown → HandSeat → ℤ
stack_after s seat =
    pos seat.stack +ℤ paid_by seat.user_id (s.awards ++ map (λ r. (r.0, pos r.1)) s.returned)

pays_each :
    (config : PokerConfig) (shown : Bool) (s : Showdown) (seats : List HandSeat) (d : Dict ℤ)
    → DistinctUsers seats
    → let stacks =
        add_awards (s.awards ++ map (λ r. (r.0, pos r.1)) s.returned) (seat_stacks seats d) in
      map final_holding (map (pay_seat config shown s stacks) seats)
      ≡ map (λ (t : HandSeat). (t.user_id, stack_after s t, t.committed)) seats
unfolding seat_stacks
pays_each config shown s [] d u = refl
pays_each config shown s (seat ∷ seats) d u =
    let n = pos seat.stack in
    let there : lookup seat.user_id (put seat.user_id n d) ≡ some n =
      lookup-put seat.user_id seat.user_id n d
      ∙ rw ((==_iff seat.user_id seat.user_id).1 refl) refl in
    let start = lookup-seat_stacks seat.user_id n seats (put seat.user_id n d) u.0 there in
    let paid =
      lookup-add_awards seat.user_id n (s.awards ++ map (λ r. (r.0, pos r.1)) s.returned)
        (seat_stacks seats (put seat.user_id n d)) start in
    rw paid (
      ap (λ ts. (seat.user_id, stack_after s seat, seat.committed) ∷ ts)
        (pays_each config shown s seats (put seat.user_id n d) u.1))

pub pay_seats-PaidOut :
    (state : PokerState) (config : PokerConfig) (shown : Bool) (s : Showdown)
    → DistinctUsers state.betting.seats
    → let paid = pay_seats state config shown s in
      PaidOut state.betting.seats (close_hand state (result_of state s paid) paid)
pay_seats-PaidOut state config shown s u =
    pays_each config shown s state.betting.seats [] u ∙ same state.betting.seats
  where
    same :
        (seats : List HandSeat)
        → map (λ (t : HandSeat). (t.user_id, stack_after s t, t.committed)) seats
          ≡ map
              (paid_holding (some (result_of state s (pay_seats state config shown s))))
              (map holding seats)
    same [] = refl
    same (t ∷ seats) =
        rw (paid_by-append t.user_id s.awards (map (λ r. (r.0, pos r.1)) s.returned)) (
          ap
            (λ ts.
              (
                t.user_id,
                pos t.stack
                    +ℤ (paid_by t.user_id s.awards
                        +ℤ paid_by t.user_id (map (λ r. (r.0, pos r.1)) s.returned)),
                t.committed,
              )
              ∷ ts)
            (same seats))
