-- ===== src/Poker/Game/Finish/Laws.antt =====
-- The accounts of a finished hand: `finish` and `rakeFor` of poker.game.ts.
use casino_app.Prelude.{
  ℕ, ◌+◌, ◌*◌, ◌/◌, ◌≤◌, ◌≡◌, refl, ap, inl, inr, Bool, ◌==◌, Option, none, some, List, [], ◌∷◌,
  ◌++◌, map, length, sum_of, All, Bool-cases, arith, ==_iff,
}
use native.Mathlib.Nat.{mul-le-mul_left}
use casino_app.Prelude.Int.{ℤ, pos, ◌+ℤ◌, eq_parts, int_laws}
use casino_app.Prelude.Dict.{Dict, lookup, put, lookup-put}
use casino_app.Poker.Betting.{HandSeat, find_seat}
use casino_app.Poker.Pots.{
  Showdown, accounted_for, Settled, settled, hand_too_short, lost_chips, max_live, return_uncalled,
  credit,
}
use casino_app.Poker.Pots.Sides.{find_pot_player, DistinctIds}
use casino_app.Poker.Pots.Payment.{held, held-put, held-credit}
use casino_app.Poker.Pots.Conservation.{
  chips, returned_chips, settled_accounts, settle_showdown_conserves, CanRank,
}
use casino_app.Poker.Config.{PokerConfig, InSchema}
use casino_app.Poker.Game.{PokerState, PokerResult, Event, done, seat_chips, pot_size, done-inj}
use casino_app.Poker.Game.Finish.Payouts.{DistinctUsers, PaidOut, pay_seats-PaidOut}
use casino_app.Poker.Game.Finish.{
  result_of, pay_seats, rake_for, pot_players, seat_stacks, add_awards, final_stacks,
  goes_to_showdown, players_of, settle_hand, closed_with, finish,
}

abbrev pub NoSeatIn : Dict ℤ → List HandSeat → Type 0
NoSeatIn d = All (λ s. lookup s.user_id d ≡ none)

-- The rake of a hand is within the cap and at most a tenth of the pot, and a hand without a flop pays
-- none, for every configuration in the schema.
pub rake_for_bounds :
    (state : PokerState) (config : PokerConfig)
    → InSchema config
    → (rake_for state config ≤ config.rake_cap)
      × (10 * rake_for state config ≤ pot_size state.betting.seats)
      × (state.board ≡ [] → rake_for state config ≡ 0)
unfolding rake_for
rake_for_bounds state config h =
    let share : 10 * (pot_size state.betting.seats * config.rake_bps / 10_000)
        ≤ pot_size state.betting.seats =
      share_bound (pot_size state.betting.seats) config.rake_bps h.rake_range in
    ground (arith, share)
  where
    share_bound : (pot bps : ℕ) → bps ≤ 1_000 → 10 * (pot * bps / 10_000) ≤ pot
    share_bound pot bps le = omega (arith, mul-le-mul_left pot le)

put_keeps_absent :
    (d : Dict ℤ) (key : ℕ) (v : ℤ) (seats : List HandSeat)
    → find_seat key seats ≡ none
    → NoSeatIn d seats
    → NoSeatIn (put key v d) seats
put_keeps_absent d key v [] f h = tt
put_keeps_absent d key v (s ∷ seats) f h =
    (absent, put_keeps_absent d key v seats (ground arith) h.1)
  where
    absent : lookup s.user_id (put key v d) ≡ none
    absent = ground (
      arith,
      lookup-put key s.user_id v d,
      (==_iff key s.user_id).0,
      (==_iff s.user_id key).1,
      h.0,
    )

held-seat_stacks :
    (seats : List HandSeat) (d : Dict ℤ)
    → DistinctUsers seats
    → NoSeatIn d seats
    → held (seat_stacks seats d) ≡ held d +ℤ pos (sum_of (λ s. s.stack) seats)
unfolding seat_stacks
held-seat_stacks [] d u h = omega int_laws
held-seat_stacks (s ∷ seats) d u h =
    let rest =
      held-seat_stacks seats (put s.user_id (pos s.stack) d) u.1
        (put_keeps_absent d s.user_id (pos s.stack) seats u.0 h.1) in
    let added : held (put s.user_id (pos s.stack) d) +ℤ pos 0 ≡ held d +ℤ pos s.stack =
      rw h.0 at (held-put s.user_id (pos s.stack) d) in
    omega (int_laws, eq_parts _ _ rest, eq_parts _ _ added)

held-add_awards :
    (awards : List (ℕ × ℤ)) (d : Dict ℤ) → held (add_awards awards d) ≡ held d +ℤ held awards
unfolding add_awards
held-add_awards [] d = omega int_laws
held-add_awards ((user, amount) ∷ awards) d = omega (
  int_laws,
  eq_parts _ _ (held-add_awards awards (credit user amount d)),
  eq_parts _ _ (held-credit user amount d),
)

held-returned :
    (awards : List (ℕ × ℤ)) (returned : List (ℕ × ℕ))
    → held (awards ++ map (λ r. (r.0, pos r.1)) returned)
      ≡ held awards +ℤ pos (returned_chips returned)
held-returned [] [] = omega int_laws
held-returned [] ((user, n) ∷ returned) = omega (int_laws, eq_parts _ _ (held-returned [] returned))
held-returned ((user, amount) ∷ awards) returned =
    omega (int_laws, eq_parts _ _ (held-returned awards returned))

chips-pot_players :
    (count button : ℕ) (shown : Bool) (index : ℕ) (seats : List HandSeat)
    → chips (pot_players count button shown index seats) ≡ pot_size seats
chips-pot_players count button shown index [] = refl
chips-pot_players count button shown index (s ∷ seats) =
    ap (λ n. s.committed + n) (chips-pot_players count button shown (index + 1) seats)

seat_chips_split :
    (seats : List HandSeat) → seat_chips seats ≡ sum_of (λ s. s.stack) seats + pot_size seats
seat_chips_split [] = refl
seat_chips_split (s ∷ seats) = omega (arith, seat_chips_split seats)

stacks_account :
    (state : PokerState) (s : Showdown)
    → DistinctUsers state.betting.seats
    → accounted_for s ≡ pos (pot_size state.betting.seats)
    → held (final_stacks state.betting.seats s) +ℤ pos s.rake ≡ pos (seat_chips state.betting.seats)
stacks_account state s u accounts =
    let seats = state.betting.seats in
    omega (
      int_laws,
      eq_parts _ _ (
          held-add_awards (s.awards ++ map (λ r. (r.0, pos r.1)) s.returned)
            (seat_stacks seats [])),
      eq_parts _ _ (held-returned s.awards s.returned),
      eq_parts _ _ (held-seat_stacks seats [] u (nothing_yet seats)),
      eq_parts _ _ accounts,
      seat_chips_split seats,
    )
  where
    nothing_yet : (seats : List HandSeat) → NoSeatIn [] seats
    nothing_yet [] = tt
    nothing_yet (s ∷ seats) = (refl, nothing_yet seats)

-- The chips of a table: on it while the hand is played, and in the stacks and the rake afterwards.
abbrev pub result_chips : List HandSeat → Option PokerResult → ℤ
result_chips seats none = pos (seat_chips seats)
result_chips seats (some result) = held result.stacks +ℤ pos result.rake

abbrev pub table_chips : PokerState → ℤ
table_chips state = result_chips state.betting.seats state.result

-- What a finished hand leaves: a result, each seat with its stack and what the result pays its user,
-- no turn, and every chip accounted for.
abbrev pub Finished : PokerState → PokerState → Type 0
Finished state closed =
    (result : PokerResult) × (closed.result ≡ some result)
    × PaidOut state.betting.seats closed
    × (closed.to_act_index ≡ none)
    × (table_chips closed ≡ pos (seat_chips state.betting.seats))

pub finish-Finished :
    (state : PokerState) (config : PokerConfig) (events : List Event) {r : PokerState × List Event}
    → DistinctUsers state.betting.seats
    → finish state config events ≡ done r
    → Finished state r.0
unfolding finish
finish-Finished state config events {r} u e = by_settlement (settle_hand state config) refl
  where
    by_settlement : (o : Settled) → settle_hand state config ≡ o → Finished state r.0
    by_settlement (settled s) f =
        let seats = state.betting.seats in
        let accounts = settled_accounts _ _ _ s f in
        let same =
          chips-pot_players (length seats) state.button_index (goes_to_showdown state) 0 seats in
        let is = done-inj (rw (f, finish) at e) in
        rw (← is) (
          result_of state s (pay_seats state config (goes_to_showdown state) s),
          refl,
          pay_seats-PaidOut state config (goes_to_showdown state) s u,
          refl,
          stacks_account state s u (rw same at accounts),
        )
    by_settlement hand_too_short f = absurd (ground arith)
    by_settlement (lost_chips a b) f = absurd (ground arith)

find_pot_player-pot_players :
    (count button : ℕ) (shown : Bool) (index user : ℕ) (seats : List HandSeat)
    → find_seat user seats ≡ none
    → find_pot_player user (pot_players count button shown index seats) ≡ none
find_pot_player-pot_players count button shown index user [] h = refl
find_pot_player-pot_players count button shown index user (s ∷ seats) h =
    elim (Bool-cases (s.user_id == user)) [
      | inl hit ↦ absurd (ground arith)
      | inr miss ↦
          rw miss
            (find_pot_player-pot_players count button shown (index + 1) user seats (rw miss at h))
    ]

pot_players-DistinctIds :
    (count button : ℕ) (shown : Bool) (index : ℕ) (seats : List HandSeat)
    → DistinctUsers seats
    → DistinctIds (pot_players count button shown index seats)
pot_players-DistinctIds count button shown index [] u = tt
pot_players-DistinctIds count button shown index (s ∷ seats) u = (
  find_pot_player-pot_players count button shown (index + 1) s.user_id seats u.0,
  pot_players-DistinctIds count button shown (index + 1) seats u.1,
)

-- A hand always finishes, each seat with its stack and what the result pays its user, and with all its
-- chips in the final stacks and the rake, if its users are distinct, each contender of a showdown has five cards with the board, and after the return of the
-- uncalled excess no folded player has put in more than everybody still in.
pub finish_pays :
    (state : PokerState) (config : PokerConfig) (events : List Event)
    → DistinctUsers state.betting.seats
    → All
        (λ p. p.committed ≤ max_live (return_uncalled (players_of state)).0)
        (return_uncalled (players_of state)).0
    → All (CanRank state.board) (return_uncalled (players_of state)).0
    → (r : PokerState × List Event) × (finish state config events ≡ done r) × Finished state r.0
unfolding finish
finish_pays state config events u covered hands =
    let seats = state.betting.seats in
    let (s, is, _, _) =
      settle_showdown_conserves (players_of state) state.board (rake_for state config)
        (pot_players-DistinctIds (length seats) state.button_index (goes_to_showdown state) 0 seats
          u)
        covered hands in
    let r = closed_with state config events s in
    let finished : finish state config events ≡ done r = rw (is, finish) refl in
    (r, finished, finish-Finished state config events u finished)
