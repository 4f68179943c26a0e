-- ===== src/Poker/Betting/Turns.antt =====
-- Whose turn it is: `nextToAct` of apps/api/src/games/poker/betting.ts.
use casino_app.Prelude.{
  ℕ, zero, suc, ◌+◌, ◌-◌, ◌%◌, ◌≤◌, ◌<◌, ◌≡◌, ◌⊎◌, inl, inr, refl, sym, ◌∙◌, true, false, some,
  List, [], ◌∷◌, arith, Bool-cases, Option-cases, length, get_elem?, filter, every, All,
}
use native.Mathlib.Nat.{mod-eq_of_lt}
use native.Mathlib.Decide.{ℕ_discrete, dec_lt}
use casino_app.Poker.Betting.{
  HandSeat, BettingState, is_live, is_settled, owes_action, walk_seats, next_to_act,
  betting_round_complete,
}

-- Who owes an action, and where.
abbrev pub OwesAt : BettingState → ℕ → Type 0
OwesAt st i = (seat : HandSeat) × (get_elem? st.seats i ≡ some seat) × (owes_action st seat ≡ true)

owing_seat :
    (st : BettingState) (seats : List HandSeat)
    → All (λ s. s.street_bet ≤ st.current_bet) seats
    → every (is_settled st) (filter is_live seats) ≡ false
    → (k : ℕ) × (k < length seats)
      × (seat : HandSeat) × (get_elem? seats k ≡ some seat)
      × (owes_action st seat ≡ true)
owing_seat st [] low h = absurd (ground arith)
owing_seat st (s ∷ seats) low h = elim (Bool-cases (owes_action st s)) [
  | inl owes ↦ (zero, omega arith, s, refl, owes)
  | inr done ↦
      (let (k, lt, seat, at, owes) = owing_seat st seats low.1 (ground arith) in
        (suc k, omega arith, seat, at, owes))
]

abbrev pub OwesNothingAt : BettingState → ℕ → Type 0
OwesNothingAt st i =
    (seat : HandSeat) → get_elem? st.seats i ≡ some seat → owes_action st seat ≡ false

owes_cases : (st : BettingState) (i : ℕ) → OwesAt st i ⊎ OwesNothingAt st i
owes_cases st i = elim (Option-cases (get_elem? st.seats i)) [
  | inl outside ↦ inr (λ seat at. absurd (ground arith))
  | inr (seat, at) ↦ elim (Bool-cases (owes_action st seat)) [
    | inl owes ↦ inl (seat, at, owes)
    | inr done ↦ inr (λ other at'. (let same : other ≡ seat = ground arith in rw same done))
  ]
]

unsettled :
    (st : BettingState)
    → betting_round_complete st ≡ false
    → every (is_settled st) (filter is_live st.seats) ≡ false
unfolding betting_round_complete
unsettled st h = ground arith

walk_hit :
    (st : BettingState) (from rounds step : ℕ)
    → OwesAt st ((from + step) % length st.seats)
    → walk_seats st from (suc rounds) step ≡ some ((from + step) % length st.seats)
unfolding walk_seats
walk_hit st from rounds step (seat, at, owes) = ground arith

walk_miss :
    (st : BettingState) (from rounds step : ℕ)
    → OwesNothingAt st ((from + step) % length st.seats)
    → walk_seats st from (suc rounds) step ≡ walk_seats st from rounds (step + 1)
unfolding walk_seats
walk_miss st from rounds step h =
    elim (Option-cases (get_elem? st.seats ((from + step) % length st.seats))) [
      | inl outside ↦ ground arith
      | inr (seat, at) ↦ ground (arith, h seat at)
    ]

walk_finds :
    (st : BettingState) (from rounds step target : ℕ)
    → step ≤ target
    → target < step + rounds
    → OwesAt st ((from + target) % length st.seats)
    → (i : ℕ) × (walk_seats st from rounds step ≡ some i) × OwesAt st i
walk_finds st from zero step target l h o = absurd (omega arith)
walk_finds st from (suc rounds) step target l h o =
    elim (owes_cases st ((from + step) % length st.seats)) [
      | inl owes ↦ ((from + step) % length st.seats, walk_hit st from rounds step owes, owes)
      | inr done ↦
          (let (i, found, owes) =
              walk_finds st from rounds (step + 1) target (later done) (omega arith) o in
            (i, walk_miss st from rounds step done ∙ found, owes))
    ]
  where
    clash : step ≡ target → OwesNothingAt st ((from + step) % length st.seats) → ⊥
    clash e done =
        let (seat, at, owes) = o in
        let owes_not : owes_action st seat ≡ false = done seat (rw e at) in cc

    later : OwesNothingAt st ((from + step) % length st.seats) → step + 1 ≤ target
    later done = elim (ℕ_discrete step target) [
      | yes e ↦ absurd (clash e done)
      | no ne ↦ omega arith
    ]

wrap :
    (from k count : ℕ)
    → from < count
    → k < count
    → ¬ (from < k)
    → (from + (k + count - from)) % count ≡ k
wrap from k count f h l =
    let e : from + (k + count - from) ≡ k + count = omega arith in
    rw e (grind (arith, mod-eq_of_lt))

steps_to :
    (from k count : ℕ)
    → from < count
    → k < count
    → (step : ℕ) × (1 ≤ step) × (step < 1 + count) × ((from + step) % count ≡ k)
steps_to from k count f h = elim (dec_lt from k) [
  | yes l ↦ (k - from, omega arith, omega arith, grind arith)
  | no l ↦ (k + count - from, omega arith, omega arith, wrap from k count f h l)
]

-- While a betting round is not complete and nobody has bet more than the current bet, it is somebody's
-- turn: `nextToAct` returns a seat that owes an action, so a hand never waits for nobody.
pub next_to_act_finds :
    (st : BettingState) (from : ℕ)
    → from < length st.seats
    → All (λ s. s.street_bet ≤ st.current_bet) st.seats
    → betting_round_complete st ≡ false
    → (i : ℕ) × (next_to_act st from ≡ some i) × OwesAt st i
unfolding next_to_act
next_to_act_finds st from f low open_round =
    let (k, lt, seat, there, owing) = owing_seat st st.seats low (unsettled st open_round) in
    let (step, one, last, at) = steps_to from k (length st.seats) f lt in
    let (i, found, owes) =
      walk_finds st from (length st.seats) 1 step one last (seat, rw at there, owing) in
    (i, rw open_round found, owes)

walk_sound :
    (st : BettingState) (from rounds step i : ℕ)
    → walk_seats st from rounds step ≡ some i
    → OwesAt st i
      × ((target : ℕ) × (step ≤ target)
          × (target < step + rounds)
          × (i ≡ (from + target) % length st.seats)
          × ((earlier : ℕ)
              → step ≤ earlier
              → earlier < target
              → OwesNothingAt st ((from + earlier) % length st.seats)))
walk_sound st from zero step i e = absurd (unfold walk_seats in cc)
walk_sound st from (suc rounds) step i e = elim (owes_cases st ((from + step) % length st.seats)) [
  | inl owes ↦
      (let here : i ≡ (from + step) % length st.seats =
          ground (arith, walk_hit st from rounds step owes) in
        (rw here owes, (step, omega arith, omega arith, here, λ k l h. absurd (omega arith))))
  | inr done ↦
      (let (owes, rest) =
          walk_sound st from rounds (step + 1) i (sym (walk_miss st from rounds step done) ∙ e) in
        let (target, low, high, at, before) = rest in
        (owes, (target, omega arith, omega arith, at, nothing_before target done before)))
]
  where
    nothing_before :
        (target : ℕ)
        → OwesNothingAt st ((from + step) % length st.seats)
        → ((earlier : ℕ)
            → step + 1 ≤ earlier
            → earlier < target
            → OwesNothingAt st ((from + earlier) % length st.seats))
        → (earlier : ℕ) → step ≤ earlier
        → earlier < target
        → OwesNothingAt st ((from + earlier) % length st.seats)
    nothing_before target done before k l h = elim (ℕ_discrete step k) [
      | yes e ↦ rw (← e) done
      | no ne ↦ before k (omega arith) h
    ]

-- The player to act owes an action, the betting round is not complete, and nobody between
-- `fromIndex` and that seat, in deal order, owes one.
pub next_to_act_first :
    (st : BettingState) (from i : ℕ)
    → next_to_act st from ≡ some i
    → (betting_round_complete st ≡ false)
      × OwesAt st i
      × ((target : ℕ) × (1 ≤ target)
          × (target < 1 + length st.seats)
          × (i ≡ (from + target) % length st.seats)
          × ((earlier : ℕ)
              → 1 ≤ earlier
              → earlier < target
              → OwesNothingAt st ((from + earlier) % length st.seats)))
unfolding next_to_act
next_to_act_first st from i e = elim (Bool-cases (betting_round_complete st)) [
  | inl over ↦ absurd (ground arith)
  | inr open_round ↦
      (let (owes, first) = walk_sound st from (length st.seats) 1 i (ground arith) in
        (open_round, owes, first))
]
