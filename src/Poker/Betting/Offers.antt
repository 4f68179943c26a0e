-- ===== src/Poker/Betting/Offers.antt =====
-- What `legalActions` shows and what `validateRaise` enforces, in apps/api/src/games/poker/betting.ts.
use casino_app.Prelude.{
  ℕ, ◌+◌, ◌≤◌, ◌<◌, ◌≡◌, ◌⊎◌, inl, inr, refl, true, false, none, some, arith, Option-cases,
  includes, min,
}
use casino_app.Prelude.Int.{pos, negsuc, Number, int, not_int, max_safe}
use casino_app.Poker.Betting.{
  HandSeat, BettingState, LegalActions, is_live, find_seat, live_actions, legal_actions,
  full_raise_to, check_bounds, validate_raise,
}

abbrev pub MayRaise : LegalActions → Type 0
MayRaise legal = (legal.can_bet ≡ true) ⊎ (legal.can_raise ≡ true)

-- Who may bet or raise is a live player of the hand with more chips than the bet.
pub MayRaise-facts :
    (st : BettingState) (user : ℕ)
    → MayRaise (legal_actions st user)
    → (seat : HandSeat) × (find_seat user st.seats ≡ some seat)
      × (is_live seat ≡ true)
      × (legal_actions st user ≡ live_actions st user seat)
      × (st.current_bet < seat.street_bet + seat.stack)
unfolding legal_actions
MayRaise-facts st user c = elim (Option-cases (find_seat user st.seats)) [
  | inl stranger ↦ absurd (ground arith)
  | inr (seat, found) ↦ (seat, found, ground arith, ground arith, ground arith)
]

check_bounds_passes :
    (st : BettingState) (legal : LegalActions) (target : ℕ)
    → st.current_bet < target
    → target ≤ legal.max_raise_to
    → (legal.min_raise_to ≤ target) ⊎ (target ≡ legal.max_raise_to)
    → check_bounds st legal (pos target) ≡ none
check_bounds_passes st legal target a b (inl c) = ground arith
check_bounds_passes st legal target a b (inr c) = ground arith

-- If a player may bet or raise, every whole amount from `minRaiseTo` to `maxRaiseTo` passes
-- `validateRaise`, given that the blind and the last raise are not zero and that `maxRaiseTo` is a safe
-- integer.
pub offers_accepted :
    (st : BettingState) (user target : ℕ)
    → 0 < st.big_blind
    → 0 < st.min_raise
    → MayRaise (legal_actions st user)
    → (legal_actions st user).min_raise_to ≤ target
    → target ≤ (legal_actions st user).max_raise_to
    → (legal_actions st user).max_raise_to ≤ max_safe
    → validate_raise st user (int (pos target)) ≡ none
unfolding validate_raise
offers_accepted st user target b m c l h safe =
    let (seat, found, live, eq, chips) = MayRaise-facts st user c in
    let above : st.current_bet < target = ground arith in
    ground (arith, check_bounds_passes st (legal_actions st user) target above h (inl l))

validate_raise_passed :
    (st : BettingState) (user n : ℕ)
    → validate_raise st user (int (pos n)) ≡ none
    → MayRaise (legal_actions st user)
      × (n ≤ max_safe)
      × (st.current_bet < n)
      × (n ≤ (legal_actions st user).max_raise_to)
      × (((legal_actions st user).min_raise_to ≤ n) ⊎ (n ≡ (legal_actions st user).max_raise_to))
unfolding validate_raise
validate_raise_passed st user n e = ground arith

-- Facing a bet, the one who may raise has not acted since the last full raise.
MayRaise-open :
    (st : BettingState) (user : ℕ) (seat : HandSeat)
    → MayRaise (live_actions st user seat)
    → 0 < st.current_bet
    → includes st.acted_since_full_raise user ≡ false
MayRaise-open st user seat c h = ground arith

-- A bet or raise that passes is a safe whole number above the current bet and within the stack of a
-- live player of the hand, and it is at least `minRaiseTo` unless it is the whole stack. Facing a bet,
-- that player has not acted since the last full raise: a short all-in does not reopen the action.
pub validate_raise_sound :
    (st : BettingState) (user : ℕ) (amount : Number)
    → validate_raise st user amount ≡ none
    → (seat : HandSeat) × (target : ℕ) × (find_seat user st.seats ≡ some seat)
      × (amount ≡ int (pos target))
      × (is_live seat ≡ true)
      × (target ≤ max_safe)
      × (st.current_bet < target)
      × (target ≤ seat.street_bet + seat.stack)
      × ((min (full_raise_to st) (seat.street_bet + seat.stack) ≤ target)
          ⊎ (target ≡ seat.street_bet + seat.stack))
      × (0 < st.current_bet → includes st.acted_since_full_raise user ≡ false)
unfolding validate_raise
validate_raise_sound st user not_int e = absurd (ground arith)
validate_raise_sound st user (int (negsuc n)) e = absurd (ground arith)
validate_raise_sound st user (int (pos n)) e =
    let (c, safe, above, below, least) = validate_raise_passed st user n e in
    let (seat, found, live, eq, chips) = MayRaise-facts st user c in
    (
      seat,
      n,
      found,
      refl,
      live,
      safe,
      above,
      ground arith,
      ground arith,
      MayRaise-open st user seat (rw eq at c),
    )
