-- ===== src/Poker/Game/Views/Hidden.antt =====
-- What a view does not depend on: `publicHand` and `playerView` of poker.game.ts.
use casino_app.Prelude.{
  ℕ, zero, suc, ◌+◌, ◌≡◌, refl, ap, ◌∙◌, inl, inr, false, ◌==◌, if◌then◌else◌, Option, none, some,
  List, [], ◌∷◌, map, find, get_elem?, All, Bool-cases, Option-cases,
}
use casino_app.Poker.Betting.{BettingState, HandSeat, legal_actions, find_seat}
use casino_app.Poker.Game.{PaidSeat, PokerState, in_play, pot_size}
use casino_app.Poker.Game.Views.{
  seat_view, field_of, user_to_act, public_hand, your_seat_of, player_view,
}

-- The table with other hole cards for everybody but one user.
abbrev pub deal_other : ℕ → (ℕ → List ℕ) → HandSeat → HandSeat
deal_other user cards s = record s {
  cards = if s.user_id == user then s.cards else cards s.user_id;
}

abbrev pub deal_others : ℕ → (ℕ → List ℕ) → PokerState → PokerState
deal_others user cards state = record state {
  betting = record state.betting { seats = map (deal_other user cards) state.betting.seats };
}

abbrev pub NotRevealed : HandSeat → Type 0
NotRevealed s = s.revealed ≡ false

module _ (user : ℕ) (cards : ℕ → List ℕ) where
  same_pot : (seats : List HandSeat) → pot_size (map (deal_other user cards) seats) ≡ pot_size seats
  same_pot [] = refl
  same_pot (s ∷ seats) = ap (λ n. s.committed + n) (same_pot seats)

  same_field :
      (f : HandSeat → ℕ)
      → ((s : HandSeat) → f (deal_other user cards s) ≡ f s)
      → (seats : List HandSeat) (i : ℕ)
      → field_of f (get_elem? (map (deal_other user cards) seats) i)
        ≡ field_of f (get_elem? seats i)
  same_field f h [] i = refl
  same_field f h (s ∷ seats) zero = ap some (h s)
  same_field f h (s ∷ seats) (suc i) = same_field f h seats i

  same_views :
      (seats : List HandSeat)
      → All NotRevealed seats
      → map seat_view (map in_play (map (deal_other user cards) seats))
        ≡ map seat_view (map in_play seats)
  same_views [] h = refl
  same_views (s ∷ seats) h =
      rw h.0
        (ap (λ vs. seat_view (in_play (record s { revealed = false })) ∷ vs) (same_views seats h.1))

  same_seat :
      (seats : List HandSeat)
      → find_seat user (map (deal_other user cards) seats) ≡ find_seat user seats
  same_seat [] = refl
  same_seat (s ∷ seats) = elim (Bool-cases (s.user_id == user)) [
    | inl own ↦ rw own refl
    | inr other ↦ rw other (same_seat seats)
  ]

  same_found :
      (seats : List HandSeat)
      → find
          (λ (p : PaidSeat). p.seat.user_id == user)
          (map in_play (map (deal_other user cards) seats))
        ≡ find (λ (p : PaidSeat). p.seat.user_id == user) (map in_play seats)
  same_found [] = refl
  same_found (s ∷ seats) = elim (Bool-cases (s.user_id == user)) [
    | inl own ↦ rw own refl
    | inr other ↦ rw other (same_found seats)
  ]

  same_legal :
      (st : BettingState)
      → legal_actions (record st { seats = map (deal_other user cards) st.seats }) user
        ≡ legal_actions st user
  unfolding legal_actions
  same_legal st = rw (same_seat st.seats, legal_actions) refl

  same_turn : (state : PokerState) → user_to_act (deal_others user cards state) ≡ user_to_act state
  same_turn state = elim (Option-cases state.to_act_index) [
    | inl nobody ↦ rw nobody refl
    | inr (i, turn) ↦ rw turn (same_field (λ s. s.user_id) (λ s. refl) state.betting.seats i)
  ]

  same_you :
      (state : PokerState) (found : Option PaidSeat)
      → your_seat_of (deal_others user cards state) user found ≡ your_seat_of state user found
  same_you state none = refl
  same_you state (some p) = rw (same_turn state, same_legal state.betting) refl

  same_hand :
      (state : PokerState)
      → state.result ≡ none
      → All NotRevealed state.betting.seats
      → public_hand (deal_others user cards state) ≡ public_hand state
  unfolding public_hand
  same_hand state n h =
      rw
        (
          n,
          same_pot state.betting.seats,
          same_turn state,
          same_views state.betting.seats h,
          same_field (λ s. s.seat) (λ s. refl) state.betting.seats state.button_index,
        )
        refl

  same_player :
      (state : PokerState)
      → state.result ≡ none
      → (player_view (deal_others user cards state) user).you ≡ (player_view state user).you
  unfolding player_view
  same_player state n =
      let own = λ (p : PaidSeat). p.seat.user_id == user in
      rw n (
        same_you state (find own (map in_play (map (deal_other user cards) state.betting.seats)))
        ∙ ap (your_seat_of state user) (same_found state.betting.seats))

  -- While a hand is played and nobody is revealed, a player's view is the same whatever the deck and
  -- the other players' hole cards are.
  pub player_view_hides_cards :
      (state : PokerState) (deck : List ℕ)
      → state.result ≡ none
      → All NotRevealed state.betting.seats
      → player_view (record (deal_others user cards state) { deck = deck }) user
        ≡ player_view state user
  unfolding player_view public_hand
  player_view_hides_cards state deck n h =
      λ i. record { hand = same_hand state n h i; you = same_player state n i }
