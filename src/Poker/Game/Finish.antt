-- ===== src/Poker/Game/Finish.antt =====
-- `finish` and `rakeFor` of poker.game.ts: the pots are built and paid, and the hand is closed.
pub mod Payouts
pub mod Laws
use casino_app.Prelude.{
  ℕ, zero, suc, ◌+◌, ◌-◌, ◌*◌, ◌/◌, ◌%◌, ◌==◌, ltb, min, Bool, true, false, not, ◌&&◌, ◌||◌, Option,
  none, some, or_else, is_some, List, [], ◌∷◌, ◌++◌, map, filter, find, length, if◌then◌else◌,
}
use casino_app.Prelude.Int.{ℤ, pos, pos_part, ◌+ℤ◌}
use casino_app.Prelude.Dict.{Dict, lookup, put}
use casino_app.Poker.Betting.{BettingState, HandSeat, contenders, complete}
use casino_app.Poker.Pots.{
  PotPlayer, Showdown, credit, settle_showdown, Settled, settled, hand_too_short, lost_chips,
}
use casino_app.Poker.Config.{PokerConfig}
use casino_app.Poker.Game.{
  PaidSeat, PokerResult, PokerState, Context, Event, showdown, Outcome, done, refused,
  pots_lost_chips, no_hand, pot_size,
}

-- `rakeFor`: a capped percentage of the pot, and nothing before the flop.
unfoldable pub rake_for : PokerState → PokerConfig → ℕ
rake_for state config =
    if config.rake_bps == 0
    then 0
    else if length state.board == 0
    then 0
    else min (pot_size state.betting.seats * config.rake_bps / 10_000) config.rake_cap

-- A seat as the pots see it; its order is the distance from the button's left.
abbrev pub pot_player : ℕ → ℕ → Bool → ℕ → HandSeat → PotPlayer
pot_player count button shown index seat = record {
  user_id = seat.user_id;
  committed = seat.committed;
  folded = seat.folded;
  all_in = seat.all_in;
  cards = if shown && not seat.folded then some seat.cards else none;
  order = (index + count - button - 1) % count;
}

abbrev pub pot_players : ℕ → ℕ → Bool → ℕ → List HandSeat → List PotPlayer
pot_players count button shown index [] = []
pot_players count button shown index (seat ∷ seats) =
    pot_player count button shown index seat ∷ pot_players count button shown (index + 1) seats

-- The two loops that fill `stacks`.
unfoldable pub seat_stacks : List HandSeat → Dict ℤ → Dict ℤ
seat_stacks [] stacks = stacks
seat_stacks (seat ∷ seats) stacks = seat_stacks seats (put seat.user_id (pos seat.stack) stacks)

unfoldable pub add_awards : List (ℕ × ℤ) → Dict ℤ → Dict ℤ
add_awards [] stacks = stacks
add_awards ((user, amount) ∷ awards) stacks = add_awards awards (credit user amount stacks)

abbrev pub final_stacks : List HandSeat → Showdown → Dict ℤ
final_stacks seats s =
    add_awards (s.awards ++ map (λ r. (r.0, pos r.1)) s.returned) (seat_stacks seats [])

abbrev pub has_award : ℕ → List (ℕ × ℤ) → Bool
has_award user awards = is_some (find (λ a. a.0 == user) awards)

abbrev pub pay_seat : PokerConfig → Bool → Showdown → Dict ℤ → HandSeat → PaidSeat
pay_seat config shown s stacks seat = record {
  seat = record seat {
    stack = pos_part (or_else (lookup seat.user_id stacks) (pos seat.stack));
    revealed =
        shown && not seat.folded && (has_award seat.user_id s.awards || not config.muck_losers);
  };
  stack = or_else (lookup seat.user_id stacks) (pos seat.stack);
}

abbrev pub pay_seats : PokerState → PokerConfig → Bool → Showdown → List PaidSeat
pay_seats state config shown s =
    map (pay_seat config shown s (final_stacks state.betting.seats s)) state.betting.seats

abbrev pub result_of : PokerState → Showdown → List PaidSeat → PokerResult
result_of state s paid = record {
  pots = s.pots;
  awards = s.awards;
  returned = s.returned;
  rake = s.rake;
  stacks = final_stacks state.betting.seats s;
  shown =
      map (λ (p : PaidSeat). (p.seat.user_id, p.seat.cards))
        (filter (λ (p : PaidSeat). p.seat.revealed) paid);
}

abbrev pub close_hand : PokerState → PokerResult → List PaidSeat → PokerState
close_hand state result paid = record state {
  betting = record state.betting { street = complete; seats = map (λ (p : PaidSeat). p.seat) paid };
  to_act_index = none;
  deadline_at = none;
  result = some result;
  paid_seats = paid;
}

abbrev pub goes_to_showdown : PokerState → Bool
goes_to_showdown state = ltb 1 (length (contenders state.betting))

abbrev pub players_of : PokerState → List PotPlayer
players_of state =
    pot_players (length state.betting.seats) state.button_index (goes_to_showdown state) 0
      state.betting.seats

abbrev pub settle_hand : PokerState → PokerConfig → Settled
settle_hand state config = settle_showdown (players_of state) state.board (rake_for state config)

-- The state and the events once the pots are settled.
abbrev pub closed_with : PokerState → PokerConfig → List Event → Showdown → PokerState × List Event
closed_with state config events s =
    let paid = pay_seats state config (goes_to_showdown state) s in
    let result = result_of state s paid in
    (close_hand state result paid, events ++ showdown result ∷ [])

unfoldable pub finish : PokerState → PokerConfig → List Event → Outcome (PokerState × List Event)
unfolding rake_for
finish state config events = elim (settle_hand state config) [
  | settled s ↦ done (closed_with state config events s)
  | hand_too_short ↦ refused no_hand
  | lost_chips _ _ ↦ refused pots_lost_chips
]
