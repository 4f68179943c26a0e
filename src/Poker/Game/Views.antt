-- ===== src/Poker/Game/Views.antt =====
-- `publicHand`, `playerView` and `publicView` of poker.game.ts.
pub mod Hidden
use casino_app.Prelude.{
  ℕ, ◌==◌, Bool, true, false, if◌then◌else◌, Option, none, some, or_else, List, [], ◌∷◌, map, find,
  get_elem?,
}
use casino_app.Prelude.Int.{ℤ}
use casino_app.Prelude.Dict.{lookup}
use casino_app.Poker.Betting.{Street, HandSeat, LegalActions, legal_actions}
use casino_app.Poker.Game.{PaidSeat, PokerResult, PokerState, table_seats, pot_size}

pub record SeatView : Type 0 where
  pub user_id : ℕ
  pub seat : ℕ
  pub stack : ℤ
  pub committed : ℕ
  pub street_bet : ℕ
  pub folded : Bool
  pub all_in : Bool
  pub cards : Option (List ℕ)

pub record HandView : Type 0 where
  pub street : Street
  pub board : List ℕ
  pub pot : ℕ
  pub current_bet : ℕ
  pub min_raise : ℕ
  pub blinds : ℕ × ℕ
  pub button_seat : Option ℕ
  pub to_act : Option ℕ
  pub deadline_at : Option ℕ
  pub seats : List SeatView
  pub result : Option PokerResult

pub record YourSeat : Type 0 where
  pub seat : ℕ
  pub cards : List ℕ
  pub stack : ℤ
  pub committed : ℕ
  pub street_bet : ℕ
  pub folded : Bool
  pub all_in : Bool
  pub timebank_ms : ℕ
  pub legal : Option LegalActions

pub record PlayerView : Type 0 where
  pub hand : HandView
  pub you : Option YourSeat

abbrev pub seat_view : PaidSeat → SeatView
seat_view p = record {
  user_id = p.seat.user_id;
  seat = p.seat.seat;
  stack = p.stack;
  committed = p.seat.committed;
  street_bet = p.seat.street_bet;
  folded = p.seat.folded;
  all_in = p.seat.all_in;
  cards = if p.seat.revealed then some p.seat.cards else none;
}

abbrev pub field_of : (HandSeat → ℕ) → Option HandSeat → Option ℕ
field_of f none = none
field_of f (some s) = some (f s)

abbrev pub user_to_act : PokerState → Option ℕ
user_to_act state = at_turn state.to_act_index
  where
    at_turn : Option ℕ → Option ℕ
    at_turn none = none
    at_turn (some index) = field_of (λ s. s.user_id) (get_elem? state.betting.seats index)

unfoldable pub public_hand : PokerState → HandView
public_hand state = record {
  street = state.betting.street;
  board = state.board;
  pot = pot_size state.betting.seats;
  current_bet = state.betting.current_bet;
  min_raise = state.betting.min_raise;
  blinds = state.blinds;
  button_seat = field_of (λ s. s.seat) (get_elem? state.betting.seats state.button_index);
  to_act = user_to_act state;
  deadline_at = state.deadline_at;
  seats = map seat_view (table_seats state);
  result = state.result;
}

abbrev pub is_user : Option ℕ → ℕ → Bool
is_user none user = false
is_user (some other) user = other == user

abbrev pub your_seat : PokerState → ℕ → PaidSeat → YourSeat
your_seat state user p = record {
  seat = p.seat.seat;
  cards = p.seat.cards;
  stack = p.stack;
  committed = p.seat.committed;
  street_bet = p.seat.street_bet;
  folded = p.seat.folded;
  all_in = p.seat.all_in;
  timebank_ms = or_else (lookup user state.timebank) 0;
  legal =
      if is_user (user_to_act state) user then some (legal_actions state.betting user) else none;
}

abbrev pub your_seat_of : PokerState → ℕ → Option PaidSeat → Option YourSeat
your_seat_of state user none = none
your_seat_of state user (some p) = some (your_seat state user p)

unfoldable pub player_view : PokerState → ℕ → PlayerView
unfolding public_hand
player_view state user = record {
  hand = public_hand state;
  you =
      your_seat_of state user (find (λ (p : PaidSeat). p.seat.user_id == user) (table_seats state));
}
