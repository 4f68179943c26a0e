-- ===== src/Poker/Game.antt =====
-- apps/api/src/games/poker/poker.game.ts: the state of a hand, and how it moves on after an action.
-- Stacks are natural numbers while a hand is played. `finish` writes the final stacks into the seats;
-- one may be negative after an award, so `paid_seats` has the seats of a finished hand with their exact
-- stacks, and `betting.seats` has them with zero for a negative one. `table_seats` is `state.seats`.
pub mod Finish
pub mod Flow
pub mod Actions
pub mod Deal
pub mod Views
use casino_app.Prelude.{
  ℕ, ◌+◌, ◌-◌, ◌==◌, Bool, Option, List, [], ◌∷◌, ◌++◌, min, sum_of, includes, map, none, some, ◌≡◌,
  refl, arith, if◌then◌else◌,
}
use casino_app.Prelude.Int.{ℤ, pos, pos_part, Number}
use casino_app.Prelude.Dict.{Dict}
use casino_app.Poker.Betting.{BettingState, HandSeat, RaiseProblem, Street}
use casino_app.Poker.Pots.{Pot}
use casino_app.Poker.Config.{PokerConfig, parse_poker_config}

-- A seat with its exact stack, which may be negative after the awards.
pub record PaidSeat : Type 0 where
  pub seat : HandSeat
  pub stack : ℤ

-- `PokerResult`; `shown` lists the users whose cards are revealed, with their cards.
pub record PokerResult : Type 0 where
  pub pots : List Pot
  pub awards : List (ℕ × ℤ)
  pub returned : List (ℕ × ℕ)
  pub rake : ℕ
  pub stacks : Dict ℤ
  pub shown : List (ℕ × List ℕ)

pub record PokerState : Type 0 where
  pub betting : BettingState
  pub deck : List ℕ
  pub board : List ℕ
  pub button_index : ℕ
  pub to_act_index : Option ℕ
  pub blinds : ℕ × ℕ
  pub starting_stacks : Dict ℕ
  pub deadline_at : Option ℕ
  pub timebank : Dict ℕ
  pub result : Option PokerResult
  -- The seats of a finished hand, with their exact stacks; empty while a hand is played.
  pub paid_seats : List PaidSeat

-- `GamePlayer` with the numbers that `seatMetaOf` reads of its `meta`.
pub record Player : Type 0 where
  pub user_id : ℕ
  pub seat : ℕ
  pub order : ℕ
  pub stack : ℕ

-- `GameContext`: `random i` is the draw for `shuffle:i`, an integer below `i + 1`.
pub record Context : Type 0 where
  pub players : List Player
  pub parsed : Option PokerConfig
  pub random : ℕ → ℕ
  pub now : ℕ

abbrev pub config_of : Context → PokerConfig
config_of ctx = (parse_poker_config ctx.parsed).0

pub data ActionKind : Type 0 where
  fold check call bet raise all_in_action unknown : ActionKind

-- `payload.amount` as `Number(…)` reads it: what is missing or no number is not an integer.
pub record Action : Type 0 where
  pub kind : ActionKind
  pub user_id : ℕ
  pub amount : Number

pub data Refusal : Type 0 where
  hand_over not_in_this_hand not_your_turn cannot_check nothing_to_call unknown_action : Refusal
  bad_raise : RaiseProblem → Refusal
  -- The errors of `settleShowdown` and `evaluate`, and of a seat or a deck index that is not there.
  pots_lost_chips no_hand bad_index : Refusal

pub data Event : Type 0 where
  folded checked : (user_id : ℕ) → Event
  called : (user_id amount : ℕ) → Event
  raised : (user_id : ℕ) (is_bet : Bool) (amount to : ℕ) (all_in : Bool) → Event
  to_act : (user_id : ℕ) → Event
  board_dealt : Street → (board : List ℕ) → Event
  showdown : PokerResult → Event
  timebank_used : (user_id remaining_ms : ℕ) → Event
  auto_action : (user_id : ℕ) (is_check : Bool) → Event

pub data TimerChange : Type 0 where
  keep_timer stop_timer : TimerChange
  arm_timer : (delay_ms : ℕ) → TimerChange

pub record ReduceResult : Type 0 where
  pub state : PokerState
  pub events : List Event
  pub timer : TimerChange

pub data Outcome (A : Type 0) : Type 0 where
  done : A → Outcome A
  refused : Refusal → Outcome A

infixl 5 ◌>>=◌
abbrev pub ◌>>=◌ : {A B : Type 0} → Outcome A → (A → Outcome B) → Outcome B
done a >>= f = f a
refused e >>= f = refused e

pub done-inj : {A : Type 0} {a b : A} → done a ≡ done b → a ≡ b
done-inj h = ground arith

pub refused-not_done : {A : Type 0} {x : Refusal} {a : A} → refused x ≡ done a → ⊥
refused-not_done h = ground arith

pub then-done :
    {A B : Type 0} (o : Outcome A) (f : A → B) {b : B}
    → (o >>= λ a. done (f a)) ≡ done b
    → (a : A) × (o ≡ done a) × (f a ≡ b)
then-done (done a) f e = (a, refl, done-inj e)
then-done (refused x) f e = absurd (ground arith)

-- The chips that a seat puts in: `commit`, `post`, `allInTarget`.
unfoldable pub commit : HandSeat → ℤ → HandSeat
commit seat amount =
    let paid = min (pos_part amount) seat.stack in
    record seat {
      stack = seat.stack - paid;
      committed = seat.committed + paid;
      street_bet = seat.street_bet + paid;
      all_in = seat.stack - paid == 0;
    }

unfoldable pub post : HandSeat → ℕ → HandSeat
unfolding commit
post seat amount = commit seat (pos (min amount seat.stack))

abbrev pub all_in_target : HandSeat → ℕ
all_in_target seat = seat.street_bet + seat.stack

-- `[...new Set([...xs, x])]`, for a list without repetitions.
abbrev pub add_user : ℕ → List ℕ → List ℕ
add_user user users = if includes users user then users else users ++ user ∷ []

unfoldable pub mark_acted : BettingState → ℕ → BettingState
mark_acted st user = record st {
  acted_this_street = add_user user st.acted_this_street;
  acted_since_full_raise = add_user user st.acted_since_full_raise;
}

-- `state.seats`, of a hand in play or of a finished one.
abbrev pub in_play : HandSeat → PaidSeat
in_play s = record { seat = s; stack = pos s.stack }

abbrev pub table_seats : PokerState → List PaidSeat
table_seats state = by_result state.result
  where
    by_result : Option PokerResult → List PaidSeat
    by_result none = map in_play state.betting.seats
    by_result (some result) = state.paid_seats

-- What is on the table: the stacks and what has been put in.
abbrev pub seat_chips : List HandSeat → ℕ
seat_chips = sum_of (λ s. s.stack + s.committed)

abbrev pub pot_size : List HandSeat → ℕ
pot_size = sum_of (λ s. s.committed)
