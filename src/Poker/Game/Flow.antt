-- ===== src/Poker/Game/Flow.antt =====
-- `advance` and `nextStreet` of poker.game.ts: whose turn it is next, and when the hand is over.
pub mod Laws
pub mod Board
use casino_app.Prelude.{
  ℕ, ◌+◌, ltb, leb, Bool, not, if◌then◌else◌, Option, none, some, List, [], ◌∷◌, ◌++◌, map, filter,
  length, get_elem?, take, drop,
}
use casino_app.Poker.Betting.{
  Street, preflop, flop, turn, river, complete, BettingState, HandSeat, is_live, contenders,
  next_to_act,
}
use casino_app.Poker.Config.{PokerConfig}
use casino_app.Poker.Game.{
  PokerState, Context, Event, to_act, board_dealt, stop_timer, arm_timer, ReduceResult, Outcome,
  done, refused, bad_index, ◌>>=◌,
}
use casino_app.Poker.Game.Finish.{finish}

-- `{ ...finish(…), timer: null }`.
unfoldable pub end_hand : PokerState → PokerConfig → List Event → Outcome ReduceResult
unfolding finish
end_hand state config events = finish state config events >>= λ r.
    done record { state = r.0; events = r.1; timer = stop_timer }

-- It is the turn of the seat at `index`, and the clock starts.
abbrev pub turn_given :
    PokerState → Context → PokerConfig → ℕ → HandSeat → List Event → ReduceResult
turn_given state ctx config index seat events = record {
  state = record state {
    to_act_index = some index;
    deadline_at = some (ctx.now + config.turn_timer_ms);
  };
  events = events ++ to_act seat.user_id ∷ [];
  timer = arm_timer config.turn_timer_ms;
}

unfoldable pub give_turn :
    PokerState → Context → PokerConfig → ℕ → List Event → Outcome ReduceResult
give_turn state ctx config index events = elim (get_elem? state.betting.seats index) [
  | none ↦ refused bad_index
  | some seat ↦ done (turn_given state ctx config index seat events)
]

-- The streets after this one, in the order of `STREETS`; `complete` is not among them.
abbrev pub streets_after : Street → List Street
streets_after preflop = flop ∷ turn ∷ river ∷ []
streets_after flop = turn ∷ river ∷ []
streets_after turn = river ∷ []
streets_after river = []
streets_after complete = []

abbrev pub cards_of_street : Street → ℕ
cards_of_street flop = 3
cards_of_street _ = 1

abbrev pub deal_street : Street → PokerState → PokerState
deal_street street state = record state {
  betting = record state.betting { street = street };
  board = state.board ++ take (cards_of_street street) state.deck;
  deck = drop (cards_of_street street) state.deck;
}

-- The loop: it stops at the first street where a bet is still possible, or else at the river.
unfoldable pub deal_streets : Bool → List Street → PokerState → List Event → PokerState × List Event
deal_streets can_still_bet [] state events = (state, events)
deal_streets can_still_bet (street ∷ streets) state events =
    let dealt = deal_street street state in
    let told = events ++ board_dealt street dealt.board ∷ [] in
    let rest = deal_streets can_still_bet streets dealt told in
    if can_still_bet then (dealt, told) else rest

abbrev pub clear_bet : HandSeat → HandSeat
clear_bet seat = record seat { street_bet = 0 }

abbrev pub clear_street : PokerState → PokerState
clear_street state = record state {
  betting = record state.betting {
    seats = map clear_bet state.betting.seats;
    current_bet = 0;
    min_raise = state.betting.big_blind;
    acted_this_street = [];
    acted_since_full_raise = [];
  };
}

-- What follows the deal: the first player left of the button, or the end of the hand.
unfoldable pub open_or_end :
    Bool → PokerState → Context → PokerConfig → List Event → Outcome ReduceResult
unfolding end_hand give_turn
open_or_end can_still_bet working ctx config events =
    if not can_still_bet
    then end_hand working config events
    else elim (next_to_act working.betting working.button_index) [
      | none ↦ end_hand working config events
      | some first ↦ give_turn working ctx config first events
    ]

-- The state with the next streets dealt, and the events with their boards.
abbrev pub dealt_from : Bool → List Street → PokerState → List Event → PokerState × List Event
dealt_from can_still_bet streets state events =
    deal_streets can_still_bet streets (clear_street state) events

-- `nextStreet` with the streets that are left.
unfoldable pub deal_on :
    PokerState → Context → PokerConfig → List Event → List Street → Outcome ReduceResult
unfolding end_hand deal_streets open_or_end
deal_on state ctx config events [] = end_hand state config events
deal_on state ctx config events (street ∷ streets) =
    let live = filter is_live (clear_street state).betting.seats in
    let can_still_bet = ltb 1 (length live) in
    let dealt = dealt_from can_still_bet (street ∷ streets) state events in
    open_or_end can_still_bet (dealt.0) ctx config (dealt.1)

unfoldable pub next_street : PokerState → Context → PokerConfig → List Event → Outcome ReduceResult
unfolding deal_on
next_street state ctx config events =
    deal_on state ctx config events (streets_after state.betting.street)

unfoldable pub advance : PokerState → Context → ℕ → PokerConfig → List Event → Outcome ReduceResult
unfolding end_hand give_turn next_street
advance state ctx from_index config events =
    if leb (length (contenders state.betting)) 1
    then end_hand state config events
    else elim (next_to_act state.betting from_index) [
      | some next ↦ give_turn state ctx config next events
      | none ↦ next_street state ctx config events
    ]
