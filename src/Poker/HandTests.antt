-- ===== src/Poker/HandTests.antt =====
-- Hands of two players on concrete cards and chips.
use casino_app.Prelude.{
  ℕ, zero, suc, ◌+◌, ◌*◌, ◌%◌, ◌≤◌, ◌<◌, ◌≡◌, ◌⊎◌, inl, inr, refl, Bool, true, false, Option, none,
  some, List, [], ◌∷◌, ◌++◌, map, set, length, get_elem?, includes, All, arith, min,
}
use casino_app.Prelude.Int.{ℤ, pos, Number, int, not_int, max_safe}
use casino_app.Poker.Betting.{
  Street, preflop, flop, turn, river, BettingState, HandSeat, is_live, find_seat, full_raise_to,
  legal_actions, validate_raise, betting_round_complete, next_to_act,
}
use casino_app.Poker.Betting.Offers.{offers_accepted, validate_raise_sound}
use casino_app.Poker.Betting.Turns.{OwesAt, OwesNothingAt, next_to_act_first}
use casino_app.Poker.Cards.{deck_size}
use casino_app.Poker.Cards.Shuffle.{occurrences}
use casino_app.Poker.Config.{PokerConfig, InSchema, poker_config_fallback}
use casino_app.Poker.Game.{
  PokerState, Context, Action, raise, Outcome, done, refused, Event, ReduceResult, keep_timer,
  arm_timer, pot_size,
}
use casino_app.Poker.Game.Finish.{rake_for, finish}
use casino_app.Poker.Game.Finish.Laws.{rake_for_bounds, finish_pays, Finished, table_chips}
use casino_app.Poker.Game.Flow.{advance, deal_streets}
use casino_app.Poker.Game.Flow.Laws.{advance_asks, KeepsChips}
use casino_app.Poker.Game.Flow.Board.{DealtTo, deal_streets_in_order}
use casino_app.Poker.Game.Actions.{reduce, is_complete, on_timeout}
use casino_app.Poker.Game.Actions.Chips.{Acts}
use casino_app.Poker.Game.Actions.Laws.{reduce_sound, on_timeout_spends_nothing}
use casino_app.Poker.Game.Deal.{init}
use casino_app.Poker.Game.Deal.Laws.{hole_cards, brought, init_deals}
use casino_app.Poker.Game.Views.{player_view}
use casino_app.Poker.Game.Views.Hidden.{deal_others, player_view_hides_cards}

abbrev seat_of : ℕ → ℕ → ℕ → List ℕ → HandSeat
seat_of user stack bet cards = record {
  user_id = user;
  seat = user;
  order = user;
  stack = stack;
  committed = bet;
  street_bet = bet;
  folded = false;
  all_in = false;
  cards = cards;
  revealed = false;
  mucked = false;
}

abbrev betting : BettingState
betting = record {
  street = preflop;
  seats = seat_of 1 99 1 (0 ∷ 13 ∷ []) ∷ seat_of 2 98 2 (5 ∷ 20 ∷ []) ∷ [];
  current_bet = 2;
  min_raise = 2;
  big_blind = 2;
  acted_this_street = [];
  acted_since_full_raise = [];
}

-- Heads-up: the button has posted the small blind and is to act.
abbrev hand : PokerState
hand = record {
  betting = betting;
  deck = 30 ∷ 31 ∷ 45 ∷ 46 ∷ 50 ∷ 51 ∷ [];
  board = [];
  button_index = 0;
  to_act_index = some 0;
  blinds = (1, 2);
  starting_stacks = (1, 100) ∷ (2, 100) ∷ [];
  deadline_at = some 15_000;
  timebank = [];
  result = none;
  paid_seats = [];
}

abbrev ctx : Context
ctx = record {
  players =
      record { user_id = 1; seat = 1; order = 0; stack = 100 }
      ∷ record { user_id = 2; seat = 2; order = 1; stack = 100 }
      ∷ [];
  parsed = none;
  random = λ i. 0;
  now = 1_000;
}

abbrev raise_to_six : Action
raise_to_six = record { kind = raise; user_id = 1; amount = int (pos 6) }

abbrev result_or : ReduceResult → Outcome ReduceResult → ReduceResult
result_or other (done r) = r
result_or other (refused e) = other

abbrev no_result : ReduceResult
no_result = record { state = hand; events = []; timer = keep_timer }

abbrev raised_result : ReduceResult
raised_result = result_or no_result (reduce ctx hand raise_to_six)

abbrev timed_out : ReduceResult
timed_out = result_or no_result (on_timeout ctx hand true)

reduce_sound_example :
    (i : ℕ) × (seat : HandSeat) × (some 0 ≡ some i)
    × (get_elem? hand.betting.seats i ≡ some seat)
    × (seat.user_id ≡ 1)
    × (is_complete hand ≡ false)
    × Acts hand i seat raised_result.state
unfolding reduce legal_actions casino_app.Poker.Betting.contenders next_to_act
reduce_sound_example = reduce_sound ctx hand raise_to_six raised_result (refl, (refl, tt)) refl refl

on_timeout_spends_nothing_example : KeepsChips hand.betting.seats timed_out.state
unfolding on_timeout legal_actions casino_app.Poker.Betting.contenders
    casino_app.Poker.Pots.settle_showdown casino_app.Poker.Pots.rank_players
    casino_app.Poker.Pots.return_uncalled casino_app.Prelude.Int.◌+ℤ◌ casino_app.Poker.Pots.pay_pots
    casino_app.Poker.Pots.build_pots casino_app.Prelude.Int.floor_div casino_app.Prelude.Int.◌-ℤ◌
    casino_app.Poker.Config.parse_poker_config casino_app.Prelude.Int.scale
on_timeout_spends_nothing_example =
    on_timeout_spends_nothing ctx hand true timed_out (refl, (refl, tt)) refl refl

-- The turn after the button's call: the big blind has its option.
abbrev called : PokerState
called = record hand {
  betting = record betting {
    seats = seat_of 1 98 2 (0 ∷ 13 ∷ []) ∷ seat_of 2 98 2 (5 ∷ 20 ∷ []) ∷ [];
    acted_this_street = 1 ∷ [];
    acted_since_full_raise = 1 ∷ [];
  };
}

advance_asks_example :
    (r : ReduceResult) × (i : ℕ) × (advance called ctx 0 poker_config_fallback [] ≡ done r)
    × (r.state.to_act_index ≡ some i)
    × OwesAt r.state.betting i
    × (r.timer ≡ arm_timer poker_config_fallback.turn_timer_ms)
    × (r.state.deadline_at ≡ some (ctx.now + poker_config_fallback.turn_timer_ms))
unfolding betting_round_complete
advance_asks_example =
    advance_asks ctx poker_config_fallback called 0 [] (omega arith)
      (omega arith, (omega arith, tt)) refl

next_to_act_first_example :
    (betting_round_complete called.betting ≡ false)
    × OwesAt called.betting 1
    × ((target : ℕ) × (1 ≤ target)
        × (target < 1 + length called.betting.seats)
        × (1 ≡ (0 + target) % length called.betting.seats)
        × ((earlier : ℕ)
            → 1 ≤ earlier
            → earlier < target
            → OwesNothingAt called.betting ((0 + earlier) % length called.betting.seats)))
unfolding next_to_act
next_to_act_first_example = next_to_act_first called.betting 0 1 refl

offers_accepted_example : validate_raise betting 1 (int (pos 40)) ≡ none
unfolding legal_actions
offers_accepted_example =
    offers_accepted betting 1 40 (omega arith) (omega arith) (inr refl) (omega arith) (omega arith)
      (omega arith)

validate_raise_sound_example :
    (seat : HandSeat) × (target : ℕ) × (find_seat 1 betting.seats ≡ some seat)
    × (int (pos 6) ≡ int (pos target))
    × (is_live seat ≡ true)
    × (target ≤ max_safe)
    × (betting.current_bet < target)
    × (target ≤ seat.street_bet + seat.stack)
    × ((min (full_raise_to betting) (seat.street_bet + seat.stack) ≤ target)
        ⊎ (target ≡ seat.street_bet + seat.stack))
    × (0 < betting.current_bet → includes betting.acted_since_full_raise 1 ≡ false)
unfolding validate_raise
validate_raise_sound_example = validate_raise_sound betting 1 (int (pos 6)) refl

deal_streets_in_order_example :
    DealtTo
      (hand.board ++ hand.deck)
      river
      (deal_streets false (flop ∷ turn ∷ river ∷ []) hand []).0
deal_streets_in_order_example =
    deal_streets_in_order false preflop hand [] (omega arith) refl (omega arith)

init_deals_example :
    (state : PokerState) × (init ctx ≡ some state)
    × ((card : ℕ)
        → card < deck_size
        → occurrences card (hole_cards state.betting.seats ++ state.deck) ≡ 1)
    × (length state.betting.seats ≡ length ctx.players)
    × (table_chips state ≡ pos (brought ctx.players))
init_deals_example = init_deals ctx (λ i. omega arith) (omega arith)

player_view_hides_cards_example :
    player_view (record (deal_others 1 (λ i. 40 ∷ 41 ∷ []) hand) { deck = [] }) 1
    ≡ player_view hand 1
player_view_hides_cards_example =
    player_view_hides_cards 1 (λ i. 40 ∷ 41 ∷ []) hand [] refl (refl, (refl, tt))

-- A showdown on the board 30, 31, 45, 46, 50.
abbrev at_showdown : PokerState
at_showdown = record hand { board = 30 ∷ 31 ∷ 45 ∷ 46 ∷ 50 ∷ []; deck = [] }

finish_pays_example :
    (r : PokerState × List Event) × (finish at_showdown poker_config_fallback [] ≡ done r)
    × Finished at_showdown r.0
unfolding casino_app.Poker.Pots.return_uncalled casino_app.Poker.Betting.contenders
finish_pays_example =
    finish_pays at_showdown poker_config_fallback [] (refl, (refl, tt))
      (omega arith, (omega arith, tt)) ((λ e. omega arith), ((λ e. omega arith), tt))

-- Five percent, at most three chips.
abbrev raked : PokerConfig
raked = record poker_config_fallback { rake_bps = 500; rake_cap = 3 }

rake_for_bounds_example :
    (rake_for at_showdown raked ≤ raked.rake_cap)
    × (10 * rake_for at_showdown raked ≤ pot_size at_showdown.betting.seats)
    × (at_showdown.board ≡ [] → rake_for at_showdown raked ≡ 0)
rake_for_bounds_example = rake_for_bounds at_showdown raked (record {
  blinds_range = (omega arith, omega arith);
  turn_timer_range = (omega arith, omega arith);
  timebank_range = omega arith;
  timebank_step_range = (omega arith, omega arith);
  rake_range = omega arith;
  button_range = omega arith;
})
