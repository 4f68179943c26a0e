-- ===== src/Poker/Game/Actions.antt =====
-- `reduce`, the actions and `onTimeout` of poker.game.ts.
pub mod Chips
pub mod Laws
use casino_app.Prelude.{
  ℕ, suc, ◌+◌, ◌-◌, ◌==◌, ltb, leb, min, Bool, true, false, not, ◌||◌, if◌then◌else◌, Option, none,
  some, or_else, List, [], ◌∷◌, ◌++◌, get_elem?, set,
}
use casino_app.Prelude.Int.{ℤ, pos, negsuc, pos_part, sub_ℕ, Number, int, not_int}
use casino_app.Prelude.Dict.{lookup, put}
use casino_app.Poker.Betting.{
  Street, preflop, flop, turn, river, complete, BettingState, HandSeat, legal_actions,
  validate_raise,
}
use casino_app.Poker.Config.{PokerConfig}
use casino_app.Poker.Game.{
  PokerState, Context, config_of, Action, ActionKind, fold, check, call, bet, raise, all_in_action,
  unknown, Refusal, hand_over, not_in_this_hand, not_your_turn, cannot_check, nothing_to_call,
  unknown_action, bad_raise, bad_index, Event, folded, checked, called, raised, timebank_used,
  auto_action, keep_timer, arm_timer, ReduceResult, Outcome, done, refused, ◌>>=◌, commit,
  all_in_target, add_user, mark_acted,
}
use casino_app.Poker.Game.Flow.{advance}

abbrev pub with_betting : PokerState → BettingState → PokerState
with_betting state betting = record state { betting = betting }

-- `replace`, in the betting state.
abbrev pub replace_seat : BettingState → ℕ → HandSeat → BettingState
replace_seat st index seat = record st { seats = set st.seats index seat }

unfoldable pub apply_fold : Context → PokerState → ℕ → HandSeat → PokerConfig → Outcome ReduceResult
unfolding advance mark_acted
apply_fold ctx state index seat config =
    let seats = replace_seat state.betting index (record seat { folded = true }) in
    advance (with_betting state (mark_acted seats seat.user_id)) ctx index config
      (folded seat.user_id ∷ [])

unfoldable pub apply_check :
    Context → PokerState → ℕ → HandSeat → PokerConfig → Outcome ReduceResult
unfolding advance mark_acted
apply_check ctx state index seat config =
    if ltb seat.street_bet state.betting.current_bet
    then refused cannot_check
    else advance (with_betting state (mark_acted state.betting seat.user_id)) ctx index config
        (checked seat.user_id ∷ [])

-- `owed` is positive where it is used, so that the difference on ℕ is the one of the source.
unfoldable pub apply_call : Context → PokerState → ℕ → HandSeat → PokerConfig → Outcome ReduceResult
unfolding advance mark_acted commit
apply_call ctx state index seat config =
    let owed = state.betting.current_bet - seat.street_bet in
    let paid = min owed seat.stack in
    let seats = replace_seat state.betting index (commit seat (pos paid)) in
    if leb state.betting.current_bet seat.street_bet
    then refused nothing_to_call
    else advance (with_betting state (mark_acted seats seat.user_id)) ctx index config
        (called seat.user_id paid ∷ [])

-- The betting after a raise to `target`, which is above the current bet.
abbrev pub raise_to : BettingState → ℕ → HandSeat → ℕ → BettingState
raise_to st index seat target =
    let increment = target - st.current_bet in
    let full_raise = leb st.min_raise increment in
    record st {
      seats = set st.seats index (commit seat (sub_ℕ target seat.street_bet));
      current_bet = target;
      min_raise = if full_raise then increment else st.min_raise;
      acted_this_street = add_user seat.user_id st.acted_this_street;
      acted_since_full_raise =
          if full_raise then seat.user_id ∷ [] else add_user seat.user_id st.acted_since_full_raise;
    }

abbrev pub raised_event : BettingState → HandSeat → ℕ → Event
raised_event st seat target =
    raised seat.user_id (st.current_bet == 0) (target - seat.street_bet) target
      (commit seat (sub_ℕ target seat.street_bet)).all_in

-- A target that `validate_raise` lets through is a natural number, so the other two are not reached.
abbrev pub raise_checked :
    Context → PokerState → ℕ → HandSeat → Number → PokerConfig → Outcome ReduceResult
raise_checked ctx state index seat (int (pos target)) config =
    advance (with_betting state (raise_to state.betting index seat target)) ctx index config
      (raised_event state.betting seat target ∷ [])
raise_checked ctx state index seat _ config = refused bad_index

unfoldable pub apply_raise :
    Context → PokerState → ℕ → HandSeat → Number → PokerConfig → Outcome ReduceResult
unfolding advance commit validate_raise
apply_raise ctx state index seat target config =
    let checked = raise_checked ctx state index seat target config in
    elim (validate_raise state.betting seat.user_id target) [
      | some problem ↦ refused (bad_raise problem)
      | none ↦ checked
    ]

-- The switch on `action.type`.
unfoldable pub apply_action :
    Context → PokerState → ℕ → HandSeat → ActionKind → Number → PokerConfig → Outcome ReduceResult
unfolding apply_fold apply_check apply_call apply_raise
apply_action ctx state index seat fold amount config = apply_fold ctx state index seat config
apply_action ctx state index seat check amount config = apply_check ctx state index seat config
apply_action ctx state index seat call amount config = apply_call ctx state index seat config
apply_action ctx state index seat bet amount config = apply_raise ctx state index seat amount config
apply_action ctx state index seat raise amount config =
    apply_raise ctx state index seat amount config
apply_action ctx state index seat all_in_action amount config =
    apply_raise ctx state index seat (int (pos (all_in_target seat))) config
apply_action ctx state index seat unknown amount config = refused unknown_action

abbrev pub is_complete : PokerState → Bool
is_complete state = at_end state.betting.street
  where
    at_end : Street → Bool
    at_end complete = true
    at_end preflop = false
    at_end flop = false
    at_end turn = false
    at_end river = false

-- `findIndex` for a user, with the seat that it finds.
unfoldable pub find_index : ℕ → List HandSeat → Option (ℕ × HandSeat)
find_index user [] = none
find_index user (seat ∷ seats) =
    let rest = find_index user seats in
    if seat.user_id == user
    then some (0, seat)
    else elim rest [ some r ↦ some (suc r.0, r.1) | none ↦ none ]

abbrev pub is_turn : Option ℕ → ℕ → Bool
is_turn (some turn_index) index = turn_index == index
is_turn none index = false

unfoldable pub reduce : Context → PokerState → Action → Outcome ReduceResult
unfolding apply_action find_index
reduce ctx state action =
    if is_complete state
    then refused hand_over
    else elim (find_index action.user_id state.betting.seats) [
      | none ↦ refused not_in_this_hand
      | some found ↦
          (let index = found.0 in
            let seat = found.1 in
            let applied =
              apply_action ctx state index seat action.kind action.amount (config_of ctx) in
            if is_turn state.to_act_index index then applied else refused not_your_turn)
    ]

-- `onTimeout`: the time bank first, then a check where it is legal, and otherwise a fold.
abbrev pub use_timebank : Context → PokerState → HandSeat → ℕ → PokerConfig → Outcome ReduceResult
use_timebank ctx state seat bank config =
    let spend = min bank config.timebank_step_ms in
    done record {
      state = record state {
        timebank = put seat.user_id (bank - spend) state.timebank;
        deadline_at = some (ctx.now + spend);
      };
      events = timebank_used seat.user_id (bank - spend) ∷ [];
      timer = arm_timer spend;
    }

abbrev pub told_first : Event → ReduceResult → ReduceResult
told_first event r = record r { events = event ∷ r.events }

abbrev pub act_for : Context → PokerState → ℕ → HandSeat → PokerConfig → Outcome ReduceResult
act_for ctx state index seat config =
    let can_check = (legal_actions state.betting seat.user_id).can_check in
    let auto =
      if can_check
      then apply_check ctx state index seat config
      else apply_fold ctx state index seat config in
    auto >>= λ r. done (told_first (auto_action seat.user_id can_check) r)

abbrev pub seat_timeout : Context → PokerState → ℕ → HandSeat → PokerConfig → Outcome ReduceResult
seat_timeout ctx state index seat config =
    let bank = or_else (lookup seat.user_id state.timebank) 0 in
    if ltb 0 bank
    then use_timebank ctx state seat bank config
    else act_for ctx state index seat config

abbrev pub unchanged : PokerState → ReduceResult
unchanged state = record { state = state; events = []; timer = keep_timer }

abbrev pub timeout_at : Context → PokerState → ℕ → Outcome ReduceResult
timeout_at ctx state index = elim (get_elem? state.betting.seats index) [
  | none ↦ refused bad_index
  | some seat ↦ seat_timeout ctx state index seat (config_of ctx)
]

abbrev pub timeout_of : Context → PokerState → Option ℕ → Outcome ReduceResult
timeout_of ctx state none = done (unchanged state)
timeout_of ctx state (some index) = timeout_at ctx state index

unfoldable pub on_timeout : Context → PokerState → Bool → Outcome ReduceResult
unfolding apply_fold apply_check
on_timeout ctx state is_turn_timer =
    let timed_out = timeout_of ctx state state.to_act_index in
    if not is_turn_timer || is_complete state then done (unchanged state) else timed_out
