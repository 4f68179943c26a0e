-- ===== src/Poker/Betting.antt =====
-- apps/api/src/games/poker/betting.ts: what a player may do, and who acts next. Chips and positions
-- are natural numbers; the one difference that may be negative, what a call costs, is an integer.
pub mod Offers
pub mod Turns
use casino_app.Prelude.{
  ℕ, zero, suc, ◌+◌, ◌%◌, min, Bool, true, false, not, ◌&&◌, ◌||◌, ◌==◌, ltb, leb, if◌then◌else◌,
  Option, none, some, is_some, List, [], ◌∷◌, length, get_elem?, find, filter, every, includes,
}
use casino_app.Prelude.Int.{
  ℤ, pos, sub_ℕ, ltb_ℤ, leb_ℤ, eqb_ℤ, Number, int, not_int, is_safe_integer,
}

pub data Street : Type 0 where
  preflop flop turn river complete : Street

pub record HandSeat : Type 0 where
  pub user_id : ℕ
  pub seat : ℕ
  pub order : ℕ
  pub stack : ℕ
  pub committed : ℕ
  pub street_bet : ℕ
  pub folded : Bool
  pub all_in : Bool
  pub cards : List ℕ
  pub revealed : Bool
  pub mucked : Bool

pub record BettingState : Type 0 where
  pub street : Street
  pub seats : List HandSeat
  pub current_bet : ℕ
  pub min_raise : ℕ
  pub big_blind : ℕ
  pub acted_this_street : List ℕ
  pub acted_since_full_raise : List ℕ

pub record LegalActions : Type 0 where
  pub can_fold : Bool
  pub can_check : Bool
  pub can_call : Bool
  pub call_amount : ℤ
  pub can_bet : Bool
  pub can_raise : Bool
  pub min_raise_to : ℕ
  pub max_raise_to : ℕ
  -- Whether `raiseBlockedReason` is there.
  pub raise_blocked : Bool

abbrev pub is_live : HandSeat → Bool
is_live seat = not seat.folded && not seat.all_in

abbrev pub is_contender : HandSeat → Bool
is_contender seat = not seat.folded

unfoldable pub contenders : BettingState → List HandSeat
contenders state = filter is_contender state.seats

abbrev pub find_seat : ℕ → List HandSeat → Option HandSeat
find_seat user = find (λ s. s.user_id == user)

abbrev pub no_actions : LegalActions
no_actions = record {
  can_fold = false;
  can_check = false;
  can_call = false;
  call_amount = pos 0;
  can_bet = false;
  can_raise = false;
  min_raise_to = 0;
  max_raise_to = 0;
  raise_blocked = false;
}

abbrev pub min_ℤ : ℤ → ℤ → ℤ
min_ℤ a b = if ltb_ℤ b a then b else a

-- The least total that a raise must reach, before it is capped at the stack.
abbrev pub full_raise_to : BettingState → ℕ
full_raise_to state =
    if ltb 0 state.current_bet then state.current_bet + state.min_raise else state.big_blind

-- `legalActions` for a seat that is live.
abbrev pub live_actions : BettingState → ℕ → HandSeat → LegalActions
live_actions state user seat =
    let to_call = min_ℤ (sub_ℕ state.current_bet seat.street_bet) (pos seat.stack) in
    let facing_bet = ltb seat.street_bet state.current_bet in
    let already_closed = includes state.acted_since_full_raise user in
    let max_raise_to = seat.street_bet + seat.stack in
    let can_afford_any_raise = ltb state.current_bet max_raise_to in
    record {
      can_fold = true;
      can_check = not facing_bet;
      can_call = facing_bet && ltb_ℤ (pos 0) to_call;
      call_amount = to_call;
      can_bet = state.current_bet == 0 && can_afford_any_raise;
      can_raise = ltb 0 state.current_bet && can_afford_any_raise && not already_closed;
      min_raise_to = min (full_raise_to state) max_raise_to;
      max_raise_to = max_raise_to;
      raise_blocked = already_closed && ltb 0 state.current_bet;
    }

abbrev pub seat_actions : BettingState → ℕ → HandSeat → LegalActions
seat_actions state user seat = if is_live seat then live_actions state user seat else no_actions

unfoldable pub legal_actions : BettingState → ℕ → LegalActions
legal_actions state user = elim (find_seat user state.seats) [
  | none ↦ no_actions
  | some seat ↦ seat_actions state user seat
]

-- The reasons that `validateRaise` gives.
pub data RaiseProblem : Type 0 where
  not_in_hand reopening_blocked cannot_raise not_whole_chips not_above_bet too_many_chips :
      RaiseProblem
  below_minimum : ℕ → RaiseProblem

-- The bounds, once the amount is known to be a safe integer.
abbrev pub check_bounds : BettingState → LegalActions → ℤ → Option RaiseProblem
check_bounds state legal target =
    if leb_ℤ target (pos state.current_bet)
    then some not_above_bet
    else if ltb_ℤ (pos legal.max_raise_to) target
    then some too_many_chips
    else if ltb_ℤ target (pos legal.min_raise_to) && not (eqb_ℤ target (pos legal.max_raise_to))
    then some (below_minimum legal.min_raise_to)
    else none

abbrev pub check_amount : BettingState → LegalActions → Number → Option RaiseProblem
check_amount state legal (int target) =
    if not (is_safe_integer (int target))
    then some not_whole_chips
    else check_bounds state legal target
check_amount state legal not_int = some not_whole_chips

unfoldable pub validate_raise : BettingState → ℕ → Number → Option RaiseProblem
unfolding legal_actions
validate_raise state user target =
    if not (is_some (find_seat user state.seats))
    then some not_in_hand
    else if not (legal_actions state user).can_bet && not (legal_actions state user).can_raise
    then some (if (legal_actions state user).raise_blocked then reopening_blocked else cannot_raise)
    else check_amount state (legal_actions state user) target

-- A live seat is done with the street: it has matched the bet and acted.
abbrev pub is_settled : BettingState → HandSeat → Bool
is_settled state seat =
    seat.street_bet == state.current_bet && includes state.acted_this_street seat.user_id

-- The case of exactly one live player who owes nothing: everyone else still in is all in.
abbrev pub lone_player_done : BettingState → List HandSeat → Bool
lone_player_done state (seat ∷ []) =
    leb state.current_bet seat.street_bet
    && every (λ s. s.all_in) (filter (λ s. not (s.user_id == seat.user_id)) (contenders state))
lone_player_done state _ = false

unfoldable pub betting_round_complete : BettingState → Bool
unfolding contenders
betting_round_complete state =
    let live = filter is_live state.seats in
    leb (length (contenders state)) 1
    || length live == 0
    || lone_player_done state live
    || every (is_settled state) live

-- The test in the loop of `nextToAct`.
abbrev pub owes_action : BettingState → HandSeat → Bool
owes_action state seat =
    is_live seat
    && (ltb seat.street_bet state.current_bet
        || not (includes state.acted_this_street seat.user_id))

-- The loop, with `rounds` to go. The index is always within the seats.
unfoldable pub walk_seats : BettingState → ℕ → ℕ → ℕ → Option ℕ
walk_seats state from_index zero step = none
walk_seats state from_index (suc rounds) step =
    let index = (from_index + step) % length state.seats in
    let rest = walk_seats state from_index rounds (step + 1) in
    elim (get_elem? state.seats index) [
      | none ↦ rest
      | some seat ↦ if owes_action state seat then some index else rest
    ]

unfoldable pub next_to_act : BettingState → ℕ → Option ℕ
unfolding walk_seats betting_round_complete
next_to_act state from_index =
    let walked = walk_seats state from_index (length state.seats) 1 in
    if betting_round_complete state then none else walked
