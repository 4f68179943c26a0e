-- ===== src/CoinDuel.antt =====
-- apps/api/src/game-engine/games/coin-duel.game.ts: the reference game of the engine. A pick is a
-- string that is not empty, so that `state.picks[userId]` is true exactly if there is one.
pub mod Laws
mod Tests
use casino_app.Prelude.{
  ℕ, zero, suc, ◌+◌, ◌-◌, ◌*◌, ◌/◌, ◌==◌, Bool, true, false, not, if◌then◌else◌, Option, none, some,
  is_some, List, [], ◌∷◌, map, filter, find, every, length, sum_of,
}
use casino_app.Prelude.Dict.{Dict, lookup, put}

pub data Side : Type 0 where
  heads tails : Side

abbrev pub same_side : Side → Side → Bool
same_side heads heads = true
same_side tails tails = true
same_side heads tails = false
same_side tails heads = false

pub record Player : Type 0 where
  pub user_id : ℕ
  pub seat : ℕ
  pub stake : ℕ

pub record CoinDuelState : Type 0 where
  pub turn : Option ℕ
  pub picks : Dict Side
  pub flip : Option Side
  pub winners : List ℕ
  pub pot : ℕ

-- What a draw of `ctx.random(2, …)` is for.
pub data Purpose : Type 0 where
  coin_flip : Purpose
  timeout_pick : (timer : ℕ) → Purpose

pub record Context : Type 0 where
  pub players : List Player
  pub random : Purpose → ℕ

pub data ActionType : Type 0 where
  pick other_action : ActionType

-- `payload.choice`, and none if it is neither side.
pub record Action : Type 0 where
  pub action_type : ActionType
  pub user_id : ℕ
  pub choice : Option Side

pub data Refusal : Type 0 where
  unknown_action not_in_match already_decided already_picked not_your_turn pick_a_side
        no_seat_left :
      Refusal

pub data Event : Type 0 where
  player_picked : (user_id : ℕ) (automatic : Bool) → Event
  your_pick : Side → (only_to : ℕ) → Event
  coin_flipped : Side → Dict Side → (winners : List ℕ) → Event

pub data TimerChange : Type 0 where
  keep_timer stop_timer : TimerChange
  arm_turn : (seat delay_ms : ℕ) → TimerChange

pub record ReduceResult : Type 0 where
  pub state : CoinDuelState
  pub events : List Event
  pub timer : TimerChange

pub data Outcome : Type 0 where
  done : ReduceResult → Outcome
  refused : Refusal → Outcome

abbrev pub turn_timeout_ms : ℕ
turn_timeout_ms = 15_000

abbrev pub stakes : List Player → ℕ
stakes = sum_of (λ (p : Player). p.stake)

unfoldable pub init : Context → CoinDuelState
init ctx = record { turn = some 0; picks = []; flip = none; winners = []; pot = stakes ctx.players }

abbrev pub side_of : ℕ → Side
side_of draw = if draw == 0 then heads else tails

abbrev pub has_picked : Dict Side → Player → Bool
has_picked picks p = is_some (lookup p.user_id picks)

abbrev pub picked_side : Side → Option Side → Bool
picked_side flip none = false
picked_side flip (some side) = same_side side flip

abbrev pub matched : Side → Dict Side → Player → Bool
matched flip picks p = picked_side flip (lookup p.user_id picks)

abbrev pub winners_of : Side → Dict Side → List Player → List ℕ
winners_of flip picks players =
    map (λ (p : Player). p.user_id) (filter (matched flip picks) players)

-- The two ways out of `applyPick`.
abbrev pub next_turn : CoinDuelState → Dict Side → ℕ → Side → Bool → ℕ → ReduceResult
next_turn state picks user choice automatic seat = record {
  state = record state { picks = picks; turn = some seat };
  events = player_picked user automatic ∷ your_pick choice user ∷ [];
  timer = arm_turn seat turn_timeout_ms;
}

abbrev pub decide : Context → CoinDuelState → Dict Side → ℕ → Bool → ReduceResult
decide ctx state picks user automatic =
    let flip = side_of (ctx.random coin_flip) in
    let winners = winners_of flip picks ctx.players in
    record {
      state = record state { picks = picks; turn = none; flip = some flip; winners = winners };
      events = player_picked user automatic ∷ coin_flipped flip picks winners ∷ [];
      timer = stop_timer;
    }

unfoldable pub apply_pick : Context → CoinDuelState → ℕ → Side → Bool → Outcome
apply_pick ctx state user choice automatic =
    let picks = put user choice state.picks in
    let decided = decide ctx state picks user automatic in
    let waiting = elim (find (λ p. not (has_picked picks p)) ctx.players) as (λ x. Outcome) [
      | none ↦ refused no_seat_left
      | some p ↦ done (next_turn state picks user choice automatic p.seat)
    ] in
    if not (every (has_picked picks) ctx.players) then waiting else done decided

abbrev pub is_seat : Option ℕ → ℕ → Bool
is_seat none seat = false
is_seat (some turn) seat = turn == seat

abbrev pub pick_choice : Context → CoinDuelState → ℕ → Option Side → Outcome
pick_choice ctx state user none = refused pick_a_side
pick_choice ctx state user (some choice) = apply_pick ctx state user choice false

abbrev pub pick_by : Context → CoinDuelState → Action → Player → Outcome
pick_by ctx state action player =
    let chosen = pick_choice ctx state action.user_id action.choice in
    if is_some state.flip
    then refused already_decided
    else if is_some (lookup action.user_id state.picks)
    then refused already_picked
    else if not (is_seat state.turn player.seat)
    then refused not_your_turn
    else chosen

unfoldable pub reduce : Context → CoinDuelState → Action → Outcome
unfolding apply_pick
reduce ctx state action = elim action.action_type [
  | other_action ↦ refused unknown_action
  | pick ↦ elim (find (λ (p : Player). p.user_id == action.user_id) ctx.players) [
    | none ↦ refused not_in_match
    | some player ↦ pick_by ctx state action player
  ]
]

abbrev pub unchanged : CoinDuelState → Outcome
unchanged state = done record { state = state; events = []; timer = keep_timer }

abbrev pub pick_for : Context → CoinDuelState → ℕ → Option Player → Outcome
pick_for ctx state timer none = unchanged state
pick_for ctx state timer (some p) =
    apply_pick ctx state p.user_id (side_of (ctx.random (timeout_pick timer))) true

unfoldable pub on_timeout : Context → CoinDuelState → ℕ → Outcome
unfolding apply_pick
on_timeout ctx state timer =
    let picked =
      pick_for ctx state timer (find (λ (p : Player). is_seat state.turn p.seat) ctx.players) in
    if not (is_some state.turn)
    then unchanged state
    else if is_some state.flip
    then unchanged state
    else picked

abbrev pub is_terminal : CoinDuelState → Bool
is_terminal state = is_some state.flip

-- `winners.map`, from an index on.
abbrev pub pay_from : ℕ → ℕ → ℕ → List ℕ → List (ℕ × ℕ)
pay_from share remainder index [] = []
pay_from share remainder index (user ∷ users) =
    (user, if index == 0 then share + remainder else share)
    ∷ pay_from share remainder (index + 1) users

unfoldable pub settle : Context → CoinDuelState → List (ℕ × ℕ)
settle ctx state =
    let share = state.pot / length state.winners in
    let remainder = state.pot - share * length state.winners in
    if length state.winners == 0
    then map (λ (p : Player). (p.user_id, p.stake)) ctx.players
    else pay_from share remainder 0 state.winners

pub record View : Type 0 where
  pub turn : Option ℕ
  pub your_choice : Option Side
  pub picked : List ℕ
  pub picks : Option (Dict Side)
  pub flip : Option Side
  pub winners : List ℕ
  pub pot : ℕ

unfoldable pub player_view : CoinDuelState → ℕ → View
player_view state user = record {
  turn = state.turn;
  your_choice = lookup user state.picks;
  picked = map (λ (e : ℕ × Side). e.0) state.picks;
  picks = if is_some state.flip then some state.picks else none;
  flip = state.flip;
  winners = state.winners;
  pot = state.pot;
}
