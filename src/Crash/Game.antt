-- ===== src/Crash/Game.antt =====
-- apps/api/src/games/crash/crash.game.ts: the reducer of a Crash round. `init` is
-- over what `crashPointFromSeed` reads of a seed: the first 32 bits of its sha256, as a number. Where
-- JavaScript takes `Math.max(0, a - b)`, the subtraction of ℕ says the same.
pub mod Laws
pub mod Rounds
pub mod Views
use casino_app.Prelude.{
  ℕ, ◌+◌, ◌-◌, ◌≡◌, min, max, Bool, true, false, ◌==◌, leb, ltb, if◌then◌else◌, Option, none, some,
  is_some, or_else, List, [], ◌∷◌, map, find, not, ◌||◌,
}
use casino_app.Prelude.Int.{ℤ, pos, sub_ℕ, leb_ℤ, Number, int, not_int, is_safe_integer, pos_part}
use casino_app.Prelude.Dict.{Dict, lookup, put}
use casino_app.Crash.Config.{CrashConfig, parse_crash_config}
use casino_app.Crash.Math.{
  base_x100, tick_ms, growth_per_mille, multiplier_at_tick, multiplier_at_elapsed, ticks_to_reach,
  ms_to_reach, crash_point, payout_for,
}

-- `GamePlayer`; of `meta` only `autoCashOutX100` is read, and `none` stands for one that is no number.
pub record Player : Type 0 where
  pub user_id : ℕ
  pub stake : ℕ
  pub auto_cash_out_x100 : Option Number

pub data Phase : Type 0 where
  flying crashed : Phase

abbrev pub is_flying : Phase → Bool
is_flying flying = true
is_flying crashed = false

pub record CrashState : Type 0 where
  pub phase : Phase
  pub started_at : ℕ
  pub crash_point_x100 : ℕ
  pub crash_at_ms : ℕ
  pub max_multiplier_x100 : ℕ
  pub cash_outs : Dict ℕ

pub data ActionType : Type 0 where
  cash_out other_action : ActionType

pub record Action : Type 0 where
  pub action_type : ActionType
  pub user_id : ℕ

pub data TimerId : Type 0 where
  crash_timer other_timer : TimerId

pub data Event : Type 0 where
  player_cashed_out : (user_id multiplier_x100 payout : ℕ) → Event
  round_crashed : (crash_point_x100 : ℕ) → Dict ℕ → Event

-- `ReduceResult.timer`: absent, or null.
pub data TimerChange : Type 0 where
  keep_timer stop_timer : TimerChange

pub record ReduceResult : Type 0 where
  pub state : CrashState
  pub events : List Event
  pub timer : TimerChange

pub data Refusal : Type 0 where
  no_server_seed unknown_action not_in_round already_crashed already_cashed_out too_late : Refusal

pub data Outcome (A : Type 0) : Type 0 where
  done : A → Outcome A
  refused : Refusal → Outcome A

-- `Number.isSafeInteger(raw)` and `raw <= BASE_X100`, on a number.
abbrev pub safe_target : Number → Option ℕ
safe_target (int n) =
    if is_safe_integer (int n)
    then if leb_ℤ n (pos base_x100) then none else some (pos_part n)
    else none
safe_target not_int = none

unfoldable pub auto_target_for : Player → Option ℕ
auto_target_for player = elim player.auto_cash_out_x100 [ none ↦ none | some raw ↦ safe_target raw ]

-- `GameContext`: the roster, what `safeParse` makes of the configuration, the seed and the commitment
-- where the configuration holds them as (non-empty) strings, and the recorded clock.
pub record Context (Seed : Type 0) : Type 0 where
  pub players : List Player
  pub parsed : Option CrashConfig
  pub server_seed : Option Seed
  pub commitment : Option ℕ
  pub now : ℕ

abbrev pub config_of : {Seed : Type 0} → Context Seed → CrashConfig
config_of ctx = (parse_crash_config ctx.parsed).0

abbrev pub find_player : ℕ → List Player → Option Player
find_player user = find (λ p. p.user_id == user)

module _ {Seed : Type 0} (hash32 : Seed → ℕ) where
  -- The state that `init` returns for a seed.
  abbrev pub lift_off : Context Seed → Seed → CrashState
  lift_off ctx seed =
      let config = config_of ctx in
      let point = crash_point (hash32 seed) config.house_edge_bps config.max_multiplier_x100 in
      record {
        phase = flying;
        started_at = ctx.now;
        crash_point_x100 = point;
        crash_at_ms = ms_to_reach point config.max_multiplier_x100;
        max_multiplier_x100 = config.max_multiplier_x100;
        cash_outs = [];
      }

  unfoldable pub init : Context Seed → Outcome CrashState
  init ctx = elim ctx.server_seed [
    | none ↦ refused no_server_seed
    | some seed ↦ done (lift_off ctx seed)
  ]

-- The multiplier at which a cash-out is priced: the curve at the recorded clock.
abbrev pub live_multiplier : {Seed : Type 0} → Context Seed → CrashState → ℕ
live_multiplier ctx state =
    multiplier_at_elapsed (sub_ℕ ctx.now state.started_at) state.max_multiplier_x100

-- The end of `reduce`, once every guard has passed.
abbrev pub lock_in : CrashState → Player → ℕ → ReduceResult
lock_in state player multiplier_x100 = record {
  state = record state { cash_outs = put player.user_id multiplier_x100 state.cash_outs };
  events =
      player_cashed_out player.user_id multiplier_x100 (payout_for player.stake multiplier_x100)
      ∷ [];
  timer = keep_timer;
}

module _ {Seed : Type 0} where
  -- A cash-out by a player of the round.
  unfoldable pub reduce_cash_out : Context Seed → CrashState → Player → Outcome ReduceResult
  reduce_cash_out ctx state player =
      if not (is_flying state.phase)
      then refused already_crashed
      else if is_some (lookup player.user_id state.cash_outs)
      then refused already_cashed_out
      else if leb state.crash_point_x100 (live_multiplier ctx state)
      then refused too_late
      else done (lock_in state player (live_multiplier ctx state))

  unfoldable pub reduce : Context Seed → CrashState → Action → Outcome ReduceResult
  reduce ctx state action = elim action.action_type [
    | other_action ↦ refused unknown_action
    | cash_out ↦ elim (find_player action.user_id ctx.players) [
      | none ↦ refused not_in_round
      | some player ↦ reduce_cash_out ctx state player
    ]
  ]

-- The multiplier that an auto-cash-out target locks: that of the first tick to reach it.
abbrev pub auto_multiplier : CrashState → ℕ → ℕ
auto_multiplier state target =
    multiplier_at_tick (ticks_to_reach target state.max_multiplier_x100) state.max_multiplier_x100

-- One round of the loop in `onTimeout`, past its first `continue`.
abbrev pub auto_lock : CrashState → Player → Option ℕ → Dict ℕ → Dict ℕ
auto_lock state player none cash_outs = cash_outs
auto_lock state player (some target) cash_outs =
    if ltb (auto_multiplier state target) state.crash_point_x100
    then put player.user_id (auto_multiplier state target) cash_outs
    else cash_outs

-- The loop over the roster: `cashOuts` is the copy that it fills.
unfoldable pub auto_cash_outs : CrashState → List Player → Dict ℕ → Dict ℕ
unfolding auto_target_for
auto_cash_outs state [] cash_outs = cash_outs
auto_cash_outs state (player ∷ players) cash_outs = auto_cash_outs state players (
    if is_some (lookup player.user_id cash_outs)
    then cash_outs
    else auto_lock state player (auto_target_for player) cash_outs)

unfoldable pub is_terminal : CrashState → Bool
is_terminal state = not (is_flying state.phase)

abbrev pub instruction : CrashState → Player → ℕ × ℕ
instruction state player = (
  player.user_id,
  elim (lookup player.user_id state.cash_outs) [
    | none ↦ 0
    | some multiplier_x100 ↦ payout_for player.stake multiplier_x100
  ],
)

abbrev pub is_crash_timer : TimerId → Bool
is_crash_timer crash_timer = true
is_crash_timer other_timer = false

module _ {Seed : Type 0} where
  unfoldable pub on_timeout : Context Seed → CrashState → TimerId → ReduceResult
  on_timeout ctx state timer =
      if not (is_crash_timer timer) || not (is_flying state.phase)
      then record { state = state; events = []; timer = keep_timer }
      else (let cash_outs = auto_cash_outs state ctx.players state.cash_outs in
          record {
            state = record state { phase = crashed; cash_outs = cash_outs };
            events = round_crashed state.crash_point_x100 cash_outs ∷ [];
            timer = stop_timer;
          })

  unfoldable pub pending_timer : Context Seed → CrashState → Option (TimerId × ℕ)
  pending_timer ctx state =
      if not (is_flying state.phase)
      then none
      else some (crash_timer, state.started_at + state.crash_at_ms - ctx.now)

  unfoldable pub settle : Context Seed → CrashState → List (ℕ × ℕ)
  settle ctx state = map (instruction state) ctx.players
