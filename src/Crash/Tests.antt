-- ===== src/Crash/Tests.antt =====
-- Crash rounds on concrete numbers: a seed whose first 32 bits are 2 ^ 31 crashes at 1.94x.
use casino_app.Prelude.{
  ℕ, ◌*◌, ◌^◌, ◌-◌, ◌≤◌, ◌<◌, ◌≡◌, ◌↔◌, refl, none, some, [], ◌∷◌, arith, min, sum_of,
}
use casino_app.Prelude.Int.{pos, int}
use casino_app.Prelude.Dict.{lookup}
use casino_app.Crash.Config.{CrashConfig, InSchema}
use casino_app.Crash.Math.{
  base_x100, multiplier_at_tick, multiplier_at_elapsed, ticks_to_reach, ms_to_reach, crash_point,
  payout_for,
}
use casino_app.Crash.Curve.{ticks_to_reach_first, multiplier_at_elapsed-lt, crash_point_reaches}
use casino_app.Crash.Game.{
  Player, CrashState, Action, cash_out, crash_timer, TimerId, done, refused, too_late, ReduceResult,
  Context, lift_off, init, live_multiplier, lock_in, reduce_cash_out, reduce, auto_target_for,
  auto_cash_outs, on_timeout, settle,
}
use casino_app.Crash.Game.Laws.{IsValid, cash_out_before_crash}
use casino_app.Crash.Game.Rounds.{
  Round, opened, acted, ticked, at, Round-IsValid, settle_exposure, cash_out_is_final,
  settled_multiplier, auto_cash_outs_each,
}
use casino_app.Crash.Game.Views.{player_view, player_view_hides}

abbrev ann : Player
ann = record { user_id = 1; stake = 500; auto_cash_out_x100 = none }

abbrev bob : Player
bob = record { user_id = 2; stake = 300; auto_cash_out_x100 = some (int (pos 150)) }

abbrev cem : Player
cem = record { user_id = 3; stake = 700; auto_cash_out_x100 = some (int (pos 400)) }

-- The seed stands for its own hash.
abbrev hash : ℕ → ℕ
hash seed = seed

abbrev table : Context ℕ
table = record {
  players = ann ∷ bob ∷ cem ∷ [];
  parsed = none;
  server_seed = some 2147483648;
  commitment = some 7;
  now = 1_000;
}

abbrev flown : CrashState
flown = lift_off hash table 2147483648

crash_point_is : flown.crash_point_x100 ≡ 194
unfolding crash_point casino_app.Crash.Config.parse_crash_config casino_app.Crash.Math.grow
crash_point_is = refl

opened-Round : Round hash table flown
unfolding init
opened-Round = opened 1_000 refl

flown-IsValid : IsValid flown
flown-IsValid = Round-IsValid hash table tt opened-Round

abbrev ann_out : Action
ann_out = record { action_type = cash_out; user_id = 1 }

-- Ann cashes out three seconds in, and then the crash timer fires.
abbrev out : CrashState
out = (lock_in flown ann (live_multiplier (at table 4_000) flown)).state

out-Round : Round hash table out
unfolding reduce reduce_cash_out crash_point multiplier_at_elapsed multiplier_at_tick
    casino_app.Crash.Config.parse_crash_config casino_app.Crash.Math.grow
out-Round =
    acted 4_000 ann_out (lock_in flown ann (live_multiplier (at table 4_000) flown)) opened-Round
      refl

abbrev over : CrashState
over = (on_timeout (at table 9_000) out crash_timer).state

over-Round : Round hash table over
over-Round = ticked 9_000 crash_timer out-Round

-- The round as a table of witnesses.
settle_exposure_example :
    (sum_of (λ i. i.1) (settle table over)
      ≤ sum_of (λ p. payout_for p.stake over.crash_point_x100) table.players)
    × (sum_of (λ i. i.1) (settle table over)
        ≤ sum_of (λ p. payout_for p.stake over.max_multiplier_x100) table.players)
settle_exposure_example = settle_exposure hash table {s = over} tt over-Round

Round-IsValid_example : IsValid over
Round-IsValid_example = Round-IsValid hash table {s = over} tt over-Round

cash_out_before_crash_example :
    (3_000 < flown.crash_at_ms
      → reduce_cash_out (at table 4_000) flown ann
        ≡ done (lock_in flown ann (live_multiplier (at table 4_000) flown)))
    × (flown.crash_at_ms ≤ 3_000 → reduce_cash_out (at table 4_000) flown ann ≡ refused too_late)
cash_out_before_crash_example =
    cash_out_before_crash (at table 4_000) flown ann 3_000 flown-IsValid refl refl refl

cash_out_is_final_example :
    ((a : Action) (r : ReduceResult)
      → reduce table (record flown { cash_outs = (1, 134) ∷ [] }) a ≡ done r
      → lookup 1 r.state.cash_outs ≡ some 134)
    × ((timer : TimerId)
        → lookup 1
            (on_timeout table (record flown { cash_outs = (1, 134) ∷ [] }) timer).state.cash_outs
          ≡ some 134)
cash_out_is_final_example =
    cash_out_is_final table (record flown { cash_outs = (1, 134) ∷ [] }) 1 {locked = 134} refl

auto_cash_outs_each_example :
    lookup 2 (auto_cash_outs flown table.players [])
    ≡ settled_multiplier flown bob none (auto_target_for bob)
auto_cash_outs_each_example =
    auto_cash_outs_each flown table.players [] 2 bob (refl, (refl, (refl, tt))) refl

-- Two seconds in, below the crash point, under another crash point, timer and seed.
player_view_hides_example :
    player_view
      (record (at table 3_000) { server_seed = some 5; parsed = none })
      (record flown { crash_point_x100 = 800; crash_at_ms = 9 })
      2
    ≡ player_view (at table 3_000) flown 2
unfolding crash_point multiplier_at_elapsed multiplier_at_tick
    casino_app.Crash.Config.parse_crash_config casino_app.Crash.Math.grow
player_view_hides_example =
    player_view_hides (at table 3_000) flown 2 800 9 (some 5) none refl (omega arith) (omega arith)

ticks_to_reach_first_example :
    (min 150 10_000 ≤ multiplier_at_tick (ticks_to_reach 150 10_000) 10_000)
    × ((t : ℕ) → t < ticks_to_reach 150 10_000 → multiplier_at_tick t 10_000 < min 150 10_000)
ticks_to_reach_first_example = ticks_to_reach_first 150 10_000

multiplier_at_elapsed-lt_example :
    (multiplier_at_elapsed (pos 3_000) 10_000 < 194) ↔ (3_000 < ms_to_reach 194 10_000)
multiplier_at_elapsed-lt_example =
    multiplier_at_elapsed-lt 3_000 194 10_000 (omega arith) (omega arith)

crash_point_reaches_example :
    (194 ≤ crash_point 2147483648 300 10_000)
    ↔ (194 * (100 * (2 ^ 32 - 2147483648)) ≤ (10_000 - 300) * 2 ^ 32)
crash_point_reaches_example =
    crash_point_reaches 2147483648 300 10_000 194 (omega arith) (omega arith) (omega arith)
