-- ===== src/Crash/Game/Laws.antt =====
-- The invariant of a Crash round (apps/api/src/games/crash/crash.game.ts) and the guards of a cash-out.
use casino_app.Prelude.{
  ℕ, zero, suc, ◌/◌, ◌+◌, ◌≤◌, ◌<◌, ◌≡◌, refl, Option, none, some, List, [], ◌∷◌, arith, ltb,
  Bool-cases, Option-cases, inl, inr, is_some, tests, ap, not, ◌||◌,
}
use casino_app.Prelude.Int.{ℤ, pos, negsuc, sub_ℕ}
use casino_app.Prelude.Dict.{Dict, lookup, Values, Values-put}
use casino_app.Crash.Config.{CrashConfig, InSchema, parse_crash_config}
use casino_app.Crash.Math.{
  base_x100, multiplier_at_tick, multiplier_at_elapsed, ms_to_reach, ticks_to_reach,
}
use casino_app.Crash.Curve.{crash_point_bounds, multiplier_at_tick_bounds, multiplier_at_elapsed-lt}
use casino_app.Crash.Game.{
  Player, is_crash_timer, is_flying, flying, CrashState, Action, TimerId, done, refused, too_late,
  ReduceResult, Context, config_of, find_player, init, lift_off, live_multiplier, lock_in,
  reduce_cash_out, reduce, auto_lock, auto_target_for, auto_cash_outs, on_timeout,
}

-- The crash point is within the cap, the timer is set to it, and every locked multiplier is at least
-- 1.00x and below it.
pub record IsValid (s : CrashState) : Type 0 where
  pub from_base : base_x100 ≤ s.crash_point_x100
  pub to_cap : s.crash_point_x100 ≤ s.max_multiplier_x100
  pub timed : s.crash_at_ms ≡ ms_to_reach s.crash_point_x100 s.max_multiplier_x100
  pub locked : Values (λ m. (base_x100 ≤ m) × (m < s.crash_point_x100)) s.cash_outs

abbrev pub Parses : Option CrashConfig → Type 0
Parses none = Unit
Parses (some c) = InSchema c

config_cap :
    (parsed : Option CrashConfig)
    → Parses parsed
    → base_x100 ≤ (parse_crash_config parsed).0.max_multiplier_x100
unfolding parse_crash_config
config_cap none h = omega arith
config_cap (some c) h = ground arith

lift_off-IsValid :
    {Seed : Type 0} (hash32 : Seed → ℕ) (ctx : Context Seed) (seed : Seed)
    → Parses ctx.parsed
    → IsValid (lift_off hash32 ctx seed)
lift_off-IsValid hash32 ctx seed h =
    let config = config_of ctx in
    let range =
      crash_point_bounds (hash32 seed) config.house_edge_bps config.max_multiplier_x100
        (config_cap ctx.parsed h) in
    record { from_base = range.0; to_cap = range.1; timed = refl; locked = tt }

-- A round that opens is valid, whatever the seed, under the schema or the fallback.
pub init-IsValid :
    {Seed : Type 0} (hash32 : Seed → ℕ) (ctx : Context Seed) {s : CrashState}
    → Parses ctx.parsed
    → init hash32 ctx ≡ done s
    → IsValid s
unfolding init
init-IsValid hash32 ctx {s} h e = elim (Option-cases ctx.server_seed) [
  | inl missing ↦ absurd (ground arith)
  | inr (seed, found) ↦
      (let eq : s ≡ lift_off hash32 ctx seed = ground arith in
        rw eq (lift_off-IsValid hash32 ctx seed h))
]

multiplier-base :
    (elapsed : ℤ) (max_x100 : ℕ)
    → base_x100 ≤ max_x100
    → base_x100 ≤ multiplier_at_elapsed elapsed max_x100
unfolding multiplier_at_elapsed
multiplier-base (pos zero) max_x100 h = omega arith
multiplier-base (pos (suc n)) max_x100 h =
    (multiplier_at_tick_bounds (suc n / 100) (suc n / 100) max_x100 h (omega arith)).0
multiplier-base (negsuc n) max_x100 h = omega arith

-- What an accepted cash-out passed, and what it gives.
pub reduce_cash_out_done :
    {Seed : Type 0} (ctx : Context Seed) (s : CrashState) (player : Player) {r : ReduceResult}
    → reduce_cash_out ctx s player ≡ done r
    → (r ≡ lock_in s player (live_multiplier ctx s))
      × (s.phase ≡ flying)
      × (lookup player.user_id s.cash_outs ≡ none)
      × (live_multiplier ctx s < s.crash_point_x100)
unfolding reduce_cash_out
reduce_cash_out_done ctx s player e = ground arith

lock_in-IsValid :
    {Seed : Type 0} (ctx : Context Seed) (s : CrashState) (player : Player)
    → IsValid s
    → live_multiplier ctx s < s.crash_point_x100
    → IsValid (lock_in s player (live_multiplier ctx s)).state
lock_in-IsValid ctx s player v l = record {
  from_base = v.from_base;
  to_cap = v.to_cap;
  timed = v.timed;
  locked =
      Values-put _ player.user_id (live_multiplier ctx s) s.cash_outs
        (multiplier-base (sub_ℕ ctx.now s.started_at) s.max_multiplier_x100 (omega arith), l)
        v.locked;
}

reduce_cash_out-IsValid :
    {Seed : Type 0} (ctx : Context Seed) (s : CrashState) (player : Player) {r : ReduceResult}
    → IsValid s
    → reduce_cash_out ctx s player ≡ done r
    → IsValid r.state
reduce_cash_out-IsValid ctx s player v e =
    let facts = reduce_cash_out_done ctx s player e in
    rw (facts.0) (lock_in-IsValid ctx s player v facts.3)

pub reduce-IsValid :
    {Seed : Type 0} (ctx : Context Seed) (s : CrashState) (a : Action) {r : ReduceResult}
    → IsValid s
    → reduce ctx s a ≡ done r
    → IsValid r.state
unfolding reduce
reduce-IsValid ctx s a {r} v e = elim (Option-cases (find_player a.user_id ctx.players)) [
  | inl stranger ↦ absurd (ground arith)
  | inr (player, found) ↦ reduce_cash_out-IsValid ctx s player {r = r} v (ground arith)
]

auto_lock-locked :
    (s : CrashState) (player : Player) (target : Option ℕ) (m : Dict ℕ)
    → IsValid s
    → Values (λ k. (base_x100 ≤ k) × (k < s.crash_point_x100)) m
    → Values (λ k. (base_x100 ≤ k) × (k < s.crash_point_x100)) (auto_lock s player target m)
auto_lock-locked s player none m v h = h
auto_lock-locked s player (some target) m v h =
    let ticks = ticks_to_reach target s.max_multiplier_x100 in
    let locked = multiplier_at_tick ticks s.max_multiplier_x100 in
    elim (Bool-cases (ltb locked s.crash_point_x100)) [
      | inl early ↦ rw early (
          Values-put _ player.user_id locked m
            (
              (multiplier_at_tick_bounds ticks ticks s.max_multiplier_x100 (omega arith)
                  (omega arith)).0,
              omega tests,
            )
            h)
      | inr lost ↦ rw lost h
    ]

auto_cash_outs-locked :
    (s : CrashState) (players : List Player) (m : Dict ℕ)
    → IsValid s
    → Values (λ k. (base_x100 ≤ k) × (k < s.crash_point_x100)) m
    → Values (λ k. (base_x100 ≤ k) × (k < s.crash_point_x100)) (auto_cash_outs s players m)
unfolding auto_cash_outs
auto_cash_outs-locked s [] m v h = h
auto_cash_outs-locked s (player ∷ players) m v h =
    elim (Bool-cases (is_some (lookup player.user_id m))) [
      | inl out ↦ rw out (auto_cash_outs-locked s players m v h)
      | inr riding ↦ rw riding (
          auto_cash_outs-locked s players _ v
            (auto_lock-locked s player (auto_target_for player) m v h))
    ]

pub on_timeout-IsValid :
    {Seed : Type 0} (ctx : Context Seed) (s : CrashState) (timer : TimerId)
    → IsValid s
    → IsValid (on_timeout ctx s timer).state
unfolding on_timeout
on_timeout-IsValid ctx s timer v =
    elim (Bool-cases (not (is_crash_timer timer) || not (is_flying s.phase))) [
      | inl idle ↦ rw idle v
      | inr now ↦ rw now (record {
        from_base = v.from_base;
        to_cap = v.to_cap;
        timed = v.timed;
        locked = auto_cash_outs-locked s ctx.players s.cash_outs v v.locked;
      })
    ]

-- In a valid state that is still flying, a player who has not cashed out locks in the live multiplier
-- if the crash time set at lift-off has not come, and from that time on is refused as too late.
pub cash_out_before_crash :
    {Seed : Type 0} (ctx : Context Seed) (s : CrashState) (player : Player) (elapsed : ℕ)
    → IsValid s
    → s.phase ≡ flying
    → lookup player.user_id s.cash_outs ≡ none
    → ctx.now ≡ s.started_at + elapsed
    → (elapsed < s.crash_at_ms
        → reduce_cash_out ctx s player ≡ done (lock_in s player (live_multiplier ctx s)))
      × (s.crash_at_ms ≤ elapsed → reduce_cash_out ctx s player ≡ refused too_late)
unfolding reduce_cash_out
cash_out_before_crash ctx s player elapsed v p o n = ground (
  arith,
  live_elapsed,
  multiplier_at_elapsed-lt elapsed s.crash_point_x100 s.max_multiplier_x100 v.from_base v.to_cap,
)
  where
    live_elapsed : live_multiplier ctx s ≡ multiplier_at_elapsed (pos elapsed) s.max_multiplier_x100
    live_elapsed = ap (λ d. multiplier_at_elapsed d s.max_multiplier_x100) (ground arith)
