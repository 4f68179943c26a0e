-- ===== src/Crash/Curve.antt =====
-- Laws of the curve, the crash point and the payout of apps/api/src/games/crash/crash.math.ts.
use casino_app.Prelude.{
  ℕ, zero, suc, ◌+◌, ◌-◌, ◌*◌, ◌/◌, ◌^◌, ◌≤◌, ◌<◌, min, ◌≡◌, ◌⊎◌, inl, inr, ltb, ◌&&◌, arith,
  Bool-cases,
}
use native.Mathlib.Nat.{le-div_iff_mul-le}
use casino_app.Prelude.{◌↔◌}
use casino_app.Prelude.Int.{pos}
use casino_app.Crash.Math.{
  base_x100, grow, climb, multiplier_at_tick, multiplier_at_elapsed, count_ticks, ticks_to_reach,
  ms_to_reach, crash_point, payout_for,
}

pub grow-gt : (m : ℕ) → m < grow m
unfolding grow
grow-gt m = omega arith

climb_bounds :
    (ticks max_x100 m : ℕ)
    → base_x100 ≤ max_x100
    → base_x100 ≤ m
    → (base_x100 ≤ climb ticks max_x100 m) × (climb ticks max_x100 m ≤ max_x100)
unfolding climb
climb_bounds zero max_x100 m h k = omega arith
climb_bounds (suc ticks) max_x100 m h k =
    ground (arith, grow-gt m, climb_bounds ticks max_x100 (grow m) h)

-- One more tick never lowers the multiplier.
climb-suc : (ticks max_x100 m : ℕ) → climb ticks max_x100 m ≤ climb (suc ticks) max_x100 m
unfolding climb
climb-suc zero max_x100 m = ground (arith, grow-gt m)
climb-suc (suc ticks) max_x100 m = ground (arith, climb-suc ticks max_x100 (grow m))

climb_mono : (s t max_x100 m : ℕ) → s ≤ t → climb s max_x100 m ≤ climb t max_x100 m
climb_mono s zero max_x100 m h = let e : s ≡ zero = omega arith in rw e (omega arith)
climb_mono s (suc t) max_x100 m h = elim (le_cases s t h) [
  | inl e ↦ rw e (omega arith)
  | inr l ↦ omega (arith, climb_mono s t max_x100 m l, climb-suc t max_x100 m)
]
  where
    le_cases : (a b : ℕ) → a ≤ suc b → (a ≡ suc b) ⊎ (a ≤ b)
    le_cases a b l = ground arith

-- Between a base of 1.00x and the cap, every multiplier lies in that range, and a later tick never
-- has a lower one.
pub multiplier_at_tick_bounds :
    (s t max_x100 : ℕ)
    → base_x100 ≤ max_x100
    → s ≤ t
    → (base_x100 ≤ multiplier_at_tick s max_x100)
      × (multiplier_at_tick s max_x100 ≤ multiplier_at_tick t max_x100)
      × (multiplier_at_tick t max_x100 ≤ max_x100)
unfolding multiplier_at_tick
multiplier_at_tick_bounds s t max_x100 h l = (
  (climb_bounds s max_x100 base_x100 h (omega arith)).0,
  climb_mono s t max_x100 base_x100 l,
  (climb_bounds t max_x100 base_x100 h (omega arith)).1,
)

-- The curve starts at 1.00x.
climb_zero : (max_x100 : ℕ) → base_x100 ≤ max_x100 → multiplier_at_tick 0 max_x100 ≡ base_x100
unfolding multiplier_at_tick climb
climb_zero max_x100 h = omega arith

count_ticks-add-one :
    (fuel target max_x100 m k : ℕ)
    → count_ticks fuel target max_x100 m (k + 1) ≡ suc (count_ticks fuel target max_x100 m k)
unfolding count_ticks
count_ticks-add-one zero target max_x100 m k = omega arith
count_ticks-add-one (suc fuel) target max_x100 m k =
    ground (arith, count_ticks-add-one fuel target max_x100 (grow m) (k + 1))

count_ticks_reaches :
    (fuel target max_x100 m : ℕ)
    → target ≤ m + fuel
    → min target max_x100 ≤ climb (count_ticks fuel target max_x100 m 0) max_x100 m
unfolding count_ticks climb
count_ticks_reaches zero target max_x100 m h = omega arith
count_ticks_reaches (suc fuel) target max_x100 m h =
    elim (Bool-cases (ltb m target && ltb m max_x100)) [
      | inl more ↦
          rw (more, count_ticks-add-one fuel target max_x100 (grow m) 0)
            (ground (arith, grow-gt m, count_ticks_reaches fuel target max_x100 (grow m)))
      | inr done ↦ rw done (ground arith)
    ]

count_ticks_first :
    (fuel target max_x100 m t : ℕ)
    → t < count_ticks fuel target max_x100 m 0
    → climb t max_x100 m < min target max_x100
unfolding count_ticks climb
count_ticks_first zero target max_x100 m t h = absurd (omega arith)
count_ticks_first (suc fuel) target max_x100 m zero h = ground arith
count_ticks_first (suc fuel) target max_x100 m (suc t) h = ground (
  arith,
  count_ticks-add-one fuel target max_x100 (grow m) 0,
  count_ticks_first fuel target max_x100 (grow m) t,
)

-- `ticksToReach` ends, and at the first tick at which the curve has reached the target (or the cap,
-- where that is lower): at that tick it has, and at no earlier one.
pub ticks_to_reach_first :
    (target max_x100 : ℕ)
    → (min target max_x100 ≤ multiplier_at_tick (ticks_to_reach target max_x100) max_x100)
      × ((t : ℕ)
          → t < ticks_to_reach target max_x100
          → multiplier_at_tick t max_x100 < min target max_x100)
unfolding ticks_to_reach multiplier_at_tick
ticks_to_reach_first target max_x100 = (
  count_ticks_reaches target target max_x100 base_x100 (omega arith),
  λ t h. count_ticks_first target target max_x100 base_x100 t h,
)

-- The crash timer and the price of a cash-out agree: `elapsed` milliseconds into the flight the curve
-- is below a target within the cap exactly if fewer than `msToReach(target)` milliseconds are over.
pub multiplier_at_elapsed-lt :
    (elapsed target max_x100 : ℕ)
    → base_x100 ≤ target
    → target ≤ max_x100
    → (multiplier_at_elapsed (pos elapsed) max_x100 < target)
      ↔ (elapsed < ms_to_reach target max_x100)
unfolding multiplier_at_elapsed ms_to_reach
multiplier_at_elapsed-lt elapsed target max_x100 h k = (below elapsed, before elapsed)
  where
    first :
        (min target max_x100 ≤ multiplier_at_tick (ticks_to_reach target max_x100) max_x100)
        × ((t : ℕ)
            → t < ticks_to_reach target max_x100
            → multiplier_at_tick t max_x100 < min target max_x100)
    first = ticks_to_reach_first target max_x100

    below :
        (e : ℕ)
        → multiplier_at_elapsed (pos e) max_x100 < target
        → e < ticks_to_reach target max_x100 * 100
    below zero l = ground (
      arith,
      first.0,
      multiplier_at_tick_bounds (ticks_to_reach target max_x100) 0 max_x100 (omega arith),
      climb_zero max_x100 (omega arith),
    )
    below (suc e) l = ground (
      arith,
      first.0,
      multiplier_at_tick_bounds (ticks_to_reach target max_x100) (suc e / 100) max_x100
          (omega arith),
    )

    before :
        (e : ℕ)
        → e < ticks_to_reach target max_x100 * 100
        → multiplier_at_elapsed (pos e) max_x100 < target
    before zero l = omega (arith, first.1 0 (omega arith), climb_zero max_x100 (omega arith))
    before (suc e) l = omega (arith, first.1 (suc e / 100) (omega arith))

-- The crash point lies between 1.00x and the cap.
pub crash_point_bounds :
    (r edge_bps max_x100 : ℕ)
    → base_x100 ≤ max_x100
    → (base_x100 ≤ crash_point r edge_bps max_x100) × (crash_point r edge_bps max_x100 ≤ max_x100)
unfolding crash_point
crash_point_bounds r edge_bps max_x100 h = omega arith

-- Which seeds reach a target above 1.00x and within the cap: exactly those whose 32 bits `r` leave
-- `100 * target * (2^32 - r)` at most `(10000 - edge) * 2^32`, the published odds.
pub crash_point_reaches :
    (r edge_bps max_x100 target : ℕ)
    → r < 2 ^ 32
    → base_x100 < target
    → target ≤ max_x100
    → (target ≤ crash_point r edge_bps max_x100)
      ↔ (target * (100 * (2 ^ 32 - r)) ≤ (10_000 - edge_bps) * 2 ^ 32)
unfolding crash_point
crash_point_reaches r edge_bps max_x100 target hr h k = (
  λ l. (le-div_iff_mul-le pos_space).0 (omega arith),
  λ l. omega (arith, (le-div_iff_mul-le {k = 100 * (2 ^ 32 - r)} pos_space).1 l),
)
  where
    pos_space : 0 < 100 * (2 ^ 32 - r)
    pos_space = omega arith

-- A cash-out pays `stake * multiplier / 100` rounded up: never less, and never a whole unit more; so a
-- multiplier of 1.00x or more returns at least the stake.
pub payout_for_lem :
    (stake multiplier_x100 : ℕ)
    → (stake * multiplier_x100 ≤ payout_for stake multiplier_x100 * 100)
      × (payout_for stake multiplier_x100 * 100 < stake * multiplier_x100 + 100)
      × (base_x100 ≤ multiplier_x100 → stake ≤ payout_for stake multiplier_x100)
unfolding payout_for
payout_for_lem stake multiplier_x100 = (omega arith, omega arith, λ h. grind arith)
