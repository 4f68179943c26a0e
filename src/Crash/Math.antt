-- ===== src/Crash/Math.antt =====
-- apps/api/src/games/crash/crash.math.ts: the multiplier curve, the crash point and the payout, in
-- whole numbers (multipliers times 100, money in minor units, time in milliseconds).
use casino_app.Prelude.{
  ℕ, zero, suc, ◌+◌, ◌-◌, ◌*◌, ◌/◌, ◌^◌, min, max, leb, ltb, ◌&&◌, if◌then◌else◌,
}
use casino_app.Prelude.Int.{ℤ, pos, negsuc}

abbrev pub tick_ms : ℕ
tick_ms = 100

abbrev pub growth_per_mille : ℕ
growth_per_mille = 10

abbrev pub base_x100 : ℕ
base_x100 = 100

-- One round of either loop: `m += Math.max(1, Math.floor((m * GROWTH_PER_MILLE) / 1000))`.
unfoldable pub grow : ℕ → ℕ
grow m = m + max 1 (m * growth_per_mille / 1000)

-- The `for` loop of `multiplierAtTick`, from the multiplier `m` with `ticks` rounds to go.
unfoldable pub climb : ℕ → ℕ → ℕ → ℕ
climb zero max_x100 m = min m max_x100
climb (suc ticks) max_x100 m =
    let rest = climb ticks max_x100 (grow m) in if leb max_x100 m then max_x100 else rest

unfoldable pub multiplier_at_tick : ℕ → ℕ → ℕ
unfolding climb
multiplier_at_tick ticks max_x100 = climb ticks max_x100 base_x100

-- `elapsedMs` is a difference of clock readings, so it may be negative.
unfoldable pub multiplier_at_elapsed : ℤ → ℕ → ℕ
multiplier_at_elapsed (pos zero) max_x100 = base_x100
multiplier_at_elapsed (pos (suc n)) max_x100 = multiplier_at_tick (suc n / tick_ms) max_x100
multiplier_at_elapsed (negsuc _) max_x100 = base_x100

-- The `while` loop of `ticksToReach`, with fuel.
unfoldable pub count_ticks : ℕ → ℕ → ℕ → ℕ → ℕ → ℕ
count_ticks zero target max_x100 m ticks = ticks
count_ticks (suc fuel) target max_x100 m ticks =
    let rest = count_ticks fuel target max_x100 (grow m) (ticks + 1) in
    if ltb m target && ltb m max_x100 then rest else ticks

-- Every round adds at least one, so the target itself is fuel enough.
unfoldable pub ticks_to_reach : ℕ → ℕ → ℕ
unfolding count_ticks
ticks_to_reach target max_x100 = count_ticks target target max_x100 base_x100 0

unfoldable pub ms_to_reach : ℕ → ℕ → ℕ
ms_to_reach target max_x100 = ticks_to_reach target max_x100 * tick_ms

-- `crashPointFromSeed` behind the hash: `r` is the first 32 bits of sha256(seed). The edge is at most
-- 2,000 basis points in every configuration that parses, so `10_000 - edge_bps` is exact.
unfoldable pub crash_point : ℕ → ℕ → ℕ → ℕ
crash_point r edge_bps max_x100 =
    let space = 2 ^ 32 in
    let raw = (10_000 - edge_bps) * space / (100 * (space - r)) in min (max raw base_x100) max_x100

-- `Math.ceil((stake * multiplierX100) / 100)`.
unfoldable pub payout_for : ℕ → ℕ → ℕ
payout_for stake multiplier_x100 = (stake * multiplier_x100 + 99) / 100
