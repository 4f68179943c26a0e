-- ===== src/ResponsibleGaming/Windows.antt =====
-- The windows of apps/api/src/responsible-gaming/rg.types.ts.
use casino_app.Prelude.{ℕ, ◌+◌, ◌*◌, ◌/◌, ◌≤◌, ◌<◌, arith}
use casino_app.ResponsibleGaming.{LimitPeriod, day, week, month, ms_per_day, utc_date, window_start}

-- The longest a window can be, in days.
abbrev pub days_in : LimitPeriod → ℕ
days_in day = 1
days_in week = 7
days_in month = 31

utc_date_bounds : (days : ℕ) → (1 ≤ utc_date days) × (utc_date days ≤ 31)
unfolding utc_date
utc_date_bounds days = (omega arith, omega arith)

-- From February 1970 on, a window starts at or before the moment that it is the window of, and no more
-- than a day, 7 days or 31 days before it.
pub window_start_bounds :
    (period : LimitPeriod) (at : ℕ)
    → 31 * ms_per_day ≤ at
    → (window_start period at ≤ at) × (at < window_start period at + days_in period * ms_per_day)
unfolding window_start
window_start_bounds day at h = (omega arith, omega arith)
window_start_bounds week at h = (omega arith, omega arith)
window_start_bounds month at h = (
  omega (arith, utc_date_bounds (at / ms_per_day)),
  omega (arith, utc_date_bounds (at / ms_per_day)),
)
