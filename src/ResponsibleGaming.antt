-- ===== src/ResponsibleGaming.antt =====
-- apps/api/src/responsible-gaming/rg.types.ts: limits, periods and the windows they are metered in.
-- A `Date` is its milliseconds since 1970; Store holds the tables, Service the operations.
pub mod Store
pub mod Service
pub mod Steps
pub mod Windows
pub mod Frame
pub mod LimitRows
pub mod Limits
pub mod Promotions
pub mod Held
pub mod Cooling
pub mod Usage
pub mod Allowance
pub mod Exclusions
mod Tests
use casino_app.Prelude.{
  ℕ, ◌+◌, ◌-◌, ◌*◌, ◌/◌, ◌%◌, Bool, true, false, ◌||◌, ◌==◌, Option, List, [], ◌∷◌,
}

pub data LimitType : Type 0 where
  deposit loss wager session_time : LimitType

pub data LimitPeriod : Type 0 where
  day week month : LimitPeriod

pub data LimitOrigin : Type 0 where
  player jurisdiction : LimitOrigin

pub data ExclusionKind : Type 0 where
  cool_off self_exclusion : ExclusionKind

-- 'deposit' and 'wager'.
pub data SpendKind : Type 0 where
  deposit_spend wager_spend : SpendKind

-- One number for each string; two strings are equal when their numbers are.
abbrev pub type_code : LimitType → ℕ
type_code deposit = 0
type_code loss = 1
type_code wager = 2
type_code session_time = 3

abbrev pub period_code : LimitPeriod → ℕ
period_code day = 0
period_code week = 1
period_code month = 2

abbrev pub is_player : LimitOrigin → Bool
is_player player = true
is_player jurisdiction = false

pub record RgLimit : Type 0 where
  pub id : ℕ
  pub user_id : ℕ
  pub limit_type : LimitType
  pub period : LimitPeriod
  pub amount : ℕ
  pub origin : LimitOrigin
  pub pending_amount : Option ℕ
  pub pending_effective_at : Option ℕ

pub record RgUsage : Type 0 where
  pub spent : ℕ
  pub returned : ℕ

-- Without `ends_at` the exclusion is permanent.
pub record RgExclusion : Type 0 where
  pub id : ℕ
  pub user_id : ℕ
  pub kind : ExclusionKind
  pub starts_at : ℕ
  pub ends_at : Option ℕ

abbrev pub limit_increase_cooling_ms : ℕ
limit_increase_cooling_ms = 24 * 60 * 60 * 1000

abbrev pub reality_check_min_ms : ℕ
reality_check_min_ms = 5 * 60 * 1000

abbrev pub reality_check_max_ms : ℕ
reality_check_max_ms = 4 * 60 * 60 * 1000

abbrev pub reality_check_grace_ms : ℕ
reality_check_grace_ms = 60 * 1000

abbrev pub ms_per_day : ℕ
ms_per_day = 24 * 60 * 60 * 1000

-- `getUTCDay`, of a day counted from 1 January 1970, a Thursday.
abbrev pub utc_day : ℕ → ℕ
utc_day days = (days + 4) % 7

-- `getUTCDate`: the day of the month in the Gregorian calendar. Years start in March, eras have 400 years.
unfoldable pub utc_date : ℕ → ℕ
utc_date days =
    let day_of_era = (days + 719468) % 146097 in
    let year_of_era =
      (day_of_era - day_of_era / 1460 + day_of_era / 36524 - day_of_era / 146096) / 365 in
    let day_of_year = day_of_era - (365 * year_of_era + year_of_era / 4 - year_of_era / 100) in
    let month_of_year = (5 * day_of_year + 2) / 153 in
    day_of_year - (153 * month_of_year + 2) / 5 + 1

unfoldable pub window_start : LimitPeriod → ℕ → ℕ
unfolding utc_date
window_start day at = at / ms_per_day * ms_per_day
window_start week at = let days = at / ms_per_day in (days - (utc_day days + 6) % 7) * ms_per_day
window_start month at = let days = at / ms_per_day in (days + 1 - utc_date days) * ms_per_day

abbrev pub types_for : SpendKind → List LimitType
types_for deposit_spend = deposit ∷ []
types_for wager_spend = wager ∷ loss ∷ []

-- `typesFor(kind).includes(type)`
abbrev pub includes_type : List LimitType → LimitType → Bool
includes_type [] t = false
includes_type (s ∷ ss) t = type_code s == type_code t || includes_type ss t
