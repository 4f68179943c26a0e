-- ===== src/ResponsibleGaming/Store/UsageTable.antt =====
-- apps/api/src/responsible-gaming/rg.repository.ts: `rg.limit_usage`.
use casino_app.Prelude.{ℕ, ◌+◌, ◌==◌, Bool, ◌&&◌, if◌then◌else◌, List, [], ◌∷◌}
use casino_app.ResponsibleGaming.{
  LimitType, LimitPeriod, RgUsage, type_code, period_code, window_start,
}
use casino_app.ResponsibleGaming.Store.Tables.{UsageRow, RgDb}

-- `user_id = $1 AND type = $2 AND period = $3 AND window_start = $4`
abbrev pub is_row : ℕ → LimitType → LimitPeriod → ℕ → UsageRow → Bool
is_row user t p start row =
    row.user_id == user
    && type_code row.limit_type == type_code t
    && period_code row.period == period_code p
    && row.window == start

abbrev pub no_usage : RgUsage
no_usage = record { spent = 0; returned = 0 }

abbrev pub usage_in : List UsageRow → ℕ → LimitType → LimitPeriod → ℕ → RgUsage
usage_in [] user t p start = no_usage
usage_in (row ∷ rows) user t p start =
    let rest = usage_in rows user t p start in if is_row user t p start row then row.usage else rest

unfoldable pub usage_for : RgDb → ℕ → LimitType → LimitPeriod → ℕ → RgUsage
usage_for db user t p at = usage_in db.usages user t p (window_start p at)

abbrev pub add_usage : RgUsage → RgUsage → RgUsage
add_usage a b = record { spent = a.spent + b.spent; returned = a.returned + b.returned }

abbrev pub fresh_row : ℕ → LimitType → LimitPeriod → ℕ → RgUsage → UsageRow
fresh_row user t p start delta = record {
  user_id = user;
  limit_type = t;
  period = p;
  window = start;
  usage = delta;
}

-- `INSERT ... ON CONFLICT ... DO UPDATE`
abbrev pub upsert : List UsageRow → ℕ → LimitType → LimitPeriod → ℕ → RgUsage → List UsageRow
upsert [] user t p start delta = fresh_row user t p start delta ∷ []
upsert (row ∷ rows) user t p start delta =
    let rest = upsert rows user t p start delta in
    if is_row user t p start row
    then record row { usage = add_usage row.usage delta } ∷ rows
    else row ∷ rest

unfoldable pub meter : RgDb → ℕ → LimitType → LimitPeriod → ℕ → RgUsage → RgDb
meter db user t p at delta = record db {
  usages = upsert db.usages user t p (window_start p at) delta;
}
