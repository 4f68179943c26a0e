-- ===== src/ResponsibleGaming/Usage.antt =====
-- What `meter` of apps/api/src/responsible-gaming/rg.repository.ts adds, and to which windows.
use casino_app.Prelude.{
  ℕ, ◌≡◌, refl, ap, ◌∙◌, inl, inr, ◌==◌, ==_iff, Bool, true, false, ◌&&◌, if◌then◌else◌, List, [],
  ◌∷◌, Bool-cases, arith,
}
use casino_app.ResponsibleGaming.{
  LimitType, LimitPeriod, day, week, month, RgUsage, type_code, period_code, window_start,
}
use casino_app.ResponsibleGaming.Store.{
  RgDb, UsageRow, is_row, usage_in, add_usage, upsert, usage_for, meter,
}
use casino_app.ResponsibleGaming.Service.{meter_periods}

abbrev same_row : ℕ → ℕ → LimitType → LimitType → LimitPeriod → LimitPeriod → ℕ → ℕ → Bool
same_row u u' t t' p p' s s' =
    u == u' && type_code t == type_code t' && period_code p == period_code p' && s == s'

is_row_same :
    (u u' : ℕ) (t t' : LimitType) (p p' : LimitPeriod) (s s' : ℕ) (row : UsageRow)
    → is_row u t p s row ≡ true
    → is_row u' t' p' s' row ≡ same_row u u' t t' p p' s s'
is_row_same u u' t t' p p' s s' row h =
    rw
      (
        (==_iff row.user_id u).0 (ground arith),
        (==_iff (type_code row.limit_type) (type_code t)).0 (ground arith),
        (==_iff (period_code row.period) (period_code p)).0 (ground arith),
        (==_iff row.window s).0 (ground arith),
      )
      refl

same_row-is_row :
    (u u' : ℕ) (t t' : LimitType) (p p' : LimitPeriod) (s s' : ℕ) (row : UsageRow)
    → same_row u u' t t' p p' s s' ≡ true
    → is_row u' t' p' s' row ≡ is_row u t p s row
same_row-is_row u u' t t' p p' s s' row h =
    rw
      (
        (==_iff u u').0 (ground arith),
        (==_iff (type_code t) (type_code t')).0 (ground arith),
        (==_iff (period_code p) (period_code p')).0 (ground arith),
        (==_iff s s').0 (ground arith),
      )
      refl

added_once :
    (b : Bool) (x r delta : RgUsage)
    → (if b then add_usage x delta else r)
      ≡ (if b then add_usage (if b then x else r) delta else if b then x else r)
added_once true x r delta = refl
added_once false x r delta = refl

-- What an upsert adds to the row of its key, it adds to no other.
usage_in-upsert :
    (rows : List UsageRow) (u u' : ℕ) (t t' : LimitType) (p p' : LimitPeriod) (s s' : ℕ)
    (delta : RgUsage)
    → usage_in (upsert rows u t p s delta) u' t' p' s' ≡ (
        if same_row u u' t t' p p' s s'
        then add_usage (usage_in rows u' t' p' s') delta
        else usage_in rows u' t' p' s')
usage_in-upsert [] u u' t t' p p' s s' delta = elim (Bool-cases (same_row u u' t t' p p' s s')) [
  | inl same ↦ rw (same, usage_in) (ground arith)
  | inr other ↦ rw (other, usage_in) refl
]
usage_in-upsert (row ∷ rows) u u' t t' p p' s s' delta = elim (Bool-cases (is_row u t p s row)) [
  | inl hit ↦
      rw (hit, is_row_same u u' t t' p p' s s' row hit, usage_in)
        (added_once (same_row u u' t t' p p' s s') row.usage (usage_in rows u' t' p' s') delta)
  | inr miss ↦
      let rest = usage_in-upsert rows u u' t t' p p' s s' delta in
      elim (Bool-cases (same_row u u' t t' p p' s s')) [
        | inl same ↦
            rw (miss, same, same_row-is_row u u' t t' p p' s s' row same, miss, usage_in)
              (rw same at rest)
        | inr other ↦
            rw (miss, other, usage_in)
              (ap (λ r. if is_row u' t' p' s' row then row.usage else r) (rw other at rest))
      ]
]

module _ (u : ℕ) (t t' : LimitType) where
  other_period :
      (p p' : LimitPeriod) (s s' : ℕ)
      → (period_code p == period_code p') ≡ false
      → same_row u u t t' p p' s s' ≡ false
  other_period p p' s s' h = ground arith

  own_period : (p : LimitPeriod) (s : ℕ) → same_row u u t t' p p s s ≡ (type_code t == type_code t')
  own_period p s = ground arith

  usage_in-upsert_other :
      (p p' : LimitPeriod) (s s' : ℕ) (rows : List UsageRow) (delta : RgUsage)
      → (period_code p == period_code p') ≡ false
      → usage_in (upsert rows u t p s delta) u t' p' s' ≡ usage_in rows u t' p' s'
  usage_in-upsert_other p p' s s' rows delta h =
      rw (usage_in-upsert rows u u t t' p p' s s' delta, other_period p p' s s' h) refl

  usage_in-upsert_own :
      (p : LimitPeriod) (s : ℕ) (rows : List UsageRow) (delta : RgUsage)
      → usage_in (upsert rows u t p s delta) u t' p s ≡ (
          if type_code t == type_code t'
          then add_usage (usage_in rows u t' p s) delta
          else usage_in rows u t' p s)
  usage_in-upsert_own p s rows delta =
      rw (usage_in-upsert rows u u t t' p p s s delta, own_period p s) refl

  -- Metering a limit type reaches each of its three windows once.
  pub usage_for-meter_periods :
      (p : LimitPeriod) (at : ℕ) (db : RgDb) (delta : RgUsage)
      → usage_for (meter_periods db u t at delta) u t' p at ≡ (
          if type_code t == type_code t'
          then add_usage (usage_for db u t' p at) delta
          else usage_for db u t' p at)
  unfolding usage_for meter
  usage_for-meter_periods day at db delta =
      rw
        (
          usage_in-upsert_other month day (window_start month at) (window_start day at) _ delta
              refl,
          usage_in-upsert_other week day (window_start week at) (window_start day at) _ delta refl,
          usage_in-upsert_own day (window_start day at) db.usages delta,
        )
        refl
  usage_for-meter_periods week at db delta =
      rw
        (
          usage_in-upsert_other month week (window_start month at) (window_start week at) _ delta
              refl,
          usage_in-upsert_own week (window_start week at) _ delta,
          usage_in-upsert_other day week (window_start day at) (window_start week at) db.usages
              delta refl,
        )
        refl
  usage_for-meter_periods month at db delta =
      rw
        (
          usage_in-upsert_own month (window_start month at) _ delta,
          usage_in-upsert_other week month (window_start week at) (window_start month at) _ delta
              refl,
          usage_in-upsert_other day month (window_start day at) (window_start month at) db.usages
              delta refl,
        )
        refl

  usage_in-upsert_apart :
      (p p' : LimitPeriod) (s s' : ℕ) (rows : List UsageRow) (delta : RgUsage)
      → ((period_code p == period_code p') && (s == s')) ≡ false
      → usage_in (upsert rows u t p s delta) u t' p' s' ≡ usage_in rows u t' p' s'
  usage_in-upsert_apart p p' s s' rows delta h =
      let off : same_row u u t t' p p' s s' ≡ false = ground arith in
      rw (usage_in-upsert rows u u t t' p p' s s' delta, off) refl

  -- A window that does not start where the metered one does is left as it was.
  pub usage_for-meter_periods_apart :
      (p : LimitPeriod) (at at' : ℕ) (db : RgDb) (delta : RgUsage)
      → (window_start p at == window_start p at') ≡ false
      → usage_for (meter_periods db u t at delta) u t' p at' ≡ usage_for db u t' p at'
  unfolding usage_for meter
  usage_for-meter_periods_apart day at at' db delta h =
      usage_in-upsert_apart month day (window_start month at) (window_start day at') _ delta refl
      ∙ usage_in-upsert_apart week day (window_start week at) (window_start day at') _ delta refl
      ∙ usage_in-upsert_apart day day (window_start day at) (window_start day at') db.usages delta
          (rw h refl)
  usage_for-meter_periods_apart week at at' db delta h =
      usage_in-upsert_apart month week (window_start month at) (window_start week at') _ delta refl
      ∙ usage_in-upsert_apart week week (window_start week at) (window_start week at') _ delta
          (rw h refl)
      ∙ usage_in-upsert_apart day week (window_start day at) (window_start week at') db.usages delta
          refl
  usage_for-meter_periods_apart month at at' db delta h =
      usage_in-upsert_apart month month (window_start month at) (window_start month at') _ delta
        (rw h refl)
      ∙ usage_in-upsert_apart week month (window_start week at) (window_start month at') _ delta
          refl
      ∙ usage_in-upsert_apart day month (window_start day at) (window_start month at') db.usages
          delta refl
