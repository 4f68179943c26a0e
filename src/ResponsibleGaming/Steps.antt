-- ===== src/ResponsibleGaming/Steps.antt =====
-- The operations of apps/api/src/responsible-gaming/rg.service.ts that write, as steps on the tables.
use casino_app.Prelude.{
  ℕ, ◌+◌, ◌≤◌, ◌<◌, ◌≡◌, ◌≢◌, ap, inl, inr, ltb, ◌==◌, Bool, ◌||◌, Option, none, some, List, All,
  Bool-cases, arith,
}
use casino_app.Prelude.Int.{ℤ, pos, Number, int, not_int, is_safe_integer}
use casino_app.ResponsibleGaming.{
  LimitType, LimitPeriod, ExclusionKind, cool_off, self_exclusion, SpendKind, RgLimit,
  reality_check_min_ms, reality_check_max_ms,
}
use casino_app.ResponsibleGaming.Store.{
  RgDb, Effective, mark_reality_check_shown, store_interval, record_event, interval_set,
}
use casino_app.ResponsibleGaming.Service.{
  check_allowance, meter_spend, meter_return, meter_connected_play_time, player_set_limit,
  cancel_pending_increase, exclude, set_reality_check_interval, acknowledge_reality_check,
  dispatch_reality_checks, release_lapsed, request_limit, excluded_db,
}

-- No row of the table has the identifier.
abbrev pub IsFresh : ℕ → RgDb → Type 0
IsFresh id db = All (λ (l : RgLimit). l.id ≢ id) db.limits

-- Both clocks stand between `from` and `until` during the steps.
pub data RgStep (from until : ℕ) : RgDb → RgDb → Type 0 where
  limit_changed :
      {db after : RgDb} (id now clock user : ℕ) (t : LimitType) (p : LimitPeriod) (amount : Number)
      (effective : Effective)
      → IsFresh id db
      → from ≤ clock
      → player_set_limit id now clock db user t p amount ≡ some (effective, after)
      → RgStep from until db after
  increase_cancelled :
      {db : RgDb} (now user : ℕ) (t : LimitType) (p : LimitPeriod)
      → RgStep from until db (cancel_pending_increase now db user t p)
  allowance_checked :
      {db : RgDb} (now at user : ℕ) (kind : SpendKind) (amount : ℕ)
      → now < until
      → RgStep from until db (check_allowance now at db user kind amount).1
  spend_metered :
      {db : RgDb} (user : ℕ) (kind : SpendKind) (amount at : ℕ)
      → RgStep from until db (meter_spend db user kind amount at)
  return_metered :
      {db : RgDb} (user amount at : ℕ) → RgStep from until db (meter_return db user amount at)
  play_metered :
      {db : RgDb} (at : ℕ) (users : List ℕ)
      → RgStep from until db (meter_connected_play_time at db users)
  exclusion_started :
      {db after : RgDb} (id now clock user : ℕ) (kind : ExclusionKind) (duration : Option ℤ)
      → exclude id now clock db user kind duration ≡ some after
      → RgStep from until db after
  interval_chosen :
      {db after : RgDb} (now user interval : ℕ)
      → set_reality_check_interval now db user interval ≡ some after
      → RgStep from until db after
  check_acknowledged :
      {db : RgDb} (now user : ℕ) → RgStep from until db (acknowledge_reality_check now db user)
  check_shown :
      {db : RgDb} (now user : ℕ) → RgStep from until db (mark_reality_check_shown now db user)
  checks_dispatched :
      {db : RgDb} (now : ℕ) (is_present : ℕ → Bool)
      → RgStep from until db (dispatch_reality_checks now is_present db).1
  lapses_released : {db : RgDb} (now : ℕ) → RgStep from until db (release_lapsed now db).1

pub data RgSteps (from until : ℕ) : RgDb → RgDb → Type 0 where
  none_taken : {db : RgDb} → RgSteps from until db db
  then_one :
      {db between after : RgDb}
      → RgSteps from until db between
      → RgStep from until between after
      → RgSteps from until db after

some-db : {a b : RgDb} → some a ≡ some b → a ≡ b
some-db h = ground arith

some-pair : {a b : Effective × RgDb} → some a ≡ some b → a ≡ b
some-pair h = ground arith

-- What a limit that is accepted leaves.
pub player_set_limit_accepts :
    (id now clock : ℕ) (db : RgDb) (user : ℕ) (t : LimitType) (p : LimitPeriod) (amount : Number)
    (effective : Effective) (after : RgDb)
    → player_set_limit id now clock db user t p amount ≡ some (effective, after)
    → (n : ℕ) × ((request_limit id now clock db user t p n).1 ≡ after)
unfolding player_set_limit
player_set_limit_accepts id now clock db user t p not_int effective after h = absurd (ground arith)
player_set_limit_accepts id now clock db user t p (int (ℤ.negsuc n)) effective after h =
    absurd (ground arith)
player_set_limit_accepts id now clock db user t p (int (pos n)) effective after h =
    elim (Bool-cases (is_safe_integer (int (pos n)))) [
      | inr bad ↦ absurd (ground arith)
      | inl good ↦ (n, ap (λ r. r.1) (some-pair (rw (good, player_set_limit) at h)))
    ]

-- What an exclusion that is accepted leaves.
pub exclude_accepts :
    (id now clock : ℕ) (db : RgDb) (user : ℕ) (kind : ExclusionKind) (duration : Option ℤ)
    (after : RgDb)
    → exclude id now clock db user kind duration ≡ some after
    → (ends_at : Option ℕ) × (excluded_db id now db user kind ends_at ≡ after)
unfolding exclude
exclude_accepts id now clock db user kind (some (ℤ.negsuc n)) after h = absurd (ground arith)
exclude_accepts id now clock db user kind (some (pos n)) after h = elim (Bool-cases (n == 0)) [
  | inl nothing ↦ absurd (ground arith)
  | inr some_time ↦ (some (clock + n), some-db (rw (some_time, exclude) at h))
]
exclude_accepts id now clock db user cool_off none after h = absurd (ground arith)
exclude_accepts id now clock db user self_exclusion none after h = (none, some-db h)

-- What an interval that is accepted leaves.
pub set_reality_check_interval_accepts :
    (now : ℕ) (db : RgDb) (user interval : ℕ) (after : RgDb)
    → set_reality_check_interval now db user interval ≡ some after
    → record_event now (store_interval db user interval) user interval_set ≡ after
unfolding set_reality_check_interval
set_reality_check_interval_accepts now db user interval after h =
    elim (Bool-cases (ltb interval reality_check_min_ms || ltb reality_check_max_ms interval)) [
      | inl out ↦ absurd (ground arith)
      | inr within ↦ some-db (rw (within, set_reality_check_interval) at h)
    ]
