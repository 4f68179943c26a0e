-- ===== src/ResponsibleGaming/Cooling.antt =====
-- A limit does not loosen while it cools: apps/api/src/responsible-gaming over any run of operations.
use casino_app.Prelude.{ℕ, ◌+◌, ◌≤◌, ◌≡◌, refl, Option, none, some, arith}
use casino_app.ResponsibleGaming.{LimitType, LimitPeriod, limit_increase_cooling_ms}
use casino_app.ResponsibleGaming.Store.{
  RgDb, active_exclusion, due_reality_checks, meter, release_lapsed_exclusions,
}
use casino_app.ResponsibleGaming.Service.{
  check_allowance, meter_return, cancel_pending_increase, dispatch_reality_checks, release_lapsed,
  meter_spend, meter_connected_play_time, record_lapses, acknowledge_reality_check,
}
use casino_app.ResponsibleGaming.LimitRows.{DistinctIds}
use casino_app.ResponsibleGaming.Limits.{LimitView, limit_view}
use casino_app.ResponsibleGaming.Frame.{
  KeepsRows-meter_connected_play_time, KeepsRows-record_lapses, KeepsRows-dispatch_to,
  KeepsRows-meter_spend,
}
use casino_app.ResponsibleGaming.Steps.{
  RgStep, limit_changed, increase_cancelled, allowance_checked, spend_metered, return_metered,
  play_metered, exclusion_started, interval_chosen, check_acknowledged, check_shown,
  checks_dispatched, lapses_released, RgSteps, none_taken, then_one, player_set_limit_accepts,
  exclude_accepts, set_reality_check_interval_accepts,
}
use casino_app.ResponsibleGaming.Held.{
  Held, HeldIn, HeldIn-set_limit, HeldIn-cancel_pending, HeldIn-allowance_after, HeldIn-KeepsRows,
}

module _ (until amount user : ℕ) (t : LimitType) (p : LimitPeriod) where
  HeldIn-RgStep :
      (from : ℕ) {db after : RgDb}
      → until ≤ from + limit_increase_cooling_ms
      → RgStep from until db after
      → HeldIn until amount user t p db
      → HeldIn until amount user t p after
  unfolding cancel_pending_increase check_allowance meter_return meter dispatch_reality_checks
      release_lapsed release_lapsed_exclusions acknowledge_reality_check
  HeldIn-RgStep from {db} within
        (limit_changed id now clock u s q n effective fresh at_least accepted) h =
      let (n, is) = player_set_limit_accepts id now clock db u s q n effective _ accepted in
      rw (← is) (HeldIn-set_limit until amount user t p id clock db _ fresh (omega arith) h)
  HeldIn-RgStep from {db} within (increase_cancelled now u s q) h =
      HeldIn-cancel_pending until amount user t p db u s q h
  HeldIn-RgStep from {db} within (allowance_checked now at u kind n early) h =
      HeldIn-allowance_after until amount user t p now at db u kind n (active_exclusion now db u)
        early h
  HeldIn-RgStep from {db} within (spend_metered u kind n at) h =
      HeldIn-KeepsRows until amount user t p db (meter_spend db u kind n at)
        (KeepsRows-meter_spend db u kind n at) h
  HeldIn-RgStep from within (return_metered u n at) h = h
  HeldIn-RgStep from {db} within (play_metered at users) h =
      HeldIn-KeepsRows until amount user t p db (meter_connected_play_time at db users)
        (KeepsRows-meter_connected_play_time at users db) h
  HeldIn-RgStep from {db} within (exclusion_started id now clock u kind duration accepted) h =
      let (ends_at, is) = exclude_accepts id now clock db u kind duration _ accepted in rw (← is) h
  HeldIn-RgStep from {db} within (interval_chosen now u interval accepted) h =
      rw (← set_reality_check_interval_accepts now db u interval _ accepted) h
  HeldIn-RgStep from within (check_acknowledged now u) h = h
  HeldIn-RgStep from within (check_shown now u) h = h
  HeldIn-RgStep from {db} within (checks_dispatched now is_present) h =
      HeldIn-KeepsRows until amount user t p db (dispatch_reality_checks now is_present db).1
        (KeepsRows-dispatch_to now is_present (due_reality_checks now db) db) h
  HeldIn-RgStep from {db} within (lapses_released now) h =
      let released = release_lapsed_exclusions now db in
      HeldIn-KeepsRows until amount user t p released.1 (record_lapses now released.1 released.0)
        (KeepsRows-record_lapses now released.1 released.0) h

  HeldIn-RgSteps :
      (from : ℕ) {db after : RgDb}
      → until ≤ from + limit_increase_cooling_ms
      → RgSteps from until db after
      → HeldIn until amount user t p db
      → HeldIn until amount user t p after
  HeldIn-RgSteps from within none_taken h = h
  HeldIn-RgSteps from within (then_one steps step) h =
      HeldIn-RgStep from within step (HeldIn-RgSteps from within steps h)

Held-view :
    (until amount : ℕ) (o : Option LimitView)
    → Held until amount o
    → (v : LimitView) × (o ≡ some v) × (v.bound ≤ amount)
Held-view until amount none h = absurd h
Held-view until amount (some v) h = (v, refl, h.0)

-- Take a player's limit for which no increase waits, in a table whose identifiers differ. Whatever
-- operations run within 24 hours, with fresh identifiers, the limit stands, at its amount or below.
pub limit_holds_while_cooling :
    (from until user amount : ℕ) (t : LimitType) (p : LimitPeriod) (db after : RgDb)
    → until ≤ from + limit_increase_cooling_ms
    → DistinctIds db.limits
    → limit_view db user t p ≡ some (record { bound = amount; increase = none })
    → RgSteps from until db after
    → (v : LimitView) × (limit_view after user t p ≡ some v) × (v.bound ≤ amount)
limit_holds_while_cooling from until user amount t p db after within distinct set steps =
    Held-view until amount (limit_view after user t p)
      (HeldIn-RgSteps until amount user t p from within steps
        (distinct, rw set (omega arith, tt))).1
