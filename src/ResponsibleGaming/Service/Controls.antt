-- ===== src/ResponsibleGaming/Service/Controls.antt =====
-- apps/api/src/responsible-gaming/rg.service.ts: the player's controls, and the sweeps.
use casino_app.Prelude.{
  ℕ, ◌+◌, ◌-◌, ltb, leb, ◌==◌, Bool, true, false, not, ◌||◌, if◌then◌else◌, Option, none, some,
  List, [], ◌∷◌,
}
use casino_app.Prelude.Int.{ℤ, pos, ◌-ℤ◌, Number, int, not_int, is_safe_integer}
use casino_app.Prelude.Dict.{Dict}
use casino_app.ResponsibleGaming.{
  LimitType, loss, wager, LimitPeriod, day, ExclusionKind, cool_off, self_exclusion,
  limit_increase_cooling_ms, reality_check_min_ms, reality_check_max_ms,
}
use casino_app.ResponsibleGaming.Store.{
  RgDb, RealityCheck, Effective, immediate, pending, RgEventType, limit_set,
  limit_increase_requested, limit_increase_cancelled, cool_off_started, self_exclusion_started,
  exclusion_lapsed, interval_set, shown, acknowledged, self_excluded, set_limit, cancel_pending,
  usage_for, add_exclusion, release_lapsed_exclusions, set_status, reality_check,
  due_reality_checks, store_interval, mark_reality_check_shown, store_acknowledgement, record_event,
}
use casino_app.ResponsibleGaming.Service.Decisions.{is_acknowledged}

abbrev pub limit_event : Effective → RgEventType
limit_event immediate = limit_set
limit_event (pending at) = limit_increase_requested

-- `none` is a limit that is refused; a safe integer that is not negative is a number of ours.
abbrev pub request_limit : ℕ → ℕ → ℕ → RgDb → ℕ → LimitType → LimitPeriod → ℕ → Effective × RgDb
request_limit id now clock db user t p amount =
    let result = set_limit id clock db (record {
      user_id = user;
      limit_type = t;
      period = p;
      amount = amount;
      cooling_ms = limit_increase_cooling_ms;
    }) in
    (result.0, record_event now result.1 user (limit_event result.0))

unfoldable pub player_set_limit :
    ℕ → ℕ → ℕ → RgDb → ℕ → LimitType → LimitPeriod → Number → Option (Effective × RgDb)
player_set_limit id now clock db user t p not_int = none
player_set_limit id now clock db user t p (int (ℤ.negsuc n)) = none
player_set_limit id now clock db user t p (int (pos amount)) =
    if not (is_safe_integer (int (pos amount)))
    then none
    else some (request_limit id now clock db user t p amount)

unfoldable pub cancel_pending_increase : ℕ → RgDb → ℕ → LimitType → LimitPeriod → RgDb
cancel_pending_increase now db user t p =
    record_event now (cancel_pending db user t p) user limit_increase_cancelled

abbrev pub exclusion_event : ExclusionKind → RgEventType
exclusion_event cool_off = cool_off_started
exclusion_event self_exclusion = self_exclusion_started

abbrev pub excluded_db : ℕ → ℕ → RgDb → ℕ → ExclusionKind → Option ℕ → RgDb
excluded_db id now db user kind ends_at =
    let added = add_exclusion id now db user kind ends_at in
    record_event now (record added { statuses = set_status user self_excluded added.statuses }) user
      (exclusion_event kind)

-- The duration is a whole number of milliseconds; `none` is an error of validation.
unfoldable pub exclude : ℕ → ℕ → ℕ → RgDb → ℕ → ExclusionKind → Option ℤ → Option RgDb
exclude id now clock db user kind (some (ℤ.negsuc n)) = none
exclude id now clock db user kind (some (pos duration)) =
    if duration == 0 then none else some (excluded_db id now db user kind (some (clock + duration)))
exclude id now clock db user cool_off none = none
exclude id now clock db user self_exclusion none =
    some (excluded_db id now db user self_exclusion none)

unfoldable pub set_reality_check_interval : ℕ → RgDb → ℕ → ℕ → Option RgDb
set_reality_check_interval now db user interval =
    if ltb interval reality_check_min_ms || ltb reality_check_max_ms interval
    then none
    else some (record_event now (store_interval db user interval) user interval_set)

abbrev pub reality_check_due : ℕ → RgDb → ℕ → Bool
reality_check_due clock db user = elim (reality_check db user).last_shown_at [
  | none ↦ true
  | some at ↦ leb ((reality_check db user).interval_ms) (clock - at)
]

unfoldable pub acknowledge_reality_check : ℕ → RgDb → ℕ → RgDb
acknowledge_reality_check now db user =
    record_event now (store_acknowledgement now db user) user acknowledged

-- A check that waits for its acknowledgement is not shown again.
abbrev pub waits : RealityCheck → Bool
waits check = elim check.last_shown_at [
  | none ↦ false
  | some at ↦ not (is_acknowledged at check.last_ack_at)
]

-- Today's figures: what was staked, and what came back less what went out.
abbrev pub day_figures : ℕ → RgDb → ℕ → ℕ × ℤ
day_figures at db user =
    let lost = usage_for db user loss day at in
    ((usage_for db user wager day at).spent, pos lost.returned -ℤ pos lost.spent)

-- The loop over the checks that are due; `is_present` says whom presence knows to be connected.
unfoldable pub dispatch_to : ℕ → (ℕ → Bool) → RgDb → Dict RealityCheck → List ℕ × RgDb
dispatch_to now is_present db [] = ([], db)
dispatch_to now is_present db ((user, due) ∷ rest) =
    let skipped = dispatch_to now is_present db rest in
    let delivered =
      dispatch_to now is_present
        (record_event now (mark_reality_check_shown now db user) user shown) rest in
    if not (is_present user) || waits (reality_check db user)
    then skipped
    else (user ∷ delivered.0, delivered.1)

unfoldable pub dispatch_reality_checks : ℕ → (ℕ → Bool) → RgDb → List ℕ × RgDb
unfolding dispatch_to
dispatch_reality_checks now is_present db =
    dispatch_to now is_present db (due_reality_checks now db)

abbrev pub record_lapses : ℕ → RgDb → List ℕ → RgDb
record_lapses now db [] = db
record_lapses now db (user ∷ users) =
    record_lapses now (record_event now db user exclusion_lapsed) users

unfoldable pub release_lapsed : ℕ → RgDb → List ℕ × RgDb
release_lapsed now db =
    let released = release_lapsed_exclusions now db in
    (released.0, record_lapses now released.1 released.0)
