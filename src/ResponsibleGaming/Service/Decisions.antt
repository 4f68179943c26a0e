-- ===== src/ResponsibleGaming/Service/Decisions.antt =====
-- apps/api/src/responsible-gaming/rg.service.ts: what a player may do, and what is metered.
use casino_app.Prelude.{
  ℕ, ◌+◌, ◌-◌, ltb, leb, ◌==◌, Bool, true, false, not, ◌&&◌, if◌then◌else◌, Option, none, some,
  is_some, List, [], ◌∷◌, filter,
}
use casino_app.ResponsibleGaming.{
  LimitType, loss, session_time, LimitPeriod, day, week, month, ExclusionKind, cool_off,
  self_exclusion, SpendKind, RgLimit, RgUsage, RgExclusion, type_code, types_for, includes_type,
  reality_check_grace_ms,
}
use casino_app.ResponsibleGaming.Store.{
  RgDb, RealityCheck, list_limits, promote_due_increases, usage_for, meter, active_exclusion,
  reality_check,
}

-- The reason that the player is shown, by the text it stands for.
pub data Reason : Type 0 where
  -- "You are self-excluded…"
  you_are_self_excluded : Reason
  -- "You are taking a break…"
  you_are_taking_a_break : Reason
  -- "That would pass your … limit."
  that_would_pass : LimitType → LimitPeriod → Reason
  -- "You have reached your … time limit of … minutes."
  you_have_reached : LimitPeriod → ℕ → Reason
  -- "Please acknowledge your reality check to keep playing."
  please_acknowledge : Reason

pub record LimitUse : Type 0 where
  pub limit_type : LimitType
  pub period : LimitPeriod
  pub amount : ℕ
  pub used : ℕ

pub data RgDecision : Type 0 where
  rg_allowed : RgDecision
  refused : Reason → Option LimitUse → RgDecision

abbrev pub exclusion_reason : ExclusionKind → Reason
exclusion_reason self_exclusion = you_are_self_excluded
exclusion_reason cool_off = you_are_taking_a_break

-- What counts against a limit: of a loss, what has not come back.
abbrev pub used : LimitType → RgUsage → ℕ
used loss usage = usage.spent - usage.returned
used _ usage = usage.spent

abbrev pub use_of : RgLimit → ℕ → LimitUse
use_of limit n = record {
  limit_type = limit.limit_type;
  period = limit.period;
  amount = limit.amount;
  used = n;
}

abbrev pub used_of : RgDb → ℕ → ℕ → RgLimit → ℕ
used_of db user at limit =
    used limit.limit_type (usage_for db user limit.limit_type limit.period at)

-- The loop over the limits that apply.
unfoldable pub check_limits : RgDb → ℕ → ℕ → ℕ → List RgLimit → RgDecision
check_limits db user amount at [] = rg_allowed
check_limits db user amount at (limit ∷ limits) =
    let rest = check_limits db user amount at limits in
    let n = used_of db user at limit in
    if ltb limit.amount (n + amount)
    then refused (that_would_pass limit.limit_type limit.period) (some (use_of limit n))
    else rest

abbrev pub applicable : SpendKind → List RgLimit → List RgLimit
applicable kind = filter (λ (l : RgLimit). includes_type (types_for kind) l.limit_type)

abbrev pub allowance_after :
    ℕ → ℕ → RgDb → ℕ → SpendKind → ℕ → Option RgExclusion → RgDecision × RgDb
allowance_after now at db user kind amount (some e) = (refused (exclusion_reason e.kind) none, db)
allowance_after now at db user kind amount none =
    let db' = promote_due_increases now db user in
    (check_limits db' user amount at (applicable kind (list_limits db' user)), db')

unfoldable pub check_allowance : ℕ → ℕ → RgDb → ℕ → SpendKind → ℕ → RgDecision × RgDb
check_allowance now at db user kind amount =
    allowance_after now at db user kind amount (active_exclusion now db user)

abbrev pub meter_periods : RgDb → ℕ → LimitType → ℕ → RgUsage → RgDb
meter_periods db user t at delta =
    meter (meter (meter db user t day at delta) user t week at delta) user t month at delta

abbrev pub meter_types : List LimitType → RgDb → ℕ → ℕ → ℕ → RgDb
meter_types [] db user at amount = db
meter_types (t ∷ ts) db user at amount =
    meter_types ts (meter_periods db user t at (record { spent = amount; returned = 0 })) user at
      amount

unfoldable pub meter_spend : RgDb → ℕ → SpendKind → ℕ → ℕ → RgDb
meter_spend db user kind amount at = meter_types (types_for kind) db user at amount

unfoldable pub meter_return : RgDb → ℕ → ℕ → ℕ → RgDb
meter_return db user amount at =
    meter_periods db user loss at (record { spent = 0; returned = amount })

abbrev pub is_session_time : RgLimit → Bool
is_session_time l = type_code l.limit_type == type_code session_time

unfoldable pub exhausted_in : RgDb → ℕ → ℕ → List RgLimit → Option LimitUse
exhausted_in db user at [] = none
exhausted_in db user at (limit ∷ limits) =
    let rest = exhausted_in db user at limits in
    let spent = (usage_for db user session_time limit.period at).spent in
    if leb limit.amount spent then some (use_of limit spent) else rest

abbrev pub exhausted_session_time : RgDb → ℕ → ℕ → Option LimitUse
exhausted_session_time db user at =
    exhausted_in db user at (filter is_session_time (list_limits db user))

-- `lastAckAt && lastAckAt >= lastShownAt`
abbrev pub is_acknowledged : ℕ → Option ℕ → Bool
is_acknowledged shown_at none = false
is_acknowledged shown_at (some at) = leb shown_at at

abbrev pub check_blocks : ℕ → RealityCheck → Bool
check_blocks clock check = elim check.last_shown_at [
  | none ↦ false
  | some at ↦ not (is_acknowledged at check.last_ack_at) && ltb reality_check_grace_ms (clock - at)
]

abbrev pub entry_after_check : Bool → RgDecision
entry_after_check true = refused please_acknowledge none
entry_after_check false = rg_allowed

abbrev pub entry_after_time : ℕ → RgDb → ℕ → Option LimitUse → RgDecision
entry_after_time clock db user (some over) =
    refused (you_have_reached over.period over.amount) (some over)
entry_after_time clock db user none = entry_after_check (check_blocks clock (reality_check db user))

abbrev pub entry_after : ℕ → RgDb → ℕ → Option RgExclusion → RgDecision
entry_after clock db user (some e) = refused (exclusion_reason e.kind) none
entry_after clock db user none =
    entry_after_time clock db user (exhausted_session_time db user clock)

unfoldable pub check_play_entry : ℕ → ℕ → RgDb → ℕ → RgDecision
check_play_entry now clock db user = entry_after clock db user (active_exclusion now db user)

-- The users are those that `PresenceService.connectedUsers` names.
unfoldable pub meter_connected_play_time : ℕ → RgDb → List ℕ → RgDb
meter_connected_play_time at db [] = db
meter_connected_play_time at db (user ∷ users) =
    meter_connected_play_time at
      (meter_periods db user session_time at (record { spent = 1; returned = 0 })) users

pub data ErrorCode : Type 0 where
  rg_self_excluded rg_limit_reached rg_check_pending : ErrorCode

-- `reason.includes('excluded') || reason.includes('break')`
abbrev pub mentions_exclusion : Reason → Bool
mentions_exclusion you_are_self_excluded = true
mentions_exclusion you_are_taking_a_break = true
mentions_exclusion _ = false

-- `reason.includes('reality check')`
abbrev pub mentions_check : Reason → Bool
mentions_check please_acknowledge = true
mentions_check _ = false

-- `none` lets the caller go on.
abbrev pub allowance_error : RgDecision → Option ErrorCode
allowance_error rg_allowed = none
allowance_error (refused reason limit) =
    some (if mentions_exclusion reason then rg_self_excluded else rg_limit_reached)

abbrev pub require_allowance : ℕ → ℕ → RgDb → ℕ → SpendKind → ℕ → Option ErrorCode × RgDb
require_allowance now at db user kind amount =
    let answer = check_allowance now at db user kind amount in (allowance_error answer.0, answer.1)

abbrev pub entry_error : RgDecision → Option ErrorCode
entry_error rg_allowed = none
entry_error (refused reason limit) =
    some (if mentions_check reason then rg_check_pending else rg_self_excluded)

abbrev pub require_play_entry : ℕ → ℕ → RgDb → ℕ → Option ErrorCode
require_play_entry now clock db user = entry_error (check_play_entry now clock db user)

abbrev pub is_excluded : ℕ → RgDb → ℕ → Bool
is_excluded now db user = is_some (active_exclusion now db user)
