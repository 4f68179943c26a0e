-- ===== src/ResponsibleGaming/Store/CheckTable.antt =====
-- apps/api/src/responsible-gaming/rg.repository.ts: `rg.reality_check_prefs` and `rg.events`.
use casino_app.Prelude.{
  ℕ, ◌+◌, ◌*◌, leb, Bool, true, false, Option, none, some, or_else, [], ◌∷◌, ◌++◌, filter, take,
}
use casino_app.Prelude.Dict.{Dict, lookup, put}
use casino_app.Prelude.Sort.{sort_by}
use casino_app.ResponsibleGaming.Store.Tables.{RealityCheck, RgEventType, RgDb}

abbrev pub default_check : RealityCheck
default_check = record { interval_ms = 30 * 60 * 1000; last_shown_at = none; last_ack_at = none }

abbrev pub reality_check : RgDb → ℕ → RealityCheck
reality_check db user = or_else (lookup user db.checks) default_check

-- `last_shown_at IS NULL OR last_shown_at + interval_ms <= now()`
abbrev pub check_is_due : ℕ → RealityCheck → Bool
check_is_due now check = elim check.last_shown_at [
  | none ↦ true
  | some at ↦ leb (at + check.interval_ms) now
]

-- `ORDER BY last_shown_at NULLS FIRST`
abbrev pub shown_before : Option ℕ → Option ℕ → Bool
shown_before none b = true
shown_before (some a) none = false
shown_before (some a) (some b) = leb a b

abbrev pub longest_unshown : ℕ × RealityCheck → ℕ × RealityCheck → Bool
longest_unshown (u, a) (v, b) = shown_before a.last_shown_at b.last_shown_at

unfoldable pub due_reality_checks : ℕ → RgDb → Dict RealityCheck
due_reality_checks now db =
    take 200
      (sort_by longest_unshown (filter (λ (e : ℕ × RealityCheck). check_is_due now e.1) db.checks))

-- An insert leaves the other columns at their defaults, which are those of `default_check`.
abbrev pub store_interval : RgDb → ℕ → ℕ → RgDb
store_interval db user interval = record db {
  checks = put user (record (reality_check db user) { interval_ms = interval }) db.checks;
}

abbrev pub mark_reality_check_shown : ℕ → RgDb → ℕ → RgDb
mark_reality_check_shown now db user = record db {
  checks = put user (record (reality_check db user) { last_shown_at = some now }) db.checks;
}

abbrev pub store_acknowledgement : ℕ → RgDb → ℕ → RgDb
store_acknowledgement now db user = record db {
  checks = put user (record (reality_check db user) { last_ack_at = some now }) db.checks;
}

abbrev pub record_event : ℕ → RgDb → ℕ → RgEventType → RgDb
record_event now db user event_type = record db {
  events = db.events ++ record { user_id = user; event_type = event_type; created_at = now } ∷ [];
}
