-- ===== src/ResponsibleGaming/Exclusions.antt =====
-- Exclusions of apps/api/src/responsible-gaming: no operation shortens or removes one.
use casino_app.Prelude.{
  ℕ, ◌≤◌, ◌≡◌, refl, inl, inr, leb, Bool, true, ◌&&◌, Option, none, some, is_some, List, [], ◌∷◌,
  ◌++◌, filter, find, Bool-cases, arith, true-false,
}
use casino_app.ResponsibleGaming.{
  ExclusionKind, cool_off, self_exclusion, SpendKind, RgLimit, RgExclusion,
}
use casino_app.ResponsibleGaming.Store.{
  RgDb, not_ended, in_force, latest, active_exclusion, cancel_pending, set_limit, change_limit,
  meter, release_lapsed_exclusions, LimitInput, own_limit, due_reality_checks, later_of,
  promote_due_increases,
}
use casino_app.ResponsibleGaming.Service.{
  check_allowance, allowance_after, meter_return, cancel_pending_increase,
  acknowledge_reality_check, dispatch_reality_checks, release_lapsed, rg_self_excluded,
  require_allowance, require_play_entry, check_play_entry, allowance_error, entry_error, refused,
  exclusion_reason,
}
use casino_app.ResponsibleGaming.Steps.{
  RgStep, limit_changed, increase_cancelled, allowance_checked, spend_metered, return_metered,
  play_metered, exclusion_started, interval_chosen, check_acknowledged, check_shown,
  checks_dispatched, lapses_released, RgSteps, none_taken, then_one, player_set_limit_accepts,
  exclude_accepts, set_reality_check_interval_accepts,
}
use casino_app.ResponsibleGaming.Frame.{
  KeepsRows-meter_connected_play_time, KeepsRows-record_lapses, KeepsRows-dispatch_to,
  KeepsRows-meter_spend,
}

-- There is an exclusion of the user that is in force at both moments, and so between them.
abbrev pub spans : ℕ → ℕ → ℕ → RgExclusion → Bool
spans from until user e = in_force from user e && in_force until user e

abbrev pub ExcludedFor : ℕ → ℕ → ℕ → RgDb → Type 0
ExcludedFor from until user db = is_some (find (spans from until user) db.exclusions) ≡ true

lasts :
    (ends_at : Option ℕ) (now until : ℕ)
    → now ≤ until
    → not_ended ends_at until ≡ true
    → not_ended ends_at now ≡ true
lasts none now until hi h = refl
lasts (some at) now until hi h = ground arith

spans-in_force :
    (from until now user : ℕ) (e : RgExclusion)
    → from ≤ now
    → now ≤ until
    → spans from until user e ≡ true
    → in_force now user e ≡ true
spans-in_force from until now user e lo hi h = ground (arith, lasts e.ends_at now until hi)

active_of_spans :
    (from until now user : ℕ) (es : List RgExclusion)
    → from ≤ now
    → now ≤ until
    → is_some (find (spans from until user) es) ≡ true
    → (e : RgExclusion) × (latest (filter (in_force now user) es) ≡ some e)
active_of_spans from until now user [] lo hi h = absurd (ground arith)
active_of_spans from until now user (e ∷ es) lo hi h = elim (Bool-cases (in_force now user e)) [
  | inl force ↦ rw force (later_of e (latest (filter (in_force now user) es)), refl)
  | inr ended ↦ elim (Bool-cases (spans from until user e)) [
    | inl covers ↦ absurd (true-false (spans-in_force from until now user e lo hi covers) ended)
    | inr leaves ↦ rw ended (active_of_spans from until now user es lo hi (rw leaves at h))
  ]
]

find-append_some :
    (p : RgExclusion → Bool) (es more : List RgExclusion)
    → is_some (find p es) ≡ true
    → is_some (find p (es ++ more)) ≡ true
find-append_some p [] more h = absurd (ground arith)
find-append_some p (e ∷ es) more h = elim (Bool-cases (p e)) [
  | inl hit ↦ rw hit refl
  | inr miss ↦ rw miss (find-append_some p es more (rw miss at h))
]

exclusions-change_limit :
    (id clock : ℕ) (db : RgDb) (input : LimitInput) (o : Option RgLimit)
    → (change_limit id clock db input o).1.exclusions ≡ db.exclusions
exclusions-change_limit id clock db input none = refl
exclusions-change_limit id clock db input (some existing) =
    elim (Bool-cases (leb input.amount existing.amount)) [
      | inl stricter ↦ rw stricter refl
      | inr looser ↦ rw looser refl
    ]

exclusions-allowance_after :
    (now at : ℕ) (db : RgDb) (user : ℕ) (kind : SpendKind) (amount : ℕ) (o : Option RgExclusion)
    → (allowance_after now at db user kind amount o).1.exclusions ≡ db.exclusions
unfolding promote_due_increases
exclusions-allowance_after now at db user kind amount none = refl
exclusions-allowance_after now at db user kind amount (some e) = refl

find-kept :
    (p : RgExclusion → Bool) {es es' : List RgExclusion}
    → es' ≡ es
    → is_some (find p es) ≡ true
    → is_some (find p es') ≡ true
find-kept p same h = rw same h

-- No operation takes an exclusion back.
ExcludedFor-RgStep :
    (from until lo hi user : ℕ) {db after : RgDb}
    → RgStep from until db after
    → ExcludedFor lo hi user db
    → ExcludedFor lo hi user after
unfolding cancel_pending_increase cancel_pending check_allowance meter_return meter
    dispatch_reality_checks release_lapsed release_lapsed_exclusions acknowledge_reality_check
    set_limit
ExcludedFor-RgStep from until lo hi user {db}
      (limit_changed id now clock u t p amount effective fresh at_least accepted) h =
    let (n, is) = player_set_limit_accepts id now clock db u t p amount effective _ accepted in
    rw (← is)
      (find-kept (spans lo hi user) (exclusions-change_limit id clock db _ (own_limit db u t p)) h)
ExcludedFor-RgStep from until lo hi user (increase_cancelled now u t p) h = h
ExcludedFor-RgStep from until lo hi user {db} (allowance_checked now at u kind amount below) h =
    find-kept (spans lo hi user)
      (exclusions-allowance_after now at db u kind amount (active_exclusion now db u)) h
ExcludedFor-RgStep from until lo hi user {db} (spend_metered u kind amount at) h =
    find-kept (spans lo hi user) (KeepsRows-meter_spend db u kind amount at).0 h
ExcludedFor-RgStep from until lo hi user (return_metered u amount at) h = h
ExcludedFor-RgStep from until lo hi user {db} (play_metered at users) h =
    find-kept (spans lo hi user) (KeepsRows-meter_connected_play_time at users db).0 h
ExcludedFor-RgStep from until lo hi user {db}
      (exclusion_started id now clock u kind duration accepted) h =
    let (ends_at, is) = exclude_accepts id now clock db u kind duration _ accepted in
    rw (← is) (find-append_some (spans lo hi user) db.exclusions _ h)
ExcludedFor-RgStep from until lo hi user {db} (interval_chosen now u interval accepted) h =
    rw (← set_reality_check_interval_accepts now db u interval _ accepted) h
ExcludedFor-RgStep from until lo hi user (check_acknowledged now u) h = h
ExcludedFor-RgStep from until lo hi user (check_shown now u) h = h
ExcludedFor-RgStep from until lo hi user {db} (checks_dispatched now is_present) h =
    find-kept (spans lo hi user)
      (KeepsRows-dispatch_to now is_present (due_reality_checks now db) db).0 h
ExcludedFor-RgStep from until lo hi user {db} (lapses_released now) h =
    find-kept (spans lo hi user)
      (let released = release_lapsed_exclusions now db in
        (KeepsRows-record_lapses now released.1 released.0).0)
      h

ExcludedFor-RgSteps :
    (from until lo hi user : ℕ) {db after : RgDb}
    → RgSteps from until db after
    → ExcludedFor lo hi user db
    → ExcludedFor lo hi user after
ExcludedFor-RgSteps from until lo hi user none_taken h = h
ExcludedFor-RgSteps from until lo hi user (then_one steps step) h =
    ExcludedFor-RgStep from until lo hi user step
      (ExcludedFor-RgSteps from until lo hi user steps h)

exclusion_error :
    (kind : ExclusionKind)
    → allowance_error (refused (exclusion_reason kind) none) ≡ some rg_self_excluded
exclusion_error cool_off = refl
exclusion_error self_exclusion = refl

entry_exclusion_error :
    (kind : ExclusionKind)
    → entry_error (refused (exclusion_reason kind) none) ≡ some rg_self_excluded
entry_exclusion_error cool_off = refl
entry_exclusion_error self_exclusion = refl

-- Once a player has an exclusion that is in force at `lo` and at `hi`, then whatever operations follow,
-- at every moment between the two every spend and every entry into play is refused with the error of an
-- excluded player, and a refused spend changes nothing.
pub excluded_is_refused :
    (from until lo hi now at clock user : ℕ) (kind : SpendKind) (amount : ℕ) (db after : RgDb)
    → ExcludedFor lo hi user db
    → RgSteps from until db after
    → lo ≤ now
    → now ≤ hi
    → (require_allowance now at after user kind amount ≡ (some rg_self_excluded, after))
      × (require_play_entry now clock after user ≡ some rg_self_excluded)
unfolding check_allowance check_play_entry active_exclusion
excluded_is_refused from until lo hi now at clock user kind amount db after h steps above below =
    let (e, active) =
      active_of_spans lo hi now user after.exclusions above below
        (ExcludedFor-RgSteps from until lo hi user steps h) in
    (
      rw (active, check_allowance, exclusion_error e.kind) refl,
      rw (active, check_play_entry, entry_exclusion_error e.kind) refl,
    )
