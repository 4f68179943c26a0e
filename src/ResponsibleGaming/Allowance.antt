-- ===== src/ResponsibleGaming/Allowance.antt =====
-- `checkAllowance` with `meterSpend` of apps/api/src/responsible-gaming/rg.service.ts.
use casino_app.Prelude.{
  ℕ, ◌+◌, ◌≤◌, ◌≡◌, refl, sym, ap, ◌∙◌, ◌==◌, ==_iff, inl, inr, ltb, true, false, subst, Option,
  none, List, [], ◌∷◌, All, ltb_fails, Bool-cases, Option-cases, arith,
}
use casino_app.ResponsibleGaming.{
  window_start, LimitType, deposit, loss, wager, session_time, LimitPeriod, SpendKind,
  deposit_spend, wager_spend, RgLimit, RgUsage, types_for, includes_type,
}
use casino_app.ResponsibleGaming.Store.{
  RgDb, usage_in, add_usage, usage_for, meter, list_limits, promote_due_increases, active_exclusion,
}
use casino_app.ResponsibleGaming.Service.{
  RgDecision, Reason, LimitUse, rg_allowed, refused, used, used_of, check_limits, applicable,
  check_allowance, meter_spend,
}
use casino_app.ResponsibleGaming.Usage.{usage_for-meter_periods, usage_for-meter_periods_apart}

abbrev spending : ℕ → RgUsage
spending amount = record { spent = amount; returned = 0 }

-- A spend counts once against each limit that it counts towards.
pub usage_for-meter_spend :
    (user : ℕ) (kind : SpendKind) (t : LimitType) (p : LimitPeriod) (amount at : ℕ) (db : RgDb)
    → includes_type (types_for kind) t ≡ true
    → usage_for (meter_spend db user kind amount at) user t p at
      ≡ add_usage (usage_for db user t p at) (spending amount)
unfolding meter_spend
usage_for-meter_spend user deposit_spend deposit p amount at db h =
    usage_for-meter_periods user deposit deposit p at db (spending amount)
usage_for-meter_spend user wager_spend wager p amount at db h =
    rw
      (
        usage_for-meter_periods user loss wager p at _ (spending amount),
        usage_for-meter_periods user wager wager p at db (spending amount),
      )
      refl
usage_for-meter_spend user wager_spend loss p amount at db h =
    rw
      (
        usage_for-meter_periods user loss loss p at _ (spending amount),
        usage_for-meter_periods user wager loss p at db (spending amount),
      )
      refl
usage_for-meter_spend user deposit_spend loss p amount at db h = absurd (ground arith)
usage_for-meter_spend user deposit_spend wager p amount at db h = absurd (ground arith)
usage_for-meter_spend user deposit_spend session_time p amount at db h = absurd (ground arith)
usage_for-meter_spend user wager_spend deposit p amount at db h = absurd (ground arith)
usage_for-meter_spend user wager_spend session_time p amount at db h = absurd (ground arith)

-- A spend leaves the windows alone that are not those of its moment.
usage_for-meter_spend_apart :
    (user : ℕ) (kind : SpendKind) (t : LimitType) (p : LimitPeriod) (amount at at' : ℕ) (db : RgDb)
    → (window_start p at == window_start p at') ≡ false
    → usage_for (meter_spend db user kind amount at) user t p at' ≡ usage_for db user t p at'
unfolding meter_spend
usage_for-meter_spend_apart user deposit_spend t p amount at at' db h =
    usage_for-meter_periods_apart user deposit t p at at' db (spending amount) h
usage_for-meter_spend_apart user wager_spend t p amount at at' db h =
    usage_for-meter_periods_apart user loss t p at at' _ (spending amount) h
    ∙ usage_for-meter_periods_apart user wager t p at at' db (spending amount) h

-- The windows of two moments that start together are one.
usage_for-window :
    (user : ℕ) (t : LimitType) (p : LimitPeriod) (at at' : ℕ) (db : RgDb)
    → (window_start p at == window_start p at') ≡ true
    → usage_for db user t p at' ≡ usage_for db user t p at
unfolding usage_for
usage_for-window user t p at at' db h =
    ap (usage_in db.usages user t p) (sym ((==_iff (window_start p at) (window_start p at')).0 h))

used-add_usage :
    (t : LimitType) (usage : RgUsage) (amount : ℕ)
    → used t (add_usage usage (spending amount)) ≤ used t usage + amount
used-add_usage deposit usage amount = omega arith
used-add_usage loss usage amount = omega arith
used-add_usage wager usage amount = omega arith
used-add_usage session_time usage amount = omega arith

-- No limit of the list has more against it than its amount.
abbrev pub WithinLimits : RgDb → ℕ → ℕ → List RgLimit → Type 0
WithinLimits db user at = All (λ (l : RgLimit). used_of db user at l ≤ l.amount)

-- Whenever a spend is metered, what a limit has against it grows by no more than the spend.
used_of-meter_spend :
    (db : RgDb) (user : ℕ) (kind : SpendKind) (amount at metered_at : ℕ) (l : RgLimit)
    → includes_type (types_for kind) l.limit_type ≡ true
    → used_of (meter_spend db user kind amount metered_at) user at l ≤ used_of db user at l + amount
used_of-meter_spend db user kind amount at metered_at l within =
    elim (Bool-cases (window_start l.period metered_at == window_start l.period at)) [
      | inr apart ↦
          rw
            (usage_for-meter_spend_apart user kind l.limit_type l.period amount metered_at at db
              apart)
            (omega arith)
      | inl same ↦
          rw
            (
              usage_for-window user l.limit_type l.period metered_at at
                  (meter_spend db user kind amount metered_at) same,
              usage_for-window user l.limit_type l.period metered_at at db same,
              usage_for-meter_spend user kind l.limit_type l.period amount metered_at db within,
            )
            (omega (arith, used-add_usage l.limit_type _ amount))
    ]

WithinLimits-check_limits :
    (db : RgDb) (user : ℕ) (kind : SpendKind) (amount at metered_at : ℕ) (limits : List RgLimit)
    → check_limits db user amount at (applicable kind limits) ≡ rg_allowed
    → WithinLimits (meter_spend db user kind amount metered_at) user at (applicable kind limits)
unfolding check_limits
WithinLimits-check_limits db user kind amount at metered_at [] h = tt
WithinLimits-check_limits db user kind amount at metered_at (l ∷ ls) h =
    elim (Bool-cases (includes_type (types_for kind) l.limit_type)) [
      | inr out ↦
          rw out (WithinLimits-check_limits db user kind amount at metered_at ls (rw out at h))
      | inl within ↦ elim (Bool-cases (ltb l.amount (used_of db user at l + amount))) [
        | inl over ↦ absurd (ground arith)
        | inr fits ↦ rw within (
          omega (
            arith,
            used_of-meter_spend db user kind amount at metered_at l within,
            ltb_fails _ _ fits,
          ),
          WithinLimits-check_limits db user kind amount at metered_at ls
              (rw (within, fits, check_limits) at h),
        )
      ]
    ]

-- Each limit of the list has the spend counted once in its window of the moment.
abbrev pub Counted : RgDb → RgDb → ℕ → ℕ → ℕ → List RgLimit → Type 0
Counted db after user amount at = All (λ (l : RgLimit).
    usage_for after user l.limit_type l.period at
    ≡ add_usage (usage_for db user l.limit_type l.period at) (spending amount))

pub meter_spend-Counted :
    (db : RgDb) (user : ℕ) (kind : SpendKind) (amount at : ℕ) (limits : List RgLimit)
    → Counted db (meter_spend db user kind amount at) user amount at (applicable kind limits)
meter_spend-Counted db user kind amount at [] = tt
meter_spend-Counted db user kind amount at (l ∷ ls) =
    elim (Bool-cases (includes_type (types_for kind) l.limit_type)) [
      | inr out ↦ rw out (meter_spend-Counted db user kind amount at ls)
      | inl within ↦ rw within (
        usage_for-meter_spend user kind l.limit_type l.period amount at db within,
        meter_spend-Counted db user kind amount at ls,
      )
    ]

refused-allowed :
    {reason : Reason} {limit : Option LimitUse} → refused reason limit ≡ rg_allowed → ⊥
refused-allowed h = ground arith

limits-meter_spend :
    (db : RgDb) (user : ℕ) (kind : SpendKind) (amount at : ℕ)
    → (meter_spend db user kind amount at).limits ≡ db.limits
unfolding meter_spend meter
limits-meter_spend db user deposit_spend amount at = refl
limits-meter_spend db user wager_spend amount at = refl

-- When a spend is allowed, the player is not excluded, and once it has been metered, at whatever moment,
-- in the windows of the moment that it was checked for
-- each limit that applies to it, its due increase included, has no more against it than its amount.
pub check_allowance-WithinLimits :
    (now at metered_at : ℕ) (db after : RgDb) (user : ℕ) (kind : SpendKind) (amount : ℕ)
    → check_allowance now at db user kind amount ≡ (rg_allowed, after)
    → (active_exclusion now db user ≡ none)
      × WithinLimits
          (meter_spend after user kind amount metered_at)
          user
          at
          (applicable kind (list_limits (meter_spend after user kind amount metered_at) user))
unfolding check_allowance meter_spend
check_allowance-WithinLimits now at metered_at db after user kind amount h =
    elim (Option-cases (active_exclusion now db user)) [
      | inr (e, there) ↦ absurd (refused-allowed (ap (λ r. r.0) (rw (there, check_allowance) at h)))
      | inl free ↦
          let db' = promote_due_increases now db user in
          let eq = rw (free, check_allowance) at h in
          let same : db' ≡ after = ap (λ r. r.1) eq in
          (
            free,
            rw (limits-meter_spend after user kind amount metered_at) (
                rw (← same) (
                  WithinLimits-check_limits db' user kind amount at metered_at
                    (list_limits db' user) (ap (λ r. r.0) eq))),
          )
    ]

-- A decision meters nothing.
check_allowance-usages :
    (now at : ℕ) (db : RgDb) (user : ℕ) (kind : SpendKind) (amount : ℕ)
    → (check_allowance now at db user kind amount).1.usages ≡ db.usages
unfolding check_allowance promote_due_increases
check_allowance-usages now at db user kind amount =
    elim (Option-cases (active_exclusion now db user)) [
      | inl free ↦ rw (free, check_allowance) refl
      | inr (e, there) ↦ rw (there, check_allowance) refl
    ]

-- When a spend is allowed and metered, every limit that applies has it counted once in its window of the
-- moment of the meter.
pub check_allowance-Counted :
    (now at metered_at : ℕ) (db after : RgDb) (user : ℕ) (kind : SpendKind) (amount : ℕ)
    → check_allowance now at db user kind amount ≡ (rg_allowed, after)
    → Counted db
        (meter_spend after user kind amount metered_at)
        user
        amount
        metered_at
        (applicable kind (list_limits (meter_spend after user kind amount metered_at) user))
unfolding usage_for
check_allowance-Counted now at metered_at db after user kind amount h =
    let metered = meter_spend after user kind amount metered_at in
    let same : after.usages ≡ db.usages =
      sym (ap (λ (r : RgDecision × RgDb). r.1.usages) h)
      ∙ check_allowance-usages now at db user kind amount in
    subst
      (λ rows.
        All
          (λ (l : RgLimit).
            usage_for metered user l.limit_type l.period metered_at
            ≡ add_usage
                (usage_in rows user l.limit_type l.period (window_start l.period metered_at))
                (spending amount))
          (applicable kind (list_limits metered user)))
      same (meter_spend-Counted after user kind amount metered_at (list_limits metered user))
