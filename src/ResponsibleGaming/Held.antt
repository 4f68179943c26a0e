-- ===== src/ResponsibleGaming/Held.antt =====
-- A limit that holds for a while: each statement on `rg.limits` of
-- apps/api/src/responsible-gaming/rg.repository.ts keeps it so.
use casino_app.Prelude.{
  ℕ, ◌+◌, ◌≤◌, ◌<◌, ◌≡◌, refl, sym, ap, ◌∙◌, inl, inr, leb, ◌==◌, ==_iff, true, if◌then◌else◌,
  Option, none, some, Bool-cases, arith, leb→le,
}
use casino_app.ResponsibleGaming.{
  LimitType, deposit, loss, wager, session_time, LimitPeriod, day, week, month, RgLimit, type_code,
  period_code, SpendKind, RgExclusion,
}
use casino_app.ResponsibleGaming.Store.{
  RgDb, LimitInput, set_limit, change_limit, own_limit, tightened, loosening, new_limit,
  cancel_pending, promote_due_increases,
}
use casino_app.ResponsibleGaming.Service.{allowance_after}
use casino_app.ResponsibleGaming.LimitRows.{
  same_limit, DistinctIds, DistinctIds-by_ids, DistinctIds-append, ids-update_limit, ids-map,
}
use casino_app.ResponsibleGaming.Limits.{
  LimitView, limit_view, requested, cancelled, matured, matured_by, set_limit_refines,
}
use casino_app.ResponsibleGaming.Promotions.{
  promoting, promoting-keeps, promote_due_increases_refines, cancelling, cancelling-keeps,
  cancel_pending_refines,
}
use casino_app.ResponsibleGaming.Frame.{KeepsRows}
use casino_app.ResponsibleGaming.Steps.{IsFresh}

decode_type : ℕ → LimitType
decode_type n =
    if n == 0 then deposit else if n == 1 then loss else if n == 2 then wager else session_time

decode_type-type_code : (t : LimitType) → decode_type (type_code t) ≡ t
unfolding decode_type
decode_type-type_code deposit = refl
decode_type-type_code loss = refl
decode_type-type_code wager = refl
decode_type-type_code session_time = refl

decode_period : ℕ → LimitPeriod
decode_period n = if n == 0 then day else if n == 1 then week else month

decode_period-period_code : (p : LimitPeriod) → decode_period (period_code p) ≡ p
unfolding decode_period
decode_period-period_code day = refl
decode_period-period_code week = refl
decode_period-period_code month = refl

type_code-inj : (t t' : LimitType) → type_code t ≡ type_code t' → t ≡ t'
type_code-inj t t' e = sym (decode_type-type_code t) ∙ ap decode_type e ∙ decode_type-type_code t'

period_code-inj : (p p' : LimitPeriod) → period_code p ≡ period_code p' → p ≡ p'
period_code-inj p p' e =
    sym (decode_period-period_code p) ∙ ap decode_period e ∙ decode_period-period_code p'

same_limit-eq :
    (u u' : ℕ) (t t' : LimitType) (p p' : LimitPeriod)
    → same_limit u u' t t' p p' ≡ true
    → (u ≡ u') × (t ≡ t') × (p ≡ p')
same_limit-eq u u' t t' p p' h = (
  (==_iff u u').0 (ground arith),
  type_code-inj t t' ((==_iff (type_code t) (type_code t')).0 (ground arith)),
  period_code-inj p p' ((==_iff (period_code p) (period_code p')).0 (ground arith)),
)

-- An increase that waits does so until `until` at least.
abbrev pub Waits : ℕ → Option (ℕ × ℕ) → Type 0
Waits until none = Unit
Waits until (some (amount, due)) = until ≤ due

abbrev pub Held : ℕ → ℕ → Option LimitView → Type 0
Held until amount none = ⊥
Held until amount (some v) = (v.bound ≤ amount) × Waits until v.increase

Held-requested :
    (until amount n due : ℕ) (v : Option LimitView)
    → until ≤ due
    → Held until amount v
    → Held until amount (requested n due v)
Held-requested until amount n due none late h = absurd h
Held-requested until amount n due (some v) late h = elim (Bool-cases (leb n v.bound)) [
  | inl stricter ↦ (let less = leb→le n v.bound stricter in rw stricter (omega arith, tt))
  | inr looser ↦ rw looser (h.0, late)
]

Held-cancelled :
    (until amount : ℕ) (v : Option LimitView)
    → Held until amount v
    → Held until amount (cancelled v)
Held-cancelled until amount none h = absurd h
Held-cancelled until amount (some v) h = (h.0, tt)

Held-matured :
    (until amount now : ℕ) (v : Option LimitView)
    → now < until
    → Held until amount v
    → Held until amount (matured now v)
Held-matured until amount now none early h = absurd h
Held-matured until amount now (some v) early h = by_increase v.increase refl
  where
    by_increase :
        (o : Option (ℕ × ℕ)) → v.increase ≡ o → Held until amount (some (matured_by now v o))
    by_increase none e = h
    by_increase (some (n, due)) e =
        let waits : Waits until (some (n, due)) = rw e at h.1 in
        elim (Bool-cases (leb due now)) [
          | inl reached ↦ (let at_last = leb→le due now reached in absurd (omega arith))
          | inr still ↦ rw still h
        ]

-- While identifiers differ, the limit is held.
abbrev pub HeldIn : ℕ → ℕ → ℕ → LimitType → LimitPeriod → RgDb → Type 0
HeldIn until amount user t p db = DistinctIds db.limits × Held until amount (limit_view db user t p)

DistinctIds-change_limit :
    (id clock : ℕ) (db : RgDb) (input : LimitInput) (o : Option RgLimit)
    → IsFresh id db
    → DistinctIds db.limits
    → DistinctIds (change_limit id clock db input o).1.limits
DistinctIds-change_limit id clock db input none fresh h =
    DistinctIds-append db.limits (new_limit id input) h fresh
DistinctIds-change_limit id clock db input (some x) fresh h =
    elim (Bool-cases (leb input.amount x.amount)) [
      | inl stricter ↦ rw stricter (
          DistinctIds-by_ids db.limits _
            (ids-update_limit x.id (tightened input.amount) db.limits (λ l. refl)) h)
      | inr looser ↦ rw looser (
          DistinctIds-by_ids db.limits _
            (ids-update_limit x.id (loosening input.amount (clock + input.cooling_ms)) db.limits
              (λ l. refl))
            h)
    ]

module _ (until amount user : ℕ) (t : LimitType) (p : LimitPeriod) where
  pub HeldIn-set_limit :
      (id clock : ℕ) (db : RgDb) (input : LimitInput)
      → IsFresh id db
      → until ≤ clock + input.cooling_ms
      → HeldIn until amount user t p db
      → HeldIn until amount user t p (set_limit id clock db input).1
  unfolding set_limit
  HeldIn-set_limit id clock db input fresh late h = (
    DistinctIds-change_limit id clock db input
        (own_limit db input.user_id input.limit_type input.period) fresh h.0,
    elim (Bool-cases (same_limit input.user_id user input.limit_type t input.period p)) [
      | inr other ↦ rw ((set_limit_refines id clock db input h.0).1 user t p other) h.1
      | inl same ↦
          let is = same_limit-eq input.user_id user input.limit_type t input.period p same in
          rw (← is.0, ← is.1, ← is.2)
            (rw (set_limit_refines id clock db input h.0).0 (
              Held-requested until amount input.amount (clock + input.cooling_ms) _ late
                (rw (← is.0, ← is.1, ← is.2) at h.1)))
    ],
  )

  pub HeldIn-cancel_pending :
      (db : RgDb) (u : ℕ) (s : LimitType) (q : LimitPeriod)
      → HeldIn until amount user t p db
      → HeldIn until amount user t p (cancel_pending db u s q)
  unfolding cancel_pending
  HeldIn-cancel_pending db u s q h = (
    DistinctIds-by_ids db.limits _
        (ids-map (cancelling u s q) db.limits (λ l. (cancelling-keeps u s q l u s q).1)) h.0,
    elim (Bool-cases (same_limit u user s t q p)) [
      | inr other ↦ rw ((cancel_pending_refines db u s q).1 user t p other) h.1
      | inl same ↦
          let is = same_limit-eq u user s t q p same in
          rw (← is.0, ← is.1, ← is.2)
            (rw (cancel_pending_refines db u s q).0
              (Held-cancelled until amount _ (rw (← is.0, ← is.1, ← is.2) at h.1)))
    ],
  )

  pub HeldIn-promote_due_increases :
      (now : ℕ) (db : RgDb) (u : ℕ)
      → now < until
      → HeldIn until amount user t p db
      → HeldIn until amount user t p (promote_due_increases now db u)
  unfolding promote_due_increases
  HeldIn-promote_due_increases now db u early h = (
    DistinctIds-by_ids db.limits _
        (ids-map (promoting now u) db.limits (λ l. (promoting-keeps now u l u t p).1)) h.0,
    rw (promote_due_increases_refines now db u user t p) (elim (Bool-cases (user == u)) [
      | inl own ↦ rw own (Held-matured until amount now _ early h.1)
      | inr other ↦ rw other h.1
    ]),
  )

  pub HeldIn-allowance_after :
      (now at : ℕ) (db : RgDb) (u : ℕ) (kind : SpendKind) (n : ℕ) (o : Option RgExclusion)
      → now < until
      → HeldIn until amount user t p db
      → HeldIn until amount user t p (allowance_after now at db u kind n o).1
  HeldIn-allowance_after now at db u kind n none early h =
      HeldIn-promote_due_increases now db u early h
  HeldIn-allowance_after now at db u kind n (some e) early h = h

  pub HeldIn-KeepsRows :
      (db after : RgDb)
      → KeepsRows db after
      → HeldIn until amount user t p db
      → HeldIn until amount user t p after
  HeldIn-KeepsRows db after keeps h = rw keeps.1 h
