-- ===== src/ResponsibleGaming/Limits.antt =====
-- What `rg.limits` means to a player: for each type and period a bound, and an increase that may wait.
-- The statements of apps/api/src/responsible-gaming/rg.repository.ts refine the operations on it.
use casino_app.Prelude.{
  ℕ, ◌+◌, ◌≡◌, refl, sym, ap, ◌∙◌, inl, inr, leb, ◌==◌, true, false, if◌then◌else◌, Option, none,
  some, [], ◌∷◌, ◌++◌, find, Bool-cases,
}
use casino_app.ResponsibleGaming.{LimitType, LimitPeriod, RgLimit}
use casino_app.ResponsibleGaming.Store.{
  RgDb, LimitInput, is_own, own_limit, update_limit, tightened, loosening, new_limit, change_limit,
  set_limit,
}
use casino_app.ResponsibleGaming.LimitRows.{
  holds, same_limit, find-filter, DistinctIds, found_after_update, others_after_update, find-true,
  find-append_new, find-append_other, other_limit, new_limit_held,
}

-- A bound, and the greater one that waits, with the time it waits for.
pub record LimitView : Type 0 where
  pub bound : ℕ
  pub increase : Option (ℕ × ℕ)

abbrev pub view_increase : Option ℕ → Option ℕ → Option (ℕ × ℕ)
view_increase none at = none
view_increase (some amount) none = none
view_increase (some amount) (some at) = some (amount, at)

abbrev pub view_of : RgLimit → LimitView
view_of l = record {
  bound = l.amount;
  increase = view_increase l.pending_amount l.pending_effective_at;
}

abbrev pub view_found : Option RgLimit → Option LimitView
view_found none = none
view_found (some l) = some (view_of l)

abbrev pub limit_view : RgDb → ℕ → LimitType → LimitPeriod → Option LimitView
limit_view db user t p = view_found (own_limit db user t p)

-- A player asks for a bound: a first or a stricter one holds at once, a looser one waits until `due`.
abbrev pub requested : ℕ → ℕ → Option LimitView → Option LimitView
requested amount due none = some (record { bound = amount; increase = none })
requested amount due (some v) =
    if leb amount v.bound
    then some (record { bound = amount; increase = none })
    else some (record v { increase = some (amount, due) })

abbrev pub cancelled : Option LimitView → Option LimitView
cancelled none = none
cancelled (some v) = some (record v { increase = none })

abbrev pub matured_by : ℕ → LimitView → Option (ℕ × ℕ) → LimitView
matured_by now v none = v
matured_by now v (some (amount, due)) =
    if leb due now then record { bound = amount; increase = none } else v

abbrev pub matured : ℕ → Option LimitView → Option LimitView
matured now none = none
matured now (some v) = some (matured_by now v v.increase)

pub limit_view-holds :
    (db : RgDb) (user : ℕ) (t : LimitType) (p : LimitPeriod)
    → limit_view db user t p ≡ view_found (find (holds user t p) db.limits)
limit_view-holds db user t p =
    ap view_found (find-filter (λ (l : RgLimit). l.user_id == user) (is_own t p) db.limits)

-- The limit of one player, type and period, and all the others.
abbrev pub OthersKept : RgDb → RgDb → ℕ → LimitType → LimitPeriod → Type 0
OthersKept db after user t p =
    (user' : ℕ) (t' : LimitType) (p' : LimitPeriod)
    → same_limit user user' t t' p p' ≡ false
    → limit_view after user' t' p' ≡ limit_view db user' t' p'

module _ (db : RgDb) (u : ℕ) (t : LimitType) (p : LimitPeriod) where
  update_limit-view :
      (f : RgLimit → RgLimit) (x : RgLimit)
      → ((u' : ℕ) (t' : LimitType) (p' : LimitPeriod) → holds u' t' p' (f x) ≡ holds u' t' p' x)
      → DistinctIds db.limits
      → find (holds u t p) db.limits ≡ some x
      → (limit_view (record db { limits = update_limit x.id f db.limits }) u t p
          ≡ some (view_of (f x)))
        × OthersKept db (record db { limits = update_limit x.id f db.limits }) u t p
  update_limit-view f x keeps distinct e = (
    limit_view-holds after u t p
        ∙ ap view_found
            (found_after_update (holds u t p) f db.limits x (keeps u t p ∙ held) distinct e),
    λ u' t' p' other.
        let apart = other_limit u u' t t' p p' x held other in
        limit_view-holds after u' t' p'
        ∙ ap view_found (
            others_after_update (holds u t p) f (holds u' t' p') db.limits x apart
              (keeps u' t' p' ∙ apart) distinct e)
        ∙ sym (limit_view-holds db u' t' p'),
  )
    where
      after : RgDb
      after = record db { limits = update_limit x.id f db.limits }

      held : holds u t p x ≡ true
      held = find-true (holds u t p) db.limits x e

  append_limit-view :
      (x : RgLimit)
      → holds u t p x ≡ true
      → find (holds u t p) db.limits ≡ none
      → (limit_view (record db { limits = db.limits ++ x ∷ [] }) u t p ≡ some (view_of x))
        × OthersKept db (record db { limits = db.limits ++ x ∷ [] }) u t p
  append_limit-view x held e = (
    limit_view-holds after u t p ∙ ap view_found (find-append_new (holds u t p) db.limits x e held),
    λ u' t' p' other.
        limit_view-holds after u' t' p'
        ∙ ap view_found (
            find-append_other (holds u' t' p') db.limits x
              (other_limit u u' t t' p p' x held other))
        ∙ sym (limit_view-holds db u' t' p'),
  )
    where
      after : RgDb
      after = record db { limits = db.limits ++ x ∷ [] }

-- With identifiers that differ, asking for a limit does to the player's limit of that type and period
-- what `requested` says, and leaves every other limit as it was.
pub set_limit_refines :
    (id clock : ℕ) (db : RgDb) (input : LimitInput)
    → DistinctIds db.limits
    → (limit_view (set_limit id clock db input).1 input.user_id input.limit_type input.period
        ≡ requested input.amount
            (clock + input.cooling_ms)
            (limit_view db input.user_id input.limit_type input.period))
      × OthersKept db (set_limit id clock db input).1 input.user_id input.limit_type input.period
unfolding set_limit
set_limit_refines id clock db input distinct =
    by_row (own_limit db input.user_id input.limit_type input.period) (
      find-filter (λ (l : RgLimit). l.user_id == input.user_id)
        (is_own input.limit_type input.period) db.limits)
  where
    by_row :
        (o : Option RgLimit)
        → o ≡ find (holds input.user_id input.limit_type input.period) db.limits
        → (limit_view
              (change_limit id clock db input o).1
              input.user_id
              input.limit_type
              input.period
            ≡ requested input.amount (clock + input.cooling_ms) (view_found o))
          × OthersKept db
              (change_limit id clock db input o).1
              input.user_id
              input.limit_type
              input.period
    by_row none e =
        append_limit-view db input.user_id input.limit_type input.period (new_limit id input)
          (new_limit_held id input) (sym e)
    by_row (some x) e = elim (Bool-cases (leb input.amount x.amount)) [
      | inl stricter ↦ rw stricter (
          update_limit-view db input.user_id input.limit_type input.period (tightened input.amount)
            x (λ u' t' p'. refl) distinct (sym e))
      | inr looser ↦ rw looser (
          update_limit-view db input.user_id input.limit_type input.period
            (loosening input.amount (clock + input.cooling_ms)) x (λ u' t' p'. refl) distinct
            (sym e))
    ]
