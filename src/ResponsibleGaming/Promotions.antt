-- ===== src/ResponsibleGaming/Promotions.antt =====
-- The limit that the rows stand for, as increases fall due or are cancelled:
-- apps/api/src/responsible-gaming/rg.repository.ts.
use casino_app.Prelude.{
  ℕ, ◌≡◌, refl, sym, ap, ◌∙◌, inl, inr, leb, ◌==◌, ==_iff, Bool, true, false, ◌&&◌, if◌then◌else◌,
  Option, none, some, find, Bool-cases, arith, true-false,
}
use casino_app.ResponsibleGaming.{LimitType, LimitPeriod, RgLimit}
use casino_app.ResponsibleGaming.Store.{
  RgDb, uncharged, cancel_pending, is_due, promote, promote_due_increases,
}
use casino_app.ResponsibleGaming.LimitRows.{
  holds, same_limit, find-true, other_limit, map_found, find-map,
}
use casino_app.ResponsibleGaming.Limits.{
  view_increase, view_of, view_found, limit_view, cancelled, matured_by, matured, limit_view-holds,
  OthersKept,
}

and_left : (a b : Bool) → (a && b) ≡ true → a ≡ true
and_left a b h = ground arith

promote-keeps :
    (now : ℕ) (l : RgLimit) (o : Option ℕ) (u : ℕ) (t : LimitType) (p : LimitPeriod)
    → (holds u t p (promote now l o) ≡ holds u t p l) × ((promote now l o).id ≡ l.id)
promote-keeps now l none u t p = (refl, refl)
promote-keeps now l (some amount) u t p = elim (Bool-cases (is_due l.pending_effective_at now)) [
  | inl due ↦ rw due (refl, refl)
  | inr early ↦ rw early (refl, refl)
]

abbrev pub promoting : ℕ → ℕ → RgLimit → RgLimit
promoting now user l = if l.user_id == user then promote now l l.pending_amount else l

pub promoting-keeps :
    (now user : ℕ) (l : RgLimit) (u : ℕ) (t : LimitType) (p : LimitPeriod)
    → (holds u t p (promoting now user l) ≡ holds u t p l) × ((promoting now user l).id ≡ l.id)
promoting-keeps now user l u t p = elim (Bool-cases (l.user_id == user)) [
  | inl own ↦ rw own (promote-keeps now l l.pending_amount u t p)
  | inr other ↦ rw other (refl, refl)
]

view_of-promote :
    (now : ℕ) (l : RgLimit) (amount at : Option ℕ)
    → l.pending_amount ≡ amount
    → l.pending_effective_at ≡ at
    → view_of (promote now l amount) ≡ matured_by now (view_of l) (view_increase amount at)
view_of-promote now l none at a e = refl
view_of-promote now l (some amount) none a e = rw e refl
view_of-promote now l (some amount) (some at) a e = elim (Bool-cases (leb at now)) [
  | inl due ↦ rw (e, due) refl
  | inr early ↦ rw (e, early) refl
]

-- With the increases that are due, every limit of the user is what `matured` says, and all others are
-- as they were.
pub promote_due_increases_refines :
    (now : ℕ) (db : RgDb) (user u : ℕ) (t : LimitType) (p : LimitPeriod)
    → limit_view (promote_due_increases now db user) u t p
      ≡ (if u == user then matured now (limit_view db u t p) else limit_view db u t p)
unfolding promote_due_increases
promote_due_increases_refines now db user u t p =
    limit_view-holds (promote_due_increases now db user) u t p
    ∙ ap view_found (
        find-map (holds u t p) (promoting now user) db.limits
          (λ l. (promoting-keeps now user l u t p).0))
    ∙ by_row (find (holds u t p) db.limits) refl
    ∙ ap (λ v. if u == user then matured now v else v) (sym (limit_view-holds db u t p))
  where
    by_row :
        (o : Option RgLimit)
        → find (holds u t p) db.limits ≡ o
        → view_found (map_found (promoting now user) o)
          ≡ (if u == user then matured now (view_found o) else view_found o)
    by_row none e = elim (Bool-cases (u == user)) [
      | inl own ↦ rw own refl
      | inr other ↦ rw other refl
    ]
    by_row (some l) e =
        let mine : l.user_id ≡ u =
          (==_iff l.user_id u).0 (and_left _ _ (find-true (holds u t p) db.limits l e)) in
        elim (Bool-cases (u == user)) [
          | inl own ↦
              rw (ap (λ x. x == user) mine ∙ own, own)
                (ap some (view_of-promote now l l.pending_amount l.pending_effective_at refl refl))
          | inr other ↦ rw (ap (λ x. x == user) mine ∙ other, other) refl
        ]

abbrev pub cancelling : ℕ → LimitType → LimitPeriod → RgLimit → RgLimit
cancelling user t p l = if holds user t p l then uncharged l else l

pub cancelling-keeps :
    (user : ℕ) (t : LimitType) (p : LimitPeriod) (l : RgLimit) (u' : ℕ) (t' : LimitType)
    (p' : LimitPeriod)
    → (holds u' t' p' (cancelling user t p l) ≡ holds u' t' p' l)
      × ((cancelling user t p l).id ≡ l.id)
cancelling-keeps user t p l u' t' p' = elim (Bool-cases (holds user t p l)) [
  | inl own ↦ rw own (refl, refl)
  | inr other ↦ rw other (refl, refl)
]

-- A cancellation does to the player's limit what `cancelled` says, and leaves every other limit as it was.
pub cancel_pending_refines :
    (db : RgDb) (user : ℕ) (t : LimitType) (p : LimitPeriod)
    → (limit_view (cancel_pending db user t p) user t p ≡ cancelled (limit_view db user t p))
      × OthersKept db (cancel_pending db user t p) user t p
unfolding cancel_pending
cancel_pending_refines db user t p = (
  through user t p
      ∙ own_row (find (holds user t p) db.limits) refl
      ∙ ap cancelled (sym (limit_view-holds db user t p)),
  λ u' t' p' other.
      through u' t' p'
      ∙ other_row u' t' p' other (find (holds u' t' p') db.limits) refl
      ∙ sym (limit_view-holds db u' t' p'),
)
  where
    through :
        (u' : ℕ) (t' : LimitType) (p' : LimitPeriod)
        → limit_view (cancel_pending db user t p) u' t' p'
          ≡ view_found (map_found (cancelling user t p) (find (holds u' t' p') db.limits))
    through u' t' p' =
        limit_view-holds (cancel_pending db user t p) u' t' p'
        ∙ ap view_found (
            find-map (holds u' t' p') (cancelling user t p) db.limits
              (λ l. (cancelling-keeps user t p l u' t' p').0))

    own_row :
        (o : Option RgLimit)
        → find (holds user t p) db.limits ≡ o
        → view_found (map_found (cancelling user t p) o) ≡ cancelled (view_found o)
    own_row none e = refl
    own_row (some l) e = rw (find-true (holds user t p) db.limits l e) refl

    other_row :
        (u' : ℕ) (t' : LimitType) (p' : LimitPeriod)
        → same_limit user u' t t' p p' ≡ false
        → (o : Option RgLimit) → find (holds u' t' p') db.limits ≡ o
        → view_found (map_found (cancelling user t p) o) ≡ view_found o
    other_row u' t' p' other none e = refl
    other_row u' t' p' other (some l) e = elim (Bool-cases (holds user t p l)) [
      | inl own ↦ absurd (
          true-false (find-true (holds u' t' p') db.limits l e)
            (other_limit user u' t t' p p' l own other))
      | inr elsewhere ↦ rw elsewhere refl
    ]
