-- ===== src/ResponsibleGaming/Frame.antt =====
-- The operations of apps/api/src/responsible-gaming/rg.service.ts that leave limits and exclusions alone.
use casino_app.Prelude.{ℕ, ◌≡◌, refl, inl, inr, Bool, not, ◌||◌, List, [], ◌∷◌, Bool-cases}
use casino_app.Prelude.Dict.{Dict}
use casino_app.ResponsibleGaming.{SpendKind, deposit_spend, wager_spend}
use casino_app.ResponsibleGaming.Store.{RgDb, RealityCheck, meter, reality_check}
use casino_app.ResponsibleGaming.Service.{
  meter_spend, meter_connected_play_time, record_lapses, dispatch_to, waits,
}

abbrev pub KeepsRows : RgDb → RgDb → Type 0
KeepsRows db after = (after.exclusions ≡ db.exclusions) × (after.limits ≡ db.limits)

pub KeepsRows-meter_connected_play_time :
    (at : ℕ) (users : List ℕ) (db : RgDb) → KeepsRows db (meter_connected_play_time at db users)
unfolding meter_connected_play_time meter
KeepsRows-meter_connected_play_time at [] db = (refl, refl)
KeepsRows-meter_connected_play_time at (user ∷ users) db =
    KeepsRows-meter_connected_play_time at users _

pub KeepsRows-record_lapses :
    (now : ℕ) (db : RgDb) (users : List ℕ) → KeepsRows db (record_lapses now db users)
KeepsRows-record_lapses now db [] = (refl, refl)
KeepsRows-record_lapses now db (user ∷ users) = KeepsRows-record_lapses now _ users

pub KeepsRows-dispatch_to :
    (now : ℕ) (is_present : ℕ → Bool) (due : Dict RealityCheck) (db : RgDb)
    → KeepsRows db (dispatch_to now is_present db due).1
unfolding dispatch_to
KeepsRows-dispatch_to now is_present [] db = (refl, refl)
KeepsRows-dispatch_to now is_present ((user, check) ∷ due) db =
    elim (Bool-cases (not (is_present user) || waits (reality_check db user))) [
      | inl skip ↦ rw (skip, dispatch_to) (KeepsRows-dispatch_to now is_present due db)
      | inr show ↦ rw (show, dispatch_to) (KeepsRows-dispatch_to now is_present due _)
    ]

pub KeepsRows-meter_spend :
    (db : RgDb) (user : ℕ) (kind : SpendKind) (amount at : ℕ)
    → KeepsRows db (meter_spend db user kind amount at)
unfolding meter_spend meter
KeepsRows-meter_spend db user deposit_spend amount at = (refl, refl)
KeepsRows-meter_spend db user wager_spend amount at = (refl, refl)
