-- ===== src/ResponsibleGaming/Store/LimitTable.antt =====
-- apps/api/src/responsible-gaming/rg.repository.ts: `rg.limits`.
use casino_app.Prelude.{
  ℕ, ◌+◌, leb, ◌==◌, Bool, false, ◌&&◌, if◌then◌else◌, Option, none, some, List, [], ◌∷◌, ◌++◌, map,
  find, filter,
}
use casino_app.ResponsibleGaming.{
  LimitType, LimitPeriod, player, RgLimit, type_code, period_code, is_player,
}
use casino_app.ResponsibleGaming.Store.Tables.{RgDb}

abbrev pub list_limits : RgDb → ℕ → List RgLimit
list_limits db user = filter (λ (l : RgLimit). l.user_id == user) db.limits

pub record LimitInput : Type 0 where
  pub user_id : ℕ
  pub limit_type : LimitType
  pub period : LimitPeriod
  pub amount : ℕ
  pub cooling_ms : ℕ

pub data Effective : Type 0 where
  immediate : Effective
  pending : (effective_at : ℕ) → Effective

-- The limit of this type and period that the player set.
abbrev pub is_own : LimitType → LimitPeriod → RgLimit → Bool
is_own t p l =
    type_code l.limit_type == type_code t
    && period_code l.period == period_code p
    && is_player l.origin

abbrev pub own_limit : RgDb → ℕ → LimitType → LimitPeriod → Option RgLimit
own_limit db user t p = find (is_own t p) (list_limits db user)

-- `UPDATE rg.limits SET ... WHERE id = $1`
abbrev pub update_limit : ℕ → (RgLimit → RgLimit) → List RgLimit → List RgLimit
update_limit id f [] = []
update_limit id f (l ∷ ls) =
    let rest = update_limit id f ls in if l.id == id then f l ∷ rest else l ∷ rest

abbrev pub tightened : ℕ → RgLimit → RgLimit
tightened amount l = record l {
  amount = amount;
  pending_amount = none;
  pending_effective_at = none;
}

abbrev pub loosening : ℕ → ℕ → RgLimit → RgLimit
loosening amount at l = record l { pending_amount = some amount; pending_effective_at = some at }

abbrev pub new_limit : ℕ → LimitInput → RgLimit
new_limit id input = record {
  id = id;
  user_id = input.user_id;
  limit_type = input.limit_type;
  period = input.period;
  amount = input.amount;
  origin = player;
  pending_amount = none;
  pending_effective_at = none;
}

-- `effectiveAt` is reckoned from the server's clock, `clock`.
abbrev pub change_limit : ℕ → ℕ → RgDb → LimitInput → Option RgLimit → Effective × RgDb
change_limit id clock db input none =
    (immediate, record db { limits = db.limits ++ new_limit id input ∷ [] })
change_limit id clock db input (some existing) =
    if leb input.amount existing.amount
    then (
      immediate,
      record db { limits = update_limit existing.id (tightened input.amount) db.limits },
    )
    else (
      pending (clock + input.cooling_ms),
      record db {
        limits =
            update_limit existing.id (loosening input.amount (clock + input.cooling_ms)) db.limits;
      },
    )

unfoldable pub set_limit : ℕ → ℕ → RgDb → LimitInput → Effective × RgDb
set_limit id clock db input =
    change_limit id clock db input (own_limit db input.user_id input.limit_type input.period)

abbrev pub uncharged : RgLimit → RgLimit
uncharged l = record l { pending_amount = none; pending_effective_at = none }

unfoldable pub cancel_pending : RgDb → ℕ → LimitType → LimitPeriod → RgDb
cancel_pending db user t p = record db {
  limits =
      map (λ (l : RgLimit). if l.user_id == user && is_own t p l then uncharged l else l) db.limits;
}

-- `pending_effective_at IS NOT NULL AND pending_effective_at <= now()`
abbrev pub is_due : Option ℕ → ℕ → Bool
is_due none now = false
is_due (some at) now = leb at now

abbrev pub promoted_to : RgLimit → ℕ → RgLimit
promoted_to l amount = record l {
  amount = amount;
  pending_amount = none;
  pending_effective_at = none;
}

abbrev pub promote : ℕ → RgLimit → Option ℕ → RgLimit
promote now l none = l
promote now l (some amount) = if is_due l.pending_effective_at now then promoted_to l amount else l

unfoldable pub promote_due_increases : ℕ → RgDb → ℕ → RgDb
promote_due_increases now db user = record db {
  limits =
      map (λ (l : RgLimit). if l.user_id == user then promote now l l.pending_amount else l)
        db.limits;
}
