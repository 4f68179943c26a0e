-- ===== src/ResponsibleGaming/Store/ExclusionTable.antt =====
-- apps/api/src/responsible-gaming/rg.repository.ts: `rg.exclusions`, and the account status that follows.
use casino_app.Prelude.{
  ℕ, ltb, leb, ◌==◌, Bool, true, false, not, ◌&&◌, if◌then◌else◌, Option, none, some, is_some, List,
  [], ◌∷◌, ◌++◌, map, find, filter, take,
}
use casino_app.Prelude.Dict.{Dict}
use casino_app.Prelude.Sort.{sort_by}
use casino_app.ResponsibleGaming.{RgExclusion, ExclusionKind}
use casino_app.ResponsibleGaming.Store.Tables.{AccountStatus, active, self_excluded, RgDb}

-- `ends_at IS NULL OR ends_at > now()`
abbrev pub not_ended : Option ℕ → ℕ → Bool
not_ended none now = true
not_ended (some at) now = ltb now at

abbrev pub in_force : ℕ → ℕ → RgExclusion → Bool
in_force now user e = e.user_id == user && leb e.starts_at now && not_ended e.ends_at now

-- `ORDER BY starts_at DESC LIMIT 1`: of rows that start together, any; here the first.
abbrev pub later_of : RgExclusion → Option RgExclusion → RgExclusion
later_of e none = e
later_of e (some other) = if ltb e.starts_at other.starts_at then other else e

abbrev pub latest : List RgExclusion → Option RgExclusion
latest [] = none
latest (e ∷ es) = some (later_of e (latest es))

unfoldable pub active_exclusion : ℕ → RgDb → ℕ → Option RgExclusion
active_exclusion now db user = latest (filter (in_force now user) db.exclusions)

-- `starts_at` is the column's default, `now()`.
abbrev pub new_exclusion : ℕ → ℕ → ℕ → ExclusionKind → Option ℕ → RgExclusion
new_exclusion id now user kind ends_at = record {
  id = id;
  user_id = user;
  kind = kind;
  starts_at = now;
  ends_at = ends_at;
}

abbrev pub add_exclusion : ℕ → ℕ → RgDb → ℕ → ExclusionKind → Option ℕ → RgDb
add_exclusion id now db user kind ends_at = record db {
  exclusions = db.exclusions ++ new_exclusion id now user kind ends_at ∷ [];
}

abbrev pub is_self_excluded : AccountStatus → Bool
is_self_excluded self_excluded = true
is_self_excluded _ = false

abbrev pub exists_in_force : ℕ → RgDb → ℕ → Bool
exists_in_force now db user = is_some (find (in_force now user) db.exclusions)

-- The accounts that a release touches.
abbrev pub is_lapsed : ℕ → RgDb → ℕ × AccountStatus → Bool
is_lapsed now db (user, status) = is_self_excluded status && not (exists_in_force now db user)

abbrev pub released_status : ℕ → RgDb → ℕ × AccountStatus → ℕ × AccountStatus
released_status now db (user, status) =
    (user, if is_lapsed now db (user, status) then active else status)

unfoldable pub release_lapsed_exclusions : ℕ → RgDb → List ℕ × RgDb
release_lapsed_exclusions now db = (
  map (λ (e : ℕ × AccountStatus). e.0) (filter (is_lapsed now db) db.statuses),
  record db { statuses = map (released_status now db) db.statuses },
)

-- `setUserStatus` of apps/api/src/auth/auth.repository.ts: an unknown user is not touched.
abbrev pub set_status : ℕ → AccountStatus → Dict AccountStatus → Dict AccountStatus
set_status user status [] = []
set_status user status ((u, s) ∷ rest) =
    let others = set_status user status rest in
    if u == user then (u, status) ∷ others else (u, s) ∷ others

-- `ORDER BY starts_at DESC LIMIT 50`
abbrev pub starts_later : RgExclusion → RgExclusion → Bool
starts_later a b = leb b.starts_at a.starts_at

abbrev pub list_exclusions : RgDb → ℕ → List RgExclusion
list_exclusions db user =
    take 50 (sort_by starts_later (filter (λ (e : RgExclusion). e.user_id == user) db.exclusions))
