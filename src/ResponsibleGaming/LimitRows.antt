-- ===== src/ResponsibleGaming/LimitRows.antt =====
-- Rows of `rg.limits`: how the statements of apps/api/src/responsible-gaming/rg.repository.ts find
-- and replace them.
use casino_app.Prelude.{
  ℕ, ◌≡◌, ◌≢◌, refl, sym, ap, ◌∙◌, inl, inr, ◌==◌, ==_iff, Bool, true, false, ◌&&◌, Option, none,
  some, List, [], ◌∷◌, ◌++◌, map, filter, find, All, All-append, All-find, ◌⊎◌, Bool-cases, arith,
}
use casino_app.ResponsibleGaming.{
  LimitType, LimitPeriod, RgLimit, type_code, period_code, is_player,
}
use casino_app.ResponsibleGaming.Store.{LimitInput, is_own, update_limit, new_limit}

-- The row that holds the player's own limit.
abbrev pub holds : ℕ → LimitType → LimitPeriod → RgLimit → Bool
holds user t p l = l.user_id == user && is_own t p l

abbrev pub same_limit : ℕ → ℕ → LimitType → LimitType → LimitPeriod → LimitPeriod → Bool
same_limit u u' t t' p p' =
    u == u' && type_code t == type_code t' && period_code p == period_code p'

some-inj : {a b : RgLimit} → some a ≡ some b → a ≡ b
some-inj h = ground arith

==_ne : (a b : ℕ) → a ≢ b → (a == b) ≡ false
==_ne a b h = ground arith

and_false : (a b c d : Bool) → (a && b && c) ≡ false → (a && (b && c && d)) ≡ false
and_false true true false d h = refl
and_false true false c d h = refl
and_false false b c d h = refl
and_false true true true d h = absurd (ground arith)

pub find-filter :
    (q r : RgLimit → Bool) (ls : List RgLimit) → find r (filter q ls) ≡ find (λ l. q l && r l) ls
find-filter q r [] = refl
find-filter q r (l ∷ ls) = ground (arith, find-filter q r ls)

-- No two rows have the same identifier.
abbrev pub DistinctIds : List RgLimit → Type 0
DistinctIds [] = Unit
DistinctIds (l ∷ ls) = All (λ (m : RgLimit). m.id ≢ l.id) ls × DistinctIds ls

update_limit-absent :
    (id : ℕ) (f : RgLimit → RgLimit) (ls : List RgLimit)
    → All (λ (l : RgLimit). l.id ≢ id) ls
    → update_limit id f ls ≡ ls
update_limit-absent id f [] h = refl
update_limit-absent id f (l ∷ ls) h = elim (Bool-cases (l.id == id)) [
  | inl same ↦ absurd (h.0 ((==_iff l.id id).0 same))
  | inr other ↦ rw other (ap (λ r. l ∷ r) (update_limit-absent id f ls h.1))
]

-- An update by identifier replaces the row that is found, and no other.
module _ (r : RgLimit → Bool) (f : RgLimit → RgLimit) where
  -- Of the first row it is told whether it is the one that is found.
  first_or_rest :
      (l : RgLimit) (ls : List RgLimit) (x : RgLimit)
      → All (λ (m : RgLimit). m.id ≢ l.id) ls
      → find r (l ∷ ls) ≡ some x
      → (l ≡ x) ⊎ ((find r ls ≡ some x) × (r l ≡ false) × ((l.id == x.id) ≡ false))
  first_or_rest l ls x apart e = elim (Bool-cases (r l)) [
    | inl hit ↦ inl (some-inj (rw hit at e))
    | inr miss ↦
        let later : find r ls ≡ some x = rw miss at e in
        let other = All-find (λ (m : RgLimit). m.id ≢ l.id) r ls apart later in
        inr (later, miss, ==_ne l.id x.id (λ same. other.0 (sym same)))
  ]

  pub found_after_update :
      (ls : List RgLimit) (x : RgLimit)
      → r (f x) ≡ true
      → DistinctIds ls
      → find r ls ≡ some x
      → find r (update_limit x.id f ls) ≡ some (f x)
  found_after_update [] x keeps distinct e = absurd (ground arith)
  found_after_update (l ∷ ls) x keeps distinct e = elim (first_or_rest l ls x distinct.0 e) [
    | inl same ↦ rw same (rw ((==_iff x.id x.id).1 refl, keeps) refl)
    | inr (later, miss, other) ↦ rw (other, miss) (found_after_update ls x keeps distinct.1 later)
  ]

  pub others_after_update :
      (q : RgLimit → Bool) (ls : List RgLimit) (x : RgLimit)
      → q x ≡ false
      → q (f x) ≡ false
      → DistinctIds ls
      → find r ls ≡ some x
      → find q (update_limit x.id f ls) ≡ find q ls
  others_after_update q [] x was stays distinct e = refl
  others_after_update q (l ∷ ls) x was stays distinct e = elim (first_or_rest l ls x distinct.0 e) [
    | inl same ↦
        let apart : All (λ (m : RgLimit). m.id ≢ x.id) ls = rw (← same) distinct.0 in
        rw same
          (rw ((==_iff x.id x.id).1 refl, was, stays, update_limit-absent x.id f ls apart) refl)
    | inr (later, miss, other) ↦
        rw (other, others_after_update q ls x was stays distinct.1 later) refl
  ]

pub find-true :
    (q : RgLimit → Bool) (ls : List RgLimit) (x : RgLimit) → find q ls ≡ some x → q x ≡ true
find-true q [] x e = absurd (ground arith)
find-true q (l ∷ ls) x e = elim (Bool-cases (q l)) [
  | inl hit ↦ (let same : l ≡ x = some-inj (rw hit at e) in rw (← same) hit)
  | inr miss ↦ find-true q ls x (rw miss at e)
]

pub find-append_new :
    (q : RgLimit → Bool) (ls : List RgLimit) (x : RgLimit)
    → find q ls ≡ none
    → q x ≡ true
    → find q (ls ++ x ∷ []) ≡ some x
find-append_new q [] x e h = rw h refl
find-append_new q (l ∷ ls) x e h = elim (Bool-cases (q l)) [
  | inl hit ↦ absurd (ground arith)
  | inr miss ↦ rw miss (find-append_new q ls x (rw miss at e) h)
]

pub find-append_other :
    (q : RgLimit → Bool) (ls : List RgLimit) (x : RgLimit)
    → q x ≡ false
    → find q (ls ++ x ∷ []) ≡ find q ls
find-append_other q [] x h = rw h refl
find-append_other q (l ∷ ls) x h = rw (find-append_other q ls x h) refl

pub other_limit :
    (u u' : ℕ) (t t' : LimitType) (p p' : LimitPeriod) (l : RgLimit)
    → holds u t p l ≡ true
    → same_limit u u' t t' p p' ≡ false
    → holds u' t' p' l ≡ false
other_limit u u' t t' p p' l h other =
    rw
      (
        (==_iff l.user_id u).0 (ground arith),
        (==_iff (type_code l.limit_type) (type_code t)).0 (ground arith),
        (==_iff (period_code l.period) (period_code p)).0 (ground arith),
      )
      (and_false (u == u') (type_code t == type_code t') (period_code p == period_code p')
        (is_player l.origin) other)

pub new_limit_held :
    (id : ℕ) (input : LimitInput)
    → holds input.user_id input.limit_type input.period (new_limit id input) ≡ true
new_limit_held id input = ground arith

abbrev pub map_found : (RgLimit → RgLimit) → Option RgLimit → Option RgLimit
map_found g none = none
map_found g (some l) = some (g l)

pub find-map :
    (q : RgLimit → Bool) (g : RgLimit → RgLimit) (ls : List RgLimit)
    → ((l : RgLimit) → q (g l) ≡ q l)
    → find q (map g ls) ≡ map_found g (find q ls)
find-map q g [] keeps = refl
find-map q g (l ∷ ls) keeps = elim (Bool-cases (q l)) [
  | inl hit ↦ rw (keeps l, hit) refl
  | inr miss ↦ rw (keeps l, miss) (find-map q g ls keeps)
]

abbrev pub ids : List RgLimit → List ℕ
ids = map (λ (l : RgLimit). l.id)

cons-inj : {a b : ℕ} {xs ys : List ℕ} → a ∷ xs ≡ b ∷ ys → (a ≡ b) × (xs ≡ ys)
cons-inj h = ground arith

apart_by_ids :
    (id : ℕ) (ls ls' : List RgLimit)
    → ids ls' ≡ ids ls
    → All (λ (l : RgLimit). l.id ≢ id) ls
    → All (λ (l : RgLimit). l.id ≢ id) ls'
apart_by_ids id ls [] e h = tt
apart_by_ids id [] (l ∷ ls') e h = absurd (ground arith)
apart_by_ids id (m ∷ ls) (l ∷ ls') e h =
    let both = cons-inj e in (λ same. h.0 (sym both.0 ∙ same), apart_by_ids id ls ls' both.1 h.1)

pub DistinctIds-by_ids :
    (ls ls' : List RgLimit) → ids ls' ≡ ids ls → DistinctIds ls → DistinctIds ls'
DistinctIds-by_ids ls [] e h = tt
DistinctIds-by_ids [] (l ∷ ls') e h = absurd (ground arith)
DistinctIds-by_ids (m ∷ ls) (l ∷ ls') e h =
    let both = cons-inj e in
    (rw both.0 (apart_by_ids m.id ls ls' both.1 h.0), DistinctIds-by_ids ls ls' both.1 h.1)

pub ids-update_limit :
    (id : ℕ) (f : RgLimit → RgLimit) (ls : List RgLimit)
    → ((l : RgLimit) → (f l).id ≡ l.id)
    → ids (update_limit id f ls) ≡ ids ls
ids-update_limit id f [] keeps = refl
ids-update_limit id f (l ∷ ls) keeps = elim (Bool-cases (l.id == id)) [
  | inl hit ↦ rw (hit, keeps l, ids-update_limit id f ls keeps) refl
  | inr miss ↦ rw (miss, ids-update_limit id f ls keeps) refl
]

pub ids-map :
    (g : RgLimit → RgLimit) (ls : List RgLimit)
    → ((l : RgLimit) → (g l).id ≡ l.id)
    → ids (map g ls) ≡ ids ls
ids-map g [] keeps = refl
ids-map g (l ∷ ls) keeps = rw (keeps l, ids-map g ls keeps) refl

apart-append :
    (id : ℕ) (ls : List RgLimit) (l : RgLimit)
    → All (λ (m : RgLimit). m.id ≢ id) ls
    → l.id ≢ id
    → All (λ (m : RgLimit). m.id ≢ id) (ls ++ l ∷ [])
apart-append id ls l h p = All-append (λ (m : RgLimit). m.id ≢ id) ls (l ∷ []) h (p, tt)

pub DistinctIds-append :
    (ls : List RgLimit) (l : RgLimit)
    → DistinctIds ls
    → All (λ (m : RgLimit). m.id ≢ l.id) ls
    → DistinctIds (ls ++ l ∷ [])
DistinctIds-append [] l h fresh = (tt, tt)
DistinctIds-append (m ∷ ls) l h fresh =
    (apart-append m.id ls l h.0 (λ same. fresh.0 (sym same)), DistinctIds-append ls l h.1 fresh.1)
