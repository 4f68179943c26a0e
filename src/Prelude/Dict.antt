-- ===== src/Prelude/Dict.antt =====
-- A JavaScript record or `Map` keyed by identifiers. Identifiers are only ever compared, so they
-- are numbers here.
use Prim.Native.Nat.{ℕ}
use mathlib.Core.Path.{◌≡◌, refl, subst}
use mathlib.Core.Logic.{inl, inr}
use mathlib.Core.Option.{Option, none, some}
use mathlib.Core.List.{List, [], ◌∷◌}
use native.Mathlib.Omega.{arith}
use casino_app.Prelude.Tests.{◌==◌, if◌then◌else◌, Bool-cases}

abbrev pub Dict {ℓ} : Type ℓ → Type ℓ
Dict V = List (ℕ × V)

module _ {ℓ} {V : Type ℓ} where
  -- `m[key]`
  abbrev pub lookup : ℕ → Dict V → Option V
  lookup key [] = none
  lookup key ((k, v) ∷ m) = if k == key then some v else lookup key m

  -- `m[key] = value`
  abbrev pub put : ℕ → V → Dict V → Dict V
  put key value [] = (key, value) ∷ []
  put key value ((k, v) ∷ m) =
      let rest = put key value m in if k == key then (k, value) ∷ m else (k, v) ∷ rest

  pub lookup-put :
      (key other : ℕ) (value : V) (m : Dict V)
      → lookup other (put key value m) ≡ (if key == other then some value else lookup other m)
  lookup-put key other value [] = refl
  lookup-put key other value (e ∷ m) = ground (arith, lookup-put key other value m)

  -- A predicate on values.
  abbrev pub Values {κ} : (V → Type κ) → Dict V → Type κ
  Values P [] = Unit
  Values P ((_, v) ∷ m) = P v × Values P m

  pub Values-put {κ} :
      (P : V → Type κ) (key : ℕ) (value : V) (m : Dict V)
      → P value
      → Values P m
      → Values P (put key value m)
  Values-put P key value [] p h = (p, tt)
  Values-put P key value (e ∷ m) p h = ground (arith, Values-put P key value m p h.1)

  pub Values-lookup {κ} :
      (P : V → Type κ) (key : ℕ) {value : V} (m : Dict V)
      → Values P m
      → lookup key m ≡ some value
      → P value
  Values-lookup P key [] h e = cc
  Values-lookup P key {value} ((k, v) ∷ m) h e = elim (Bool-cases (k == key)) [
    | inl same ↦ (let eq : v ≡ value = ground arith in subst P eq h.0)
    | inr other ↦ Values-lookup P key m h.1 (ground arith)
  ]
