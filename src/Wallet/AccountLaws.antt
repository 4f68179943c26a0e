-- ===== src/Wallet/AccountLaws.antt =====
-- The accounts of apps/api/src/wallet/wallet.repository.ts keep their identifiers apart.
use casino_app.Prelude.{
  ℕ, ◌≡◌, ◌≢◌, refl, sym, ap, ◌∙◌, inl, inr, Bool, true, false, ◌&&◌, Option, none, some, is_some,
  List, [], ◌∷◌, ◌++◌, find, All, All-append, All-find, Bool-cases, arith,
}
use casino_app.Wallet.{AccountRow, opened_account, ensure}

-- No two accounts have the same identifier.
abbrev pub Distinct : List AccountRow → Type 0
Distinct [] = Unit
Distinct (a ∷ rest) = All (λ (b : AccountRow). b.id ≢ a.id) rest × Distinct rest

-- An account is not both a player's and a match's.
abbrev pub OneOwner : AccountRow → Type 0
OneOwner a = (is_some a.user_id && is_some a.match_id) ≡ false

abbrev pub Unused : ℕ → List AccountRow → Type 0
Unused id = All (λ (a : AccountRow). a.id ≢ id)

some-inj : {a b : AccountRow} → some a ≡ some b → a ≡ b
some-inj h = ground arith

-- Rows that are found by different tests and have one identifier are one row.
pub unique_by_id :
    (p q : AccountRow → Bool) (accounts : List AccountRow) (a b : AccountRow)
    → Distinct accounts
    → find p accounts ≡ some a
    → find q accounts ≡ some b
    → a.id ≡ b.id
    → a ≡ b
unique_by_id p q [] a b distinct pa qb same = absurd (ground arith)
unique_by_id p q (x ∷ xs) a b distinct pa qb same =
    let other = λ (y : AccountRow). y.id ≢ x.id in
    elim (Bool-cases (p x)) [
      | inl px ↦
          let xa : x ≡ a = some-inj (rw px at pa) in
          elim (Bool-cases (q x)) [
            | inl qx ↦ sym xa ∙ some-inj (rw qx at qb)
            | inr qx' ↦ absurd (
                (All-find other q xs distinct.0 (rw qx' at qb)).0
                  (sym same ∙ sym (ap (λ (y : AccountRow). y.id) xa)))
          ]
      | inr px' ↦ elim (Bool-cases (q x)) [
        | inl qx ↦
            let xb : x ≡ b = some-inj (rw qx at qb) in
            absurd (
              (All-find other p xs distinct.0 (rw px' at pa)).0
                (same ∙ sym (ap (λ (y : AccountRow). y.id) xb)))
        | inr qx' ↦ unique_by_id p q xs a b distinct.1 (rw px' at pa) (rw qx' at qb) same
      ]
    ]

pub Distinct-append :
    (accounts : List AccountRow) (row : AccountRow)
    → Distinct accounts
    → Unused row.id accounts
    → Distinct (accounts ++ row ∷ [])
Distinct-append [] row h unused = (tt, tt)
Distinct-append (a ∷ rest) row h unused = (
  All-append (λ (b : AccountRow). b.id ≢ a.id) rest (row ∷ []) h.0
      ((λ same. unused.0 (sym same)), tt),
  Distinct-append rest row h.1 unused.1,
)

pub find-append_found :
    (p : AccountRow → Bool) (accounts more : List AccountRow) (a : AccountRow)
    → find p accounts ≡ some a
    → find p (accounts ++ more) ≡ some a
find-append_found p [] more a h = absurd (ground arith)
find-append_found p (x ∷ xs) more a h = elim (Bool-cases (p x)) [
  | inl hit ↦ rw hit (rw hit at h)
  | inr miss ↦ rw miss (find-append_found p xs more a (rw miss at h))
]

find-append_last :
    (p : AccountRow → Bool) (accounts : List AccountRow) (row : AccountRow)
    → find p accounts ≡ none
    → p row ≡ true
    → find p (accounts ++ row ∷ []) ≡ some row
find-append_last p [] row h held = rw held refl
find-append_last p (x ∷ xs) row h held = elim (Bool-cases (p x)) [
  | inl hit ↦ absurd (ground arith)
  | inr miss ↦ rw miss (find-append_last p xs row (rw miss at h) held)
]

-- What opening an account keeps, and what it adds.
pub record Opening (wanted : AccountRow → Bool) (row : AccountRow) (accounts : List AccountRow)
    (result : AccountRow × List AccountRow) : Type 0 where
  pub found : find wanted result.1 ≡ some result.0
  pub distinct : Distinct result.1
  pub owners : All OneOwner result.1
  pub keeps :
      (p : AccountRow → Bool) (a : AccountRow) → find p accounts ≡ some a → find p result.1 ≡ some a
  pub unused : (id : ℕ) → Unused id accounts → row.id ≢ id → Unused id result.1

pub ensure-Opening :
    (wanted : AccountRow → Bool) (row : AccountRow) (accounts : List AccountRow)
    → wanted row ≡ true
    → OneOwner row
    → Distinct accounts
    → All OneOwner accounts
    → Unused row.id accounts
    → Opening wanted row accounts (ensure wanted row accounts)
ensure-Opening wanted row accounts held owner distinct owners unused =
    by_found (find wanted accounts) refl
  where
    by_found :
        (o : Option AccountRow)
        → find wanted accounts ≡ o
        → Opening wanted row accounts (opened_account o row accounts)
    by_found (some a) e = record {
      found = e;
      distinct = distinct;
      owners = owners;
      keeps = λ p b h. h;
      unused = λ id h other. h;
    }
    by_found none e = record {
      found = find-append_last wanted accounts row e held;
      distinct = Distinct-append accounts row distinct unused;
      owners = All-append OneOwner accounts (row ∷ []) owners (owner, tt);
      keeps = λ p b h. find-append_found p accounts (row ∷ []) b h;
      unused = λ id h other.
          All-append (λ (a : AccountRow). a.id ≢ id) accounts (row ∷ []) h (other, tt);
    }
