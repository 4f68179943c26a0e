-- ===== src/Wallet/Reached.antt =====
-- Ledgers that posts of apps/api/src/wallet/ledger.service.ts have reached, before the checks of
-- apps/api/src/wallet/reconciliation.service.ts.
use casino_app.Prelude.{
  append_nil, filter_none, ℕ, ◌≡◌, ◌≢◌, refl, sym, ap, ◌∙◌, inl, inr, ◌==◌, ==_iff, Bool, false,
  not, Option, some, List, [], ◌∷◌, ◌++◌, All, Bool-cases, arith,
}
use casino_app.Prelude.Int.{ℤ, eqb_ℤ}
use casino_app.Prelude.Dict.{Dict, lookup}
use casino_app.Ledger.{PostInput, BalanceRow, Db, post}
use casino_app.Wallet.{Bank, balance_amount, derived_balance}
use casino_app.Wallet.Settle.{entries_of}
use casino_app.Wallet.Balances.{Consistent, post-Consistent}
use casino_app.Wallet.Drift.{Balanced, Balanced-post, DistinctKeys, DistinctKeys-post}
use casino_app.Wallet.Reconciliation.{
  EscrowExpectation, is_unbalanced, is_drifted, stuck_escrows, is_mixed, check_sources, run,
}

abbrev pub empty : Db
empty = record { transactions = []; entries = []; balances = []; audit = [] }

-- Posts, failed ones too, each with a transaction id that no entry has.
pub data Reached (is_user : ℕ → Bool) : Db → Type 0 where
  none_posted : Reached is_user empty
  then_posted :
      {db : Db} (tx_id : ℕ) (input : PostInput)
      → Reached is_user db
      → entries_of db tx_id ≡ []
      → Reached is_user (post is_user tx_id db input).1

abbrev Sound : Db → Type 0
Sound db = Balanced db × Consistent db × DistinctKeys db.balances

Sound-Reached : (is_user : ℕ → Bool) {db : Db} → Reached is_user db → Sound db
Sound-Reached is_user none_posted = (λ id. (refl, refl), λ account. refl, tt)
Sound-Reached is_user (then_posted {db} tx_id input before new) =
    let sound = Sound-Reached is_user before in
    (
      Balanced-post is_user tx_id db input new sound.0,
      post-Consistent is_user tx_id db input sound.1,
      DistinctKeys-post is_user tx_id db input sound.2,
    )

module _ {ℓ} {A : Type ℓ} where
  always_false : (p : A → Bool) (xs : List A) → ((x : A) → p x ≡ false) → All (λ x. p x ≡ false) xs
  always_false p [] h = tt
  always_false p (x ∷ xs) h = (h x, always_false p xs h)

equal_test : (a b : ℤ) → a ≡ b → not (eqb_ℤ a b) ≡ false
equal_test a b h = ground arith

module _ (key : ℕ) (row : BalanceRow) (m : Dict BalanceRow) where
  still_found :
      (rest : Dict BalanceRow)
      → All (λ (e : ℕ × BalanceRow). e.0 ≢ key) rest
      → All (λ (e : ℕ × BalanceRow). lookup e.0 m ≡ some e.1) rest
      → All (λ (e : ℕ × BalanceRow). lookup e.0 ((key, row) ∷ m) ≡ some e.1) rest
  still_found [] apart h = tt
  still_found (e ∷ rest) apart h = (
    elim (Bool-cases (key == e.0)) [
      | inl same ↦ absurd (apart.0 (sym ((==_iff key e.0).0 same)))
      | inr other ↦ rw other h.0
    ],
    still_found rest apart.1 h.1,
  )

rows_found :
    (m : Dict BalanceRow) → DistinctKeys m → All (λ (e : ℕ × BalanceRow). lookup e.0 m ≡ some e.1) m
rows_found [] h = tt
rows_found ((key, row) ∷ m) h =
    (rw ((==_iff key key).1 refl) refl, still_found key row m m h.0 (rows_found m h.1))

no_drift :
    (db : Db) (rows : Dict BalanceRow)
    → Consistent db
    → All (λ (e : ℕ × BalanceRow). lookup e.0 db.balances ≡ some e.1) rows
    → All (λ e. is_drifted db e ≡ false) rows
no_drift db [] same h = tt
no_drift db ((account, row) ∷ rows) same h = (
  equal_test row.amount (derived_balance db account) (sym (ap balance_amount h.0) ∙ same account),
  no_drift db rows same h.1,
)

-- On a ledger that posts have reached, each with a new transaction id, reconciliation finds no
-- transaction that does not sum to zero or mixes currencies, and no cached balance that differs from the
-- entries: its findings are those about escrows.
pub run-Reached :
    (is_user : ℕ → Bool) (bank : Bank) (sources : List (Option (List EscrowExpectation)))
    → Reached is_user bank.ledger
    → (run bank sources).findings
      ≡ stuck_escrows bank bank.ledger.balances ++ check_sources bank sources
unfolding run
run-Reached is_user bank sources reached =
    let db = bank.ledger in
    let sound = Sound-Reached is_user reached in
    rw
      (
        filter_none (is_unbalanced db) _
            (always_false (is_unbalanced db) _ (λ id. equal_test _ _ (sound.0 id).0)),
        filter_none (is_drifted db) db.balances
            (no_drift db db.balances sound.1 (rows_found db.balances sound.2)),
        filter_none (is_mixed db) _ (always_false (is_mixed db) _ (λ id. (sound.0 id).1)),
        append_nil (stuck_escrows bank db.balances),
      )
      refl
