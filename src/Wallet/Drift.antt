-- ===== src/Wallet/Drift.antt =====
-- What the posts of apps/api/src/wallet/ledger.service.ts leave, the checks of
-- apps/api/src/wallet/reconciliation.service.ts have nothing to say about.
use casino_app.Prelude.{
  append_nil, filter-append, ℕ, ◌≡◌, ◌≢◌, refl, sym, ap, ◌∙◌, inl, inr, ltb, ◌==◌, ==_iff, Bool,
  false, Option, none, some, List, [], ◌∷◌, ◌++◌, map, filter, All, length, unique, Bool-cases,
  Option-cases, arith, ◌⊎◌, or_else, true-false,
}
use casino_app.Prelude.Int.{pos, ◌+ℤ◌, sum_ℤ}
use casino_app.Prelude.Dict.{Dict, lookup, put}
use casino_app.Ledger.{
  LedgerEntryInput, PostInput, BalanceRow, EntryRow, Db, amount_of, entry_row, new_balance, moved,
  overdrawn, move_entries, started, posted_from, post_with, post, validate, find_posted, committed,
}
use casino_app.Ledger.Laws.{sum_of_amounts, validate_balanced}
use casino_app.Wallet.Settle.{entries_of}
use casino_app.Wallet.Balances.{own_rows, post-cases}
use casino_app.Wallet.Reconciliation.{tx_total, is_mixed}

-- Every transaction's entries sum to zero, in one currency.
abbrev pub Balanced : Db → Type 0
Balanced db = (id : ℕ) → (tx_total db id ≡ pos 0) × (is_mixed db id ≡ false)

-- An account has one row in the cache.
abbrev pub DistinctKeys : Dict BalanceRow → Type 0
DistinctKeys [] = Unit
DistinctKeys ((key, row) ∷ rest) = All (λ (e : ℕ × BalanceRow). e.0 ≢ key) rest × DistinctKeys rest

no_row :
    (tx_id id : ℕ) (entries : List LedgerEntryInput)
    → (tx_id == id) ≡ false
    → filter (λ (e : EntryRow). e.tx_id == id) (map (entry_row tx_id) entries) ≡ []
no_row tx_id id [] h = refl
no_row tx_id id (e ∷ es) h = rw h (no_row tx_id id es h)

amounts_of_rows :
    (tx_id : ℕ) (entries : List LedgerEntryInput)
    → sum_ℤ (λ (e : EntryRow). e.amount) (map (entry_row tx_id) entries) ≡ sum_of_amounts entries
amounts_of_rows tx_id [] = refl
amounts_of_rows tx_id (e ∷ es) = ap (λ r. amount_of e.amount +ℤ r) (amounts_of_rows tx_id es)

currencies_of_rows :
    (tx_id : ℕ) (entries : List LedgerEntryInput)
    → map (λ (e : EntryRow). e.currency) (map (entry_row tx_id) entries)
      ≡ map (λ (e : LedgerEntryInput). e.currency) entries
currencies_of_rows tx_id [] = refl
currencies_of_rows tx_id (e ∷ es) = ap (λ r. e.currency ∷ r) (currencies_of_rows tx_id es)

validate_one_currency :
    (entries : List LedgerEntryInput)
    → validate entries ≡ none
    → ltb 1 (length (unique (map (λ (e : LedgerEntryInput). e.currency) entries))) ≡ false
unfolding validate
validate_one_currency entries h = ground arith

-- A transaction after a post is one that was there, or the one that was posted.
rows_after :
    (tx_id id : ℕ) (db after : Db) (entries : List LedgerEntryInput)
    → entries_of db tx_id ≡ []
    → after.entries ≡ db.entries ++ map (entry_row tx_id) entries
    → (entries_of after id ≡ entries_of db id)
      ⊎ (entries_of after id ≡ map (entry_row tx_id) entries)
rows_after tx_id id db after entries new is =
    let split : entries_of after id
        ≡ entries_of db id
          ++ filter (λ (e : EntryRow). e.tx_id == id) (map (entry_row tx_id) entries) =
      ap (filter (λ (e : EntryRow). e.tx_id == id)) is
      ∙ filter-append (λ (e : EntryRow). e.tx_id == id) db.entries
          (map (entry_row tx_id) entries) in
    elim (Bool-cases (tx_id == id)) [
      | inr other ↦
          inl
            (split ∙ ap (λ r. entries_of db id ++ r) (no_row tx_id id entries other) ∙ append_nil _)
      | inl same ↦
          let eq = (==_iff tx_id id).0 same in
          inr (split ∙ rw (← eq) (rw (new, own_rows tx_id entries) refl))
    ]

pub Balanced-post :
    (is_user : ℕ → Bool) (tx_id : ℕ) (db : Db) (input : PostInput)
    → entries_of db tx_id ≡ []
    → Balanced db
    → Balanced (post is_user tx_id db input).1
Balanced-post is_user tx_id db input new h id = elim (post-cases is_user tx_id db input) [
  | inl same ↦ rw same (h id)
  | inr (moves, fine) ↦
      elim (rows_after tx_id id db (post is_user tx_id db input).1 input.entries new moves.1) [
        | inl old ↦ rw old (h id)
        | inr its ↦ rw its (
          amounts_of_rows tx_id input.entries ∙ validate_balanced input.entries fine,
          rw (currencies_of_rows tx_id input.entries) (validate_one_currency input.entries fine),
        )
      ]
]

apart-put :
    (k key : ℕ) (row : BalanceRow) (m : Dict BalanceRow)
    → All (λ (e : ℕ × BalanceRow). e.0 ≢ k) m
    → key ≢ k
    → All (λ (e : ℕ × BalanceRow). e.0 ≢ k) (put key row m)
apart-put k key row [] h other = (other, tt)
apart-put k key row ((j, r) ∷ m) h other = elim (Bool-cases (j == key)) [
  | inl same ↦ rw same h
  | inr miss ↦ rw miss (h.0, apart-put k key row m h.1 other)
]

DistinctKeys-put :
    (key : ℕ) (row : BalanceRow) (m : Dict BalanceRow)
    → DistinctKeys m
    → DistinctKeys (put key row m)
DistinctKeys-put key row [] h = (tt, tt)
DistinctKeys-put key row ((j, r) ∷ m) h = elim (Bool-cases (j == key)) [
  | inl same ↦ rw same h
  | inr miss ↦ rw miss (
    apart-put j key row m h.0 (λ e. true-false ((==_iff j key).1 (sym e)) miss),
    DistinctKeys-put key row m h.1,
  )
]

some-inj : {a b : Db} → some a ≡ some b → a ≡ b
some-inj h = ground arith

module _ (is_user : ℕ → Bool) where
  DistinctKeys-move_entries :
      (tx_id : ℕ) (entries : List LedgerEntryInput) (db : Db) {after : Db}
      → DistinctKeys db.balances
      → move_entries is_user tx_id entries db ≡ some after
      → DistinctKeys after.balances
  unfolding move_entries
  DistinctKeys-move_entries tx_id [] db {after} h e =
      (let is : db ≡ after = some-inj e in rw (← is) h)
  DistinctKeys-move_entries tx_id (entry ∷ entries) db {after} h e =
      let row = or_else (lookup entry.account_id db.balances) (new_balance entry.currency) in
      let row' = moved row (amount_of entry.amount) in
      elim (Bool-cases (overdrawn is_user entry.account_id row'.amount)) [
        | inl short ↦ absurd (ground arith)
        | inr enough ↦
            DistinctKeys-move_entries tx_id entries _
              (DistinctKeys-put entry.account_id row' db.balances h)
              (rw (enough, move_entries) at e)
      ]

  pub DistinctKeys-post :
      (tx_id : ℕ) (db : Db) (input : PostInput)
      → DistinctKeys db.balances
      → DistinctKeys (post is_user tx_id db input).1.balances
  unfolding post
  DistinctKeys-post tx_id db input h = elim (Option-cases (validate input.entries)) [
    | inr (error, bad) ↦ rw (bad, post_with) h
    | inl fine ↦ elim (Option-cases (find_posted db input.idempotency_key)) [
      | inr (id, there) ↦ rw (fine, there, post_with) h
      | inl new ↦
          rw (fine, new, post_with)
            (by_moves (move_entries is_user tx_id input.entries (started is_user tx_id db input))
              refl)
    ]
  ]
    where
      by_moves :
          (o : Option Db)
          → move_entries is_user tx_id input.entries (started is_user tx_id db input) ≡ o
          → DistinctKeys (committed is_user db (posted_from is_user tx_id input o)).balances
      by_moves none e = h
      by_moves (some after) e =
          DistinctKeys-move_entries tx_id input.entries (started is_user tx_id db input) h e
