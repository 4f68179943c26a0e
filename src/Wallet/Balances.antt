-- ===== src/Wallet/Balances.antt =====
-- The balances of apps/api/src/wallet: the cache against the entries, and what one post does to both.
use casino_app.Prelude.{
  ℕ, ◌≡◌, refl, sym, ap, ◌∙◌, inl, inr, ◌==◌, ==_iff, Bool, if◌then◌else◌, Option, none, some,
  or_else, List, [], ◌∷◌, ◌++◌, map, Bool-cases, Option-cases, arith, ◌⊎◌, filter, append_nil,
  append_assoc,
}
use casino_app.Prelude.Int.{ℤ, pos, ◌+ℤ◌, sum_ℤ, int_laws, eq_parts}
use casino_app.Prelude.Dict.{Dict, lookup, put, lookup-put}
use casino_app.Ledger.{
  LedgerEntryInput, PostInput, PostResult, BalanceRow, EntryRow, Db, LedgerError, done, failed,
  amount_of, entry_row, new_balance, moved, overdrawn, move_entries, posted_from, started,
  post_with, committed, post, validate, find_posted,
}
use casino_app.Wallet.{balance_amount, balance_of, amount_for, derived_balance}

-- What the entries of an input put into an account.
abbrev pub input_for : ℕ → LedgerEntryInput → ℤ
input_for account e = if e.account_id == account then amount_of e.amount else pos 0

abbrev pub sum_for : ℕ → List LedgerEntryInput → ℤ
sum_for account = sum_ℤ (input_for account)

module _ {ℓ} {A : Type ℓ} where
  pub sum_ℤ-append : (f : A → ℤ) (xs ys : List A) → sum_ℤ f (xs ++ ys) ≡ sum_ℤ f xs +ℤ sum_ℤ f ys
  sum_ℤ-append f [] ys = omega int_laws
  sum_ℤ-append f (x ∷ xs) ys = omega (int_laws, eq_parts _ _ (sum_ℤ-append f xs ys))

some-inj : {a b : Db} → some a ≡ some b → a ≡ b
some-inj h = ground arith

done-inj : {a b : PostResult} {c d : Db} → done a c ≡ done b d → c ≡ d
done-inj h = ground arith

failed-done : {e : LedgerError} {r : PostResult} {d : Db} → failed e ≡ done r d → ⊥
failed-done h = ground arith

balance_amount-or_else :
    (o : Option BalanceRow) (currency : ℕ)
    → (or_else o (new_balance currency)).amount ≡ balance_amount o
balance_amount-or_else none currency = refl
balance_amount-or_else (some row) currency = refl

balance-put :
    (key account : ℕ) (row : BalanceRow) (m : Dict BalanceRow) (before amount : ℤ)
    → balance_amount (lookup key m) ≡ before
    → row.amount ≡ before +ℤ amount
    → balance_amount (lookup account (put key row m))
      ≡ balance_amount (lookup account m) +ℤ (if key == account then amount else pos 0)
balance-put key account row m before amount was is = elim (Bool-cases (key == account)) [
  | inl same ↦
      let ids = (==_iff key account).0 same in
      rw (lookup-put key account row m, same) (rw (← ids) (rw (was) is))
  | inr other ↦ rw (lookup-put key account row m, other) (omega int_laws)
]

-- What the rows of a transaction do: each account moves by its entries, which are appended.
abbrev pub Moved : ℕ → Db → List LedgerEntryInput → Db → Type 0
Moved tx_id db entries after =
    ((account : ℕ) → balance_of after account ≡ balance_of db account +ℤ sum_for account entries)
    × (after.entries ≡ db.entries ++ map (entry_row tx_id) entries)

module _ (is_user : ℕ → Bool) where
  Moved-move_entries :
      (tx_id : ℕ) (entries : List LedgerEntryInput) (db : Db) {after : Db}
      → move_entries is_user tx_id entries db ≡ some after
      → Moved tx_id db entries after
  unfolding move_entries
  Moved-move_entries tx_id [] db {after} e =
      let is : db ≡ after = some-inj e in
      rw (← is) (λ account. omega int_laws, sym (append_nil db.entries))
  Moved-move_entries tx_id (entry ∷ entries) db {after} e =
      let row = or_else (lookup entry.account_id db.balances) (new_balance entry.currency) in
      let row' = moved row (amount_of entry.amount) in
      elim (Bool-cases (overdrawn is_user entry.account_id row'.amount)) [
        | inl short ↦ absurd (ground arith)
        | inr enough ↦
            let rest = Moved-move_entries tx_id entries _ (rw (enough, move_entries) at e) in
            (
              λ account. omega (
                int_laws,
                eq_parts _ _ (rest.0 account),
                eq_parts _ _ (
                    balance-put entry.account_id account row' db.balances _ (amount_of entry.amount)
                      (sym (
                        balance_amount-or_else (lookup entry.account_id db.balances)
                          entry.currency))
                      refl),
              ),
              rest.1
                  ∙ append_assoc db.entries (entry_row tx_id entry ∷ [])
                      (map (entry_row tx_id) entries),
            )
      ]

  -- A post changes nothing, or moves its entries, which are valid.
  module _ (tx_id : ℕ) (db : Db) (input : PostInput) where
    by_moves :
        (P : Type 0) (o : Option Db)
        → P
        → move_entries is_user tx_id input.entries (started is_user tx_id db input) ≡ o
        → (committed is_user db (posted_from is_user tx_id input o) ≡ db)
          ⊎ (Moved tx_id db input.entries (committed is_user db (posted_from is_user tx_id input o))
              × P)
    by_moves P none fine moves = inl refl
    by_moves P (some after) fine moves =
        inr (Moved-move_entries tx_id input.entries (started is_user tx_id db input) moves, fine)

    pub post-cases :
        ((post is_user tx_id db input).1 ≡ db)
        ⊎ (Moved tx_id db input.entries (post is_user tx_id db input).1
            × (validate input.entries ≡ none))
    unfolding post
    post-cases = elim (Option-cases (validate input.entries)) [
      | inr (error, bad) ↦ rw (bad, post_with) (inl refl)
      | inl fine ↦ elim (Option-cases (find_posted db input.idempotency_key)) [
        | inr (id, there) ↦ rw (fine, there, post_with) (inl refl)
        | inl new ↦
            rw (fine, new, post_with)
              (by_moves _
                (move_entries is_user tx_id input.entries (started is_user tx_id db input)) refl
                refl)
      ]
    ]

    done_moves :
        (o : Option Db) (result : PostResult) (after : Db)
        → move_entries is_user tx_id input.entries (started is_user tx_id db input) ≡ o
        → posted_from is_user tx_id input o ≡ done result after
        → Moved tx_id db input.entries after
    done_moves none result after moves e = absurd (ground arith)
    done_moves (some moved_db) result after moves e =
        rw (← done-inj e)
          (Moved-move_entries tx_id input.entries (started is_user tx_id db input) moves)

    -- A post under a new key that succeeds moves its entries.
    pub post_new-Moved :
        (result : PostResult) (after : Db)
        → find_posted db input.idempotency_key ≡ none
        → (post is_user tx_id db input).0 ≡ done result after
        → Moved tx_id db input.entries after
    unfolding post
    post_new-Moved result after new e = elim (Option-cases (validate input.entries)) [
      | inr (error, bad) ↦ absurd (failed-done (rw (bad, post_with) at e))
      | inl fine ↦
          done_moves (move_entries is_user tx_id input.entries (started is_user tx_id db input))
            result after refl (rw (fine, new, post_with) at e)
    ]

pub own_rows :
    (tx_id : ℕ) (entries : List LedgerEntryInput)
    → filter (λ (e : EntryRow). e.tx_id == tx_id) (map (entry_row tx_id) entries)
      ≡ map (entry_row tx_id) entries
own_rows tx_id [] = refl
own_rows tx_id (e ∷ es) =
    rw ((==_iff tx_id tx_id).1 refl) (ap (λ r. entry_row tx_id e ∷ r) (own_rows tx_id es))

sum_of_rows :
    (account tx_id : ℕ) (entries : List LedgerEntryInput)
    → sum_ℤ (amount_for account) (map (entry_row tx_id) entries) ≡ sum_for account entries
sum_of_rows account tx_id [] = refl
sum_of_rows account tx_id (e ∷ es) =
    ap (λ r. input_for account e +ℤ r) (sum_of_rows account tx_id es)

-- The cache of balances agrees with the entries.
abbrev pub Consistent : Db → Type 0
Consistent db = (account : ℕ) → balance_of db account ≡ derived_balance db account

-- If the cached balance of every account is the sum of its entries, it is so after any post.
pub post-Consistent :
    (is_user : ℕ → Bool) (tx_id : ℕ) (db : Db) (input : PostInput)
    → Consistent db
    → Consistent (post is_user tx_id db input).1
post-Consistent is_user tx_id db input h account = elim (post-cases is_user tx_id db input) [
  | inl same ↦ rw same (h account)
  | inr (moves, fine) ↦ rw moves.1 (
      omega (
        int_laws,
        eq_parts _ _ (h account),
        eq_parts _ _ (moves.0 account),
        eq_parts _ _
            (sum_ℤ-append (amount_for account) db.entries (map (entry_row tx_id) input.entries)),
        eq_parts _ _ (sum_of_rows account tx_id input.entries),
      ))
]
