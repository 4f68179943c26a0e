-- ===== src/Ledger/Laws.antt =====
-- Laws of `post` of apps/api/src/wallet/ledger.service.ts.
use casino_app.Prelude.{
  ℕ, ◌≡◌, refl, ap, ◌∙◌, inl, inr, ◌==◌, Bool, true, false, ◌&&◌, Option, none, some, or_else, List,
  [], ◌∷◌, ◌++◌, find, Bool-cases, Option-cases, arith, ==_iff,
}
use casino_app.Prelude.Int.{
  ℤ, pos, ◌+ℤ◌, ltb_ℤ, ◌≤ℤ◌, eq_parts, eq_of_parts, int_laws, sum_ℤ, Number, int, not_int,
}
use casino_app.Prelude.Dict.{Dict, lookup, put, lookup-put}
use casino_app.Ledger.{
  LedgerEntryInput, PostInput, PostResult, TransactionRow, BalanceRow, Db, LedgerError, Posted,
  done, failed, check_amounts, check_amount, validate, find_posted, amount_of, new_balance, moved,
  transaction_row, overdrawn, move_entries, posted_from, started, post_new, post_with, committed,
  post,
}

-- What an account has; nothing, if it has no row.
abbrev pub amount_in : Option BalanceRow → ℤ
amount_in none = pos 0
amount_in (some row) = row.amount

-- All the money in the cache of balances.
abbrev pub total : Dict BalanceRow → ℤ
total = sum_ℤ (λ (e : ℕ × BalanceRow). e.1.amount)

total-put :
    (key : ℕ) (row : BalanceRow) (m : Dict BalanceRow)
    → total (put key row m) +ℤ amount_in (lookup key m) ≡ total m +ℤ row.amount
total-put key row [] = omega int_laws
total-put key row ((k, r) ∷ m) = elim (Bool-cases (k == key)) [
  | inl same ↦ rw same (omega int_laws)
  | inr other ↦ rw other (omega (int_laws, eq_parts _ _ (total-put key row m)))
]

abbrev pub sum_of_amounts : List LedgerEntryInput → ℤ
sum_of_amounts = sum_ℤ (λ (e : LedgerEntryInput). amount_of e.amount)

amount_in-or_else :
    (o : Option BalanceRow) (currency : ℕ) → (or_else o (new_balance currency)).amount ≡ amount_in o
amount_in-or_else none currency = refl
amount_in-or_else (some row) currency = refl

check_amount_passes :
    (n : Number) (rest : Option LedgerError) → check_amount n rest ≡ none → rest ≡ none
check_amount_passes not_int rest e = absurd (ground arith)
check_amount_passes (int n) rest e = ground arith

check_amounts_balanced :
    (sum : ℤ) (entries : List LedgerEntryInput)
    → check_amounts sum entries ≡ none
    → sum +ℤ sum_of_amounts entries ≡ pos 0
unfolding check_amounts
check_amounts_balanced sum [] e =
    (let zero_sum : sum ≡ pos 0 = eq_of_parts sum (pos 0) (ground arith) in
      omega (int_laws, eq_parts _ _ zero_sum))
check_amounts_balanced sum (entry ∷ entries) e = omega (
  int_laws,
  eq_parts _ _ (
      check_amounts_balanced (sum +ℤ amount_of entry.amount) entries
        (check_amount_passes entry.amount _ e)),
)

pub validate_balanced :
    (entries : List LedgerEntryInput) → validate entries ≡ none → sum_of_amounts entries ≡ pos 0
unfolding validate
validate_balanced entries e =
    omega (int_laws, eq_parts _ _ (check_amounts_balanced (pos 0) entries (ground arith)))

-- No player's wallet is below zero.
abbrev pub NotOverdrawn : (ℕ → Bool) → Db → Type 0
NotOverdrawn is_user db =
    (account : ℕ) → is_user account ≡ true → pos 0 ≤ℤ amount_in (lookup account db.balances)

find-append :
    (key : ℕ) (rows : List TransactionRow) (row : TransactionRow)
    → find (λ (t : TransactionRow). t.idempotency_key == key) rows ≡ none
    → row.idempotency_key ≡ key
    → find (λ (t : TransactionRow). t.idempotency_key == key) (rows ++ row ∷ []) ≡ some row
find-append key [] row n k = rw ((==_iff row.idempotency_key key).1 k) refl
find-append key (t ∷ rows) row n k = elim (Bool-cases (t.idempotency_key == key)) [
  | inl hit ↦ absurd (ground arith)
  | inr miss ↦ rw miss (find-append key rows row (rw miss at n) k)
]

done-inj : {a b : PostResult} {c d : Db} → done a c ≡ done b d → (a ≡ b) × (c ≡ d)
done-inj h = ground arith

not_below :
    (user : Bool) (amount : ℤ)
    → user ≡ true
    → (user && ltb_ℤ amount (pos 0)) ≡ false
    → pos 0 ≤ℤ amount
not_below user amount u h = ground arith

some-inj : {A : Type 0} {a b : A} → some a ≡ some b → a ≡ b
some-inj h = ground arith

module _ (is_user : ℕ → Bool) where
  total-move_entries :
      (tx_id : ℕ) (entries : List LedgerEntryInput) (db : Db) {after : Db}
      → move_entries is_user tx_id entries db ≡ some after
      → total after.balances ≡ total db.balances +ℤ sum_of_amounts entries
  unfolding move_entries
  total-move_entries tx_id [] db {after} e =
      (let is : db ≡ after = ground arith in rw (← is) (omega int_laws))
  total-move_entries tx_id (entry ∷ entries) db {after} e =
      let row = or_else (lookup entry.account_id db.balances) (new_balance entry.currency) in
      let row' = moved row (amount_of entry.amount) in
      elim (Bool-cases (overdrawn is_user entry.account_id row'.amount)) [
        | inl short ↦ absurd (ground arith)
        | inr enough ↦
            (let rest = total-move_entries tx_id entries _ (rw (enough, move_entries) at e) in
              omega (
                int_laws,
                eq_parts _ _ rest,
                eq_parts _ _ (total-put entry.account_id row' db.balances),
                eq_parts _ _
                    (amount_in-or_else (lookup entry.account_id db.balances) entry.currency),
              ))
      ]

  transactions-move_entries :
      (tx_id : ℕ) (entries : List LedgerEntryInput) (db : Db) {after : Db}
      → move_entries is_user tx_id entries db ≡ some after
      → after.transactions ≡ db.transactions
  unfolding move_entries
  transactions-move_entries tx_id [] db {after} e =
      (let is : db ≡ after = some-inj e in rw (← is) refl)
  transactions-move_entries tx_id (entry ∷ entries) db {after} e =
      let row = or_else (lookup entry.account_id db.balances) (new_balance entry.currency) in
      elim (Bool-cases
        (overdrawn is_user entry.account_id (moved row (amount_of entry.amount)).amount)) [
          | inl short ↦ absurd (ground arith)
          | inr enough ↦ transactions-move_entries tx_id entries _ (rw (enough, move_entries) at e)
        ]

  NotOverdrawn-move_entries :
      (tx_id : ℕ) (entries : List LedgerEntryInput) (db : Db) {after : Db}
      → NotOverdrawn is_user db
      → move_entries is_user tx_id entries db ≡ some after
      → NotOverdrawn is_user after
  unfolding move_entries
  NotOverdrawn-move_entries tx_id [] db {after} h e =
      (let is : db ≡ after = some-inj e in rw (← is) h)
  NotOverdrawn-move_entries tx_id (entry ∷ entries) db {after} h e =
      let row = or_else (lookup entry.account_id db.balances) (new_balance entry.currency) in
      let row' = moved row (amount_of entry.amount) in
      elim (Bool-cases (overdrawn is_user entry.account_id row'.amount)) [
        | inl short ↦ absurd (ground arith)
        | inr enough ↦
            NotOverdrawn-move_entries tx_id entries _
              (λ account user. elim (Bool-cases (entry.account_id == account)) [
                | inl same ↦
                    (let ids = (==_iff entry.account_id account).0 same in
                      rw (lookup-put entry.account_id account row' db.balances) (
                        rw same (
                          not_below (is_user entry.account_id) row'.amount (ap is_user ids ∙ user)
                            enough)))
                | inr other ↦
                    rw (lookup-put entry.account_id account row' db.balances)
                      (rw other (h account user))
              ])
              (rw (enough, move_entries) at e)
      ]

  -- What a post does to a database: the money stays as it was, no wallet is overdrawn, and the key is
  -- found under the id of the result.
  abbrev pub GoodPost : Db → PostInput → Posted × Db → Type 0
  GoodPost db input (failed error, after) = after ≡ db
  GoodPost db input (done result later, after) =
      (total after.balances ≡ total db.balances)
      × NotOverdrawn is_user after
      × (find_posted after input.idempotency_key ≡ some result.transaction_id)

  post_new-GoodPost :
      (tx_id : ℕ) (db : Db) (input : PostInput)
      → sum_of_amounts input.entries ≡ pos 0
      → find_posted db input.idempotency_key ≡ none
      → NotOverdrawn is_user db
      → GoodPost db input
          (post_new is_user tx_id db input, committed is_user db (post_new is_user tx_id db input))
  unfolding find_posted
  post_new-GoodPost tx_id db input balanced fresh h =
      by_moves (move_entries is_user tx_id input.entries (started is_user tx_id db input)) refl
    where
      absent :
          (rows : List TransactionRow)
          → find_posted (record db { transactions = rows }) input.idempotency_key ≡ none
          → find (λ (t : TransactionRow). t.idempotency_key == input.idempotency_key) rows ≡ none
      absent rows e =
          elim (Option-cases
            (find (λ (t : TransactionRow). t.idempotency_key == input.idempotency_key) rows)) [
              | inl none_there ↦ none_there
              | inr (t, there) ↦ absurd (ground arith)
            ]

      by_moves :
          (o : Option Db)
          → move_entries is_user tx_id input.entries (started is_user tx_id db input) ≡ o
          → GoodPost db input (
            posted_from is_user tx_id input o,
            committed is_user db (posted_from is_user tx_id input o),
          )
      by_moves none moves = refl
      by_moves (some after) moves =
          let start = started is_user tx_id db input in
          (
            omega (
              int_laws,
              eq_parts _ _ (total-move_entries tx_id input.entries start moves),
              eq_parts _ _ balanced,
            ),
            NotOverdrawn-move_entries tx_id input.entries start h moves,
            rw (transactions-move_entries tx_id input.entries start moves) (
                rw
                  (
                    find-append input.idempotency_key db.transactions (transaction_row tx_id input)
                        (absent db.transactions fresh) refl,
                    find_posted,
                  )
                  refl),
          )

  -- On a database where no player's wallet is overdrawn, a post that fails changes nothing, and one that
  -- succeeds leaves the sum of all balances as it was, overdraws no player's wallet, and leaves its
  -- result to be found by its key.
  pub post-GoodPost :
      (tx_id : ℕ) (db : Db) (input : PostInput)
      → NotOverdrawn is_user db
      → GoodPost db input (post is_user tx_id db input)
  unfolding post
  post-GoodPost tx_id db input h = elim (Option-cases (validate input.entries)) [
    | inr (error, bad) ↦ rw (bad, post, post_with) refl
    | inl fine ↦ elim (Option-cases (find_posted db input.idempotency_key)) [
      | inl fresh ↦
          rw (fine, fresh, post, post_with)
            (post_new-GoodPost tx_id db input (validate_balanced input.entries fine) fresh h)
      | inr (id, there) ↦ rw (fine, there, post, post_with) (refl, h, there)
    ]
  ]

  -- After a post that succeeded, on a database where no player's wallet is overdrawn, every valid input
  -- with the same key gets the id of that post, and the database stays as it is.
  pub post_replays :
      (tx_id tx_id' : ℕ) (db : Db) (input again : PostInput) (result : PostResult) (after : Db)
      → NotOverdrawn is_user db
      → post is_user tx_id db input ≡ (done result after, after)
      → again.idempotency_key ≡ input.idempotency_key
      → validate again.entries ≡ none
      → post is_user tx_id' after again
        ≡ (done (record { transaction_id = result.transaction_id; replayed = true }) after, after)
  unfolding post
  post_replays tx_id tx_id' db input again result after h e key valid =
      let good : GoodPost db input (done result after, after) =
        rw e at (post-GoodPost tx_id db input h) in
      let found : find_posted after again.idempotency_key ≡ some result.transaction_id =
        rw key good.2 in
      rw (valid, found, post, post_with) refl
