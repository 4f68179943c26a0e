-- ===== src/Wallet/Reconciliation.antt =====
-- apps/api/src/wallet/reconciliation.service.ts: the checks that watch the ledger for drift. The text of a
-- finding is its figures; a source of expectations that cannot be read answers `none`.
use casino_app.Prelude.{
  ℕ, ltb, ◌==◌, Bool, true, false, not, ◌&&◌, if◌then◌else◌, Option, none, some, is_some, List, [],
  ◌∷◌, ◌++◌, map, filter, find, length, unique,
}
use casino_app.Prelude.Int.{ℤ, pos, sum_ℤ, eqb_ℤ}
use casino_app.Ledger.{EntryRow, BalanceRow, TransactionRow, TransactionType, settlement, Db}
use casino_app.Wallet.{
  AccountRow, account_type_code, match_escrow, table_escrow, Bank, is_id, derived_balance,
  balance_of,
}
use casino_app.Wallet.Settle.{entries_of}

pub data Finding : Type 0 where
  transaction_balance : (tx_id : ℕ) (total : ℤ) → Finding
  balance_cache : (account : ℕ) (cached derived : ℤ) → Finding
  escrow_settled : (match_id : Option ℕ) (amount : ℤ) → Finding
  currency_consistency : (tx_id : ℕ) → Finding
  table_mismatch : (table_id : ℕ) (held expected : ℤ) → Finding
  -- The table escrow check of a source that could not be read.
  source_unread : Finding

pub record EscrowExpectation : Type 0 where
  pub table_id : ℕ
  pub expected : ℤ

pub record ReconciliationReport : Type 0 where
  pub is_ok : Bool
  pub transactions : ℕ
  pub accounts : ℕ
  pub findings : List Finding

-- The groups of `GROUP BY tx_id`.
abbrev pub tx_ids : Db → List ℕ
tx_ids db = unique (map (λ (e : EntryRow). e.tx_id) db.entries)

abbrev pub tx_total : Db → ℕ → ℤ
tx_total db id = sum_ℤ (λ (e : EntryRow). e.amount) (entries_of db id)

abbrev pub is_unbalanced : Db → ℕ → Bool
is_unbalanced db id = not (eqb_ℤ (tx_total db id) (pos 0))

abbrev pub unbalanced : Db → List Finding
unbalanced db =
    map (λ id. transaction_balance id (tx_total db id)) (filter (is_unbalanced db) (tx_ids db))

abbrev pub is_drifted : Db → ℕ × BalanceRow → Bool
is_drifted db (account, row) = not (eqb_ℤ row.amount (derived_balance db account))

abbrev pub drift_of : Db → ℕ × BalanceRow → Finding
drift_of db (account, row) = balance_cache account row.amount (derived_balance db account)

abbrev pub drift : Db → List Finding
drift db = map (drift_of db) (filter (is_drifted db) db.balances)

abbrev pub is_settlement : TransactionType → Bool
is_settlement settlement = true
is_settlement _ = false

-- `t.ref_type = 'match' AND t.ref_id = a.match_id::text AND t.type = 'settlement'`
abbrev pub settles_match : Option ℕ → TransactionRow → Bool
settles_match none t = false
settles_match (some match_id) t =
    is_id t.ref_type 0 && is_id t.ref_id match_id && is_settlement t.transaction_type

abbrev pub is_escrow_of : ℕ → AccountRow → Bool
is_escrow_of id a = a.id == id && account_type_code a.account_type == account_type_code match_escrow

abbrev pub stuck_in : Bank → BalanceRow → Option AccountRow → List Finding
stuck_in bank row none = []
stuck_in bank row (some account) =
    if not (eqb_ℤ row.amount (pos 0))
      && is_some (find (settles_match account.match_id) bank.ledger.transactions)
    then escrow_settled account.match_id row.amount ∷ []
    else []

-- The join of a balance with its account.
abbrev pub stuck_escrows : Bank → List (ℕ × BalanceRow) → List Finding
stuck_escrows bank [] = []
stuck_escrows bank ((account, row) ∷ rows) =
    stuck_in bank row (find (is_escrow_of account) bank.accounts) ++ stuck_escrows bank rows

abbrev pub is_mixed : Db → ℕ → Bool
is_mixed db id = ltb 1 (length (unique (map (λ (e : EntryRow). e.currency) (entries_of db id))))

abbrev pub mixed : Db → List Finding
mixed db = map currency_consistency (filter (is_mixed db) (tx_ids db))

abbrev pub is_table : ℕ → AccountRow → Bool
is_table table a =
    account_type_code a.account_type == account_type_code table_escrow && is_id a.table_id table

abbrev pub held_at : Bank → Option AccountRow → ℤ
held_at bank none = pos 0
held_at bank (some account) = balance_of bank.ledger account.id

abbrev pub check_expectation : Bank → EscrowExpectation → List Finding
check_expectation bank e =
    let held = held_at bank (find (is_table e.table_id) bank.accounts) in
    if not (eqb_ℤ held e.expected) then table_mismatch e.table_id held e.expected ∷ [] else []

abbrev pub check_expectations : Bank → List EscrowExpectation → List Finding
check_expectations bank [] = []
check_expectations bank (e ∷ es) = check_expectation bank e ++ check_expectations bank es

abbrev pub check_source : Bank → Option (List EscrowExpectation) → List Finding
check_source bank none = source_unread ∷ []
check_source bank (some expectations) = check_expectations bank expectations

abbrev pub check_sources : Bank → List (Option (List EscrowExpectation)) → List Finding
check_sources bank [] = []
check_sources bank (source ∷ sources) = check_source bank source ++ check_sources bank sources

abbrev pub is_empty : List Finding → Bool
is_empty [] = true
is_empty (f ∷ fs) = false

abbrev pub all_findings : Bank → List (Option (List EscrowExpectation)) → List Finding
all_findings bank sources =
    unbalanced bank.ledger
    ++ drift bank.ledger
    ++ stuck_escrows bank bank.ledger.balances
    ++ mixed bank.ledger
    ++ check_sources bank sources

unfoldable pub run : Bank → List (Option (List EscrowExpectation)) → ReconciliationReport
run bank sources = record {
  is_ok = is_empty (all_findings bank sources);
  transactions = length bank.ledger.transactions;
  accounts = length bank.ledger.balances;
  findings = all_findings bank sources;
}
