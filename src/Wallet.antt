-- ===== src/Wallet.antt =====
-- apps/api/src/wallet/wallet.repository.ts: the accounts, found by their owner or opened. A fresh
-- identifier (uuidv7) is an argument; identifiers and currencies are numbers, since they are only compared.
pub mod Service
pub mod Operations
pub mod Settle
pub mod Reversal
pub mod Spends
pub mod AccountLaws
pub mod Balances
pub mod Legs
pub mod Settlement
pub mod Reconciliation
pub mod Drift
pub mod Reached
mod Tests
use casino_app.Prelude.{
  ℕ, ◌==◌, Bool, true, false, ◌&&◌, if◌then◌else◌, Option, none, some, is_some, List, [], ◌∷◌, ◌++◌,
  find, not,
}
use casino_app.Prelude.Int.{ℤ, pos, ◌+ℤ◌, sum_ℤ}
use casino_app.Prelude.Dict.{lookup}
use casino_app.Ledger.{Db, EntryRow, BalanceRow}
use casino_app.ResponsibleGaming.Store.{RgDb}

-- The constructor for 'rake'.
pub data AccountType : Type 0 where
  user_wallet house_main house_dev_funding rake_account : AccountType
  bonus match_escrow table_escrow : AccountType

abbrev pub account_type_code : AccountType → ℕ
account_type_code user_wallet = 0
account_type_code house_main = 1
account_type_code house_dev_funding = 2
account_type_code rake_account = 3
account_type_code bonus = 4
account_type_code match_escrow = 5
account_type_code table_escrow = 6

pub record AccountRow : Type 0 where
  pub id : ℕ
  pub account_type : AccountType
  pub user_id : Option ℕ
  pub match_id : Option ℕ
  pub table_id : Option ℕ
  pub currency : ℕ

-- The tables that a transaction of the wallet reads and writes.
pub record Bank : Type 0 where
  pub accounts : List AccountRow
  pub ledger : Db
  pub rg : RgDb

-- `column = $1`, which NULL is not.
abbrev pub is_id : Option ℕ → ℕ → Bool
is_id none id = false
is_id (some a) id = a == id

abbrev pub of_user : ℕ → ℕ → AccountRow → Bool
of_user user currency a = is_id a.user_id user && a.currency == currency

abbrev pub of_match : ℕ → ℕ → AccountRow → Bool
of_match match_id currency a = is_id a.match_id match_id && a.currency == currency

abbrev pub of_table : ℕ → ℕ → AccountRow → Bool
of_table table_id currency a = is_id a.table_id table_id && a.currency == currency

abbrev pub of_house : AccountType → ℕ → AccountRow → Bool
of_house t currency a =
    account_type_code a.account_type == account_type_code t
    && a.currency == currency
    && not (is_some a.user_id)
    && not (is_some a.match_id)
    && not (is_some a.table_id)

-- `INSERT ... ON CONFLICT DO NOTHING`, and the row read again.
abbrev pub opened_account :
    Option AccountRow → AccountRow → List AccountRow → AccountRow × List AccountRow
opened_account (some a) row accounts = (a, accounts)
opened_account none row accounts = (row, accounts ++ row ∷ [])

abbrev pub ensure :
    (AccountRow → Bool) → AccountRow → List AccountRow → AccountRow × List AccountRow
ensure wanted row accounts = opened_account (find wanted accounts) row accounts

abbrev pub user_row : ℕ → ℕ → ℕ → AccountRow
user_row id user currency = record {
  id = id;
  account_type = user_wallet;
  user_id = some user;
  match_id = none;
  table_id = none;
  currency = currency;
}

abbrev pub house_row : ℕ → AccountType → ℕ → AccountRow
house_row id t currency = record {
  id = id;
  account_type = t;
  user_id = none;
  match_id = none;
  table_id = none;
  currency = currency;
}

abbrev pub table_row : ℕ → ℕ → ℕ → AccountRow
table_row id table currency = record {
  id = id;
  account_type = table_escrow;
  user_id = none;
  match_id = none;
  table_id = some table;
  currency = currency;
}

abbrev pub escrow_row : ℕ → ℕ → ℕ → AccountRow
escrow_row id match_id currency = record {
  id = id;
  account_type = match_escrow;
  user_id = none;
  match_id = some match_id;
  table_id = none;
  currency = currency;
}

abbrev pub ensure_user_account : ℕ → List AccountRow → ℕ → ℕ → AccountRow × List AccountRow
ensure_user_account id accounts user currency =
    ensure (of_user user currency) (user_row id user currency) accounts

abbrev pub ensure_house_account :
    ℕ → List AccountRow → AccountType → ℕ → AccountRow × List AccountRow
ensure_house_account id accounts t currency =
    ensure (of_house t currency) (house_row id t currency) accounts

abbrev pub ensure_table_account : ℕ → List AccountRow → ℕ → ℕ → AccountRow × List AccountRow
ensure_table_account id accounts table currency =
    ensure (of_table table currency) (table_row id table currency) accounts

abbrev pub ensure_escrow_account : ℕ → List AccountRow → ℕ → ℕ → AccountRow × List AccountRow
ensure_escrow_account id accounts match_id currency =
    ensure (of_match match_id currency) (escrow_row id match_id currency) accounts

abbrev pub find_user_account : List AccountRow → ℕ → ℕ → Option AccountRow
find_user_account accounts user currency = find (of_user user currency) accounts

-- An account that has no row in the cache has nothing.
abbrev pub balance_amount : Option BalanceRow → ℤ
balance_amount none = pos 0
balance_amount (some row) = row.amount

abbrev pub balance_of : Db → ℕ → ℤ
balance_of db account = balance_amount (lookup account db.balances)

abbrev pub amount_for : ℕ → EntryRow → ℤ
amount_for account e = if e.account_id == account then e.amount else pos 0

-- The ledger's own answer: the sum of the account's entries.
abbrev pub derived_balance : Db → ℕ → ℤ
derived_balance db account = sum_ℤ (amount_for account) db.entries

abbrev is_account : ℕ → AccountType → AccountRow → Bool
is_account id t a = a.id == id && account_type_code a.account_type == account_type_code t

-- Whether the account is of this type, as the join on `accounts` reads it.
abbrev pub has_type : List AccountRow → AccountType → ℕ → Bool
has_type accounts t id = is_some (find (is_account id t) accounts)
