-- ===== src/Ledger.antt =====
-- apps/api/src/wallet/ledger.service.ts: the only writer of the ledger, one transaction at a time, with
-- the balance trigger of apps/api/src/platform/database/migrations/0003_wallet.sql. Sums are exact
-- integers here. Two callers that race with the same key are not modelled, nor are times and row locks.
pub mod Laws
mod Tests
use casino_app.Prelude.{
  ℕ, ◌+◌, ◌==◌, ltb, Bool, true, false, not, ◌&&◌, if◌then◌else◌, Option, none, some, is_some,
  or_else, List, [], ◌∷◌, ◌++◌, map, find, length, unique,
}
use casino_app.Prelude.Int.{ℤ, pos, ◌+ℤ◌, eqb_ℤ, ltb_ℤ, Number, int, not_int, is_safe_integer}
use casino_app.Prelude.Dict.{Dict, lookup, put}

pub record LedgerEntryInput : Type 0 where
  pub account_id : ℕ
  pub amount : Number
  pub currency : ℕ

pub data TransactionType : Type 0 where
  funding buy_in settlement rake reversal adjustment : TransactionType

pub data ActorType : Type 0 where
  user admin system : ActorType

-- Without `created_by` the row says 'system'; `none` stands for that in the row too.
pub record PostInput : Type 0 where
  pub transaction_type : TransactionType
  pub idempotency_key : ℕ
  pub entries : List LedgerEntryInput
  pub ref_type : Option ℕ
  pub ref_id : Option ℕ
  pub reverses_tx_id : Option ℕ
  pub created_by : Option ℕ
  pub actor_type : ActorType
  pub actor_id : Option ℕ
  pub action : ℕ

pub record PostResult : Type 0 where
  pub transaction_id : ℕ
  pub replayed : Bool

pub record TransactionRow : Type 0 where
  pub id : ℕ
  pub transaction_type : TransactionType
  pub idempotency_key : ℕ
  pub ref_type : Option ℕ
  pub ref_id : Option ℕ
  pub reverses_tx_id : Option ℕ
  pub created_by : Option ℕ

pub record EntryRow : Type 0 where
  pub tx_id : ℕ
  pub account_id : ℕ
  pub amount : ℤ
  pub currency : ℕ

pub record BalanceRow : Type 0 where
  pub amount : ℤ
  pub currency : ℕ
  pub version : ℕ

pub record AuditRow : Type 0 where
  pub actor_type : ActorType
  pub actor_id : Option ℕ
  pub action : ℕ
  pub subject_ref : ℕ
  pub transaction_type : TransactionType
  pub entries : List LedgerEntryInput
  pub reference : Option (Option ℕ × ℕ)

pub record Db : Type 0 where
  pub transactions : List TransactionRow
  pub entries : List EntryRow
  pub balances : Dict BalanceRow
  pub audit : List AuditRow

pub data LedgerError : Type 0 where
  too_few_entries mixed_currencies not_minor_units zero_entry : LedgerError
  not_balanced : (sum : ℤ) → LedgerError
  -- The trigger's: a player's balance would become negative.
  insufficient_funds : LedgerError

pub data Posted : Type 0 where
  done : PostResult → Db → Posted
  failed : LedgerError → Posted

-- An amount that `validate` has let through is an integer.
abbrev pub amount_of : Number → ℤ
amount_of (int n) = n
amount_of not_int = pos 0

abbrev pub check_amount : Number → Option LedgerError → Option LedgerError
check_amount not_int rest = some not_minor_units
check_amount (int n) rest =
    if not (is_safe_integer (int n))
    then some not_minor_units
    else if eqb_ℤ n (pos 0)
    then some zero_entry
    else rest

-- The loop of `validate`, with the sum so far.
unfoldable pub check_amounts : ℤ → List LedgerEntryInput → Option LedgerError
check_amounts sum [] = if eqb_ℤ sum (pos 0) then none else some (not_balanced sum)
check_amounts sum (entry ∷ entries) =
    check_amount entry.amount (check_amounts (sum +ℤ amount_of entry.amount) entries)

unfoldable pub validate : List LedgerEntryInput → Option LedgerError
unfolding check_amounts
validate entries =
    if ltb (length entries) 2
    then some too_few_entries
    else if ltb 1 (length (unique (map (λ (e : LedgerEntryInput). e.currency) entries)))
    then some mixed_currencies
    else check_amounts (pos 0) entries

unfoldable pub find_posted : Db → ℕ → Option ℕ
find_posted db key =
    elim (find (λ (t : TransactionRow). t.idempotency_key == key) db.transactions) [
      | none ↦ none
      | some t ↦ some t.id
    ]

abbrev pub new_balance : ℕ → BalanceRow
new_balance currency = record { amount = pos 0; currency = currency; version = 0 }

abbrev pub moved : BalanceRow → ℤ → BalanceRow
moved row amount = record row { amount = row.amount +ℤ amount; version = row.version + 1 }

abbrev pub entry_row : ℕ → LedgerEntryInput → EntryRow
entry_row tx_id entry = record {
  tx_id = tx_id;
  account_id = entry.account_id;
  amount = amount_of entry.amount;
  currency = entry.currency;
}

abbrev pub transaction_row : ℕ → PostInput → TransactionRow
transaction_row tx_id input = record {
  id = tx_id;
  transaction_type = input.transaction_type;
  idempotency_key = input.idempotency_key;
  ref_type = input.ref_type;
  ref_id = input.ref_id;
  reverses_tx_id = input.reverses_tx_id;
  created_by = input.created_by;
}

abbrev pub reference_of : Option ℕ → Option ℕ → Option (Option ℕ × ℕ)
reference_of ref_type none = none
reference_of ref_type (some id) = some (ref_type, id)

abbrev pub audit_row : ℕ → PostInput → AuditRow
audit_row tx_id input = record {
  actor_type = input.actor_type;
  actor_id = input.actor_id;
  action = input.action;
  subject_ref = tx_id;
  transaction_type = input.transaction_type;
  entries = input.entries;
  reference = reference_of input.ref_type input.ref_id;
}

-- `is_user` tells a player's wallet from a house account.
module _ (is_user : ℕ → Bool) where
  abbrev pub overdrawn : ℕ → ℤ → Bool
  overdrawn account amount = is_user account && ltb_ℤ amount (pos 0)

  -- The loop over the entries: a row each, and the balance that moves with it.
  unfoldable pub move_entries : ℕ → List LedgerEntryInput → Db → Option Db
  move_entries tx_id [] db = some db
  move_entries tx_id (entry ∷ entries) db =
      let row = or_else (lookup entry.account_id db.balances) (new_balance entry.currency) in
      let row' = moved row (amount_of entry.amount) in
      let rest = move_entries tx_id entries (record db {
        entries = db.entries ++ entry_row tx_id entry ∷ [];
        balances = put entry.account_id row' db.balances;
      }) in
      if overdrawn entry.account_id row'.amount then none else rest

  abbrev pub audited : ℕ → PostInput → Db → Db
  audited tx_id input db = record db { audit = db.audit ++ audit_row tx_id input ∷ [] }

  abbrev pub posted_from : ℕ → PostInput → Option Db → Posted
  posted_from tx_id input none = failed insufficient_funds
  posted_from tx_id input (some after) =
      done (record { transaction_id = tx_id; replayed = false }) (audited tx_id input after)

  abbrev pub started : ℕ → Db → PostInput → Db
  started tx_id db input = record db {
    transactions = db.transactions ++ transaction_row tx_id input ∷ [];
  }

  abbrev pub post_new : ℕ → Db → PostInput → Posted
  post_new tx_id db input =
      posted_from tx_id input (move_entries tx_id input.entries (started tx_id db input))

  unfoldable pub post_with : ℕ → Db → PostInput → Posted
  unfolding validate find_posted move_entries
  post_with tx_id db input = elim (validate input.entries) [
    | some e ↦ failed e
    | none ↦ elim (find_posted db input.idempotency_key) [
      | some id ↦ done (record { transaction_id = id; replayed = true }) db
      | none ↦ post_new tx_id db input
    ]
  ]

  -- What `post` leaves in the database: a failure rolls back.
  abbrev pub committed : Db → Posted → Db
  committed db (done result after) = after
  committed db (failed e) = db

  unfoldable pub post : ℕ → Db → PostInput → Posted × Db
  unfolding post_with
  post tx_id db input = (post_with tx_id db input, committed db (post_with tx_id db input))
