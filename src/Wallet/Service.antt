-- ===== src/Wallet/Service.antt =====
-- apps/api/src/wallet/wallet.service.ts: every operation that moves money, each one transaction, which a
-- failure rolls back. Risk and the feature flags answer through parameters; logs and risk signals are
-- left out, and so are entry times, so the sum of recent funding is an argument.
use casino_app.Prelude.{ℕ, ◌+◌, ◌==◌, true, if◌then◌else◌, Option, none, some, List, [], ◌∷◌}
use casino_app.Prelude.Int.{ℤ, pos, negsuc, negate, Number, int, not_int, is_safe_ℤ}
use casino_app.Ledger.{
  LedgerEntryInput, PostInput, PostResult, TransactionType, ActorType, Db, LedgerError, Posted,
  done, failed, find_posted, post, insufficient_funds,
}
use casino_app.ResponsibleGaming.{SpendKind}
use casino_app.ResponsibleGaming.Store.{RgDb}
use casino_app.ResponsibleGaming.Service.{ErrorCode, require_allowance, meter_spend, meter_return}
use casino_app.Wallet.{user_wallet, Bank, has_type}

abbrev pub max_per_request : ℕ
max_per_request = 100000

abbrev pub max_per_24_hours : ℕ
max_per_24_hours = 500000

-- A client's number may be anything; the amounts of a settlement are whole.
pub record SettlementInstruction : Type 0 where
  pub user_id : ℕ
  pub amount : ℤ

pub data WalletError : Type 0 where
  currency_mismatch funding_disabled account_frozen no_funds : WalletError
  funding_limit_exceeded : (hours : ℕ) → WalletError
  rg_blocked : ErrorCode → WalletError
  ledger_refused : LedgerError → WalletError
  would_pay_beyond_escrow not_whole_total not_whole_rake no_such_transaction : WalletError

pub data Result (A : Type 0) : Type 0 where
  ok : A → Bank → Result A
  error : WalletError → Result A

-- What the tables are after a transaction.
abbrev pub after : {A : Type 0} → Bank → Result A → Bank
after bank (ok result bank') = bank'
after bank (error e) = bank

-- The strings that operations are keyed by.
pub data IdempotencyKey : Type 0 where
  client_key : ℕ → IdempotencyKey
  buy_in_key : (match_id user_id : ℕ) → IdempotencyKey
  settlement_key : (match_id : ℕ) → IdempotencyKey
  table_buy_in_key table_cash_out_key : (seat_session_id : ℕ) → IdempotencyKey
  reversal_key : (transaction_id : ℕ) → IdempotencyKey

abbrev pub entry : ℕ → ℤ → ℕ → LedgerEntryInput
entry account amount currency = record {
  account_id = account;
  amount = int amount;
  currency = currency;
}

-- From one account to another.
abbrev pub transfer : ℕ → ℕ → ℕ → ℕ → List LedgerEntryInput
transfer source target amount currency =
    entry source (negate (pos amount)) currency ∷ entry target (pos amount) currency ∷ []

pub data RefType : Type 0 where
  no_ref match_ref table_ref : RefType

abbrev pub ref_code : RefType → Option ℕ
ref_code no_ref = none
ref_code match_ref = some 0
ref_code table_ref = some 1

-- `action` is a number for the audit's action string.
abbrev pub post_input :
    TransactionType
    → ℕ
    → List LedgerEntryInput
    → RefType
    → Option ℕ
    → ActorType
    → Option ℕ
    → ℕ
    → PostInput
post_input t key entries ref ref_id actor_type actor_id action = record {
  transaction_type = t;
  idempotency_key = key;
  entries = entries;
  ref_type = ref_code ref;
  ref_id = ref_id;
  reverses_tx_id = none;
  created_by = none;
  actor_type = actor_type;
  actor_id = actor_id;
  action = action;
}

-- A whole number that is safe and not negative; `none` is anything else.
abbrev pub whole : Number → Option ℕ
whole not_int = none
whole (int (negsuc n)) = none
whole (int (pos n)) = if is_safe_ℤ (pos n) then some n else none

abbrev pub positive_from : Option ℕ → Option ℕ
positive_from none = none
positive_from (some n) = if n == 0 then none else some n

-- `Number.isSafeInteger(amount) && amount > 0`
abbrev pub positive : Number → Option ℕ
positive amount = positive_from (whole amount)

-- An error of the ledger for want of funds is the player's.
abbrev pub funds_error : WalletError → WalletError
funds_error (ledger_refused insufficient_funds) = no_funds
funds_error e = e

abbrev pub with_funds_error : {A : Type 0} → Result A → Result A
with_funds_error (ok result bank) = ok result bank
with_funds_error (error e) = error (funds_error e)

-- `clock i` is the i-th reading of the server's clock: one for each payout.
unfoldable pub meter_returns : (clock : ℕ → ℕ) → RgDb → List SettlementInstruction → RgDb
meter_returns clock rg [] = rg
meter_returns clock rg (payout ∷ payouts) =
    let later = λ (i : ℕ). clock (i + 1) in
    elim payout.amount [
      | negsuc n ↦ meter_returns later rg payouts
      | pos n ↦
          meter_returns later (if n == 0 then rg else meter_return rg payout.user_id n (clock 0))
            payouts
    ]

-- `fresh` draws identifiers; the first is that of the transaction.
abbrev pub post_to : (ℕ → ℕ) → Bank → PostInput → Posted
post_to fresh bank input = (post (has_type bank.accounts user_wallet) (fresh 0) bank.ledger input).0

-- `now` is the database's clock, which stands still in a transaction. The server's is read for the
-- allowance, and again for the meter.
module _ (now : ℕ) (clock : ℕ → ℕ) (fresh : ℕ → ℕ) where
  abbrev pub metered : Bank → PostResult → Db → RgDb → ℕ → SpendKind → ℕ → Bank
  metered bank result db rg player kind amount = record bank {
    ledger = db;
    rg = if result.replayed then rg else meter_spend rg player kind amount (clock 1);
  }

  abbrev pub spent_from : Bank → RgDb → ℕ → SpendKind → ℕ → Posted → Result PostResult
  spent_from bank rg player kind amount (failed e) = error (ledger_refused e)
  spent_from bank rg player kind amount (done result db) =
      ok result (metered bank result db rg player kind amount)

  abbrev pub allowed_spend :
      Bank → ℕ → SpendKind → ℕ → PostInput → Option ErrorCode × RgDb → Result PostResult
  allowed_spend bank player kind amount input (some code, rg) = error (rg_blocked code)
  allowed_spend bank player kind amount input (none, rg) =
      spent_from bank rg player kind amount (post_to fresh bank input)

  abbrev pub spend_unless : Bank → ℕ → SpendKind → ℕ → PostInput → Option ℕ → Result PostResult
  spend_unless bank player kind amount input (some already) =
      ok (record { transaction_id = already; replayed = true }) bank
  spend_unless bank player kind amount input none =
      allowed_spend bank player kind amount input
        (require_allowance now (clock 0) bank.rg player kind amount)

  -- Replay first, then the allowance, then the money and the meter.
  unfoldable pub post_spend : Bank → ℕ → SpendKind → ℕ → PostInput → Result PostResult
  post_spend bank player kind amount input =
      spend_unless bank player kind amount input (find_posted bank.ledger input.idempotency_key)
