-- ===== src/Wallet/Operations.antt =====
-- The operations of apps/api/src/wallet/wallet.service.ts, each with the accounts it opens.
use casino_app.Prelude.{
  ℕ, ◌+◌, suc, ltb, ◌==◌, Bool, false, not, ◌&&◌, ◌||◌, if◌then◌else◌, Option, none, some, List, [],
  ◌∷◌, filter,
}
use casino_app.Prelude.Int.{ℤ, pos, sum_ℤ, ltb_ℤ, Number}
use casino_app.Ledger.{
  LedgerEntryInput, PostInput, PostResult, funding, buy_in, settlement, rake, user, system,
  EntryRow, Posted, done, failed,
}
use casino_app.ResponsibleGaming.{deposit_spend, wager_spend}
use casino_app.Wallet.{
  AccountType, house_dev_funding, rake_account, AccountRow, Bank, ensure_user_account,
  ensure_house_account, ensure_table_account, ensure_escrow_account, find_user_account, balance_of,
  has_type,
}
use casino_app.Wallet.Service.{
  max_per_request, max_per_24_hours, SettlementInstruction, currency_mismatch, funding_disabled,
  account_frozen, funding_limit_exceeded, ledger_refused, not_whole_rake, Result, ok, error,
  IdempotencyKey, buy_in_key, settlement_key, table_buy_in_key, table_cash_out_key, entry, transfer,
  no_ref, match_ref, table_ref, post_input, whole, positive, post_to, post_spend, meter_returns,
  with_funds_error,
}

pub record SettleResult : Type 0 where
  pub transaction_id : Option ℕ
  pub replayed : Bool
  -- The rake of a pooled match; what the house collected of a banked one.
  pub net : ℤ

abbrev pub get_balance : Bank → ℕ → ℕ → ℤ
get_balance bank player currency = elim (find_user_account bank.accounts player currency) [
  | none ↦ pos 0
  | some account ↦ balance_of bank.ledger account.id
]

-- `COALESCE(SUM(e.amount), 0)` over the transaction's entries on accounts of one type.
abbrev pub is_leg : List AccountRow → AccountType → ℕ → EntryRow → Bool
is_leg accounts t id e = e.tx_id == id && has_type accounts t e.account_id

abbrev pub total_to : Bank → AccountType → ℕ → ℤ
total_to bank t id =
    sum_ℤ (λ (e : EntryRow). e.amount) (filter (is_leg bank.accounts t id) bank.ledger.entries)

abbrev pub total_payout : List SettlementInstruction → ℤ
total_payout = sum_ℤ (λ (p : SettlementInstruction). p.amount)

abbrev pub with_accounts : Bank → List AccountRow → Bank
with_accounts bank accounts = record bank { accounts = accounts }

abbrev pub transfer_input : PostInput → ℕ → ℕ → ℕ → ℕ → PostInput
transfer_input input source target amount currency = record input {
  entries = transfer source target amount currency;
}

abbrev pub nothing_moved : SettleResult
nothing_moved = record { transaction_id = none; replayed = false; net = pos 0 }

-- The loop over the payouts, an entry for each that is positive. Draws from the `n`-th identifier on.
unfoldable pub payout_entries :
    (ℕ → ℕ)
    → ℕ
    → ℕ
    → List AccountRow
    → List SettlementInstruction
    → List LedgerEntryInput × List AccountRow
payout_entries fresh currency n accounts [] = ([], accounts)
payout_entries fresh currency n accounts (payout ∷ payouts) =
    let (account, accounts') = ensure_user_account (fresh n) accounts payout.user_id currency in
    let skipped = payout_entries fresh currency n accounts payouts in
    let paid = payout_entries fresh currency (suc n) accounts' payouts in
    if ltb_ℤ (pos 0) payout.amount
    then (entry account.id payout.amount currency ∷ paid.0, paid.1)
    else skipped

module _ (clock : ℕ → ℕ) (fresh : ℕ → ℕ) where
  -- A post outside `postSpend`, and the returns that it meters.
  abbrev pub returned_from : Bank → List SettlementInstruction → ℤ → Posted → Result SettleResult
  returned_from bank payouts net (failed e) = error (ledger_refused e)
  returned_from bank payouts net (done result db) =
      ok
        (record {
          transaction_id = some result.transaction_id;
          replayed = result.replayed;
          net = net;
        })
        (record bank {
          ledger = db;
          rg = if result.replayed then bank.rg else meter_returns clock bank.rg payouts;
        })

  abbrev pub post_returns : Bank → PostInput → List SettlementInstruction → ℤ → Result SettleResult
  post_returns bank input payouts net = returned_from bank payouts net (post_to fresh bank input)

-- `test_currency` is 'TST'; `is_frozen` is whom risk does not allow.
module _ (key_number : IdempotencyKey → ℕ) (now : ℕ) (clock : ℕ → ℕ) (fresh : ℕ → ℕ)
    (test_currency : ℕ) (is_frozen : ℕ → Bool) where
  -- The transaction of `addFunds`: a deposit from the house's funding account.
  abbrev pub fund : Bank → ℕ → ℕ → ℕ → Result PostResult
  fund bank player amount key =
      let (account, accounts) = ensure_user_account (fresh 1) bank.accounts player test_currency in
      let (house, accounts') =
        ensure_house_account (fresh 2) accounts house_dev_funding test_currency in
      post_spend now clock fresh (with_accounts bank accounts') player deposit_spend amount (
        post_input funding key (transfer house.id account.id amount test_currency) no_ref none user
          (some player) 0)

  abbrev pub with_balance : ℕ → Result PostResult → Result (PostResult × ℤ)
  with_balance player (error e) = error e
  with_balance player (ok result bank) = ok (result, get_balance bank player test_currency) bank

  abbrev pub fund_amount : Bank → ℕ → ℕ → ℕ → Option ℕ → Result (PostResult × ℤ)
  fund_amount bank player recent key none = error currency_mismatch
  fund_amount bank player recent key (some amount) =
      if ltb max_per_request amount
      then error (funding_limit_exceeded 0)
      else if ltb max_per_24_hours (recent + amount)
      then error (funding_limit_exceeded 24)
      else if is_frozen player
      then error account_frozen
      else with_balance player (fund bank player amount key)

  unfoldable pub add_funds : Bool → Bool → Bank → ℕ → Number → ℕ → ℕ → ℕ → Result (PostResult × ℤ)
  add_funds funding_enabled real_money_enabled bank player amount key currency recent =
      if not (currency == test_currency)
      then error currency_mismatch
      else if not funding_enabled || real_money_enabled
      then error funding_disabled
      else fund_amount bank player recent key (positive amount)

  -- A wager from the player's wallet into an escrow, of a match or of a table.
  abbrev pub place_stake :
      Bank → AccountRow × List AccountRow → ℕ → ℕ → ℕ → ℕ → PostInput → Result PostResult
  place_stake bank escrow account player amount currency input =
      post_spend now clock fresh (with_accounts bank escrow.1) player wager_spend amount
        (transfer_input input account escrow.0.id amount currency)

  abbrev pub buy_in_amount : Bank → ℕ → ℕ → ℕ → Option ℕ → Result PostResult
  buy_in_amount bank player match_id currency none = error currency_mismatch
  buy_in_amount bank player match_id currency (some amount) =
      let (account, accounts) = ensure_user_account (fresh 1) bank.accounts player currency in
      if is_frozen player
      then error account_frozen
      else with_funds_error (
          place_stake bank (ensure_escrow_account (fresh 2) accounts match_id currency) account.id
            player amount currency
            (post_input buy_in (key_number (buy_in_key match_id player)) [] match_ref
              (some match_id) user (some player) 1))

  unfoldable pub pay_buy_in : Bank → ℕ → ℕ → Number → ℕ → Result PostResult
  pay_buy_in bank player match_id amount currency =
      buy_in_amount bank player match_id currency (positive amount)

  abbrev pub sit_down_amount : Bank → ℕ → ℕ → ℕ → ℕ → Option ℕ → Result PostResult
  sit_down_amount bank player table session currency none = error currency_mismatch
  sit_down_amount bank player table session currency (some amount) =
      let (account, accounts) = ensure_user_account (fresh 1) bank.accounts player currency in
      if is_frozen player
      then error account_frozen
      else with_funds_error (
          place_stake bank (ensure_table_account (fresh 2) accounts table currency) account.id
            player amount currency
            (post_input buy_in (key_number (table_buy_in_key session)) [] table_ref (some table)
              user (some player) 2))

  unfoldable pub sit_down : Bank → ℕ → ℕ → ℕ → Number → ℕ → Result PostResult
  sit_down bank player table session amount currency =
      sit_down_amount bank player table session currency (positive amount)

  abbrev pub stand_up_amount : Bank → ℕ → ℕ → ℕ → ℕ → Option ℕ → Result SettleResult
  stand_up_amount bank player table session currency none = error currency_mismatch
  stand_up_amount bank player table session currency (some amount) =
      let (account, accounts) = ensure_user_account (fresh 1) bank.accounts player currency in
      let (escrow, accounts') = ensure_table_account (fresh 2) accounts table currency in
      if amount == 0
      then ok nothing_moved bank
      else post_returns clock fresh (with_accounts bank accounts')
          (post_input settlement (key_number (table_cash_out_key session))
            (transfer escrow.id account.id amount currency) table_ref (some table) user
            (some player) 3)
          (record { user_id = player; amount = pos amount } ∷ []) (pos 0)

  unfoldable pub stand_up : Bank → ℕ → ℕ → ℕ → Number → ℕ → Result SettleResult
  stand_up bank player table session amount currency =
      stand_up_amount bank player table session currency (whole amount)

  abbrev pub rake_amount : Bank → ℕ → ℕ → ℕ → Option ℕ → Result SettleResult
  rake_amount bank table match_id currency none = error not_whole_rake
  rake_amount bank table match_id currency (some amount) =
      let (escrow, accounts) = ensure_table_account (fresh 1) bank.accounts table currency in
      let (house, accounts') = ensure_house_account (fresh 2) accounts rake_account currency in
      if amount == 0
      then ok nothing_moved bank
      else post_returns clock fresh (with_accounts bank accounts')
          (post_input rake (key_number (settlement_key match_id))
            (transfer escrow.id house.id amount currency) match_ref (some match_id) system none 4)
          [] (pos 0)

  unfoldable pub settle_table_hand : Bank → ℕ → ℕ → Number → ℕ → Result SettleResult
  settle_table_hand bank table match_id amount currency =
      rake_amount bank table match_id currency (whole amount)
