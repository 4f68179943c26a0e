-- ===== src/Wallet/Settle.antt =====
-- `settle`, `settleHouseBanked` and `reverse` of apps/api/src/wallet/wallet.service.ts.
use casino_app.Prelude.{
  ℕ, ◌==◌, Bool, true, false, not, ◌&&◌, ◌||◌, if◌then◌else◌, Option, none, some, List, [], ◌∷◌,
  ◌++◌, map, filter,
}
use casino_app.Prelude.Int.{ℤ, pos, ◌-ℤ◌, negate, eqb_ℤ, ltb_ℤ, is_safe_ℤ}
use casino_app.Ledger.{
  LedgerEntryInput, PostInput, PostResult, settlement, reversal, ActorType, system, EntryRow, Db,
  Posted, done, failed, find_posted,
}
use casino_app.Wallet.{
  AccountType, house_main, rake_account, AccountRow, Bank, ensure_house_account,
  ensure_escrow_account, balance_of,
}
use casino_app.Wallet.Service.{
  SettlementInstruction, ledger_refused, would_pay_beyond_escrow, not_whole_total,
  no_such_transaction, Result, ok, error, IdempotencyKey, settlement_key, reversal_key, entry,
  match_ref, post_input, post_to,
}
use casino_app.Wallet.Operations.{
  SettleResult, total_to, total_payout, with_accounts, post_returns, nothing_moved, payout_entries,
}

abbrev pub after_escrow :
    AccountRow
    → ℤ
    → ℕ
    → List LedgerEntryInput × List AccountRow
    → List LedgerEntryInput × List AccountRow
after_escrow escrow amount currency (entries, accounts) =
    (entry escrow.id (negate amount) currency ∷ entries, accounts)

abbrev pub replay_of : Bank → AccountType → ℕ → Result SettleResult
replay_of bank t id =
    ok (record { transaction_id = some id; replayed = true; net = total_to bank t id }) bank

abbrev pub escrow_leg :
    AccountRow
    → ℤ
    → ℕ
    → List LedgerEntryInput × List AccountRow
    → List LedgerEntryInput × List AccountRow
escrow_leg escrow amount currency (entries, accounts) =
    if eqb_ℤ amount (pos 0)
    then (entries, accounts)
    else after_escrow escrow amount currency (entries, accounts)

-- The mirror image of an entry.
abbrev pub mirrored : EntryRow → LedgerEntryInput
mirrored row = entry row.account_id (negate row.amount) row.currency

abbrev pub entries_of : Db → ℕ → List EntryRow
entries_of db transaction_id = filter (λ (e : EntryRow). e.tx_id == transaction_id) db.entries

abbrev pub posted_in : Bank → Posted → Result PostResult
posted_in bank (failed e) = error (ledger_refused e)
posted_in bank (done result db) = ok result (record bank { ledger = db })

module _ (key_number : IdempotencyKey → ℕ) (clock : ℕ → ℕ) (fresh : ℕ → ℕ) where
  abbrev pub settlement_input : ℕ → List LedgerEntryInput → PostInput
  settlement_input match_id entries =
      post_input settlement (key_number (settlement_key match_id)) entries match_ref (some match_id)
        system none 5

  abbrev pub post_settlement :
      Bank
      → ℕ
      → List SettlementInstruction
      → ℤ
      → List LedgerEntryInput × List AccountRow
      → Result SettleResult
  post_settlement bank match_id payouts net (entries, accounts) =
      post_returns clock fresh (with_accounts bank accounts) (settlement_input match_id entries)
        payouts net

  -- What is left over is a last leg, to an account of the house.
  abbrev pub with_leg :
      Bool
      → AccountType
      → ℕ
      → ℤ
      → List LedgerEntryInput × List AccountRow
      → List LedgerEntryInput × List AccountRow
  with_leg false t currency net (entries, accounts) = (entries, accounts)
  with_leg true t currency net (entries, accounts) =
      let (house, accounts') = ensure_house_account (fresh 2) accounts t currency in
      (entries ++ entry house.id net currency ∷ [], accounts')

  abbrev pub pays_out :
      ℕ → List AccountRow → List SettlementInstruction → List LedgerEntryInput × List AccountRow
  pays_out currency accounts payouts = payout_entries fresh currency 3 accounts payouts

  abbrev pub settle_escrow :
      Bank → ℕ → List SettlementInstruction → ℕ → AccountRow × List AccountRow → Result SettleResult
  settle_escrow bank match_id payouts currency (escrow, accounts) =
      let escrow_amount = balance_of bank.ledger escrow.id in
      let total = total_payout payouts in
      let rake = escrow_amount -ℤ total in
      if ltb_ℤ escrow_amount total
      then error would_pay_beyond_escrow
      else if eqb_ℤ escrow_amount (pos 0) && eqb_ℤ total (pos 0)
      then ok nothing_moved (with_accounts bank accounts)
      else post_settlement bank match_id payouts rake (
          with_leg (ltb_ℤ (pos 0) rake) rake_account currency rake
            (after_escrow escrow escrow_amount currency (pays_out currency accounts payouts)))

  abbrev pub settle_unless :
      Bank → ℕ → List SettlementInstruction → ℕ → Option ℕ → Result SettleResult
  settle_unless bank match_id payouts currency (some id) = replay_of bank rake_account id
  settle_unless bank match_id payouts currency none =
      settle_escrow bank match_id payouts currency
        (ensure_escrow_account (fresh 1) bank.accounts match_id currency)

  unfoldable pub settle : Bank → ℕ → List SettlementInstruction → ℕ → Result SettleResult
  settle bank match_id payouts currency =
      settle_unless bank match_id payouts currency
        (find_posted bank.ledger (key_number (settlement_key match_id)))

  abbrev pub bank_escrow :
      Bank → ℕ → List SettlementInstruction → ℕ → AccountRow × List AccountRow → Result SettleResult
  bank_escrow bank match_id payouts currency (escrow, accounts) =
      let escrow_amount = balance_of bank.ledger escrow.id in
      let total = total_payout payouts in
      let house_net = escrow_amount -ℤ total in
      if not (is_safe_ℤ total) || ltb_ℤ total (pos 0)
      then error not_whole_total
      else if eqb_ℤ escrow_amount (pos 0) && eqb_ℤ total (pos 0)
      then ok nothing_moved (with_accounts bank accounts)
      else post_settlement bank match_id payouts house_net (
          with_leg (not (eqb_ℤ house_net (pos 0))) house_main currency house_net
            (escrow_leg escrow escrow_amount currency (pays_out currency accounts payouts)))

  abbrev pub settle_banked_unless :
      Bank → ℕ → List SettlementInstruction → ℕ → Option ℕ → Result SettleResult
  settle_banked_unless bank match_id payouts currency (some id) = replay_of bank house_main id
  settle_banked_unless bank match_id payouts currency none =
      bank_escrow bank match_id payouts currency
        (ensure_escrow_account (fresh 1) bank.accounts match_id currency)

  unfoldable pub settle_house_banked :
      Bank → ℕ → List SettlementInstruction → ℕ → Result SettleResult
  settle_house_banked bank match_id payouts currency =
      settle_banked_unless bank match_id payouts currency
        (find_posted bank.ledger (key_number (settlement_key match_id)))

  abbrev pub reversal_input : ℕ → ℕ → ActorType → List EntryRow → PostInput
  reversal_input transaction_id actor actor_type rows = record {
    transaction_type = reversal;
    idempotency_key = key_number (reversal_key transaction_id);
    entries = map mirrored rows;
    ref_type = none;
    ref_id = none;
    reverses_tx_id = some transaction_id;
    created_by = some actor;
    actor_type = actor_type;
    actor_id = some actor;
    action = 6;
  }

  abbrev pub reverse_rows : Bank → ℕ → ℕ → ActorType → List EntryRow → Result PostResult
  reverse_rows bank transaction_id actor actor_type [] = error no_such_transaction
  reverse_rows bank transaction_id actor actor_type (row ∷ rows) =
      posted_in bank
        (post_to fresh bank (reversal_input transaction_id actor actor_type (row ∷ rows)))

  unfoldable pub reverse : Bank → ℕ → ℕ → ActorType → Result PostResult
  reverse bank transaction_id actor actor_type =
      reverse_rows bank transaction_id actor actor_type (entries_of bank.ledger transaction_id)
