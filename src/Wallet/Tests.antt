-- ===== src/Wallet/Tests.antt =====
-- Two players with 500 and 40, a match whose escrow holds 300, and identifiers drawn from 100 on.
use casino_app.Prelude.{
  ℕ, ◌+◌, ◌*◌, ◌≡◌, refl, Bool, true, false, arith, none, some, List, [], ◌∷◌, ◌==◌,
}
use casino_app.Prelude.Int.{pos, negsuc, ◌+ℤ◌, ◌-ℤ◌}
use casino_app.Ledger.{Db, PostInput, PostResult, funding, admin, post, find_posted}
use casino_app.ResponsibleGaming.{RgLimit, wager, wager_spend, day, player}
use casino_app.ResponsibleGaming.Store.{
  RgDb, active, active_exclusion, promote_due_increases, usage_for, list_limits,
}
use casino_app.ResponsibleGaming.Service.{applicable, check_allowance, check_limits}
use casino_app.ResponsibleGaming.Allowance.{WithinLimits, Counted}
use casino_app.Wallet.{user_row, escrow_row, Bank, balance_of}
use casino_app.Wallet.Service.{
  IdempotencyKey, client_key, buy_in_key, settlement_key, table_buy_in_key, table_cash_out_key,
  reversal_key, SettlementInstruction, ok, transfer, post_input, no_ref, post_spend, after,
}
use casino_app.Wallet.Operations.{SettleResult, payout_entries}
use casino_app.Wallet.Settle.{settle, settle_house_banked, reverse}
use casino_app.Wallet.Balances.{Moved}
use casino_app.Wallet.Spends.{Solvent, post_spend-WithinLimits, post_spend_replays}
use casino_app.Wallet.Settlement.{settle_empties, settle_house_banked_empties}
use casino_app.Wallet.Reconciliation.{run, source_unread}
use casino_app.Wallet.Reached.{empty, none_posted, then_posted, run-Reached}
use casino_app.Wallet.Reversal.{reverse_restores}

abbrev key_number : IdempotencyKey → ℕ
key_number (client_key n) = 6 * n
key_number (buy_in_key m u) = 6 * (1000 * m + u) + 1
key_number (settlement_key m) = 6 * m + 2
key_number (table_buy_in_key s) = 6 * s + 3
key_number (table_cash_out_key s) = 6 * s + 4
key_number (reversal_key t) = 6 * t + 5

abbrev fresh : ℕ → ℕ
fresh n = 100 + n

fresh-inj : (i j : ℕ) → fresh i ≡ fresh j → i ≡ j
fresh-inj i j e = omega arith

abbrev balances_of_three : Db
balances_of_three = record {
  transactions = [];
  entries = [];
  balances =
      (10, record { amount = pos 500; currency = 0; version = 1 })
      ∷ (11, record { amount = pos 40; currency = 0; version = 1 })
      ∷ (20, record { amount = pos 300; currency = 0; version = 1 })
      ∷ [];
  audit = [];
}

abbrev wager_limit : RgLimit
wager_limit = record {
  id = 1;
  user_id = 1;
  limit_type = wager;
  period = day;
  amount = 250;
  origin = player;
  pending_amount = none;
  pending_effective_at = none;
}

abbrev limits : RgDb
limits = record {
  limits = wager_limit ∷ [];
  usages = [];
  exclusions = [];
  checks = [];
  events = [];
  statuses = (1, active) ∷ [];
}

abbrev bank : Bank
bank = record {
  accounts = user_row 10 1 0 ∷ user_row 11 2 0 ∷ escrow_row 20 7 0 ∷ [];
  ledger = balances_of_three;
  rg = limits;
}

abbrev payouts : List SettlementInstruction
payouts = record { user_id = 2; amount = pos 250 } ∷ record { user_id = 3; amount = pos 20 } ∷ []

-- The server's clock, in milliseconds.
abbrev clock : ℕ → ℕ
clock i = i

abbrev settled : Bank
settled = after bank (settle key_number clock fresh bank 7 payouts 0)

abbrev settled_result : SettleResult
settled_result = record { transaction_id = some 100; replayed = false; net = pos 30 }

settle_pays : settle key_number clock fresh bank 7 payouts 0 ≡ ok settled_result settled
unfolding settle find_posted ◌+ℤ◌ post ◌-ℤ◌ payout_entries
settle_pays = refl

settle_empties_example : (balance_of settled.ledger 20 ≡ pos 0) × (pos 30 ≡ pos 300 -ℤ pos 270)
unfolding find_posted ◌+ℤ◌
settle_empties_example =
    settle_empties key_number clock fresh fresh-inj bank settled 7 0 payouts settled_result
      ((omega arith, (omega arith, tt)), ((omega arith, tt), (tt, tt))) (refl, (refl, (refl, tt)))
      (λ k. (omega arith, (omega arith, (omega arith, tt)))) refl settle_pays

-- The house pays 400 on top of the escrow.
abbrev winnings : List SettlementInstruction
winnings = record { user_id = 2; amount = pos 700 } ∷ []

abbrev banked : Bank
banked = after bank (settle_house_banked key_number clock fresh bank 7 winnings 0)

abbrev banked_result : SettleResult
banked_result = record { transaction_id = some 100; replayed = false; net = negsuc 399 }

settle_house_banked_pays :
    settle_house_banked key_number clock fresh bank 7 winnings 0 ≡ ok banked_result banked
unfolding settle_house_banked find_posted ◌+ℤ◌ post ◌-ℤ◌ payout_entries
settle_house_banked_pays = refl

settle_house_banked_empties_example :
    (balance_of banked.ledger 20 ≡ pos 0) × (negsuc 399 ≡ pos 300 -ℤ pos 700)
unfolding find_posted ◌+ℤ◌
settle_house_banked_empties_example =
    settle_house_banked_empties key_number clock fresh fresh-inj bank banked 7 0 winnings
      banked_result ((omega arith, (omega arith, tt)), ((omega arith, tt), (tt, tt)))
      (refl, (refl, (refl, tt))) (λ k. (omega arith, (omega arith, (omega arith, tt)))) refl
      settle_house_banked_pays

bank-Solvent : Solvent bank
bank-Solvent account owner = ground arith

abbrev stake_200 : PostInput
stake_200 = post_input funding 42 (transfer 10 20 200 0) no_ref none admin none 0

abbrev spent : Bank
spent = after bank (post_spend 0 clock fresh bank 1 wager_spend 200 stake_200)

abbrev first : PostResult
first = record { transaction_id = 100; replayed = false }

stake_200_spent : post_spend 0 clock fresh bank 1 wager_spend 200 stake_200 ≡ ok first spent
unfolding post_spend find_posted check_allowance active_exclusion check_limits promote_due_increases
    usage_for post ◌+ℤ◌
stake_200_spent = refl

post_spend-WithinLimits_example :
    (active_exclusion 0 limits 1 ≡ none)
    × Moved 100 balances_of_three (transfer 10 20 200 0) spent.ledger
    × Solvent spent
    × WithinLimits spent.rg 1 0 (applicable wager_spend (list_limits spent.rg 1))
    × Counted limits spent.rg 1 200 1 (applicable wager_spend (list_limits spent.rg 1))
unfolding find_posted
post_spend-WithinLimits_example =
    post_spend-WithinLimits 0 clock fresh bank spent 1 wager_spend 200 stake_200 first bank-Solvent
      refl stake_200_spent

-- 200 more would pass the limit of 250, but the same key pays nothing.
post_spend_replays_example :
    post_spend 0 clock fresh spent 1 wager_spend 200 stake_200
    ≡ ok (record { transaction_id = 100; replayed = true }) spent
post_spend_replays_example =
    post_spend_replays 0 0 clock clock fresh fresh bank spent 1 200 200 wager_spend wager_spend
      stake_200 stake_200 first bank-Solvent stake_200_spent refl

abbrev is_first : ℕ → Bool
is_first account = account == 10

abbrev staked : Db
staked = (post is_first 55 balances_of_three stake_200).1

abbrev with_stake : Bank
with_stake = record { accounts = bank.accounts; ledger = staked; rg = limits }

abbrev reversed : Bank
reversed = after with_stake (reverse key_number clock fresh with_stake 55 9 admin)

reverse_restores_example : balance_of reversed.ledger 10 ≡ pos 500
unfolding find_posted post ◌+ℤ◌ reverse
reverse_restores_example =
    reverse_restores key_number clock fresh is_first 55 9 admin balances_of_three stake_200
      bank.accounts limits (record { transaction_id = 55; replayed = false }) first staked reversed
      refl refl refl refl refl 10

abbrev fund_200 : PostInput
fund_200 = post_input funding 42 (transfer 20 10 200 0) no_ref none admin none 0

funded : balance_of (post is_first 55 empty fund_200).1 10 ≡ pos 200
unfolding post find_posted ◌+ℤ◌
funded = refl

abbrev funded_bank : Bank
funded_bank = record {
  accounts = bank.accounts;
  ledger = (post is_first 55 empty fund_200).1;
  rg = limits;
}

run-Reached_example : (run funded_bank (none ∷ [])).findings ≡ source_unread ∷ []
unfolding post find_posted ◌+ℤ◌
run-Reached_example =
    run-Reached is_first funded_bank (none ∷ []) (then_posted 55 fund_200 none_posted refl)

-- A balance that no entry explains is found, and so is the escrow's.
drift_found : (run bank []).is_ok ≡ false
unfolding run
drift_found = refl
