-- ===== src/Ledger/Tests.antt =====
-- A buy-in of 200 from a player's wallet, account 1, into an escrow account, and its replay.
use casino_app.Prelude.{ℕ, ◌≡◌, refl, Bool, true, false, ◌==◌, arith, none, some, List, [], ◌∷◌}
use casino_app.Prelude.Int.{ℤ, pos, negsuc, int, ◌+ℤ◌}
use casino_app.Ledger.{
  LedgerEntryInput, PostInput, user, buy_in, Db, done, failed, insufficient_funds, post,
}
use casino_app.Ledger.Laws.{GoodPost, NotOverdrawn, post-GoodPost, post_replays}

abbrev is_user : ℕ → Bool
is_user account = account == 1

abbrev wallets : Db
wallets = record {
  transactions = [];
  entries = [];
  balances = (1, record { amount = pos 500; currency = 0; version = 1 }) ∷ [];
  audit = [];
}

abbrev entry : ℕ → ℤ → LedgerEntryInput
entry account amount = record { account_id = account; amount = int amount; currency = 0 }

abbrev input_of : List LedgerEntryInput → PostInput
input_of entries = record {
  transaction_type = buy_in;
  idempotency_key = 42;
  entries = entries;
  ref_type = none;
  ref_id = none;
  reverses_tx_id = none;
  created_by = none;
  actor_type = user;
  actor_id = some 1;
  action = 3;
}

abbrev buy_200 : PostInput
buy_200 = input_of (entry 1 (negsuc 199) ∷ entry 2 (pos 200) ∷ [])

abbrev buy_900 : PostInput
buy_900 = input_of (entry 1 (negsuc 899) ∷ entry 2 (pos 900) ∷ [])

abbrev bought : Db
bought = (post is_user 7 wallets buy_200).1

wallets-NotOverdrawn : NotOverdrawn is_user wallets
wallets-NotOverdrawn account owner = ground arith

post-GoodPost_example : GoodPost is_user wallets buy_200 (post is_user 7 wallets buy_200)
post-GoodPost_example = post-GoodPost is_user 7 wallets buy_200 wallets-NotOverdrawn

post_replays_example :
    post is_user 8 bought buy_900
    ≡ (done (record { transaction_id = 7; replayed = true }) bought, bought)
unfolding post ◌+ℤ◌
post_replays_example =
    post_replays is_user 7 8 wallets buy_200 buy_900
      (record { transaction_id = 7; replayed = false }) bought wallets-NotOverdrawn refl refl refl

refused_buy_in : (post is_user 7 wallets buy_900).0 ≡ failed insufficient_funds
unfolding post ◌+ℤ◌
refused_buy_in = refl
