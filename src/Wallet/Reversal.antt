-- ===== src/Wallet/Reversal.antt =====
-- `reverse` of apps/api/src/wallet/wallet.service.ts undoes a transaction.
use casino_app.Prelude.{
  filter-append, ℕ, ◌+◌, ◌≡◌, ap, ◌∙◌, inl, inr, ◌==◌, Bool, none, List, [], ◌∷◌, ◌++◌, map, filter,
  Bool-cases, arith,
}
use casino_app.Prelude.Int.{ℤ, pos, ◌+ℤ◌, negate, pos_part, neg_part, int_laws, eq_parts}
use casino_app.Ledger.{
  LedgerEntryInput, PostInput, PostResult, ActorType, EntryRow, Db, Posted, done, failed, amount_of,
  entry_row, post, find_posted,
}
use casino_app.ResponsibleGaming.Store.{RgDb}
use casino_app.Wallet.{AccountRow, Bank, user_wallet, has_type, balance_of}
use casino_app.Wallet.Service.{IdempotencyKey, reversal_key, ok, error, WalletError, post_to}
use casino_app.Wallet.Settle.{
  mirrored, entries_of, reversal_input, posted_in, reverse_rows, reverse,
}
use casino_app.Wallet.Balances.{own_rows, input_for, sum_for, post_new-Moved}

negate_parts : (a : ℤ) → pos_part (negate a) + pos_part a ≡ neg_part (negate a) + neg_part a
negate_parts a = ground arith

mirror_for :
    (account tx_id : ℕ) (e : LedgerEntryInput)
    → input_for account (mirrored (entry_row tx_id e)) +ℤ input_for account e ≡ pos 0
mirror_for account tx_id e = elim (Bool-cases (e.account_id == account)) [
  | inl same ↦ rw same (omega (int_laws, negate_parts (amount_of e.amount)))
  | inr other ↦ rw other (omega int_laws)
]

mirror_sum :
    (account tx_id : ℕ) (entries : List LedgerEntryInput)
    → sum_for account (map mirrored (map (entry_row tx_id) entries)) +ℤ sum_for account entries
      ≡ pos 0
mirror_sum account tx_id [] = omega int_laws
mirror_sum account tx_id (e ∷ es) = omega (
  int_laws,
  eq_parts _ _ (mirror_for account tx_id e),
  eq_parts _ _ (mirror_sum account tx_id es),
)

ok-inj : {a b : PostResult} {c d : Bank} → ok a c ≡ ok b d → c ≡ d
ok-inj h = ground arith

error-ok : {e : WalletError} {r : PostResult} {b : Bank} → error e ≡ ok r b → ⊥
error-ok h = ground arith

posted_in_ok :
    (bank : Bank) (p : Posted) (r : PostResult) (bank' : Bank)
    → posted_in bank p ≡ ok r bank'
    → (result : PostResult) × (p ≡ done result bank'.ledger)
posted_in_ok bank (failed e) r bank' h = absurd (error-ok h)
posted_in_ok bank (done result db) r bank' h =
    (result, ap (λ (b : Bank). done result b.ledger) (ok-inj h))

module _ (key_number : IdempotencyKey → ℕ) (clock : ℕ → ℕ) (fresh : ℕ → ℕ) where
  rows_posted :
      (bank bank' : Bank) (tx_id actor : ℕ) (t : ActorType) (rows : List EntryRow) (r : PostResult)
      → reverse_rows key_number clock fresh bank tx_id actor t rows ≡ ok r bank'
      → (result : PostResult) × (post_to fresh bank
            (reversal_input key_number clock fresh tx_id actor t rows)
          ≡ done result bank'.ledger)
  rows_posted bank bank' tx_id actor t [] r h = absurd (error-ok h)
  rows_posted bank bank' tx_id actor t (row ∷ rows) r h = posted_in_ok bank _ r bank' h

  -- Let an input be posted under a new key and a new transaction id. If the transaction is then reversed,
  -- for the first time, and that succeeds, every account has the balance that it had before the post.
  pub reverse_restores :
      (is_user : ℕ → Bool) (tx_id actor : ℕ) (t : ActorType) (db : Db) (input : PostInput)
      (accounts : List AccountRow) (rg : RgDb) (posted reversed : PostResult) (after : Db)
      (bank' : Bank)
      → find_posted db input.idempotency_key ≡ none
      → entries_of db tx_id ≡ []
      → (post is_user tx_id db input).0 ≡ done posted after
      → find_posted after (key_number (reversal_key tx_id)) ≡ none
      → reverse key_number clock fresh
          (record { accounts = accounts; ledger = after; rg = rg })
          tx_id
          actor
          t
        ≡ ok reversed bank'
      → (account : ℕ) → balance_of bank'.ledger account ≡ balance_of db account
  unfolding reverse
  reverse_restores is_user tx_id actor t db input accounts rg posted reversed after bank' new_key
        new_id did first h account =
      let moves = post_new-Moved is_user tx_id db input posted after new_key did in
      let rows : entries_of after tx_id ≡ map (entry_row tx_id) input.entries =
        ap (filter (λ (e : EntryRow). e.tx_id == tx_id)) moves.1
        ∙ filter-append (λ (e : EntryRow). e.tx_id == tx_id) db.entries
            (map (entry_row tx_id) input.entries)
        ∙ ap
            (λ (xs : List EntryRow).
              xs
              ++ filter (λ (e : EntryRow). e.tx_id == tx_id) (map (entry_row tx_id) input.entries))
            new_id
        ∙ own_rows tx_id input.entries in
      let (result, undone) =
        rows_posted (record { accounts = accounts; ledger = after; rg = rg }) bank' tx_id actor t _
          reversed h in
      let back =
        post_new-Moved (has_type accounts user_wallet) (fresh 0) after
          (reversal_input key_number clock fresh tx_id actor t (entries_of after tx_id)) result
          bank'.ledger first undone in
      omega (
        int_laws,
        eq_parts _ _ (moves.0 account),
        eq_parts _ _ (rw rows at (back.0 account)),
        eq_parts _ _ (mirror_sum account tx_id input.entries),
      )
