-- ===== src/Wallet/Spends.antt =====
-- `postSpend` of apps/api/src/wallet/wallet.service.ts, over the ledger and the limits of the player.
use casino_app.Prelude.{
  ℕ, ◌≡◌, refl, sym, ap, inl, inr, Bool, true, false, Option, none, some, subst, Option-cases,
  arith,
}
use casino_app.Ledger.{
  PostInput, PostResult, Db, LedgerError, Posted, done, failed, find_posted, move_entries,
  posted_from, started, post_with, post, validate,
}
use casino_app.Ledger.Laws.{NotOverdrawn, GoodPost, post-GoodPost}
use casino_app.ResponsibleGaming.{SpendKind}
use casino_app.ResponsibleGaming.Store.{RgDb, active_exclusion, list_limits}
use casino_app.ResponsibleGaming.Service.{
  RgDecision, rg_allowed, refused, applicable, check_allowance, allowance_error, meter_spend,
}
use casino_app.ResponsibleGaming.Allowance.{
  WithinLimits, Counted, check_allowance-WithinLimits, check_allowance-Counted,
}
use casino_app.Wallet.{Bank, user_wallet, has_type}
use casino_app.Wallet.Service.{
  ok, error, WalletError, post_to, spent_from, allowed_spend, post_spend,
}
use casino_app.Wallet.Balances.{Moved, post_new-Moved}

ok-inj : {a b : PostResult} {c d : Bank} → ok a c ≡ ok b d → (a ≡ b) × (c ≡ d)
ok-inj h = ground arith

error-ok : {e : WalletError} {r : PostResult} {b : Bank} → error e ≡ ok r b → ⊥
error-ok h = ground arith

failed-done : {e : LedgerError} {r : PostResult} {d : Db} → failed e ≡ done r d → ⊥
failed-done h = ground arith

done-inj : {a b : PostResult} {c d : Db} → done a c ≡ done b d → (a ≡ b) × (c ≡ d)
done-inj h = ground arith

decided : (d : RgDecision) → allowance_error d ≡ none → d ≡ rg_allowed
decided rg_allowed h = refl
decided (refused reason limit) h = absurd (ground arith)

-- No player's wallet of the bank is below zero.
abbrev pub Solvent : Bank → Type 0
Solvent bank = NotOverdrawn (has_type bank.accounts user_wallet) bank.ledger

posted_pair :
    (is_user : ℕ → Bool) (tx_id : ℕ) (db : Db) (input : PostInput) (result : PostResult)
    (after : Db)
    → (post is_user tx_id db input).0 ≡ done result after
    → post is_user tx_id db input ≡ (done result after, after)
unfolding post
posted_pair is_user tx_id db input result after h = rw h refl

first_post :
    (is_user : ℕ → Bool) (tx_id : ℕ) (db : Db) (input : PostInput) (result : PostResult)
    (after : Db)
    → find_posted db input.idempotency_key ≡ none
    → (post is_user tx_id db input).0 ≡ done result after
    → result.replayed ≡ false
unfolding post
first_post is_user tx_id db input result after new e =
    elim (Option-cases (validate input.entries)) [
      | inr (wrong, bad) ↦ absurd (failed-done (rw (bad, post_with) at e))
      | inl fine ↦
          moved_result (move_entries is_user tx_id input.entries (started is_user tx_id db input))
            (rw (fine, new, post_with) at e)
    ]
  where
    moved_result :
        (o : Option Db)
        → posted_from is_user tx_id input o ≡ done result after
        → result.replayed ≡ false
    moved_result none e = absurd (failed-done e)
    moved_result (some d) e = sym (ap (λ (r : PostResult). r.replayed) (done-inj e).0)

module _ (now : ℕ) (clock : ℕ → ℕ) (fresh : ℕ → ℕ) (bank bank' : Bank) (player : ℕ)
    (kind : SpendKind) (amount : ℕ) where
  -- What a spend that is not a replay went through.
  abbrev pub SpendSteps : PostInput → PostResult → Type 0
  SpendSteps input result =
      (rg : RgDb) × (check_allowance now (clock 0) bank.rg player kind amount ≡ (rg_allowed, rg))
      × (post_to fresh bank input ≡ done result bank'.ledger)
      × (bank'
          ≡ record bank { ledger = bank'.ledger; rg = meter_spend rg player kind amount (clock 1) })

  steps_of_spend :
      (input : PostInput) (result : PostResult)
      → find_posted bank.ledger input.idempotency_key ≡ none
      → post_spend now clock fresh bank player kind amount input ≡ ok result bank'
      → SpendSteps input result
  unfolding post_spend
  steps_of_spend input result new h =
      by_answer (check_allowance now (clock 0) bank.rg player kind amount) refl
        (rw (new, post_spend) at h)
    where
      by_post :
          (rg : RgDb) (p : Posted)
          → check_allowance now (clock 0) bank.rg player kind amount ≡ (rg_allowed, rg)
          → post_to fresh bank input ≡ p
          → spent_from now clock fresh bank rg player kind amount p ≡ ok result bank'
          → SpendSteps input result
      by_post rg (failed e) allowed is h = absurd (error-ok h)
      by_post rg (done posted db) allowed is h =
          let once =
            first_post (has_type bank.accounts user_wallet) (fresh 0) bank.ledger input posted db
              new is in
          let (same, left) = ok-inj h in rw (← same, ← rw once at left) (rg, allowed, is, refl)

      by_answer :
          (answer : RgDecision × RgDb)
          → check_allowance now (clock 0) bank.rg player kind amount ≡ answer
          → allowed_spend now clock fresh bank player kind amount input
              (allowance_error answer.0, answer.1)
            ≡ ok result bank'
          → SpendSteps input result
      by_answer (rg_allowed, rg) is h = by_post rg (post_to fresh bank input) is refl h
      by_answer (refused reason limit, rg) is h = absurd (error-ok h)

  -- Let a spend succeed under a key that was not posted, on a bank where no player's wallet is overdrawn.
  -- Then the player is not excluded, every account moves by the entries of the post, and no wallet is
  -- overdrawn. In its window of the moment of the check, no limit that applies has more against it than
  -- its amount, the spend included if it was metered there; and in its window of the moment of the meter,
  -- each has the spend counted once.
  pub post_spend-WithinLimits :
      (input : PostInput) (result : PostResult)
      → Solvent bank
      → find_posted bank.ledger input.idempotency_key ≡ none
      → post_spend now clock fresh bank player kind amount input ≡ ok result bank'
      → (active_exclusion now bank.rg player ≡ none)
        × Moved (fresh 0) bank.ledger input.entries bank'.ledger
        × Solvent bank'
        × WithinLimits bank'.rg player (clock 0) (applicable kind (list_limits bank'.rg player))
        × Counted bank.rg bank'.rg player amount
            (clock 1)
            (applicable kind (list_limits bank'.rg player))
  post_spend-WithinLimits input result solvent new h =
      let (rg, allowed, did, is) = steps_of_spend input result new h in
      let users = has_type bank.accounts user_wallet in
      let safe =
        check_allowance-WithinLimits now (clock 0) (clock 1) bank.rg rg player kind amount
          allowed in
      let counted =
        check_allowance-Counted now (clock 0) (clock 1) bank.rg rg player kind amount allowed in
      let good : GoodPost users bank.ledger input (done result bank'.ledger, bank'.ledger) =
        rw (posted_pair users (fresh 0) bank.ledger input result bank'.ledger did) at
          (post-GoodPost users (fresh 0) bank.ledger input solvent) in
      let both =
        subst
          (λ (b : Bank).
            WithinLimits b.rg player (clock 0) (applicable kind (list_limits b.rg player))
            × Counted bank.rg b.rg player amount (clock 1)
                (applicable kind (list_limits b.rg player)))
          (sym is) (safe.1, counted) in
      (
        safe.0,
        post_new-Moved users (fresh 0) bank.ledger input result bank'.ledger new did,
        subst Solvent (sym is) good.1,
        both.0,
        both.1,
      )

-- After a spend that succeeded, on a bank where no player's wallet is overdrawn, every later spend under
-- its key, at any time and whatever the player's limits say, gets its transaction and changes nothing.
pub post_spend_replays :
    (now now' : ℕ) (clock clock' fresh fresh' : ℕ → ℕ) (bank bank' : Bank)
    (player amount amount' : ℕ) (kind kind' : SpendKind) (input again : PostInput)
    (result : PostResult)
    → Solvent bank
    → post_spend now clock fresh bank player kind amount input ≡ ok result bank'
    → again.idempotency_key ≡ input.idempotency_key
    → post_spend now' clock' fresh' bank' player kind' amount' again
      ≡ ok (record { transaction_id = result.transaction_id; replayed = true }) bank'
unfolding post_spend
post_spend_replays now now' clock clock' fresh fresh' bank bank' player amount amount' kind kind'
      input again result solvent h key =
    let found : find_posted bank'.ledger again.idempotency_key ≡ some result.transaction_id =
      rw key there in
    rw (found, post_spend) refl
  where
    there : find_posted bank'.ledger input.idempotency_key ≡ some result.transaction_id
    there = elim (Option-cases (find_posted bank.ledger input.idempotency_key)) [
      | inr (id, old) ↦
          (let (same, left) = ok-inj (rw (old, post_spend) at h) in rw (← same, ← left) old)
      | inl new ↦
          let users = has_type bank.accounts user_wallet in
          let (rg, allowed, did, is) =
            steps_of_spend now clock fresh bank bank' player kind amount input result new h in
          let good : GoodPost users bank.ledger input (done result bank'.ledger, bank'.ledger) =
            rw (posted_pair users (fresh 0) bank.ledger input result bank'.ledger did) at
              (post-GoodPost users (fresh 0) bank.ledger input solvent) in
          good.2
    ]
