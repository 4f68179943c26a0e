-- ===== src/Wallet/Settlement.antt =====
-- The settlements of apps/api/src/wallet/wallet.service.ts leave a match's escrow empty.
use casino_app.Prelude.{
  ℕ, ◌≤◌, ◌≡◌, ◌≢◌, refl, sym, ap, ◌∙◌, inl, inr, true, not, ◌&&◌, ◌||◌, none, List, ◌∷◌, All,
  Bool-cases, arith,
}
use casino_app.Prelude.Int.{
  ℤ, pos, ◌+ℤ◌, ◌-ℤ◌, negate, ltb_ℤ, eqb_ℤ, int_laws, eq_parts, eq_of_parts, is_safe_ℤ,
}
use casino_app.Ledger.{LedgerEntryInput, PostResult, Posted, done, failed, find_posted}
use casino_app.Wallet.{
  rake_account, house_main, user_wallet, AccountRow, Bank, of_match, escrow_row,
  ensure_escrow_account, balance_of, has_type,
}
use casino_app.Wallet.AccountLaws.{Distinct, OneOwner, Unused, Opening, ensure-Opening}
use casino_app.Wallet.Balances.{sum_for, post_new-Moved}
use casino_app.Wallet.Service.{
  SettlementInstruction, ok, error, WalletError, IdempotencyKey, settlement_key, entry, post_to,
}
use casino_app.Wallet.Operations.{
  SettleResult, total_payout, returned_from, with_accounts, nothing_moved,
}
use casino_app.Wallet.Settle.{
  settle, settle_escrow, settle_house_banked, bank_escrow, escrow_leg, with_leg, pays_out,
  post_settlement, settlement_input,
}
use casino_app.Wallet.Legs.{
  Avoids, Ready, payout_entries-Avoids, sum_for-with_leg, sum_for-after_escrow, sum_for-escrow_leg,
}

ok-inj : {a b : SettleResult} {d e : Bank} → ok a d ≡ ok b e → (a ≡ b) × (d ≡ e)
ok-inj h = ground arith

error-ok : {e : WalletError} {r : SettleResult} {b : Bank} → error e ≡ ok r b → ⊥
error-ok h = ground arith

returned_ok :
    (clock : ℕ → ℕ) (fresh : ℕ → ℕ) (bank bank' : Bank) (payouts : List SettlementInstruction)
    (net : ℤ) (p : Posted) (result : SettleResult)
    → returned_from clock fresh bank payouts net p ≡ ok result bank'
    → (posted : PostResult) × (p ≡ done posted bank'.ledger) × (result.net ≡ net)
returned_ok clock fresh bank bank' payouts net (failed e) result h = absurd (error-ok h)
returned_ok clock fresh bank bank' payouts net (done posted db) result h =
    let (same, left) = ok-inj h in
    (
      posted,
      ap (λ (b : Bank). done posted b.ledger) left,
      sym (ap (λ (r : SettleResult). r.net) same),
    )

cancels : (a : ℤ) → a +ℤ negate a ≡ pos 0
unfolding ◌+ℤ◌
cancels a = ground arith

nothing_left :
    (a b : ℤ) → (eqb_ℤ a (pos 0) && eqb_ℤ b (pos 0)) ≡ true → (a ≡ pos 0) × (pos 0 ≡ a -ℤ b)
nothing_left a b h =
    let none_held = eq_of_parts a (pos 0) (ground arith) in
    let none_paid = eq_of_parts b (pos 0) (ground arith) in
    (none_held, omega (int_laws, eq_parts _ _ none_held, eq_parts _ _ none_paid))

module _ (key_number : IdempotencyKey → ℕ) (clock : ℕ → ℕ) (fresh : ℕ → ℕ)
    (fresh-inj : (i j : ℕ) → fresh i ≡ fresh j → i ≡ j) (bank bank' : Bank) (m c : ℕ)
    (payouts : List SettlementInstruction) (result : SettleResult)
    (distinct : Distinct bank.accounts) (owners : All OneOwner bank.accounts)
    (free : (k : ℕ) → Unused (fresh k) bank.accounts)
    (new : find_posted bank.ledger (key_number (settlement_key m)) ≡ none) where
  abbrev pub the_escrow : AccountRow
  the_escrow = (ensure_escrow_account (fresh 1) bank.accounts m c).0

  -- The escrow holds nothing any more, and what was not paid out is the house's.
  abbrev pub Emptied : Type 0
  Emptied =
      (balance_of bank'.ledger the_escrow.id ≡ pos 0)
      × (result.net ≡ balance_of bank.ledger the_escrow.id -ℤ total_payout payouts)

  posted_empties :
      (net : ℤ) (legs : List LedgerEntryInput × List AccountRow)
      → sum_for the_escrow.id legs.0 ≡ negate (balance_of bank.ledger the_escrow.id)
      → net ≡ balance_of bank.ledger the_escrow.id -ℤ total_payout payouts
      → post_settlement key_number clock fresh bank m payouts net legs ≡ ok result bank'
      → Emptied
  posted_empties net legs sum left h =
      let (posted, did, is) =
        returned_ok clock fresh (with_accounts bank legs.1) bank' payouts net
          (post_to fresh (with_accounts bank legs.1)
            (settlement_input key_number clock fresh m legs.0))
          result h in
      let moves =
        post_new-Moved (has_type legs.1 user_wallet) (fresh 0) bank.ledger
          (settlement_input key_number clock fresh m legs.0) posted bank'.ledger new did in
      (
        moves.0 the_escrow.id ∙ ap (λ s. balance_of bank.ledger the_escrow.id +ℤ s) sum ∙ cancels _,
        is ∙ left,
      )

  opening :
      Opening
        (of_match m c)
        (escrow_row (fresh 1) m c)
        bank.accounts
        (ensure_escrow_account (fresh 1) bank.accounts m c)
  opening =
      ensure-Opening (of_match m c) (escrow_row (fresh 1) m c) bank.accounts (ground arith) refl
        distinct owners (free 1)

  first_apart : (k : ℕ) → 2 ≤ k → fresh 1 ≢ fresh k
  first_apart k later e = let is = fresh-inj 1 k e in absurd (omega arith)

  abbrev paid_out : List LedgerEntryInput × List AccountRow
  paid_out =
      pays_out key_number clock fresh c (ensure_escrow_account (fresh 1) bank.accounts m c).1
        payouts

  paid_out-Avoids : Avoids the_escrow.id paid_out.0 × Ready fresh m c the_escrow paid_out.1
  paid_out-Avoids =
      payout_entries-Avoids key_number clock fresh fresh-inj m c the_escrow payouts 3
        (ensure_escrow_account (fresh 1) bank.accounts m c).1 (omega arith)
        (
          opening.found,
          opening.distinct,
          opening.owners,
          opening.unused (fresh 2) (free 2) (first_apart 2 (omega arith)),
        )
        (λ k later. opening.unused (fresh k) (free k) (first_apart k (omega arith)))

  -- Nothing to move: the ledger stays, and the escrow was empty.
  nothing_to_empty :
      (eqb_ℤ (balance_of bank.ledger the_escrow.id) (pos 0) && eqb_ℤ (total_payout payouts) (pos 0))
        ≡ true
      → ok nothing_moved (with_accounts bank (ensure_escrow_account (fresh 1) bank.accounts m c).1)
        ≡ ok result bank'
      → Emptied
  nothing_to_empty quiet h =
      let (held, left) = nothing_left _ _ quiet in
      let (same, is) = ok-inj h in rw (← is, ← same) (held, left)

  -- Let a match that was not settled be settled, on accounts whose identifiers differ and that no player
  -- and match share, with fresh identifiers. If that succeeds, the match's escrow is empty, and the rake is
  -- what the escrow held beyond the payouts.
  pub settle_empties : settle key_number clock fresh bank m payouts c ≡ ok result bank' → Emptied
  unfolding settle
  settle_empties h = by_tests (rw (new, settle) at h)
    where
      by_tests :
          settle_escrow key_number clock fresh bank m payouts c
              (ensure_escrow_account (fresh 1) bank.accounts m c)
            ≡ ok result bank'
          → Emptied
      by_tests h =
          let held = balance_of bank.ledger the_escrow.id in
          let total = total_payout payouts in
          elim (Bool-cases (ltb_ℤ held total)) [
            | inl beyond ↦ absurd (error-ok (rw beyond at h))
            | inr within ↦ elim (Bool-cases (eqb_ℤ held (pos 0) && eqb_ℤ total (pos 0))) [
              | inl quiet ↦ nothing_to_empty quiet (rw (within, quiet) at h)
              | inr some_money ↦
                  posted_empties (held -ℤ total) _
                    (sum_for-with_leg key_number clock fresh fresh-inj m c the_escrow
                        (ltb_ℤ (pos 0) (held -ℤ total)) rake_account (held -ℤ total)
                        (entry the_escrow.id (negate held) c ∷ paid_out.0) paid_out.1
                        paid_out-Avoids.1
                      ∙ sum_for-after_escrow key_number clock fresh fresh-inj m c the_escrow held
                          paid_out.0 paid_out.1 paid_out-Avoids.0)
                    refl (rw (within, some_money) at h)
            ]
          ]

  banked_legs-Ready :
      (amount : ℤ)
      → Ready fresh m c the_escrow paid_out.1
      → Ready fresh m c the_escrow (escrow_leg the_escrow amount c paid_out).1
  banked_legs-Ready amount ready = elim (Bool-cases (eqb_ℤ amount (pos 0))) [
    | inl nothing ↦ rw nothing ready
    | inr held ↦ rw held ready
  ]

  -- Let a banked match that was not settled be settled, on accounts whose identifiers differ and that no
  -- player and match share, with fresh identifiers. If that succeeds, the match's escrow is empty, and the
  -- house's net is what it held beyond the payouts, which may be negative.
  pub settle_house_banked_empties :
      settle_house_banked key_number clock fresh bank m payouts c ≡ ok result bank' → Emptied
  unfolding settle_house_banked
  settle_house_banked_empties h = by_tests (rw (new, settle_house_banked) at h)
    where
      by_tests :
          bank_escrow key_number clock fresh bank m payouts c
              (ensure_escrow_account (fresh 1) bank.accounts m c)
            ≡ ok result bank'
          → Emptied
      by_tests h =
          let held = balance_of bank.ledger the_escrow.id in
          let total = total_payout payouts in
          let net = held -ℤ total in
          let legs = escrow_leg the_escrow held c paid_out in
          elim (Bool-cases (not (is_safe_ℤ total) || ltb_ℤ total (pos 0))) [
            | inl odd ↦ absurd (error-ok (rw odd at h))
            | inr whole ↦ elim (Bool-cases (eqb_ℤ held (pos 0) && eqb_ℤ total (pos 0))) [
              | inl quiet ↦ nothing_to_empty quiet (rw (whole, quiet) at h)
              | inr some_money ↦
                  posted_empties net
                    (with_leg key_number clock fresh (not (eqb_ℤ net (pos 0))) house_main c net
                      legs)
                    (sum_for-with_leg key_number clock fresh fresh-inj m c the_escrow
                        (not (eqb_ℤ net (pos 0))) house_main net legs.0 legs.1
                        (banked_legs-Ready held paid_out-Avoids.1)
                      ∙ sum_for-escrow_leg key_number clock fresh fresh-inj m c the_escrow held
                          paid_out.0 paid_out.1 paid_out-Avoids.0)
                    refl (rw (whole, some_money) at h)
            ]
          ]
