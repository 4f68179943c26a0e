-- ===== src/Wallet/Legs.antt =====
-- The legs of a settlement of apps/api/src/wallet/wallet.service.ts: none but its own is the escrow's.
use casino_app.Prelude.{
  ℕ, suc, ◌≤◌, ◌≡◌, ◌≢◌, refl, ◌∙◌, inl, inr, ◌==◌, ==_iff, Bool, true, false, Option, none, some,
  is_some, List, [], ◌∷◌, find, All, All-find, Bool-cases, arith, true-false,
}
use casino_app.Prelude.Int.{ℤ, pos, negate, ltb_ℤ, eqb_ℤ, int_laws, eq_parts}
use casino_app.Ledger.{LedgerEntryInput}
use casino_app.Wallet.{
  AccountType, AccountRow, of_user, of_match, of_house, user_row, house_row, ensure_user_account,
  ensure_house_account,
}
use casino_app.Wallet.AccountLaws.{
  Distinct, OneOwner, Unused, unique_by_id, Opening, ensure-Opening,
}
use casino_app.Wallet.Balances.{input_for, sum_for, sum_ℤ-append}
use casino_app.Wallet.Service.{SettlementInstruction, IdempotencyKey, entry}
use casino_app.Wallet.Operations.{payout_entries}
use casino_app.Wallet.Settle.{escrow_leg, after_escrow, with_leg}

-- No entry is one of the account.
abbrev pub Avoids : ℕ → List LedgerEntryInput → Type 0
Avoids account = All (λ (e : LedgerEntryInput). e.account_id ≢ account)

==_ne : (a b : ℕ) → a ≢ b → (a == b) ≡ false
==_ne a b h = ground arith

zero_negated : (a : ℤ) → eqb_ℤ a (pos 0) ≡ true → pos 0 ≡ negate a
zero_negated a h = ground arith

sum_for-Avoids :
    (account : ℕ) (entries : List LedgerEntryInput)
    → Avoids account entries
    → sum_for account entries ≡ pos 0
sum_for-Avoids account [] h = refl
sum_for-Avoids account (e ∷ es) h =
    rw (==_ne e.account_id account h.0)
      (omega (int_laws, eq_parts _ _ (sum_for-Avoids account es h.1)))

-- What a test finds passes it, and has one owner.
found_row :
    (p : AccountRow → Bool) (accounts : List AccountRow) (a : AccountRow)
    → All OneOwner accounts
    → find p accounts ≡ some a
    → OneOwner a × (p a ≡ true)
found_row p accounts a h e = All-find OneOwner p accounts h e

of_match_owner : (m c : ℕ) (a : AccountRow) → of_match m c a ≡ true → is_some a.match_id ≡ true
of_match_owner m c a h = by_owner a.match_id refl
  where
    by_owner : (o : Option ℕ) → a.match_id ≡ o → is_some o ≡ true
    by_owner (some id) e = refl
    by_owner none e = absurd (true-false (rw e at h) refl)

of_user_owner : (u c : ℕ) (a : AccountRow) → of_user u c a ≡ true → is_some a.user_id ≡ true
of_user_owner u c a h = by_owner a.user_id refl
  where
    by_owner : (o : Option ℕ) → a.user_id ≡ o → is_some o ≡ true
    by_owner (some id) e = refl
    by_owner none e = absurd (true-false (rw e at h) refl)

module _ (m c : ℕ) (accounts : List AccountRow) (escrow : AccountRow)
    (there : find (of_match m c) accounts ≡ some escrow) (apart : Distinct accounts)
    (single : All OneOwner accounts) where
  user_not_escrow :
      (u : ℕ) (a : AccountRow) → find (of_user u c) accounts ≡ some a → a.id ≢ escrow.id
  user_not_escrow u a e same =
      let is = unique_by_id (of_user u c) (of_match m c) accounts a escrow apart e there same in
      let mine = found_row (of_user u c) accounts a single e in
      let its = found_row (of_match m c) accounts escrow single there in
      let one : OneOwner escrow = its.0 in
      let user : is_some escrow.user_id ≡ true = rw is at (of_user_owner u c a mine.1) in
      let match : is_some escrow.match_id ≡ true = of_match_owner m c escrow its.1 in
      absurd (ground arith)

  house_not_escrow :
      (t : AccountType) (a : AccountRow) → find (of_house t c) accounts ≡ some a → a.id ≢ escrow.id
  house_not_escrow t a e same =
      let is = unique_by_id (of_house t c) (of_match m c) accounts a escrow apart e there same in
      let mine = found_row (of_house t c) accounts a single e in
      let its = found_row (of_match m c) accounts escrow single there in
      let house : of_house t c escrow ≡ true = rw is at mine.1 in
      let match : is_some escrow.match_id ≡ true = of_match_owner m c escrow its.1 in
      absurd (ground arith)

-- The escrow is found, identifiers differ, and the one for the last leg is unused.
abbrev pub Ready : (ℕ → ℕ) → ℕ → ℕ → AccountRow → List AccountRow → Type 0
Ready fresh m c escrow accounts =
    (find (of_match m c) accounts ≡ some escrow)
    × Distinct accounts
    × All OneOwner accounts
    × Unused (fresh 2) accounts

module _ (key_number : IdempotencyKey → ℕ) (clock : ℕ → ℕ) (fresh : ℕ → ℕ)
    (fresh-inj : (i j : ℕ) → fresh i ≡ fresh j → i ≡ j) (m c : ℕ) (escrow : AccountRow) where
  two_apart : (n : ℕ) → 3 ≤ n → fresh n ≢ fresh 2
  two_apart n from e = let is = fresh-inj n 2 e in absurd (omega arith)

  later_apart : (n k : ℕ) → suc n ≤ k → fresh n ≢ fresh k
  later_apart n k later e = let is = fresh-inj n k e in absurd (omega arith)

  user_held : (u n : ℕ) → of_user u c (user_row (fresh n) u c) ≡ true
  user_held u n = ground arith

  pub Ready-opened :
      (wanted : AccountRow → Bool) (row : AccountRow) (accounts : List AccountRow)
      (result : AccountRow × List AccountRow)
      → Opening wanted row accounts result
      → Ready fresh m c escrow accounts
      → row.id ≢ fresh 2
      → Ready fresh m c escrow result.1
  Ready-opened wanted row accounts result o ready other = (
    o.keeps (of_match m c) escrow ready.0,
    o.distinct,
    o.owners,
    o.unused (fresh 2) ready.3 other,
  )

  pub payout_entries-Avoids :
      (payouts : List SettlementInstruction) (n : ℕ) (accounts : List AccountRow)
      → 3 ≤ n
      → Ready fresh m c escrow accounts
      → ((k : ℕ) → n ≤ k → Unused (fresh k) accounts)
      → Avoids escrow.id (payout_entries fresh c n accounts payouts).0
        × Ready fresh m c escrow (payout_entries fresh c n accounts payouts).1
  unfolding payout_entries
  payout_entries-Avoids [] n accounts from ready free = (tt, ready)
  payout_entries-Avoids (payout ∷ payouts) n accounts from ready free =
      elim (Bool-cases (ltb_ℤ (pos 0) payout.amount)) [
        | inr nothing ↦
            rw (nothing, payout_entries) (payout_entries-Avoids payouts n accounts from ready free)
        | inl some_amount ↦
            let (account, accounts') = ensure_user_account (fresh n) accounts payout.user_id c in
            let o =
              ensure-Opening (of_user payout.user_id c) (user_row (fresh n) payout.user_id c)
                accounts (user_held payout.user_id n) refl ready.1 ready.2 (free n (omega arith)) in
            let ready' =
              Ready-opened _ _ accounts (account, accounts') o ready (λ e. two_apart n from e) in
            let rest =
              payout_entries-Avoids payouts (suc n) accounts' (omega arith) ready' (λ k later.
                o.unused (fresh k) (free k (omega arith)) (λ e. later_apart n k later e)) in
            rw (some_amount, payout_entries)
              (
                (
                  user_not_escrow m c accounts' escrow ready'.0 ready'.1 ready'.2 payout.user_id
                      account o.found,
                  rest.0,
                ),
                rest.1,
              )
      ]

  house_held : (t : AccountType) → of_house t c (house_row (fresh 2) t c) ≡ true
  house_held t = ground arith

  -- A last leg to the house is none of the escrow's.
  pub sum_for-with_leg :
      (leg : Bool) (t : AccountType) (net : ℤ) (entries : List LedgerEntryInput)
      (accounts : List AccountRow)
      → Ready fresh m c escrow accounts
      → sum_for escrow.id (with_leg key_number clock fresh leg t c net (entries, accounts)).0
        ≡ sum_for escrow.id entries
  sum_for-with_leg false t net entries accounts ready = refl
  sum_for-with_leg true t net entries accounts ready =
      let (house, accounts') = ensure_house_account (fresh 2) accounts t c in
      let o =
        ensure-Opening (of_house t c) (house_row (fresh 2) t c) accounts (house_held t) refl ready.1
          ready.2 ready.3 in
      let its = o.keeps (of_match m c) escrow ready.0 in
      let apart = house_not_escrow m c accounts' escrow its o.distinct o.owners t house o.found in
      omega (
        int_laws,
        eq_parts _ _ (sum_ℤ-append (input_for escrow.id) entries (entry house.id net c ∷ [])),
        eq_parts _ _ (sum_for-Avoids escrow.id (entry house.id net c ∷ []) (apart, tt)),
      )

  -- The escrow's own leg takes out what it holds.
  pub sum_for-after_escrow :
      (amount : ℤ) (entries : List LedgerEntryInput) (accounts : List AccountRow)
      → Avoids escrow.id entries
      → sum_for escrow.id (after_escrow escrow amount c (entries, accounts)).0 ≡ negate amount
  sum_for-after_escrow amount entries accounts avoids =
      rw ((==_iff escrow.id escrow.id).1 refl)
        (omega (int_laws, eq_parts _ _ (sum_for-Avoids escrow.id entries avoids)))

  pub sum_for-escrow_leg :
      (amount : ℤ) (entries : List LedgerEntryInput) (accounts : List AccountRow)
      → Avoids escrow.id entries
      → sum_for escrow.id (escrow_leg escrow amount c (entries, accounts)).0 ≡ negate amount
  sum_for-escrow_leg amount entries accounts avoids = elim (Bool-cases (eqb_ℤ amount (pos 0))) [
    | inl nothing ↦
        rw nothing (sum_for-Avoids escrow.id entries avoids ∙ zero_negated amount nothing)
    | inr held ↦ rw held (sum_for-after_escrow amount entries accounts avoids)
  ]
