-- ===== src/Risk/Collusion/Pairs.antt =====
-- The pairs of the flows before any hand is counted: two players, the lesser first.
use casino_app.Prelude.{
  ℕ, zero, suc, ◌<◌, ◌≡◌, ◌≢◌, refl, sym, inl, inr, ltb, true, false, List, [], ◌∷◌, All,
  All-filter, Bool-cases, arith, subst,
}
use casino_app.Prelude.Int.{ℤ, pos, negsuc, ltb_ℤ}
use casino_app.Prelude.Dict.{Dict}
use casino_app.Risk.Collusion.Shares.{KeysDiffer}
use casino_app.Risk.Collusion.{
  HandSummary, PairFlow, is_pair, record_flow, record_pair, record_losers, record_winners,
  record_hands, net_winners, net_losers,
}
use casino_app.Risk.Collusion.Counts.{Counting}

-- No hand is counted yet.
abbrev pub uncounted : ℕ → ℕ → ℕ
uncounted a b = 0

record_flow-Counting :
    (x y moved : ℕ) (to_a : ℤ) (flows : List PairFlow)
    → x < y
    → Counting uncounted flows
    → Counting uncounted (record_flow x y moved to_a flows)
unfolding record_flow
record_flow-Counting x y moved to_a [] lt c = ((lt, refl), tt)
record_flow-Counting x y moved to_a (f ∷ flows) lt c = elim (Bool-cases (is_pair x y f)) [
  | inl here ↦ rw here c
  | inr later ↦ rw later (c.0, record_flow-Counting x y moved to_a flows lt c.1)
]

record_pair-Counting :
    (winner : ℕ) (won : ℤ) (loser : ℕ) (lost : ℤ) (flows : List PairFlow)
    → loser ≢ winner
    → Counting uncounted flows
    → Counting uncounted (record_pair winner won loser lost flows)
unfolding record_pair
record_pair-Counting winner won loser lost flows apart c = elim (Bool-cases (ltb winner loser)) [
  | inl first ↦ rw first (record_flow-Counting winner loser _ _ flows (ground arith) c)
  | inr second ↦
      (let lt : loser < winner = ground (arith, apart) in
        rw second (record_flow-Counting loser winner _ _ flows lt c))
]

record_losers-Counting :
    (winner : ℕ) (won : ℤ) (losers : Dict ℤ) (flows : List PairFlow)
    → All (λ e. e.0 ≢ winner) losers
    → Counting uncounted flows
    → Counting uncounted (record_losers winner won losers flows)
unfolding record_losers
record_losers-Counting winner won [] flows apart c = c
record_losers-Counting winner won ((loser, lost) ∷ losers) flows apart c =
    record_losers-Counting winner won losers (record_pair winner won loser lost flows) apart.1
      (record_pair-Counting winner won loser lost flows apart.0 c)

-- No winner is among the losers.
abbrev Apart : Dict ℤ → Dict ℤ → Type 0
Apart winners losers = All (λ w. All (λ l. l.0 ≢ w.0) losers) winners

record_winners-Counting :
    (winners losers : Dict ℤ) (flows : List PairFlow)
    → Apart winners losers
    → Counting uncounted flows
    → Counting uncounted (record_winners winners losers flows)
unfolding record_winners
record_winners-Counting [] losers flows apart c = c
record_winners-Counting ((winner, won) ∷ winners) losers flows apart c =
    record_winners-Counting winners losers (record_losers winner won losers flows) apart.1
      (record_losers-Counting winner won losers flows apart.0 c)

Apart-cons :
    (k : ℕ) (v : ℤ) (winners losers : Dict ℤ)
    → All (λ e. e.0 ≢ k) winners
    → Apart winners losers
    → Apart winners ((k, v) ∷ losers)
Apart-cons k v [] losers h apart = tt
Apart-cons k v (w ∷ winners) losers h apart =
    (((λ same. h.0 (sym same)), apart.0), Apart-cons k v winners losers h.1 apart.1)

Apart-net : (net : Dict ℤ) → KeysDiffer net → Apart (net_winners net) (net_losers net)
Apart-net [] d = tt
Apart-net ((k, v) ∷ net) d = by_sign v (Apart-net net d.1)
  where
    by_sign :
        (v : ℤ)
        → Apart (net_winners net) (net_losers net)
        → Apart (net_winners ((k, v) ∷ net)) (net_losers ((k, v) ∷ net))
    by_sign (pos zero) rest = rest
    by_sign (pos (suc n)) rest =
        let wins : ltb_ℤ (pos 0) (pos (suc n)) ≡ true = ground arith in
        let no_loss : ltb_ℤ (pos (suc n)) (pos 0) ≡ false = ground arith in
        let won : net_winners ((k, pos (suc n)) ∷ net) ≡ (k, pos (suc n)) ∷ net_winners net =
          rw wins refl in
        let lost : net_losers ((k, pos (suc n)) ∷ net) ≡ net_losers net = rw no_loss refl in
        subst (λ ws. Apart ws (net_losers ((k, pos (suc n)) ∷ net))) (sym won)
          (subst (Apart ((k, pos (suc n)) ∷ net_winners net)) (sym lost)
            (All-filter (λ e. e.0 ≢ k) (λ e. ltb_ℤ e.1 (pos 0)) net d.0, rest))
    by_sign (negsuc n) rest =
        let no_win : ltb_ℤ (pos 0) (negsuc n) ≡ false = ground arith in
        let loses : ltb_ℤ (negsuc n) (pos 0) ≡ true = ground arith in
        rw (no_win, loses)
          (Apart-cons k (negsuc n) (net_winners net) (net_losers net)
            (All-filter (λ e. e.0 ≢ k) (λ e. ltb_ℤ (pos 0) e.1) net d.0) rest)

pub record_hands-Counting :
    (hands : List HandSummary) (flows : List PairFlow)
    → All (λ hand. KeysDiffer hand.net) hands
    → Counting uncounted flows
    → Counting uncounted (record_hands hands flows)
unfolding record_hands
record_hands-Counting [] flows d c = c
record_hands-Counting (hand ∷ hands) flows d c =
    record_hands-Counting hands (record_winners (net_winners hand.net) (net_losers hand.net) flows)
      d.1
      (record_winners-Counting (net_winners hand.net) (net_losers hand.net) flows
        (Apart-net hand.net d.0) c)
