-- ===== src/Risk/Collusion/Shares.antt =====
-- What one player takes from another in a hand, summed over its winners and losers, and as its
-- net chips have it.
use casino_app.Prelude.{
  ℕ, ◌+◌, ◌≡◌, ◌≢◌, refl, inl, inr, min, ◌==◌, Bool, ◌&&◌, if◌then◌else◌, or_else, [], ◌∷◌, filter,
  All, All-filter, Bool-cases, arith, subst,
}
use casino_app.Prelude.Int.{ℤ, pos, pos_part, neg_part, ltb_ℤ}
use casino_app.Prelude.Dict.{Dict, lookup}
use casino_app.Risk.Collusion.{HandSummary, net_winners, net_losers}

-- Each key once.
abbrev pub KeysDiffer : Dict ℤ → Type 0
KeysDiffer [] = Unit
KeysDiffer ((k, _) ∷ m) = All (λ e. e.0 ≢ k) m × KeysDiffer m

abbrev pub won_by : ℕ → Dict ℤ → ℕ
won_by user net = pos_part (or_else (lookup user net) (pos 0))

abbrev pub lost_by : ℕ → Dict ℤ → ℕ
lost_by user net = neg_part (or_else (lookup user net) (pos 0))

-- The part of it that goes from `y` to `x`.
abbrev pub takes : ℕ → ℕ → ℕ → ℤ → ℕ → ℤ → ℕ
takes x y winner won loser lost =
    if winner == x && loser == y then min (pos_part won) (neg_part lost) else 0

abbrev pub takes_all : ℕ → ℕ → ℕ → ℤ → Dict ℤ → ℕ
takes_all x y winner won [] = 0
takes_all x y winner won ((loser, lost) ∷ losers) =
    takes x y winner won loser lost + takes_all x y winner won losers

abbrev pub all_take : ℕ → ℕ → Dict ℤ → Dict ℤ → ℕ
all_take x y [] losers = 0
all_take x y ((winner, won) ∷ winners) losers =
    takes_all x y winner won losers + all_take x y winners losers

takes_all_none :
    (x y winner : ℕ) (won : ℤ) (losers : Dict ℤ)
    → All (λ e. e.0 ≢ y) losers
    → takes_all x y winner won losers ≡ 0
takes_all_none x y winner won [] h = refl
takes_all_none x y winner won ((loser, lost) ∷ losers) h =
    ground (arith, h.0, takes_all_none x y winner won losers h.1)

takes_all_lem :
    (x y winner : ℕ) (won : ℤ) (losers : Dict ℤ)
    → KeysDiffer losers
    → takes_all x y winner won losers
      ≡ (if winner == x then min (pos_part won) (lost_by y losers) else 0)
takes_all_lem x y winner won [] h = ground arith
takes_all_lem x y winner won ((loser, lost) ∷ losers) h = elim (Bool-cases (loser == y)) [
  | inl hit ↦
      (let same : loser ≡ y = ground arith in
        let later : takes_all x y winner won losers ≡ 0 =
          takes_all_none x y winner won losers (subst (λ k. All (λ e. e.0 ≢ k) losers) same h.0) in
        ground arith)
  | inr miss ↦ ground (arith, takes_all_lem x y winner won losers h.1)
]

all_take_none :
    (x y : ℕ) (winners losers : Dict ℤ)
    → KeysDiffer losers
    → All (λ e. e.0 ≢ x) winners
    → all_take x y winners losers ≡ 0
all_take_none x y [] losers l h = refl
all_take_none x y ((winner, won) ∷ winners) losers l h =
    ground
      (arith, h.0, takes_all_lem x y winner won losers l, all_take_none x y winners losers l h.1)

all_take_lem :
    (x y : ℕ) (winners losers : Dict ℤ)
    → KeysDiffer losers
    → KeysDiffer winners
    → all_take x y winners losers ≡ min (won_by x winners) (lost_by y losers)
all_take_lem x y [] losers l h = ground arith
all_take_lem x y ((winner, won) ∷ winners) losers l h = elim (Bool-cases (winner == x)) [
  | inl hit ↦
      (let same : winner ≡ x = ground arith in
        let later : all_take x y winners losers ≡ 0 =
          all_take_none x y winners losers l (subst (λ k. All (λ e. e.0 ≢ k) winners) same h.0) in
        ground (arith, takes_all_lem x y winner won losers l))
  | inr miss ↦
      ground (arith, takes_all_lem x y winner won losers l, all_take_lem x y winners losers l h.1)
]

KeysDiffer-filter : (p : ℕ × ℤ → Bool) (net : Dict ℤ) → KeysDiffer net → KeysDiffer (filter p net)
KeysDiffer-filter p [] h = tt
KeysDiffer-filter p ((k, v) ∷ net) h = elim (Bool-cases (p (k, v))) [
  | inl keep ↦ rw keep (All-filter (λ e. e.0 ≢ k) p net h.0, KeysDiffer-filter p net h.1)
  | inr skip ↦ rw skip (KeysDiffer-filter p net h.1)
]

won_by_none : (user : ℕ) (net : Dict ℤ) → All (λ e. e.0 ≢ user) net → won_by user net ≡ 0
won_by_none user [] h = refl
won_by_none user ((k, v) ∷ net) h = ground (arith, h.0, won_by_none user net h.1)

lost_by_none : (user : ℕ) (net : Dict ℤ) → All (λ e. e.0 ≢ user) net → lost_by user net ≡ 0
lost_by_none user [] h = refl
lost_by_none user ((k, v) ∷ net) h = ground (arith, h.0, lost_by_none user net h.1)

won_by-net_winners :
    (user : ℕ) (net : Dict ℤ) → KeysDiffer net → won_by user (net_winners net) ≡ won_by user net
won_by-net_winners user [] h = refl
won_by-net_winners user ((k, v) ∷ net) h = elim (Bool-cases (k == user)) [
  | inl hit ↦
      (let same : k ≡ user = ground arith in
        let others : All (λ e. e.0 ≢ user) net = subst (λ i. All (λ e. e.0 ≢ i) net) same h.0 in
        let later : won_by user (net_winners net) ≡ 0 =
          won_by_none user (net_winners net)
            (All-filter (λ e. e.0 ≢ user) (λ e. ltb_ℤ (pos 0) e.1) net others) in
        ground arith)
  | inr miss ↦ ground (arith, won_by-net_winners user net h.1)
]

lost_by-net_losers :
    (user : ℕ) (net : Dict ℤ) → KeysDiffer net → lost_by user (net_losers net) ≡ lost_by user net
lost_by-net_losers user [] h = refl
lost_by-net_losers user ((k, v) ∷ net) h = elim (Bool-cases (k == user)) [
  | inl hit ↦
      (let same : k ≡ user = ground arith in
        let others : All (λ e. e.0 ≢ user) net = subst (λ i. All (λ e. e.0 ≢ i) net) same h.0 in
        let later : lost_by user (net_losers net) ≡ 0 =
          lost_by_none user (net_losers net)
            (All-filter (λ e. e.0 ≢ user) (λ e. ltb_ℤ e.1 (pos 0)) net others) in
        ground arith)
  | inr miss ↦ ground (arith, lost_by-net_losers user net h.1)
]

-- What all winners take from all losers of a hand.
pub all_take_hand :
    (x y : ℕ) (hand : HandSummary)
    → KeysDiffer hand.net
    → all_take x y (net_winners hand.net) (net_losers hand.net)
      ≡ min (won_by x hand.net) (lost_by y hand.net)
all_take_hand x y hand d =
    rw (← won_by-net_winners x hand.net d, ← lost_by-net_losers y hand.net d)
      (all_take_lem x y (net_winners hand.net) (net_losers hand.net)
        (KeysDiffer-filter (λ e. ltb_ℤ e.1 (pos 0)) hand.net d)
        (KeysDiffer-filter (λ e. ltb_ℤ (pos 0) e.1) hand.net d))
