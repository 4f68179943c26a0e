-- ===== src/Risk/Collusion/Nets.antt =====
-- The net chips that the flows of `pairFlows` have for a pair.
use casino_app.Prelude.{
  ℕ, zero, suc, ◌+◌, ◌<◌, ◌≡◌, ◌⊎◌, refl, inl, inr, min, ltb, ◌==◌, Bool, true, false, ◌&&◌,
  if◌then◌else◌, List, [], ◌∷◌, sum_of, All, Bool-cases, arith,
}
use casino_app.Prelude.Int.{
  ℤ, pos, negsuc, ◌+ℤ◌, pos_part, neg_part, negate, int_laws, eq_parts, sum_ℤ,
}
use casino_app.Prelude.Dict.{Dict}
use casino_app.Risk.Collusion.Shares.{
  KeysDiffer, won_by, lost_by, takes, takes_all, all_take, all_take_hand,
}
use casino_app.Risk.Collusion.Totals.{moved_between}
use casino_app.Risk.Collusion.{
  HandSummary, PairFlow, is_pair, record_flow, record_pair, record_losers, record_winners,
  record_hands, net_winners, net_losers,
}

-- The net chips that the flows have for a pair.
abbrev pub net_in : ℕ → ℕ → PairFlow → ℤ
net_in a b flow = if is_pair a b flow then flow.net_to_a else pos 0

abbrev pub net_of : ℕ → ℕ → List PairFlow → ℤ
net_of a b flows = sum_ℤ (net_in a b) flows

net_of-record_flow :
    (a b x y moved : ℕ) (to_a : ℤ) (flows : List PairFlow)
    → net_of a b (record_flow x y moved to_a flows)
      ≡ net_of a b flows +ℤ (if x == a && y == b then to_a else pos 0)
unfolding record_flow
net_of-record_flow a b x y moved to_a [] = elim (Bool-cases (x == a && y == b)) [
  | inl hit ↦ rw hit (omega int_laws)
  | inr miss ↦ rw miss (omega int_laws)
]
net_of-record_flow a b x y moved to_a (flow ∷ flows) =
    let rest = net_of-record_flow a b x y moved to_a flows in
    elim (Bool-cases (is_pair x y flow)) [
      | inr later ↦ rw later (omega (int_laws, eq_parts _ _ rest))
      | inl here ↦
          let same : is_pair a b flow ≡ (x == a && y == b) = same_pair here in
          rw (here, same) (updated (x == a && y == b) flow.net_to_a)
    ]
  where
    same_pair : is_pair x y flow ≡ true → is_pair a b flow ≡ (x == a && y == b)
    same_pair here = ground arith

    updated :
        (c : Bool) (n : ℤ)
        → (if c then n +ℤ to_a else pos 0) +ℤ net_of a b flows
          ≡ (if c then n else pos 0) +ℤ net_of a b flows +ℤ (if c then to_a else pos 0)
    updated true n = omega int_laws
    updated false n = omega int_laws

net_of-record_pair :
    (a b winner : ℕ) (won : ℤ) (loser : ℕ) (lost : ℤ) (flows : List PairFlow)
    → a < b
    → net_of a b (record_pair winner won loser lost flows) +ℤ pos (takes b a winner won loser lost)
      ≡ net_of a b flows +ℤ pos (takes a b winner won loser lost)
unfolding record_pair
net_of-record_pair a b winner won loser lost flows h = elim (Bool-cases (ltb winner loser)) [
  | inl first ↦
      rw (first, net_of-record_flow a b winner loser most (pos most) flows, backward first)
        (forward (winner == a && loser == b))
  | inr second ↦
      rw (second, net_of-record_flow a b loser winner most to_a flows, not_forward second)
        (reversed (Bool-cases (loser == a && winner == b)))
]
  where
    most : ℕ
    most = min (pos_part won) (neg_part lost)

    to_a : ℤ
    to_a = if winner == loser then pos most else negate (pos most)

    backward : ltb winner loser ≡ true → (winner == b && loser == a) ≡ false
    backward first = ground arith

    not_forward : ltb winner loser ≡ false → (winner == a && loser == b) ≡ false
    not_forward second = ground arith

    forward :
        (c : Bool)
        → net_of a b flows +ℤ (if c then pos most else pos 0) +ℤ pos 0
          ≡ net_of a b flows +ℤ pos (if c then most else 0)
    forward true = omega int_laws
    forward false = omega int_laws

    cancels : (n : ℤ) (m : ℕ) → n +ℤ negate (pos m) +ℤ pos m ≡ n +ℤ pos 0
    cancels n zero = omega int_laws
    cancels n (suc k) =
        let neg : negate (pos (suc k)) ≡ negsuc k = ground arith in rw neg (omega int_laws)

    reversed :
        ((loser == a && winner == b) ≡ true) ⊎ ((loser == a && winner == b) ≡ false)
        → net_of a b flows
            +ℤ (if loser == a && winner == b then to_a else pos 0)
            +ℤ pos (if winner == b && loser == a then most else 0)
          ≡ net_of a b flows +ℤ pos 0
    reversed (inl hit) =
        let swapped : (winner == b && loser == a) ≡ true = ground arith in
        let apart : (winner == loser) ≡ false = ground arith in
        rw (hit, swapped, apart) (cancels (net_of a b flows) most)
    reversed (inr miss) =
        let swapped : (winner == b && loser == a) ≡ false = ground arith in
        rw (miss, swapped) (omega int_laws)

net_of-record_losers :
    (a b winner : ℕ) (won : ℤ) (losers : Dict ℤ) (flows : List PairFlow)
    → a < b
    → net_of a b (record_losers winner won losers flows) +ℤ pos (takes_all b a winner won losers)
      ≡ net_of a b flows +ℤ pos (takes_all a b winner won losers)
unfolding record_losers
net_of-record_losers a b winner won [] flows h = refl
net_of-record_losers a b winner won ((loser, lost) ∷ losers) flows h = omega (
  int_laws,
  eq_parts _ _
      (net_of-record_losers a b winner won losers (record_pair winner won loser lost flows) h),
  eq_parts _ _ (net_of-record_pair a b winner won loser lost flows h),
)

net_of-record_winners :
    (a b : ℕ) (winners losers : Dict ℤ) (flows : List PairFlow)
    → a < b
    → net_of a b (record_winners winners losers flows) +ℤ pos (all_take b a winners losers)
      ≡ net_of a b flows +ℤ pos (all_take a b winners losers)
unfolding record_winners
net_of-record_winners a b [] losers flows h = refl
net_of-record_winners a b ((winner, won) ∷ winners) losers flows h = omega (
  int_laws,
  eq_parts _ _ (net_of-record_winners a b winners losers (record_losers winner won losers flows) h),
  eq_parts _ _ (net_of-record_losers a b winner won losers flows h),
)

-- What `x` can have taken from `y` over the hands: in each, the smaller of what the one won and the other
-- lost.
abbrev pub taken : ℕ → ℕ → List HandSummary → ℕ
taken x y = sum_of (λ hand. min (won_by x hand.net) (lost_by y hand.net))

pub net_of-record_hands :
    (a b : ℕ) (hands : List HandSummary) (flows : List PairFlow)
    → a < b
    → All (λ hand. KeysDiffer hand.net) hands
    → net_of a b (record_hands hands flows) +ℤ pos (taken b a hands)
      ≡ net_of a b flows +ℤ pos (taken a b hands)
unfolding record_hands
net_of-record_hands a b [] flows h differ = refl
net_of-record_hands a b (hand ∷ hands) flows h differ = omega (
  int_laws,
  eq_parts _ _ (
      net_of-record_hands a b hands
        (record_winners (net_winners hand.net) (net_losers hand.net) flows) h differ.1),
  eq_parts _ _ (net_of-record_winners a b (net_winners hand.net) (net_losers hand.net) flows h),
  all_take_hand a b hand differ.0,
  all_take_hand b a hand differ.0,
)

pub moved_between-taken :
    (a b : ℕ) (hands : List HandSummary)
    → sum_of (moved_between a b) hands ≡ taken a b hands + taken b a hands
moved_between-taken a b [] = refl
moved_between-taken a b (hand ∷ hands) = omega (arith, moved_between-taken a b hands)
