-- ===== src/Risk/Collusion/Totals.antt =====
-- What moved between two players over all hands, as the flows have it and as the hands do.
use casino_app.Prelude.{
  ℕ, ◌+◌, ◌<◌, ◌≡◌, refl, inl, inr, min, ltb, ◌==◌, ◌&&◌, ◌||◌, if◌then◌else◌, List, [], ◌∷◌,
  sum_of, All, Bool-cases, arith,
}
use casino_app.Prelude.Int.{ℤ, pos, pos_part, neg_part, negate}
use casino_app.Prelude.Dict.{Dict}
use casino_app.Risk.Collusion.Shares.{
  KeysDiffer, won_by, lost_by, takes, takes_all, all_take, all_take_hand,
}
use casino_app.Risk.Collusion.{
  HandSummary, PairFlow, is_pair, record_flow, record_pair, record_losers, record_winners,
  record_hands, count_pair, count_with, count_players, count_hands, pair_flows, net_winners,
  net_losers,
}

-- The most that can have moved between the two in a hand.
abbrev pub moved_between : ℕ → ℕ → HandSummary → ℕ
moved_between a b hand =
    min (won_by a hand.net) (lost_by b hand.net) + min (won_by b hand.net) (lost_by a hand.net)

abbrev pub volume_in : ℕ → ℕ → PairFlow → ℕ
volume_in a b flow = if is_pair a b flow then flow.volume else 0

abbrev pub volume_of : ℕ → ℕ → List PairFlow → ℕ
volume_of a b flows = sum_of (volume_in a b) flows

volume_of-record_flow :
    (a b x y moved : ℕ) (to_a : ℤ) (flows : List PairFlow)
    → volume_of a b (record_flow x y moved to_a flows)
      ≡ volume_of a b flows + (if x == a && y == b then moved else 0)
unfolding record_flow
volume_of-record_flow a b x y moved to_a [] = ground arith
volume_of-record_flow a b x y moved to_a (flow ∷ flows) =
    ground (arith, volume_of-record_flow a b x y moved to_a flows)

-- What one winner and one loser add to the pair of the two.
abbrev took : ℕ → ℕ → ℕ → ℤ → ℕ → ℤ → ℕ
took a b winner won loser lost =
    if (winner == a && loser == b) || (winner == b && loser == a)
    then min (pos_part won) (neg_part lost)
    else 0

volume_of-record_pair :
    (a b winner : ℕ) (won : ℤ) (loser : ℕ) (lost : ℤ) (flows : List PairFlow)
    → a < b
    → volume_of a b (record_pair winner won loser lost flows)
      ≡ volume_of a b flows + took a b winner won loser lost
unfolding record_pair
volume_of-record_pair a b winner won loser lost flows h = elim (Bool-cases (ltb winner loser)) [
  | inl first ↦
      rw first (ground (arith, volume_of-record_flow a b winner loser most (pos most) flows))
  | inr second ↦ rw second (ground (arith, volume_of-record_flow a b loser winner most to_a flows))
]
  where
    most : ℕ
    most = min (pos_part won) (neg_part lost)

    to_a : ℤ
    to_a = if winner == loser then pos most else negate (pos most)

took-takes :
    (a b winner : ℕ) (won : ℤ) (loser : ℕ) (lost : ℤ)
    → a < b
    → took a b winner won loser lost
      ≡ takes a b winner won loser lost + takes b a winner won loser lost
took-takes a b winner won loser lost h = ground arith

volume_of-record_losers :
    (a b winner : ℕ) (won : ℤ) (losers : Dict ℤ) (flows : List PairFlow)
    → a < b
    → volume_of a b (record_losers winner won losers flows)
      ≡ volume_of a b flows + takes_all a b winner won losers + takes_all b a winner won losers
unfolding record_losers
volume_of-record_losers a b winner won [] flows h = omega arith
volume_of-record_losers a b winner won ((loser, lost) ∷ losers) flows h = omega (
  arith,
  volume_of-record_losers a b winner won losers (record_pair winner won loser lost flows) h,
  volume_of-record_pair a b winner won loser lost flows h,
  took-takes a b winner won loser lost h,
)

volume_of-record_winners :
    (a b : ℕ) (winners losers : Dict ℤ) (flows : List PairFlow)
    → a < b
    → volume_of a b (record_winners winners losers flows)
      ≡ volume_of a b flows + all_take a b winners losers + all_take b a winners losers
unfolding record_winners
volume_of-record_winners a b [] losers flows h = omega arith
volume_of-record_winners a b ((winner, won) ∷ winners) losers flows h = omega (
  arith,
  volume_of-record_winners a b winners losers (record_losers winner won losers flows) h,
  volume_of-record_losers a b winner won losers flows h,
)

-- Counting hands moves no chips.
volume_of-count_pair :
    (a b i j : ℕ) (flows : List PairFlow)
    → volume_of a b (count_pair i j flows) ≡ volume_of a b flows
unfolding count_pair
volume_of-count_pair a b i j [] = refl
volume_of-count_pair a b i j (flow ∷ flows) = ground (arith, volume_of-count_pair a b i j flows)

volume_of-count_with :
    (a b i : ℕ) (players : Dict ℤ) (flows : List PairFlow)
    → volume_of a b (count_with i players flows) ≡ volume_of a b flows
unfolding count_with
volume_of-count_with a b i [] flows = refl
volume_of-count_with a b i ((j, net) ∷ players) flows = omega (
  arith,
  volume_of-count_with a b i players (count_pair i j flows),
  volume_of-count_pair a b i j flows,
)

volume_of-count_players :
    (a b : ℕ) (players : Dict ℤ) (flows : List PairFlow)
    → volume_of a b (count_players players flows) ≡ volume_of a b flows
unfolding count_players
volume_of-count_players a b [] flows = refl
volume_of-count_players a b ((i, net) ∷ players) flows = omega (
  arith,
  volume_of-count_players a b players (count_with i players flows),
  volume_of-count_with a b i players flows,
)

volume_of-count_hands :
    (a b : ℕ) (hands : List HandSummary) (flows : List PairFlow)
    → volume_of a b (count_hands hands flows) ≡ volume_of a b flows
unfolding count_hands
volume_of-count_hands a b [] flows = refl
volume_of-count_hands a b (hand ∷ hands) flows = omega (
  arith,
  volume_of-count_hands a b hands (count_players hand.net flows),
  volume_of-count_players a b hand.net flows,
)

pub volume_of-record_hands :
    (a b : ℕ) (hands : List HandSummary) (flows : List PairFlow)
    → a < b
    → All (λ hand. KeysDiffer hand.net) hands
    → volume_of a b (record_hands hands flows)
      ≡ volume_of a b flows + sum_of (moved_between a b) hands
unfolding record_hands
volume_of-record_hands a b [] flows h differ = omega arith
volume_of-record_hands a b (hand ∷ hands) flows h differ = omega (
  arith,
  volume_of-record_hands a b hands
      (record_winners (net_winners hand.net) (net_losers hand.net) flows) h differ.1,
  volume_of-record_winners a b (net_winners hand.net) (net_losers hand.net) flows h,
  all_take_hand a b hand differ.0,
  all_take_hand b a hand differ.0,
)

-- For hands that have each player once, and two players, the one with the lesser id first, the flows
-- hold as the volume of their pair the sum over the hands of the smaller of what the one won and the
-- other lost, each way.
pub volume_of-pair_flows :
    (a b : ℕ) (hands : List HandSummary)
    → a < b
    → All (λ hand. KeysDiffer hand.net) hands
    → volume_of a b (pair_flows hands) ≡ sum_of (moved_between a b) hands
unfolding pair_flows
volume_of-pair_flows a b hands h differ = omega (
  arith,
  volume_of-count_hands a b hands (record_hands hands []),
  volume_of-record_hands a b hands [] h differ,
)
