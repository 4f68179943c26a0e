-- ===== src/Risk/Collusion.antt =====
-- apps/api/src/risk/collusion.ts. A user's id is a number, as it is only compared; the order of
-- ids is that of the numbers. `a|b`, the key of a pair, is the pair. A ratio is kept as its two
-- parts, and compared exactly.
pub mod Shares
pub mod Totals
pub mod Nets
pub mod Exact
pub mod Counts
pub mod Pairs
pub mod Dumping
mod Tests
use casino_app.Prelude.{
  ℕ, zero, suc, ◌+◌, ◌*◌, min, ltb, leb, ◌==◌, Bool, true, false, not, ◌&&◌, ◌||◌, if◌then◌else◌,
  Option, none, some, or_else, List, [], ◌∷◌, map, filter,
}
use casino_app.Prelude.Int.{ℤ, pos, negsuc, ◌+ℤ◌, pos_part, neg_part, negate, ltb_ℤ}
use casino_app.Prelude.Dict.{Dict, lookup}

-- The net chips of each player, each player once.
pub record HandSummary : Type 0 where
  pub match_id : ℕ
  pub table_id : ℕ
  pub net : Dict ℤ
  pub at : ℕ

pub record PairFlow : Type 0 where
  pub a : ℕ
  pub b : ℕ
  pub hands_together : ℕ
  pub net_to_a : ℤ
  pub volume : ℕ

abbrev pub is_pair : ℕ → ℕ → PairFlow → Bool
is_pair a b flow = flow.a == a && flow.b == b

abbrev pub no_flow : ℕ → ℕ → PairFlow
no_flow a b = record { a = a; b = b; hands_together = 0; net_to_a = pos 0; volume = 0 }

abbrev pub add_moved : ℕ → ℤ → PairFlow → PairFlow
add_moved moved to_a flow = record {
  a = flow.a;
  b = flow.b;
  hands_together = flow.hands_together;
  net_to_a = flow.net_to_a +ℤ to_a;
  volume = flow.volume + moved;
}

-- `pairs.get`, the new amounts, and `pairs.set`, which keeps the order of insertion.
unfoldable pub record_flow : ℕ → ℕ → ℕ → ℤ → List PairFlow → List PairFlow
record_flow a b moved to_a [] = add_moved moved to_a (no_flow a b) ∷ []
record_flow a b moved to_a (flow ∷ flows) =
    let rest = record_flow a b moved to_a flows in
    if is_pair a b flow then add_moved moved to_a flow ∷ flows else flow ∷ rest

-- What one winner took from one loser of a hand, at most.
unfoldable pub record_pair : (winner : ℕ) → ℤ → (loser : ℕ) → ℤ → List PairFlow → List PairFlow
record_pair winner won loser lost flows =
    let moved = min (pos_part won) (neg_part lost) in
    if ltb winner loser
    then record_flow winner loser moved (pos moved) flows
    else record_flow loser winner moved (if winner == loser then pos moved else negate (pos moved))
        flows

unfoldable pub record_losers : ℕ → ℤ → Dict ℤ → List PairFlow → List PairFlow
record_losers winner won [] flows = flows
record_losers winner won ((loser, lost) ∷ losers) flows =
    record_losers winner won losers (record_pair winner won loser lost flows)

unfoldable pub record_winners : Dict ℤ → Dict ℤ → List PairFlow → List PairFlow
record_winners [] losers flows = flows
record_winners ((winner, won) ∷ winners) losers flows =
    record_winners winners losers (record_losers winner won losers flows)

abbrev pub net_winners : Dict ℤ → Dict ℤ
net_winners net = filter (λ e. ltb_ℤ (pos 0) e.1) net

abbrev pub net_losers : Dict ℤ → Dict ℤ
net_losers net = filter (λ e. ltb_ℤ e.1 (pos 0)) net

unfoldable pub record_hands : List HandSummary → List PairFlow → List PairFlow
record_hands [] flows = flows
record_hands (hand ∷ hands) flows =
    record_hands hands (record_winners (net_winners hand.net) (net_losers hand.net) flows)

abbrev pub count_hand : PairFlow → PairFlow
count_hand flow = record {
  a = flow.a;
  b = flow.b;
  hands_together = suc flow.hands_together;
  net_to_a = flow.net_to_a;
  volume = flow.volume;
}

-- Counts a hand for two players of it, if there is an entry of the pair.
unfoldable pub count_pair : ℕ → ℕ → List PairFlow → List PairFlow
count_pair i j flows =
    map
      (λ flow.
        if is_pair (if ltb i j then i else j) (if ltb i j then j else i) flow
        then count_hand flow
        else flow)
      flows

unfoldable pub count_with : ℕ → Dict ℤ → List PairFlow → List PairFlow
count_with i [] flows = flows
count_with i ((j, _) ∷ players) flows = count_with i players (count_pair i j flows)

unfoldable pub count_players : Dict ℤ → List PairFlow → List PairFlow
count_players [] flows = flows
count_players ((i, _) ∷ players) flows = count_players players (count_with i players flows)

unfoldable pub count_hands : List HandSummary → List PairFlow → List PairFlow
count_hands [] flows = flows
count_hands (hand ∷ hands) flows = count_hands hands (count_players hand.net flows)

unfoldable pub pair_flows : List HandSummary → List PairFlow
pair_flows hands = count_hands hands (record_hands hands [])

-- A share: `numerator` in `denominator`.
pub record Ratio : Type 0 where
  pub numerator : ℕ
  pub denominator : ℕ

abbrev pub is_below : Ratio → Ratio → Bool
is_below r s = ltb (r.numerator * s.denominator) (s.numerator * r.denominator)

-- `r >= s`, for a denominator of `s` that is not zero. Nothing of nothing is not a number.
abbrev pub reaches : Ratio → Ratio → Bool
reaches r s = not (is_below r s) && not (r.numerator == 0 && r.denominator == 0)

pub record DumpOptions : Type 0 where
  pub min_hands : ℕ
  pub min_asymmetry : Ratio
  pub min_volume : ℕ

abbrev pub dump_defaults : DumpOptions
dump_defaults = record {
  min_hands = 8;
  min_asymmetry = record { numerator = 85; denominator = 100 };
  min_volume = 1;
}

pub record DumpFinding : Type 0 where
  pub payer : ℕ
  pub payee : ℕ
  pub net_chips : ℕ
  pub hands_together : ℕ
  pub asymmetry : Ratio

abbrev pub size_of : ℤ → ℕ
size_of n = pos_part n + neg_part n

abbrev pub finding_of : PairFlow → DumpFinding
finding_of flow = record {
  payer = if ltb_ℤ (pos 0) flow.net_to_a then flow.b else flow.a;
  payee = if ltb_ℤ (pos 0) flow.net_to_a then flow.a else flow.b;
  net_chips = size_of flow.net_to_a;
  hands_together = flow.hands_together;
  asymmetry = record { numerator = size_of flow.net_to_a; denominator = flow.volume };
}

-- The tests that pass over a pair.
unfoldable pub passes_over : DumpOptions → PairFlow → Bool
passes_over options flow =
    ltb flow.hands_together options.min_hands
    || ltb flow.volume options.min_volume
    || is_below (record { numerator = size_of flow.net_to_a; denominator = flow.volume })
        options.min_asymmetry

unfoldable pub detect_chip_dumping : DumpOptions → List PairFlow → List DumpFinding
detect_chip_dumping options flows = map finding_of (filter (λ f. not (passes_over options f)) flows)

pub record SeatingOptions : Type 0 where
  pub min_hands : ℕ
  pub min_share : Ratio

abbrev pub seating_defaults : SeatingOptions
seating_defaults = record { min_hands = 20; min_share = record { numerator = 7; denominator = 10 } }

pub record SeatingFinding : Type 0 where
  pub a : ℕ
  pub b : ℕ
  pub share : Ratio
  pub hands_together : ℕ

abbrev pub played_by : Dict ℕ → ℕ → ℕ
played_by hands user = or_else (lookup user hands) 0

abbrev pub share_of : Dict ℕ → PairFlow → Ratio
share_of hands flow = record {
  numerator = flow.hands_together;
  denominator = min (played_by hands flow.a) (played_by hands flow.b);
}

unfoldable pub seated_together : SeatingOptions → Dict ℕ → PairFlow → Bool
seated_together options hands flow =
    not (
      ltb (played_by hands flow.a) options.min_hands
      || ltb (played_by hands flow.b) options.min_hands)
    && reaches (share_of hands flow) options.min_share

unfoldable pub detect_co_seating : SeatingOptions → Dict ℕ → List PairFlow → List SeatingFinding
detect_co_seating options hands flows =
    map
      (λ flow. record {
        a = flow.a;
        b = flow.b;
        share = share_of hands flow;
        hands_together = flow.hands_together;
      })
      (filter (seated_together options hands) flows)
