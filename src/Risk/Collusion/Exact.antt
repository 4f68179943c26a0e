-- ===== src/Risk/Collusion/Exact.antt =====
-- What each flow of `pairFlows` says of its own pair.
use casino_app.Prelude.{
  ℕ, ◌≡◌, refl, inl, inr, ltb, ◌==◌, true, false, ◌&&◌, List, [], ◌∷◌, All, Bool-cases, arith,
}
use casino_app.Prelude.Int.{ℤ, pos, int_laws}
use casino_app.Prelude.Dict.{Dict}
use casino_app.Risk.Collusion.Nets.{net_of}
use casino_app.Risk.Collusion.Totals.{volume_of}
use casino_app.Risk.Collusion.{
  HandSummary, PairFlow, is_pair, record_flow, record_pair, record_losers, record_winners,
  record_hands, net_winners, net_losers,
}

-- No flow is for the pair of an earlier one.
abbrev pub Unique : List PairFlow → Type 0
Unique [] = Unit
Unique (f ∷ flows) = All (λ (g : PairFlow). is_pair f.a f.b g ≡ false) flows × Unique flows

record_flow-other :
    (a b x y moved : ℕ) (to_a : ℤ) (flows : List PairFlow)
    → (x == a && y == b) ≡ false
    → All (λ (g : PairFlow). is_pair a b g ≡ false) flows
    → All (λ (g : PairFlow). is_pair a b g ≡ false) (record_flow x y moved to_a flows)
unfolding record_flow
record_flow-other a b x y moved to_a [] h all = (h, tt)
record_flow-other a b x y moved to_a (g ∷ flows) h all =
    ground (arith, record_flow-other a b x y moved to_a flows h all.1)

record_flow-Unique :
    (x y moved : ℕ) (to_a : ℤ) (flows : List PairFlow)
    → Unique flows
    → Unique (record_flow x y moved to_a flows)
unfolding record_flow
record_flow-Unique x y moved to_a [] u = (tt, tt)
record_flow-Unique x y moved to_a (f ∷ flows) u = elim (Bool-cases (is_pair x y f)) [
  | inl hit ↦ rw hit u
  | inr miss ↦ rw miss (
    record_flow-other f.a f.b x y moved to_a flows (ground arith) u.0,
    record_flow-Unique x y moved to_a flows u.1,
  )
]

record_pair-Unique :
    (winner : ℕ) (won : ℤ) (loser : ℕ) (lost : ℤ) (flows : List PairFlow)
    → Unique flows
    → Unique (record_pair winner won loser lost flows)
unfolding record_pair
record_pair-Unique winner won loser lost flows u = elim (Bool-cases (ltb winner loser)) [
  | inl first ↦ rw first (record_flow-Unique winner loser _ _ flows u)
  | inr second ↦ rw second (record_flow-Unique loser winner _ _ flows u)
]

record_losers-Unique :
    (winner : ℕ) (won : ℤ) (losers : Dict ℤ) (flows : List PairFlow)
    → Unique flows
    → Unique (record_losers winner won losers flows)
unfolding record_losers
record_losers-Unique winner won [] flows u = u
record_losers-Unique winner won ((loser, lost) ∷ losers) flows u =
    record_losers-Unique winner won losers (record_pair winner won loser lost flows)
      (record_pair-Unique winner won loser lost flows u)

record_winners-Unique :
    (winners losers : Dict ℤ) (flows : List PairFlow)
    → Unique flows
    → Unique (record_winners winners losers flows)
unfolding record_winners
record_winners-Unique [] losers flows u = u
record_winners-Unique ((winner, won) ∷ winners) losers flows u =
    record_winners-Unique winners losers (record_losers winner won losers flows)
      (record_losers-Unique winner won losers flows u)

pub record_hands-Unique :
    (hands : List HandSummary) (flows : List PairFlow)
    → Unique flows
    → Unique (record_hands hands flows)
unfolding record_hands
record_hands-Unique [] flows u = u
record_hands-Unique (hand ∷ hands) flows u =
    record_hands-Unique hands (record_winners (net_winners hand.net) (net_losers hand.net) flows)
      (record_winners-Unique (net_winners hand.net) (net_losers hand.net) flows u)

-- The flow of a pair is all that the flows have for it.
abbrev pub OwnValues : List PairFlow → PairFlow → Type 0
OwnValues flows f = (net_of f.a f.b flows ≡ f.net_to_a) × (volume_of f.a f.b flows ≡ f.volume)

no_values :
    (a b : ℕ) (flows : List PairFlow)
    → All (λ (g : PairFlow). is_pair a b g ≡ false) flows
    → (net_of a b flows ≡ pos 0) × (volume_of a b flows ≡ 0)
no_values a b [] h = (refl, refl)
no_values a b (g ∷ flows) h =
    let (net, volume) = no_values a b flows h.1 in rw (h.0, net, volume) (omega int_laws, refl)

own_below :
    (f : PairFlow) (flows gs : List PairFlow)
    → All (λ (g : PairFlow). is_pair f.a f.b g ≡ false) gs
    → All (OwnValues flows) gs
    → All (OwnValues (f ∷ flows)) gs
own_below f flows [] h own = tt
own_below f flows (g ∷ gs) h own =
    let apart : is_pair g.a g.b f ≡ false = ground arith in
    (rw (apart, own.0.0, own.0.1) (omega int_laws, omega arith), own_below f flows gs h.1 own.1)

pub own_values : (flows : List PairFlow) → Unique flows → All (OwnValues flows) flows
own_values [] u = tt
own_values (f ∷ flows) u =
    let itself : is_pair f.a f.b f ≡ true = ground arith in
    let (net, volume) = no_values f.a f.b flows u.0 in
    (
      rw (itself, net, volume) (omega int_laws, omega arith),
      own_below f flows flows u.0 (own_values flows u.1),
    )
