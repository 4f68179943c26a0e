-- ===== src/Risk/Collusion/Dumping.antt =====
-- What the findings of `detectChipDumping` over the flows of `pairFlows` say of the hands.
use casino_app.Prelude.{
  ℕ, ◌+◌, ◌*◌, ◌<◌, ◌≤◌, ◌≡◌, refl, ◌∙◌, inl, inr, ltb, true, false, if◌then◌else◌, List, [], ◌∷◌,
  All, Bool-cases, arith, subst,
}
use casino_app.Prelude.Int.{ℤ, pos, ◌+ℤ◌, ltb_ℤ, int_laws, eq_parts, +ℤ_parts}
use casino_app.Prelude.Dict.{Dict}
use casino_app.Risk.Collusion.Shares.{KeysDiffer}
use casino_app.Risk.Collusion.Pairs.{uncounted, record_hands-Counting}
use casino_app.Risk.Collusion.{
  HandSummary, PairFlow, is_pair, record_hands, count_pair, count_with, count_players, count_hands,
  pair_flows,
}
use casino_app.Risk.Collusion.Pairs.{uncounted, record_hands-Counting}
use casino_app.Risk.Collusion.Nets.{taken, net_of-record_hands, moved_between-taken}
use casino_app.Risk.Collusion.Totals.{volume_of-record_hands}
use casino_app.Risk.Collusion.Exact.{OwnValues, record_hands-Unique, own_values}
use casino_app.Risk.Collusion.Counts.{
  hands_with, hands_with_comm, Counting, Counting-ext, count_hands-Counting,
}
use casino_app.Risk.Collusion.{
  DumpFinding, dump_defaults, finding_of, passes_over, detect_chip_dumping, size_of,
}

-- What a flow says of the chips, which counting hands leaves as it is.
module _ (P : ℕ → ℕ → ℤ → ℕ → Type 0) where
  abbrev Valued : List PairFlow → Type 0
  Valued = All (λ (f : PairFlow). P f.a f.b f.net_to_a f.volume)

  count_pair-Valued :
      (i j : ℕ) (flows : List PairFlow) → Valued flows → Valued (count_pair i j flows)
  unfolding count_pair
  count_pair-Valued i j [] all = tt
  count_pair-Valued i j (f ∷ flows) all =
      elim (Bool-cases (is_pair (if ltb i j then i else j) (if ltb i j then j else i) f)) [
        | inl here ↦ rw here (all.0, count_pair-Valued i j flows all.1)
        | inr later ↦ rw later (all.0, count_pair-Valued i j flows all.1)
      ]

  count_with-Valued :
      (i : ℕ) (players : Dict ℤ) (flows : List PairFlow)
      → Valued flows
      → Valued (count_with i players flows)
  unfolding count_with
  count_with-Valued i [] flows all = all
  count_with-Valued i ((j, _) ∷ players) flows all =
      count_with-Valued i players (count_pair i j flows) (count_pair-Valued i j flows all)

  count_players-Valued :
      (players : Dict ℤ) (flows : List PairFlow)
      → Valued flows
      → Valued (count_players players flows)
  unfolding count_players
  count_players-Valued [] flows all = all
  count_players-Valued ((i, _) ∷ players) flows all =
      count_players-Valued players (count_with i players flows)
        (count_with-Valued i players flows all)

  count_hands-Valued :
      (hands : List HandSummary) (flows : List PairFlow)
      → Valued flows
      → Valued (count_hands hands flows)
  unfolding count_hands
  count_hands-Valued [] flows all = all
  count_hands-Valued (hand ∷ hands) flows all =
      count_hands-Valued hands (count_players hand.net flows)
        (count_players-Valued hand.net flows all)

-- The chips of a flow, as the hands have them.
abbrev ChipsOf : List HandSummary → ℕ → ℕ → ℤ → ℕ → Type 0
ChipsOf hands a b net volume =
    (net +ℤ pos (taken b a hands) ≡ pos (taken a b hands))
    × (volume ≡ taken a b hands + taken b a hands)

record_hands-ChipsOf :
    (hands : List HandSummary) (flows gs : List PairFlow)
    → All (λ hand. KeysDiffer hand.net) hands
    → flows ≡ record_hands hands []
    → Counting uncounted gs
    → All (OwnValues flows) gs
    → All (λ (f : PairFlow). ChipsOf hands f.a f.b f.net_to_a f.volume) gs
record_hands-ChipsOf hands flows [] d is c own = tt
record_hands-ChipsOf hands flows (f ∷ gs) d is c own = (
  (
    rw (← own.0.0, is)
        (net_of-record_hands f.a f.b hands [] c.0.0 d ∙ plus_zero (taken f.a f.b hands)),
    omega (
      arith,
      own.0.1,
      rw (← is) at (volume_of-record_hands f.a f.b hands [] c.0.0 d),
      moved_between-taken f.a f.b hands,
    ),
  ),
  record_hands-ChipsOf hands flows gs d is c.1 own.1,
)
  where
    plus_zero : (n : ℕ) → pos 0 +ℤ pos n ≡ pos n
    plus_zero n = omega int_laws

-- A finding, in terms of the hands: at least eight with both, and more chips that the payee can have
-- taken from the payer than the other way, the difference being at least 85 % of the two together.
abbrev pub IsOneSided : List HandSummary → DumpFinding → Type 0
IsOneSided hands finding =
    (8 ≤ hands_with finding.payer finding.payee hands)
    × (finding.hands_together ≡ hands_with finding.payer finding.payee hands)
    × (0 < finding.net_chips)
    × (taken finding.payee finding.payer hands
        ≡ taken finding.payer finding.payee hands + finding.net_chips)
    × (85 * (taken finding.payee finding.payer hands + taken finding.payer finding.payee hands)
        ≤ 100 * finding.net_chips)

-- The test of the thresholds, on what moved each way.
one_sided_up :
    (there back : ℕ) (f : PairFlow)
    → f.net_to_a +ℤ pos back ≡ pos there
    → f.volume ≡ there + back
    → passes_over dump_defaults f ≡ false
    → ltb_ℤ (pos 0) f.net_to_a ≡ true
    → (0 < size_of f.net_to_a)
      × (there ≡ back + size_of f.net_to_a)
      × (85 * (there + back) ≤ 100 * size_of f.net_to_a)
unfolding passes_over
one_sided_up there back f net volume kept up =
    ground (arith, eq_parts _ _ net, +ℤ_parts f.net_to_a (pos back))

one_sided_down :
    (there back : ℕ) (f : PairFlow)
    → f.net_to_a +ℤ pos back ≡ pos there
    → f.volume ≡ there + back
    → passes_over dump_defaults f ≡ false
    → ltb_ℤ (pos 0) f.net_to_a ≡ false
    → (0 < size_of f.net_to_a)
      × (back ≡ there + size_of f.net_to_a)
      × (85 * (back + there) ≤ 100 * size_of f.net_to_a)
unfolding passes_over
one_sided_down there back f net volume kept down =
    ground (arith, eq_parts _ _ net, +ℤ_parts f.net_to_a (pos back))

enough_hands : (f : PairFlow) → passes_over dump_defaults f ≡ false → 8 ≤ f.hands_together
unfolding passes_over
enough_hands f kept = ground arith

finding_of-IsOneSided :
    (hands : List HandSummary) (f : PairFlow)
    → f.hands_together ≡ hands_with f.a f.b hands
    → ChipsOf hands f.a f.b f.net_to_a f.volume
    → passes_over dump_defaults f ≡ false
    → IsOneSided hands (finding_of f)
finding_of-IsOneSided hands f count chips kept =
    let there = taken f.a f.b hands in
    let back = taken f.b f.a hands in
    elim (Bool-cases (ltb_ℤ (pos 0) f.net_to_a)) [
      | inl up ↦
          (let sides = one_sided_up there back f chips.0 chips.1 kept up in
            let swapped = count ∙ hands_with_comm f.a f.b hands in
            rw up (
              subst (λ n. 8 ≤ n) swapped (enough_hands f kept),
              swapped,
              sides.0,
              sides.1,
              sides.2,
            ))
      | inr down ↦
          (let sides = one_sided_down there back f chips.0 chips.1 kept down in
            rw down
              (subst (λ n. 8 ≤ n) count (enough_hands f kept), count, sides.0, sides.1, sides.2))
    ]

findings-IsOneSided :
    (hands : List HandSummary) (flows : List PairFlow)
    → Counting (λ a b. hands_with a b hands) flows
    → All (λ (f : PairFlow). ChipsOf hands f.a f.b f.net_to_a f.volume) flows
    → All (IsOneSided hands) (detect_chip_dumping dump_defaults flows)
unfolding detect_chip_dumping
findings-IsOneSided hands [] c v = tt
findings-IsOneSided hands (f ∷ flows) c v = elim (Bool-cases (passes_over dump_defaults f)) [
  | inl skip ↦ rw skip (findings-IsOneSided hands flows c.1 v.1)
  | inr kept ↦
      rw kept
        (finding_of-IsOneSided hands f c.0.1 v.0 kept, findings-IsOneSided hands flows c.1 v.1)
]

-- For hands that have each player once, with the default thresholds: both players of a finding are in at
-- least eight of the hands, and the finding has their number. Count for two players, in each hand that
-- the one won and the other lost, the smaller of the two amounts. Then the payee got more from the payer
-- than the other way, by the net chips of the finding, which are at least 85 % of what went either way.
pub dumping-IsOneSided :
    (hands : List HandSummary)
    → All (λ hand. KeysDiffer hand.net) hands
    → All (IsOneSided hands) (detect_chip_dumping dump_defaults (pair_flows hands))
unfolding pair_flows
dumping-IsOneSided hands differ =
    let flows = record_hands hands [] in
    let unique = record_hands-Unique hands [] tt in
    let started = record_hands-Counting hands [] differ tt in
    let chips =
      record_hands-ChipsOf hands flows flows differ refl started (own_values flows unique) in
    findings-IsOneSided hands (count_hands hands flows)
      (Counting-ext (λ a b. 0 + hands_with a b hands) (λ a b. hands_with a b hands)
        (count_hands hands flows) (λ a b lt. omega arith)
        (count_hands-Counting uncounted hands flows differ started))
      (count_hands-Valued (ChipsOf hands) hands flows chips)
