-- ===== src/Risk/Collusion/Tests.antt =====
-- Runs of the collusion heuristics.
use casino_app.Prelude.{ℕ, zero, suc, ◌≡◌, refl, List, [], ◌∷◌, All, arith, sum_of}
use casino_app.Prelude.Int.{pos, negsuc}
use casino_app.Risk.Collusion.{
  HandSummary, pair_flows, detect_chip_dumping, dump_defaults, detect_co_seating, seating_defaults,
  seated_together,
}
use casino_app.Risk.Collusion.Shares.{KeysDiffer}
use casino_app.Risk.Collusion.Dumping.{IsOneSided, dumping-IsOneSided}
use casino_app.Risk.Collusion.Totals.{volume_of, moved_between, volume_of-pair_flows}

-- The first player wins 30, of which a third player pays 5 and the house rakes 1.
abbrev big_hand : HandSummary
big_hand = record {
  match_id = 10;
  table_id = 1;
  net = (7, pos 30) ∷ (2, negsuc 25) ∷ (9, negsuc 4) ∷ [];
  at = 0;
}

abbrev back_hand : HandSummary
back_hand = record {
  match_id = 11;
  table_id = 1;
  net = (2, pos 3) ∷ (7, negsuc 2) ∷ (9, pos 0) ∷ [];
  at = 60;
}

abbrev hands : List HandSummary
hands = big_hand ∷ big_hand ∷ big_hand ∷ back_hand ∷ big_hand ∷ big_hand ∷ big_hand ∷ big_hand ∷ []

big : KeysDiffer big_hand.net
big = ground arith

back : KeysDiffer back_hand.net
back = ground arith

volume_of-pair_flows_example : volume_of 2 7 (pair_flows hands) ≡ sum_of (moved_between 2 7) hands
volume_of-pair_flows_example =
    volume_of-pair_flows 2 7 hands (omega arith)
      (big, (big, (big, (back, (big, (big, (big, (big, tt))))))))

dumping-IsOneSided_example :
    All (IsOneSided hands) (detect_chip_dumping dump_defaults (pair_flows hands))
dumping-IsOneSided_example =
    dumping-IsOneSided hands (big, (big, (big, (back, (big, (big, (big, (big, tt))))))))

found : sum_of (λ f. f.net_chips) (detect_chip_dumping dump_defaults (pair_flows hands)) ≡ 214
unfolding pair_flows detect_chip_dumping casino_app.Risk.Collusion.count_hands
    casino_app.Risk.Collusion.count_players casino_app.Risk.Collusion.count_with
    casino_app.Risk.Collusion.count_pair casino_app.Risk.Collusion.record_hands
    casino_app.Risk.Collusion.record_winners casino_app.Risk.Collusion.record_losers
    casino_app.Risk.Collusion.record_pair casino_app.Risk.Collusion.record_flow
    casino_app.Risk.Collusion.passes_over casino_app.Prelude.Int.◌+ℤ◌
found = refl

-- Eight hands together are too few for a seating finding.
none_seated : detect_co_seating seating_defaults ((2, 20) ∷ (7, 30) ∷ []) (pair_flows hands) ≡ []
unfolding pair_flows detect_co_seating seated_together casino_app.Risk.Collusion.count_hands
    casino_app.Risk.Collusion.count_players casino_app.Risk.Collusion.count_with
    casino_app.Risk.Collusion.count_pair casino_app.Risk.Collusion.record_hands
    casino_app.Risk.Collusion.record_winners casino_app.Risk.Collusion.record_losers
    casino_app.Risk.Collusion.record_pair casino_app.Risk.Collusion.record_flow
none_seated = refl
