-- ===== src/Poker/Pots/Conservation.antt =====
-- The accounts of `returnUncalled` and `settleShowdown` in apps/api/src/games/poker/pots.ts.
use casino_app.Prelude.{
  ℕ, ◌+◌, ◌-◌, ◌≤◌, ◌<◌, ◌≡◌, ◌≢◌, inl, inr, refl, ap, true, ◌&&◌, ◌||◌, ◌==◌, ltb, none, some,
  or_else, List, [], ◌∷◌, ◌++◌, map, length, find, sum_of, All, Bool-cases, Option-cases, arith,
  min, ==_iff,
}
use casino_app.Prelude.Int.{pos, ◌+ℤ◌, eqb_ℤ, eq_parts, eq_of_parts, int_laws}
use casino_app.Prelude.Sort.{sort_by}
use casino_app.Poker.Cards.{evaluate, rank_hand}
use casino_app.Poker.Pots.{
  PotPlayer, Pot, Ranked, Showdown, nth_commitment, reduce_commitment, return_excess,
  return_uncalled, max_live, eligible_at, layer_amount, cut_pots, build_pots, pot_levels, has_hand,
  ranked_of, rank_players, best_first, pay_pots, pots_total, accounted_for, award_pots,
  check_accounts, settled, lost_chips, settle_showdown,
}
use casino_app.Poker.Pots.Layers.{build_pots-All}
use casino_app.Poker.Pots.Sides.{find_pot_player, DistinctIds}
use casino_app.Poker.Pots.Payment.{held, pay_pots_total}

abbrev pub chips : List PotPlayer → ℕ
chips = sum_of (λ p. p.committed)

abbrev pub returned_chips : List (ℕ × ℕ) → ℕ
returned_chips = sum_of (λ r. r.1)

-- Nobody else shares the id: nothing changes.
reduce_strangers :
    (owner excess : ℕ) (players : List PotPlayer)
    → find_pot_player owner players ≡ none
    → chips (map (reduce_commitment owner excess) players) ≡ chips players
reduce_strangers owner excess [] h = refl
reduce_strangers owner excess (p ∷ players) h =
    ground (arith, reduce_strangers owner excess players)

found_by_id :
    (highest : ℕ) (owner : PotPlayer) (players : List PotPlayer)
    → find (λ (p : PotPlayer). p.committed == highest) players ≡ some owner
    → find_pot_player owner.user_id players ≢ none
found_by_id highest owner [] f e = absurd (ground arith)
found_by_id highest owner (p ∷ players) f e =
    ground (arith, found_by_id highest owner players, (==_iff p.user_id p.user_id).1 refl)

reduce_owner :
    (owner : PotPlayer) (excess highest : ℕ) (players : List PotPlayer)
    → DistinctIds players
    → find (λ (p : PotPlayer). p.committed == highest) players ≡ some owner
    → excess ≤ highest
    → chips (map (reduce_commitment owner.user_id excess) players) + excess ≡ chips players
reduce_owner owner excess highest [] d f h = cc
reduce_owner owner excess highest (p ∷ players) d f h = elim (Bool-cases (p.committed == highest)) [
  | inl hit ↦
      (let same : p ≡ owner = ground arith in
        let ids : p.user_id ≡ owner.user_id = ap (λ (q : PotPlayer). q.user_id) same in
        ground (
          arith,
          reduce_strangers owner.user_id excess players (rw ids at d.0),
          (==_iff p.user_id owner.user_id).1 ids,
        ))
  | inr miss ↦
      (let later : find (λ (p : PotPlayer). p.committed == highest) players ≡ some owner =
          ground arith in
        elim (Bool-cases (p.user_id == owner.user_id)) [
          | inl clash ↦ absurd (
              found_by_id highest owner players later
                (rw ((==_iff p.user_id owner.user_id).0 clash) at d.0))
          | inr other ↦ ground (arith, reduce_owner owner excess highest players d.1 later h)
        ])
]

excess_total :
    (players : List PotPlayer)
    → DistinctIds players
    → (highest second : ℕ)
    → chips (return_excess players highest second).0
        + returned_chips (return_excess players highest second).1
      ≡ chips players
excess_total players d highest second =
    elim (Option-cases (find (λ (p : PotPlayer). p.committed == highest) players)) [
      | inl nobody ↦ rw (nobody, return_excess) (omega arith)
      | inr (owner, found) ↦
          rw (found, return_excess)
            (omega
              (arith, reduce_owner owner (highest - second) highest players d found (omega arith)))
    ]

-- The excess comes out of the commitments, and nothing else changes the sum.
pub return_uncalled_total :
    (players : List PotPlayer)
    → DistinctIds players
    → chips (return_uncalled players).0 + returned_chips (return_uncalled players).1 ≡ chips players
unfolding return_uncalled
return_uncalled_total players d =
    let highest = nth_commitment players 0 in
    let second = nth_commitment players 1 in
    elim (Bool-cases (highest == 0 || highest == second)) [
      | inl matched ↦ rw matched (omega arith)
      | inr differ ↦ rw differ (excess_total players d highest second)
    ]

cut_pots-eligible :
    (players : List PotPlayer) (low : ℕ) (ls : List ℕ)
    → All (λ (p : Pot). 0 < length p.eligible) (cut_pots players low ls)
unfolding cut_pots
cut_pots-eligible players low [] = tt
cut_pots-eligible players low (l ∷ ls) =
    elim (Bool-cases
      (ltb 0 (layer_amount players low l) && ltb 0 (length (eligible_at players l)))) [
        | inl kept ↦ rw kept (ground arith, cut_pots-eligible players l ls)
        | inr skipped ↦ rw skipped (cut_pots-eligible players l ls)
      ]

held-pay-All :
    (players : List PotPlayer) (ranked : List Ranked) (rake total : ℕ) (pots : List Pot)
    → All (λ (p : Pot). 0 < length p.eligible) pots
    → rake ≤ pots_total pots
    → held (pay_pots players ranked rake total (pos 0) pots []) +ℤ pos rake ≡ pos (pots_total pots)
held-pay-All players ranked rake total [] h l = unfold pay_pots in omega int_laws
held-pay-All players ranked rake total (pot ∷ pots) h l =
    omega (int_laws, eq_parts _ _ (pay_pots_total players ranked rake total (pos 0) pot pots [] h))

-- Enough cards to rank: each player with a hand makes at least five cards with the board.
abbrev pub CanRank : List ℕ → PotPlayer → Type 0
CanRank board p = has_hand p ≡ true → 5 ≤ length (or_else p.cards [] ++ board)

evaluate_long : (cards : List ℕ) → 5 ≤ length cards → evaluate cards ≡ some (rank_hand cards)
unfolding evaluate
evaluate_long cards h = ground arith

rank_players_total :
    (board : List ℕ) (players : List PotPlayer)
    → All (CanRank board) players
    → (ranked : List Ranked) × (rank_players board players ≡ some ranked)
unfolding rank_players
rank_players_total board [] h = ([], refl)
rank_players_total board (p ∷ players) h =
    let (rest, found) = rank_players_total board players h.1 in
    elim (Bool-cases (has_hand p)) [
      | inl held_cards ↦
          (let cards = or_else p.cards [] ++ board in
            let best : evaluate cards ≡ some (rank_hand cards) =
              evaluate_long cards (h.0 held_cards) in
            (
              ranked_of p (rank_hand cards) ∷ rest,
              rw (found, rank_players) (rw held_cards (rw best refl)),
            ))
      | inr without_cards ↦ (rest, rw (found, rank_players) (rw without_cards refl))
    ]

award_pots_accounts :
    (players adjusted : List PotPlayer) (returned : List (ℕ × ℕ)) (asked : ℕ) (ranked : List Ranked)
    → chips adjusted + returned_chips returned ≡ chips players
    → All (λ p. p.committed ≤ max_live adjusted) adjusted
    → accounted_for (award_pots adjusted returned asked (build_pots adjusted) ranked)
      ≡ pos (chips players)
unfolding build_pots
award_pots_accounts players adjusted returned asked ranked same covered = omega (
  int_laws,
  eq_parts _ _ (
      held-pay-All adjusted ranked (min asked (pots_total (build_pots adjusted)))
        (pots_total (build_pots adjusted)) (build_pots adjusted)
        (cut_pots-eligible adjusted 0 (pot_levels adjusted)) (omega arith)),
  build_pots-All adjusted covered,
)

check_accounts-settled :
    (committed : ℕ) (s : Showdown)
    → accounted_for s ≡ pos committed
    → check_accounts committed s ≡ settled s
check_accounts-settled committed s h = elim (Bool-cases (eqb_ℤ (accounted_for s) (pos committed))) [
  | inl same ↦ rw (same, check_accounts)
  | inr differ ↦ absurd (ground (arith, eq_parts (accounted_for s) (pos committed) h))
]

-- A showdown succeeds, and in it every chip committed is awarded, returned or raked, if after the
-- return of the uncalled excess no folded player has put in more than everybody still in, the ids are
-- distinct, and the hands to rank have five cards.
pub settle_showdown_conserves :
    (players : List PotPlayer) (board : List ℕ) (rake : ℕ)
    → DistinctIds players
    → All (λ p. p.committed ≤ max_live (return_uncalled players).0) (return_uncalled players).0
    → All (CanRank board) (return_uncalled players).0
    → (s : Showdown) × (settle_showdown players board rake ≡ settled s)
      × (accounted_for s ≡ pos (chips players))
      × (s.rake ≤ rake)
unfolding settle_showdown
settle_showdown_conserves players board rake d covered hands =
    let adjusted = (return_uncalled players).0 in
    let returned = (return_uncalled players).1 in
    let (ranked, found) = rank_players_total board adjusted hands in
    let s = award_pots adjusted returned rake (build_pots adjusted) (sort_by best_first ranked) in
    let accounts : accounted_for s ≡ pos (chips players) =
      award_pots_accounts players adjusted returned rake (sort_by best_first ranked)
        (return_uncalled_total players d) covered in
    (
      s,
      rw (found, settle_showdown) (check_accounts-settled (chips players) s accounts),
      accounts,
      omega arith,
    )

-- A showdown that is accepted accounts for all that was committed.
pub settled_accounts :
    (players : List PotPlayer) (board : List ℕ) (rake : ℕ) (s : Showdown)
    → settle_showdown players board rake ≡ settled s
    → accounted_for s ≡ pos (chips players)
unfolding settle_showdown
settled_accounts players board rake s e =
    elim (Option-cases (rank_players board (return_uncalled players).0)) [
      | inl failed ↦ absurd (ground arith)
      | inr (ranked, found) ↦
          checked
            (award_pots (return_uncalled players).0 (return_uncalled players).1 rake
              (build_pots (return_uncalled players).0) (sort_by best_first ranked))
            (rw (found, settle_showdown) at e)
    ]
  where
    checked :
        (t : Showdown)
        → check_accounts (chips players) t ≡ settled s
        → accounted_for s ≡ pos (chips players)
    checked t h = elim (Bool-cases (eqb_ℤ (accounted_for t) (pos (chips players)))) [
      | inl same ↦
          (let equal : accounted_for t ≡ pos (chips players) =
              eq_of_parts (accounted_for t) (pos (chips players)) (ground arith) in
            let is : t ≡ s = settled_same (rw same at h) in rw is at equal)
      | inr differ ↦ absurd (settled_differs (rw differ at h))
    ]
      where
        settled_same : settled t ≡ settled s → t ≡ s
        settled_same q = ground arith

        settled_differs : lost_chips (chips players) (accounted_for t) ≡ settled s → ⊥
        settled_differs q = ground arith
