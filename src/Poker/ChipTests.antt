-- ===== src/Poker/ChipTests.antt =====
-- Cards and side pots on concrete numbers.
use casino_app.Prelude.{
  includes, ℕ, zero, suc, ◌+◌, ◌-◌, ◌*◌, ◌≤◌, ◌<◌, ◌≡◌, refl, ◌⊎◌, Bool, true, false, Option, none,
  some, List, [], ◌∷◌, map, length, All, arith,
}
use casino_app.Prelude.Int.{ℤ, pos, negsuc, ◌+ℤ◌, ◌-ℤ◌}
use casino_app.Poker.Cards.{HandRank, deck_size, shuffle, find_straight, evaluate}
use casino_app.Poker.Cards.Shuffle.{occurrences, shuffle_complete}
use casino_app.Poker.Cards.Straights.{BestBelow, find_straight_best}
use casino_app.Poker.Cards.Ranking.{InDeck, evaluate_orders}
use casino_app.Poker.Pots.{
  PotPlayer, Pot, Ranked, Showdown, settled, settle_showdown, build_pots, accounted_for, pots_total,
  max_live, pay_pots, pay_pot, lost_chips,
}
use casino_app.Poker.Pots.Layers.{capped, winnable}
use casino_app.Poker.Pots.Sides.{side_pot_limit}
use casino_app.Poker.Pots.Conservation.{chips, settle_showdown_conserves}

abbrev royal : List ℕ
royal = 32 ∷ 36 ∷ 40 ∷ 44 ∷ 48 ∷ 1 ∷ 7 ∷ []

abbrev pair : List ℕ
pair = 0 ∷ 1 ∷ 8 ∷ 17 ∷ 26 ∷ 35 ∷ 45 ∷ []

evaluate_orders_example :
    (h : HandRank) × (h' : HandRank) × (evaluate pair ≡ some h)
    × (evaluate royal ≡ some h')
    × (h.category < h'.category → h.value < h'.value)
    × (h.value ≡ h'.value → h.category ≡ h'.category)
evaluate_orders_example =
    evaluate_orders pair royal (omega arith) (omega arith)
      (
        omega arith,
        (
          omega arith,
          (omega arith, (omega arith, (omega arith, (omega arith, (omega arith, tt))))),
        ),
      )
      (
        omega arith,
        (
          omega arith,
          (omega arith, (omega arith, (omega arith, (omega arith, (omega arith, tt))))),
        ),
      )

shuffle_complete_example :
    (deck : List ℕ) × (shuffle (λ i. 0) ≡ some deck)
    × (length deck ≡ deck_size)
    × ((card : ℕ) → card < deck_size → occurrences card deck ≡ 1)
shuffle_complete_example = shuffle_complete (λ i. 0) (λ i. omega arith)

find_straight_best_example :
    All InDeck (48 ∷ 44 ∷ 40 ∷ 36 ∷ 32 ∷ []) × BestBelow royal 9 (48 ∷ 44 ∷ 40 ∷ 36 ∷ 32 ∷ [])
unfolding find_straight
find_straight_best_example =
    find_straight_best InDeck royal {run = 48 ∷ 44 ∷ 40 ∷ 36 ∷ 32 ∷ []}
      (
        omega arith,
        (
          omega arith,
          (omega arith, (omega arith, (omega arith, (omega arith, (omega arith, tt))))),
        ),
      )
      refl

abbrev player_of : ℕ → ℕ → Bool → List ℕ → PotPlayer
player_of user committed folded cards = record {
  user_id = user;
  committed = committed;
  folded = folded;
  all_in = true;
  cards = some cards;
  order = user;
}

-- A short all-in, two callers, and one who folded after calling less.
abbrev table : List PotPlayer
table =
    player_of 1 10 false (0 ∷ 13 ∷ [])
    ∷ player_of 2 40 false (5 ∷ 18 ∷ [])
    ∷ player_of 3 40 false (7 ∷ 21 ∷ [])
    ∷ player_of 4 25 true []
    ∷ []

abbrev board : List ℕ
board = 30 ∷ 31 ∷ 45 ∷ 46 ∷ 50 ∷ []

settle_showdown_conserves_example :
    (s : Showdown) × (settle_showdown table board 3 ≡ settled s)
    × (accounted_for s ≡ pos (chips table))
    × (s.rake ≤ 3)
unfolding casino_app.Poker.Pots.return_uncalled
settle_showdown_conserves_example =
    settle_showdown_conserves table board 3 (refl, (refl, (refl, (refl, tt))))
      (omega arith, (omega arith, (omega arith, (omega arith, tt))))
      ((λ e. omega arith), ((λ e. omega arith), ((λ e. omega arith), ((λ e. ground arith), tt))))

-- A player who put 25 in and folded.
side_pot_limit_example :
    (winnable 4 (build_pots table) ≤ capped table 25)
    × (true ≡ true → All (λ (pot : Pot). includes pot.eligible 4 ≡ false) (build_pots table))
side_pot_limit_example =
    side_pot_limit table 4 (player_of 4 25 true []) (refl, (refl, (refl, (refl, tt)))) refl

abbrev main_pot : Pot
main_pot = record { amount = 40; eligible = 1 ∷ 2 ∷ 3 ∷ [] }

abbrev side_pot : Pot
side_pot = record { amount = 75; eligible = 2 ∷ 3 ∷ [] }

-- Six players all in with 2, 4, 6, 9, 10 and 10 chips, at a rake of 4: one chip of it falls on the first
-- pot and three on the last, which holds 2, and its winner is awarded -1.
abbrev short_stacks : List PotPlayer
short_stacks =
    player_of 1 2 false (0 ∷ 13 ∷ [])
    ∷ player_of 2 4 false (1 ∷ 14 ∷ [])
    ∷ player_of 3 6 false (2 ∷ 15 ∷ [])
    ∷ player_of 4 9 false (3 ∷ 16 ∷ [])
    ∷ player_of 5 10 false (4 ∷ 17 ∷ [])
    ∷ player_of 6 10 false (5 ∷ 18 ∷ [])
    ∷ []

build_pots-short_stacks :
    map (λ (p : Pot). p.amount) (build_pots short_stacks) ≡ 12 ∷ 10 ∷ 8 ∷ 9 ∷ 2 ∷ []
unfolding build_pots
build_pots-short_stacks = refl

last_pot_pays_negative :
    pay_pots short_stacks [] 4 41 (pos 1) (record { amount = 2; eligible = 5 ∷ 6 ∷ [] } ∷ []) []
    ≡ (5, negsuc 0) ∷ []
unfolding pay_pots ◌-ℤ◌ ◌+ℤ◌ casino_app.Prelude.Int.floor_div casino_app.Prelude.Int.scale
last_pot_pays_negative = refl
