-- ===== src/Poker/Cards.antt =====
-- apps/api/src/games/poker/cards.ts: cards as numbers from 0 to 51, the shuffle, and the evaluator of
-- five to seven cards. The tables `byRank`, `bySuit` and `suited` are what they hold: counts and
-- filtered lists.
pub mod Straights
pub mod Ranking
pub mod Shuffle
use casino_app.Prelude.{
  ℕ, zero, suc, ◌+◌, ◌-◌, ◌*◌, ◌/◌, ◌%◌, Bool, true, false, not, ◌&&◌, ◌||◌, ◌==◌, ltb, leb,
  if◌then◌else◌, Option, none, some, or_else, List, [], ◌∷◌, ◌++◌, map, length, get_elem?, set,
  take, find, filter, includes,
}
use casino_app.Prelude.Sort.{sort_by}

abbrev pub deck_size : ℕ
deck_size = 52

abbrev pub rank_of : ℕ → ℕ
rank_of card = card / 4

abbrev pub suit_of : ℕ → ℕ
suit_of card = card % 4

-- `Array.from({ length }, (_, i) => i)`, from `i` on.
abbrev pub range_from : ℕ → ℕ → List ℕ
range_from zero i = []
range_from (suc n) i = i ∷ range_from n (i + 1)

-- `deck[i]` and `deck[j]` change places; `none` where the draw is no index of the deck.
unfoldable pub swap : List ℕ → ℕ → ℕ → Option (List ℕ)
swap deck i j = elim (get_elem? deck i) [
  | none ↦ none
  | some a ↦ elim (get_elem? deck j) [ none ↦ none | some b ↦ some (set (set deck i b) j a) ]
]

-- The loop of `shuffle`, from index `i` down to 1; `random i` is the draw below `i + 1`.
unfoldable pub shuffle_from : (ℕ → ℕ) → ℕ → List ℕ → Option (List ℕ)
shuffle_from random zero deck = some deck
shuffle_from random (suc i) deck = elim (swap deck (suc i) (random (suc i))) [
  | none ↦ none
  | some swapped ↦ shuffle_from random i swapped
]

unfoldable pub shuffle : (ℕ → ℕ) → Option (List ℕ)
unfolding shuffle_from swap
shuffle random = shuffle_from random (deck_size - 1) (range_from deck_size 0)

pub record HandRank : Type 0 where
  pub value : ℕ
  pub category : ℕ
  pub cards : List ℕ

-- `HandCategory`.
abbrev pub high_card : ℕ
high_card = 0

abbrev pub pair : ℕ
pair = 1

abbrev pub two_pair : ℕ
two_pair = 2

abbrev pub trips : ℕ
trips = 3

abbrev pub straight : ℕ
straight = 4

abbrev pub flush : ℕ
flush = 5

abbrev pub full_house : ℕ
full_house = 6

abbrev pub quads : ℕ
quads = 7

abbrev pub straight_flush : ℕ
straight_flush = 8

abbrev pub by_rank_desc : ℕ → ℕ → Bool
by_rank_desc a b = leb (rank_of b) (rank_of a)

abbrev pub sort_desc : List ℕ → List ℕ
sort_desc = sort_by by_rank_desc

-- `kickers[i] ?? 0`.
abbrev pub slot : List ℕ → ℕ → ℕ
slot kickers i = or_else (get_elem? kickers i) 0

-- The loop of `rank`.
abbrev pub pack_from : ℕ → ℕ → ℕ → List ℕ → ℕ
pack_from zero i value kickers = value
pack_from (suc n) i value kickers = pack_from n (i + 1) (value * 16 + slot kickers i) kickers

unfoldable pub rank : ℕ → List ℕ → List ℕ → HandRank
rank category kickers cards = record {
  value = pack_from 5 0 category kickers;
  category = category;
  cards = sort_desc cards;
}

-- `present[r]`: the first card of a rank.
abbrev pub present : List ℕ → ℕ → Option ℕ
present cards r = find (λ c. rank_of c == r) cards

-- Five ranks, if a card of each is there.
abbrev pub run_of : List ℕ → List ℕ → Option (List ℕ)
run_of cards [] = some []
run_of cards (r ∷ ranks) = elim (present cards r) [
  | none ↦ none
  | some card ↦ elim (run_of cards ranks) [ none ↦ none | some run ↦ some (card ∷ run) ]
]

-- The loop over the high card, from `n + 3` down to 4.
abbrev pub straight_below : List ℕ → ℕ → Option (List ℕ)
straight_below cards zero = run_of cards (3 ∷ 2 ∷ 1 ∷ 0 ∷ 12 ∷ [])
straight_below cards (suc n) =
    let lower = straight_below cards n in
    elim (run_of cards ((n + 4) ∷ (n + 3) ∷ (n + 2) ∷ (n + 1) ∷ n ∷ [])) [
      | none ↦ lower
      | some run ↦ some run
    ]

unfoldable pub find_straight : List ℕ → Option (List ℕ)
find_straight cards = straight_below cards 9

pub record Group : Type 0 where
  pub rank : ℕ
  pub count : ℕ

abbrev pub count_rank : List ℕ → ℕ → ℕ
count_rank cards r = length (filter (λ c. rank_of c == r) cards)

abbrev pub suited : List ℕ → ℕ → List ℕ
suited cards s = filter (λ c. suit_of c == s) cards

-- Count descending, then rank descending.
abbrev pub group_before : Group → Group → Bool
group_before a b = ltb b.count a.count || (a.count == b.count && leb b.rank a.rank)

-- The loop of `groupsByCount`, over the ranks below `n`, the highest first.
abbrev pub groups_below : List ℕ → ℕ → List Group
groups_below cards zero = []
groups_below cards (suc r) =
    let rest = groups_below cards r in
    if ltb 0 (count_rank cards r)
    then record { rank = r; count = count_rank cards r } ∷ rest
    else rest

unfoldable pub groups_by_count : List ℕ → List Group
groups_by_count cards = sort_by group_before (groups_below cards 13)

abbrev pub pick : List ℕ → ℕ → ℕ → List ℕ
pick cards target count = take count (filter (λ c. rank_of c == target) cards)

abbrev pub highest_excluding : List ℕ → List ℕ → ℕ → List ℕ
highest_excluding cards excluded count =
    take count (sort_desc (filter (λ c. not (includes excluded (rank_of c))) cards))

abbrev pub best_five : List ℕ → List ℕ
best_five cards = take 5 (sort_desc cards)

-- `rankOf(cards[0]!)`: the lists that this is read of have a card.
abbrev pub head_rank : List ℕ → ℕ
head_rank cards = rank_of (slot cards 0)

-- `bySuit.findIndex((count) => count >= 5)`.
abbrev pub flush_suit : List ℕ → Option ℕ
flush_suit cards = find (λ s. leb 5 (length (suited cards s))) (0 ∷ 1 ∷ 2 ∷ 3 ∷ [])

-- The trips and the pair of a full house: two sets of trips make one.
abbrev pub house : List Group → List Group → Option (ℕ × ℕ)
house [] pairs = none
house (t ∷ u ∷ _) pairs = some (t.rank, u.rank)
house (t ∷ []) [] = none
house (t ∷ []) (p ∷ _) = some (t.rank, p.rank)

-- The end of `evaluate`, below a straight, by the trips and the pairs among the groups.
abbrev pub rank_sets : List ℕ → List Group → List Group → HandRank
rank_sets cards (t ∷ _) pairs =
    let kickers = highest_excluding cards (t.rank ∷ []) 2 in
    rank trips (t.rank ∷ map rank_of kickers) (pick cards t.rank 3 ++ kickers)
rank_sets cards [] (high ∷ low ∷ _) =
    let kicker = highest_excluding cards (high.rank ∷ low.rank ∷ []) 1 in
    rank two_pair (high.rank ∷ low.rank ∷ head_rank kicker ∷ [])
      (pick cards high.rank 2 ++ (pick cards low.rank 2 ++ kicker))
rank_sets cards [] (p ∷ []) =
    let kickers = highest_excluding cards (p.rank ∷ []) 3 in
    rank pair (p.rank ∷ map rank_of kickers) (pick cards p.rank 2 ++ kickers)
rank_sets cards [] [] = rank high_card (map rank_of (best_five cards)) (best_five cards)

abbrev pub rank_straight : List ℕ → List Group → List Group → HandRank
rank_straight cards ts ps = elim (find_straight cards) [
  | none ↦ rank_sets cards ts ps
  | some run ↦ rank straight (head_rank run ∷ []) run
]

abbrev pub rank_flush : List ℕ → List Group → List Group → HandRank
rank_flush cards ts ps = elim (flush_suit cards) [
  | none ↦ rank_straight cards ts ps
  | some s ↦ rank flush (map rank_of (best_five (suited cards s))) (best_five (suited cards s))
]

abbrev pub rank_house : List ℕ → List Group → List Group → HandRank
rank_house cards ts ps = elim (house ts ps) [
  | none ↦ rank_flush cards ts ps
  | some (t, p) ↦ rank full_house (t ∷ p ∷ []) (pick cards t 3 ++ pick cards p 2)
]

-- `evaluate` from `groupsByCount` on.
abbrev pub rank_groups : List ℕ → List Group → HandRank
rank_groups cards groups = elim (find (λ g. g.count == 4) groups) [
  | none ↦ rank_house cards (filter (λ g. g.count == 3) groups) (filter (λ g. g.count == 2) groups)
  | some quad ↦
      (let kicker = highest_excluding cards (quad.rank ∷ []) 1 in
        rank quads (quad.rank ∷ head_rank kicker ∷ []) (pick cards quad.rank 4 ++ kicker))
]

abbrev pub find_straight_flush : List ℕ → Option (List ℕ)
find_straight_flush cards = elim (flush_suit cards) [
  | none ↦ none
  | some s ↦ find_straight (suited cards s)
]

abbrev pub rank_hand : List ℕ → HandRank
rank_hand cards = elim (find_straight_flush cards) [
  | none ↦ rank_groups cards (groups_by_count cards)
  | some run ↦ rank straight_flush (head_rank run ∷ []) run
]

-- `none` stands for the error on fewer than five cards.
unfoldable pub evaluate : List ℕ → Option HandRank
unfolding rank find_straight groups_by_count
evaluate cards = if ltb (length cards) 5 then none else some (rank_hand cards)
