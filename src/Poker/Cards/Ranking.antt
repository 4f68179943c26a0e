-- ===== src/Poker/Cards/Ranking.antt =====
-- Hand values: `category` in the high digits and five kickers below it.
use casino_app.Prelude.{
  ap, ℕ, zero, suc, ◌/◌, ◌≤◌, ◌<◌, ◌≡◌, inl, inr, some, List, [], ◌∷◌, map, arith, Bool-cases,
  Option-cases, ◌==◌, ltb, length, get_elem?, find, All, All-filter, All-take, All-find,
  All-get_elem?,
}
use casino_app.Prelude.Sort.{All-sort_by}
use casino_app.Poker.Cards.Straights.{find_straight_best}
use casino_app.Poker.Cards.{
  rank_of, HandRank, slot, rank, Group, groups_below, groups_by_count, count_rank,
  highest_excluding, best_five, head_rank, suited, flush_suit, house, rank_sets, rank_straight,
  rank_flush, rank_house, rank_groups, rank_hand, evaluate, find_straight, find_straight_flush,
  by_rank_desc, group_before,
}

abbrev pub IsDigit : ℕ → Type 0
IsDigit k = k < 16

slot-IsDigit : (kickers : List ℕ) (i : ℕ) → All IsDigit kickers → slot kickers i < 16
slot-IsDigit kickers i h = elim (Option-cases (get_elem? kickers i)) [
  | inl missing ↦ rw (missing, slot) (omega arith)
  | inr (k, there) ↦ rw (there, slot) (All-get_elem? IsDigit kickers i h there)
]

-- The value of a hand determines its category.
abbrev pub IsPacked : HandRank → Type 0
IsPacked h = h.category ≡ h.value / 1_048_576

-- Two values, with kickers below 16, agree only if the categories and the five kickers do.
pub rank-value :
    (c d : ℕ) (ks ls cards cards' : List ℕ)
    → All IsDigit ks
    → All IsDigit ls
    → (rank c ks cards).value ≡ (rank d ls cards').value
    → (c ≡ d)
      × (slot ks 0 ≡ slot ls 0)
      × (slot ks 1 ≡ slot ls 1)
      × (slot ks 2 ≡ slot ls 2)
      × (slot ks 3 ≡ slot ls 3)
      × (slot ks 4 ≡ slot ls 4)
unfolding rank
rank-value c d ks ls cards cards' hk hl e = omega (
  arith,
  slot-IsDigit ks 0 hk,
  slot-IsDigit ks 1 hk,
  slot-IsDigit ks 2 hk,
  slot-IsDigit ks 3 hk,
  slot-IsDigit ks 4 hk,
  slot-IsDigit ls 0 hl,
  slot-IsDigit ls 1 hl,
  slot-IsDigit ls 2 hl,
  slot-IsDigit ls 3 hl,
  slot-IsDigit ls 4 hl,
)

rank-IsPacked :
    (category : ℕ) (kickers cards : List ℕ)
    → All IsDigit kickers
    → IsPacked (rank category kickers cards)
unfolding rank
rank-IsPacked category kickers cards h = omega (
  arith,
  slot-IsDigit kickers 0 h,
  slot-IsDigit kickers 1 h,
  slot-IsDigit kickers 2 h,
  slot-IsDigit kickers 3 h,
  slot-IsDigit kickers 4 h,
)

abbrev pub InDeck : ℕ → Type 0
InDeck card = card < 52

rank_of-IsDigit : (card : ℕ) → InDeck card → IsDigit (rank_of card)
rank_of-IsDigit card h = omega arith

ranks-IsDigit : (cards : List ℕ) → All InDeck cards → All IsDigit (map rank_of cards)
ranks-IsDigit [] h = tt
ranks-IsDigit (c ∷ cards) h = (rank_of-IsDigit c h.0, ranks-IsDigit cards h.1)

head_rank-IsDigit : (cards : List ℕ) → All InDeck cards → IsDigit (head_rank cards)
head_rank-IsDigit [] h = omega arith
head_rank-IsDigit (c ∷ cards) h = rank_of-IsDigit c h.0

best_five-InDeck : (cards : List ℕ) → All InDeck cards → All InDeck (best_five cards)
best_five-InDeck cards h = All-take InDeck 5 _ (All-sort_by by_rank_desc InDeck cards h)

highest_excluding-InDeck :
    (cards excluded : List ℕ) (count : ℕ)
    → All InDeck cards
    → All InDeck (highest_excluding cards excluded count)
highest_excluding-InDeck cards excluded count h =
    All-take InDeck count _ (All-sort_by by_rank_desc InDeck _ (All-filter InDeck _ cards h))

abbrev pub IsGroup : Group → Type 0
IsGroup g = IsDigit g.rank

groups_below-IsGroup : (cards : List ℕ) (n : ℕ) → n ≤ 13 → All IsGroup (groups_below cards n)
groups_below-IsGroup cards zero h = tt
groups_below-IsGroup cards (suc r) h = elim (Bool-cases (ltb 0 (count_rank cards r))) [
  | inl held ↦ rw held (omega arith, groups_below-IsGroup cards r (omega arith))
  | inr absent ↦ rw absent (groups_below-IsGroup cards r (omega arith))
]

rank_sets-IsPacked :
    (cards : List ℕ) (ts ps : List Group)
    → All InDeck cards
    → All IsGroup ts
    → All IsGroup ps
    → IsPacked (rank_sets cards ts ps)
rank_sets-IsPacked cards (t ∷ ts) ps h ht hp =
    rank-IsPacked _ _ _ (ht.0, ranks-IsDigit _ (highest_excluding-InDeck cards (t.rank ∷ []) 2 h))
rank_sets-IsPacked cards [] (a ∷ b ∷ ps) h ht hp =
    let excluded = a.rank ∷ b.rank ∷ [] in
    rank-IsPacked _ _ _
      (hp.0, (hp.1.0, (head_rank-IsDigit _ (highest_excluding-InDeck cards excluded 1 h), tt)))
rank_sets-IsPacked cards [] (a ∷ []) h ht hp =
    rank-IsPacked _ _ _ (hp.0, ranks-IsDigit _ (highest_excluding-InDeck cards (a.rank ∷ []) 3 h))
rank_sets-IsPacked cards [] [] h ht hp =
    rank-IsPacked _ _ _ (ranks-IsDigit _ (best_five-InDeck cards h))

rank_run-IsPacked :
    (category : ℕ) (cards run : List ℕ)
    → All InDeck cards
    → find_straight cards ≡ some run
    → IsPacked (rank category (head_rank run ∷ []) run)
rank_run-IsPacked category cards run h e =
    rank-IsPacked _ _ _ (head_rank-IsDigit run (find_straight_best InDeck cards h e).0, tt)

rank_straight-IsPacked :
    (cards : List ℕ) (ts ps : List Group)
    → All InDeck cards
    → All IsGroup ts
    → All IsGroup ps
    → IsPacked (rank_straight cards ts ps)
rank_straight-IsPacked cards ts ps h ht hp = elim (Option-cases (find_straight cards)) [
  | inl missing ↦ rw (missing, rank_straight) (rank_sets-IsPacked cards ts ps h ht hp)
  | inr (run, found) ↦ rw (found, rank_straight) (rank_run-IsPacked 4 cards run h found)
]

rank_flush-IsPacked :
    (cards : List ℕ) (ts ps : List Group)
    → All InDeck cards
    → All IsGroup ts
    → All IsGroup ps
    → IsPacked (rank_flush cards ts ps)
rank_flush-IsPacked cards ts ps h ht hp = elim (Option-cases (flush_suit cards)) [
  | inl missing ↦ rw (missing, rank_flush) (rank_straight-IsPacked cards ts ps h ht hp)
  | inr (s, found) ↦
      rw (found, rank_flush)
        (rank-IsPacked _ _ _
          (ranks-IsDigit _ (best_five-InDeck (suited cards s) (All-filter InDeck _ cards h))))
]

house-IsDigit :
    (ts ps : List Group) {t p : ℕ}
    → All IsGroup ts
    → All IsGroup ps
    → house ts ps ≡ some (t, p)
    → IsDigit t × IsDigit p
house-IsDigit [] ps ht hp e = absurd (ground arith)
house-IsDigit (a ∷ b ∷ ts) ps ht hp e = ground arith
house-IsDigit (a ∷ []) [] ht hp e = absurd (ground arith)
house-IsDigit (a ∷ []) (b ∷ ps) ht hp e = ground arith

rank_house-IsPacked :
    (cards : List ℕ) (ts ps : List Group)
    → All InDeck cards
    → All IsGroup ts
    → All IsGroup ps
    → IsPacked (rank_house cards ts ps)
rank_house-IsPacked cards ts ps h ht hp = elim (Option-cases (house ts ps)) [
  | inl missing ↦ rw (missing, rank_house) (rank_flush-IsPacked cards ts ps h ht hp)
  | inr ((t, p), found) ↦
      rw (found, rank_house)
        (let (dt, dp) = house-IsDigit ts ps ht hp found in rank-IsPacked _ _ _ (dt, (dp, tt)))
]

rank_groups-IsPacked :
    (cards : List ℕ) (groups : List Group)
    → All InDeck cards
    → All IsGroup groups
    → IsPacked (rank_groups cards groups)
rank_groups-IsPacked cards groups h hg =
    elim (Option-cases (find (λ (g : Group). g.count == 4) groups)) [
      | inl missing ↦
          rw (missing, rank_groups)
            (rank_house-IsPacked cards _ _ h (All-filter IsGroup _ groups hg)
              (All-filter IsGroup _ groups hg))
      | inr (quad, found) ↦
          rw (found, rank_groups)
            (rank-IsPacked _ _ _ (
              (All-find IsGroup _ groups hg found).0,
              (head_rank-IsDigit _ (highest_excluding-InDeck cards (quad.rank ∷ []) 1 h), tt),
            ))
    ]

rank_hand-IsPacked : (cards : List ℕ) → All InDeck cards → IsPacked (rank_hand cards)
unfolding groups_by_count
rank_hand-IsPacked cards h = elim (Option-cases (flush_suit cards)) [
  | inl missing ↦ rw (missing, rank_hand, find_straight_flush) plain
  | inr (s, found) ↦ elim (Option-cases (find_straight (suited cards s))) [
    | inl missing ↦
        rw (found, rank_hand, find_straight_flush)
          (rw (missing, rank_hand, find_straight_flush) plain)
    | inr (run, there) ↦
        rw (found, rank_hand, find_straight_flush)
          (rw (there, rank_hand, find_straight_flush)
            (rank_run-IsPacked 8 (suited cards s) run (All-filter InDeck _ cards h) there))
  ]
]
  where
    plain : IsPacked (rank_groups cards (groups_by_count cards))
    plain =
        rank_groups-IsPacked cards (groups_by_count cards) h
          (All-sort_by group_before IsGroup _ (groups_below-IsGroup cards 13 (omega arith)))

-- Any five or more cards of the deck have a rank; of two ranked hands the one of the higher category
-- has the higher value, and hands of equal value are of one category.
pub evaluate_orders :
    (cards cards' : List ℕ)
    → 5 ≤ length cards
    → 5 ≤ length cards'
    → All InDeck cards
    → All InDeck cards'
    → (h : HandRank) × (h' : HandRank) × (evaluate cards ≡ some h)
      × (evaluate cards' ≡ some h')
      × (h.category < h'.category → h.value < h'.value)
      × (h.value ≡ h'.value → h.category ≡ h'.category)
unfolding evaluate
evaluate_orders cards cards' l l' d d' = (
  rank_hand cards,
  rank_hand cards',
  ground arith,
  ground arith,
  λ less. omega (arith, rank_hand-IsPacked cards d, rank_hand-IsPacked cards' d'),
  λ same. omega (
    arith,
    rank_hand-IsPacked cards d,
    rank_hand-IsPacked cards' d',
    ap (λ (v : ℕ). v / 1_048_576) same,
  ),
)
