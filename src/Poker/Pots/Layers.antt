-- ===== src/Poker/Pots/Layers.antt =====
-- The levels and the amounts of the pots: `buildPots` of apps/api/src/games/poker/pots.ts.
use casino_app.Prelude.{
  ℕ, ◌+◌, ◌≤◌, ◌<◌, ◌≡◌, ◌⊎◌, inl, inr, refl, true, false, not, ◌&&◌, ◌==◌, ltb, leb, if◌then◌else◌,
  List, [], ◌∷◌, ◌++◌, map, length, filter, includes, unique, without, sum_of, All, All-filter,
  All-append, Bool-cases, arith, min, max, tests, ap,
}
use native.Mathlib.Decide.{dec_lt}
use casino_app.Prelude.Sort.{sort_by, insert_by, All-sort_by}
use casino_app.Poker.Pots.{
  PotPlayer, Pot, is_in, max_live, smallest_first, all_in_levels, is_last, add_top, pot_levels,
  layer_amount, is_eligible, eligible_at, cut_pots, build_pots, pots_total,
}

-- Levels that rise from `low` on.
abbrev pub Rises : ℕ → List ℕ → Type 0
Rises low [] = Unit
Rises low (l ∷ ls) = (low ≤ l) × Rises l ls

insert_by-Rises :
    (low x : ℕ) (ls : List ℕ) → low ≤ x → Rises low ls → Rises low (insert_by smallest_first x ls)
insert_by-Rises low x [] h r = (h, tt)
insert_by-Rises low x (l ∷ ls) h r = elim (Bool-cases (leb x l)) [
  | inl before ↦ rw before (h, (omega tests, r.1))
  | inr after ↦ rw after (r.0, insert_by-Rises l x ls (ground arith) r.1)
]

sort_by-Rises : (ls : List ℕ) → Rises 0 (sort_by smallest_first ls)
sort_by-Rises [] = tt
sort_by-Rises (l ∷ ls) =
    insert_by-Rises 0 l (sort_by smallest_first ls) (omega arith) (sort_by-Rises ls)

append_top-Rises :
    (low top : ℕ) (ls : List ℕ)
    → low ≤ top
    → All (λ l. l ≤ top) ls
    → Rises low ls
    → Rises low (ls ++ top ∷ [])
append_top-Rises low top [] h a r = (h, tt)
append_top-Rises low top (l ∷ ls) h a r = (r.0, append_top-Rises l top ls a.0 a.1 r.1)

All-without : (P : ℕ → Type 0) (a : ℕ) (xs : List ℕ) → All P xs → All P (without a xs)
All-without P a [] h = tt
All-without P a (x ∷ xs) h = elim (Bool-cases (x == a)) [
  | inl same ↦ rw same (All-without P a xs h.1)
  | inr other ↦ rw other (h.0, All-without P a xs h.1)
]

All-unique : (P : ℕ → Type 0) (xs : List ℕ) → All P xs → All P (unique xs)
All-unique P [] h = tt
All-unique P (x ∷ xs) h = (h.0, All-without P x (unique xs) (All-unique P xs h.1))

-- Nobody still in has put in more than `max_live`.
live_le_max :
    (players : List PotPlayer)
    → All (λ p. (is_in p ≡ true) → p.committed ≤ max_live players) players
live_le_max players = go players (max_live players) (omega arith)
  where
    go :
        (ps : List PotPlayer) (m : ℕ)
        → max_live ps ≤ m
        → All (λ p. (is_in p ≡ true) → p.committed ≤ m) ps
    go [] m h = tt
    go (p ∷ ps) m h = elim (Bool-cases (is_in p)) [
      | inl in_hand ↦
          (let e : max p.committed (max_live ps) ≤ m = rw in_hand at h in
            (λ _. omega arith, go ps m (omega arith)))
      | inr out ↦ (let e : max_live ps ≤ m = rw out at h in (λ i. absurd (cc), go ps m e))
    ]

levels_le :
    (m : ℕ) (players : List PotPlayer)
    → All (λ p. (is_in p ≡ true) → p.committed ≤ m) players
    → All
        (λ l. l ≤ m)
        (map (λ (p : PotPlayer). p.committed) (filter (λ p. is_in p && p.all_in) players))
levels_le m [] h = tt
levels_le m (p ∷ players) h = elim (Bool-cases (is_in p && p.all_in)) [
  | inl both ↦ rw both (h.0 (ground arith), levels_le m players h.1)
  | inr neither ↦ rw neither (levels_le m players h.1)
]

all_in_levels-le :
    (players : List PotPlayer) → All (λ l. l ≤ max_live players) (all_in_levels players)
all_in_levels-le players =
    All-sort_by smallest_first _ _ (
      All-unique _ _
        (All-filter _ _ _ (levels_le (max_live players) players (live_le_max players))))

-- The highest level, or `low` if there is none.
abbrev pub top : ℕ → List ℕ → ℕ
top low [] = low
top low (l ∷ ls) = top l ls

top-append : (low m : ℕ) (ls : List ℕ) → top low (ls ++ m ∷ []) ≡ m
top-append low m [] = refl
top-append low m (l ∷ ls) = top-append l m ls

top-last : (low m : ℕ) (ls : List ℕ) → is_last m ls ≡ true → top low ls ≡ m
top-last low m [] h = cc
top-last low m (l ∷ []) h = ground arith
top-last low m (l ∷ k ∷ ls) h = top-last l m (k ∷ ls) h

top-zero : (ls : List ℕ) → All (λ l. l ≤ 0) ls → top 0 ls ≡ 0
top-zero [] h = refl
top-zero (l ∷ ls) h = let e : l ≡ 0 = omega arith in rw e (top-zero ls h.1)

add_top_facts :
    (m : ℕ) (ls : List ℕ)
    → Rises 0 ls
    → All (λ l. l ≤ m) ls
    → Rises 0 (add_top m ls) × All (λ l. l ≤ m) (add_top m ls) × (top 0 (add_top m ls) ≡ m)
add_top_facts m ls r a = elim (Bool-cases (ltb 0 m && not (is_last m ls))) [
  | inl add ↦ rw add (
    append_top-Rises 0 m ls (omega arith) a r,
    All-append _ ls (m ∷ []) a (omega arith, tt),
    top-append 0 m ls,
  )
  | inr keep ↦ rw keep (r, a, stays keep)
]
  where
    stays : (ltb 0 m && not (is_last m ls)) ≡ false → top 0 ls ≡ m
    stays keep = elim (Bool-cases (is_last m ls)) [
      | inl last ↦ top-last 0 m ls last
      | inr other ↦ (let z : m ≡ 0 = ground arith in rw z (top-zero ls (rw z at a)))
    ]

pub pot_levels_facts :
    (players : List PotPlayer)
    → Rises 0 (pot_levels players)
      × All (λ l. l ≤ max_live players) (pot_levels players)
      × (top 0 (pot_levels players) ≡ max_live players)
unfolding pot_levels
pot_levels_facts players =
    add_top_facts (max_live players) (all_in_levels players)
      (sort_by-Rises (
        unique (
          filter (λ amount. ltb 0 amount)
            (map (λ (p : PotPlayer). p.committed) (filter (λ p. is_in p && p.all_in) players)))))
      (all_in_levels-le players)

eligible_nonempty :
    (l : ℕ) (players : List PotPlayer)
    → 0 < l
    → l ≤ max_live players
    → 0 < length (eligible_at players l)
eligible_nonempty l [] z h = absurd (omega arith)
eligible_nonempty l (p ∷ players) z h = elim (Bool-cases (is_eligible l p)) [
  | inl eligible ↦ rw eligible (omega arith)
  | inr short ↦ rw short (eligible_nonempty l players z (rest (Bool-cases (is_in p)) short))
]
  where
    rest : (is_in p ≡ true) ⊎ (is_in p ≡ false) → is_eligible l p ≡ false → l ≤ max_live players
    rest (inl in_hand) short =
        let e : l ≤ max p.committed (max_live players) = rw in_hand at h in ground arith
    rest (inr out) short = rw out at h

-- What the players have put in, each capped at a level.
abbrev pub capped : List PotPlayer → ℕ → ℕ
capped players level = sum_of (λ p. min p.committed level) players

pub capped-zero : (players : List PotPlayer) → capped players 0 ≡ 0
capped-zero [] = refl
capped-zero (p ∷ players) = omega (arith, capped-zero players)

pub layer_amount-add :
    (players : List PotPlayer) (low level : ℕ)
    → low ≤ level
    → layer_amount players low level + capped players low ≡ capped players level
layer_amount-add [] low level h = refl
layer_amount-add (p ∷ players) low level h = omega (arith, layer_amount-add players low level h)

cut_pots_total :
    (players : List PotPlayer) (low : ℕ) (ls : List ℕ)
    → Rises low ls
    → All (λ l. l ≤ max_live players) ls
    → pots_total (cut_pots players low ls) + capped players low ≡ capped players (top low ls)
unfolding cut_pots
cut_pots_total players low [] r a = omega arith
cut_pots_total players low (l ∷ ls) r a =
    elim (Bool-cases
      (ltb 0 (layer_amount players low l) && ltb 0 (length (eligible_at players l)))) [
        | inl kept ↦
            rw kept (
              omega
                (arith, layer_amount-add players low l r.0, cut_pots_total players l ls r.1 a.1))
        | inr skipped ↦ rw skipped (
            omega (
              arith,
              layer_amount-add players low l r.0,
              cut_pots_total players l ls r.1 a.1,
              no_chips skipped,
            ))
      ]
  where
    level_pos : 0 < layer_amount players low l → 0 < l
    level_pos h = elim (dec_lt 0 l) [
      | yes p ↦ p
      | no z ↦
          (let same : l ≡ low = omega arith in
            absurd (omega (arith, layer_amount-add players low l r.0, ap (capped players) same)))
    ]

    no_chips :
        (ltb 0 (layer_amount players low l) && ltb 0 (length (eligible_at players l))) ≡ false
        → layer_amount players low l ≡ 0
    no_chips h = ground (
      arith,
      λ (z : 0 < layer_amount players low l). eligible_nonempty l players (level_pos z) a.0,
    )

-- The pots together hold each player's commitment, up to the highest that somebody still in has made.
pub build_pots_total :
    (players : List PotPlayer) → pots_total (build_pots players) ≡ capped players (max_live players)
unfolding build_pots
build_pots_total players =
    let (rises, below, at_top) = pot_levels_facts players in
    omega (
      arith,
      cut_pots_total players 0 (pot_levels players) rises below,
      capped-zero players,
      ap (capped players) at_top,
    )

-- If no folded player has put in more than somebody still in, the pots hold every chip.
capped-All :
    (players : List PotPlayer) (m : ℕ)
    → All (λ p. p.committed ≤ m) players
    → capped players m ≡ sum_of (λ p. p.committed) players
capped-All [] m h = refl
capped-All (p ∷ players) m h = omega (arith, capped-All players m h.1)

pub build_pots-All :
    (players : List PotPlayer)
    → All (λ p. p.committed ≤ max_live players) players
    → pots_total (build_pots players) ≡ sum_of (λ p. p.committed) players
build_pots-All players h =
    omega (arith, build_pots_total players, capped-All players (max_live players) h)

-- The pots that a user may win.
abbrev pub winnable : ℕ → List Pot → ℕ
winnable user pots = sum_of (λ p. if includes p.eligible user then p.amount else 0) pots
