-- ===== src/Poker/Cards/Shuffle.antt =====
-- Laws of `shuffle` of apps/api/src/games/poker/cards.ts.
use casino_app.Prelude.{
  ℕ, zero, suc, ◌+◌, ◌≤◌, ◌<◌, ◌≡◌, refl, ◌∙◌, some, List, arith, ◌==◌, if◌then◌else◌, ltb, length,
  get_elem?, set, sum_of, sum_of-set, length-set, get_elem?-set_self, get_elem?-set_ne,
  get_elem?-lt, lt-get_elem?,
}
use native.Mathlib.Decide.{ℕ_discrete}
use casino_app.Poker.Cards.{deck_size, range_from, swap, shuffle_from, shuffle}

-- How often a card stands in a deck.
abbrev pub occurrences : ℕ → List ℕ → ℕ
occurrences card = sum_of (λ c. if c == card then 1 else 0)

get_elem?-set_back :
    (xs : List ℕ) (i j : ℕ) {a b : ℕ}
    → get_elem? xs i ≡ some a
    → get_elem? xs j ≡ some b
    → get_elem? (set xs i b) j ≡ some b
get_elem?-set_back xs i j {a} {b} hi hj = elim (ℕ_discrete i j) [
  | yes e ↦ rw (← e) (get_elem?-set_self xs i b (lt-get_elem? xs i hi))
  | no ne ↦ get_elem?-set_ne xs i j b ne ∙ hj
]

-- The same cards, as often.
abbrev pub SameCards : List ℕ → List ℕ → Type 0
SameCards deck deck' =
    (length deck' ≡ length deck) × ((card : ℕ) → occurrences card deck' ≡ occurrences card deck)

swap-SameCards :
    (deck : List ℕ) (i j : ℕ)
    → i < length deck
    → j < length deck
    → (deck' : List ℕ) × (swap deck i j ≡ some deck') × SameCards deck deck'
unfolding swap
swap-SameCards deck i j li lj =
    let (a, hi) = get_elem?-lt deck i li in
    let (b, hj) = get_elem?-lt deck j lj in
    (
      set (set deck i b) j a,
      rw (hi, swap) (rw (hj, swap) refl),
      (
        length-set (set deck i b) j a ∙ length-set deck i b,
        λ card. omega (
          arith,
          sum_of-set (λ c. if c == card then 1 else 0) deck i b hi,
          sum_of-set (λ c. if c == card then 1 else 0) (set deck i b) j a
              (get_elem?-set_back deck i j hi hj),
        ),
      ),
    )

shuffle_from-SameCards :
    (random : ℕ → ℕ) (i : ℕ) (deck : List ℕ)
    → ((k : ℕ) → random k ≤ k)
    → i < length deck
    → (deck' : List ℕ) × (shuffle_from random i deck ≡ some deck') × SameCards deck deck'
unfolding shuffle_from
shuffle_from-SameCards random zero deck h l = (deck, refl, (refl, λ card. refl))
shuffle_from-SameCards random (suc i) deck h l =
    let (swapped, step, (long, same)) =
      swap-SameCards deck (suc i) (random (suc i)) l (omega (arith, h (suc i))) in
    let (deck', rest, (long', same')) = shuffle_from-SameCards random i swapped h (omega arith) in
    (deck', rw (step, shuffle_from) rest, (long' ∙ long, λ card. same' card ∙ same card))

occurrences-range_from :
    (card n i : ℕ)
    → occurrences card (range_from n i)
      ≡ (if ltb card i then 0 else if ltb card (i + n) then 1 else 0)
occurrences-range_from card zero i = ground arith
occurrences-range_from card (suc n) i = ground (arith, occurrences-range_from card n (i + 1))

length-range_from : (n i : ℕ) → length (range_from n i) ≡ n
length-range_from zero i = refl
length-range_from (suc n) i = omega (arith, length-range_from n (i + 1))

-- With every draw below its bound the shuffle succeeds: its deck has 52 cards, and each of the cards
-- 0 to 51 exactly once.
pub shuffle_complete :
    (random : ℕ → ℕ)
    → ((i : ℕ) → random i ≤ i)
    → (deck : List ℕ) × (shuffle random ≡ some deck)
      × (length deck ≡ deck_size)
      × ((card : ℕ) → card < deck_size → occurrences card deck ≡ 1)
unfolding shuffle
shuffle_complete random h =
    let start = range_from deck_size 0 in
    let (deck, shuffled, (long, same)) =
      shuffle_from-SameCards random 51 start h (omega (arith, length-range_from 52 0)) in
    (
      deck,
      shuffled,
      long ∙ length-range_from 52 0,
      λ card lt. same card ∙ (occurrences-range_from card 52 0 ∙ ground arith),
    )
