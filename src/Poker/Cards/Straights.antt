-- ===== src/Poker/Cards/Straights.antt =====
-- Laws of `findStraight` of apps/api/src/games/poker/cards.ts.
use casino_app.Prelude.{
  ℕ, zero, suc, ◌+◌, ◌≤◌, ◌<◌, ◌≡◌, ◌⊎◌, inl, inr, refl, ◌∙◌, ap, none, some, List, [], ◌∷◌, map,
  arith, Option-cases, All, All-find, ◌==◌, ==_iff, ◌≢◌, Bool-cases,
}
use native.Mathlib.Decide.{ℕ_discrete}
use casino_app.Poker.Cards.{rank_of, present, run_of, straight_below, find_straight}

-- The ranks of a straight from `n` up to `n + 4`, high first, and those of the wheel.
abbrev pub straight_ranks : ℕ → List ℕ
straight_ranks n = (n + 4) ∷ (n + 3) ∷ (n + 2) ∷ (n + 1) ∷ n ∷ []

abbrev pub wheel_ranks : List ℕ
wheel_ranks = 3 ∷ 2 ∷ 1 ∷ 0 ∷ 12 ∷ []

run_of_sound :
    (P : ℕ → Type 0) (cards ranks : List ℕ) {run : List ℕ}
    → All P cards
    → run_of cards ranks ≡ some run
    → All P run × (map rank_of run ≡ ranks)
run_of_sound P cards [] {run} h e = let eq : run ≡ [] = ground arith in rw eq (tt, refl)
run_of_sound P cards (r ∷ ranks) {run} h e = elim (Option-cases (present cards r)) [
  | inl missing ↦ absurd (ground arith)
  | inr (card, there) ↦ elim (Option-cases (run_of cards ranks)) [
    | inl short ↦ absurd (ground arith)
    | inr (rest, found) ↦
        (let (all, at) = run_of_sound P cards ranks h found in
          let (p, hit) = All-find P (λ c. rank_of c == r) cards h there in
          let eq : run ≡ card ∷ rest = ground arith in
          rw eq ((p, all), ground (arith, at, (==_iff (rank_of card) r).0 hit)))
  ]
]

-- A rank of these is held by none of the cards.
abbrev pub Lacks : List ℕ → List ℕ → Type 0
Lacks cards [] = ⊥
Lacks cards (r ∷ ranks) = All (λ c. rank_of c ≢ r) cards ⊎ Lacks cards ranks

present-none : (cards : List ℕ) (r : ℕ) → present cards r ≡ none → All (λ c. rank_of c ≢ r) cards
present-none [] r e = tt
present-none (c ∷ cards) r e = elim (Bool-cases (rank_of c == r)) [
  | inl hit ↦ absurd (ground arith)
  | inr miss ↦
      ((λ same. ground (arith, (==_iff (rank_of c) r).1 same)), present-none cards r (rw miss at e))
]

run_of-Lacks : (cards ranks : List ℕ) → run_of cards ranks ≡ none → Lacks cards ranks
run_of-Lacks cards [] e = absurd (ground arith)
run_of-Lacks cards (r ∷ ranks) e = elim (Option-cases (present cards r)) [
  | inl missing ↦ inl (present-none cards r missing)
  | inr (card, there) ↦ elim (Option-cases (run_of cards ranks)) [
    | inl short ↦ inr (run_of-Lacks cards ranks short)
    | inr (rest, found) ↦ absurd (ground arith)
  ]
]

-- What `findStraight` answers, over the high cards not yet tried.
abbrev pub BestBelow : List ℕ → ℕ → List ℕ → Type 0
BestBelow cards n run =
    ((low : ℕ) × (low < n)
      × (map rank_of run ≡ straight_ranks low)
      × ((m : ℕ) → low < m → m < n → Lacks cards (straight_ranks m)))
    ⊎ ((map rank_of run ≡ wheel_ranks) × ((m : ℕ) → m < n → Lacks cards (straight_ranks m)))

straight_below_best :
    (P : ℕ → Type 0) (cards : List ℕ) (n : ℕ) {run : List ℕ}
    → All P cards
    → straight_below cards n ≡ some run
    → All P run × BestBelow cards n run
straight_below_best P cards zero h e =
    let (all, at) = run_of_sound P cards wheel_ranks h e in
    (all, inr (at, λ m l. absurd (omega arith)))
straight_below_best P cards (suc n) {run} h e =
    elim (Option-cases (run_of cards (straight_ranks n))) [
      | inl missing ↦
          (let (all, best) = straight_below_best P cards n h (ground arith) in
            (all, weaken (run_of-Lacks cards (straight_ranks n) missing) best))
      | inr (found, there) ↦
          (let eq : found ≡ run = ground arith in
            let (all, at) = run_of_sound P cards (straight_ranks n) h (there ∙ ap some eq) in
            (all, inl (n, omega arith, at, λ m l k. absurd (omega arith))))
    ]
  where
    none_below :
        (low : ℕ)
        → Lacks cards (straight_ranks n)
        → ((m : ℕ) → low ≤ m → m < n → Lacks cards (straight_ranks m))
        → (m : ℕ) → low ≤ m
        → m < suc n
        → Lacks cards (straight_ranks m)
    none_below low missing below m l k = elim (ℕ_discrete m n) [
      | yes same ↦ rw same missing
      | no ne ↦ below m l (omega arith)
    ]

    weaken : Lacks cards (straight_ranks n) → BestBelow cards n run → BestBelow cards (suc n) run
    weaken missing (inl (low, lt, at, above)) =
        inl (low, omega arith, at, none_below (suc low) missing above)
    weaken missing (inr (at, above)) =
        inr (at, λ m l. none_below 0 missing (λ k _ l'. above k l') m (omega arith) l)

-- A straight that `findStraight` returns has what all the given cards have, and five consecutive ranks,
-- high first, where each run of five ranks that starts higher has a rank that no card holds; or it is
-- the wheel, 5-4-3-2-A, and every run of five has a rank that no card holds.
pub find_straight_best :
    (P : ℕ → Type 0) (cards : List ℕ) {run : List ℕ}
    → All P cards
    → find_straight cards ≡ some run
    → All P run × BestBelow cards 9 run
unfolding find_straight
find_straight_best P cards h e = straight_below_best P cards 9 h e

straight_below-none :
    (cards : List ℕ) (n : ℕ)
    → straight_below cards n ≡ none
    → (run_of cards wheel_ranks ≡ none) × ((m : ℕ) → m < n → run_of cards (straight_ranks m) ≡ none)
straight_below-none cards zero e = (e, λ m l. absurd (omega arith))
straight_below-none cards (suc n) e = elim (Option-cases (run_of cards (straight_ranks n))) [
  | inl missing ↦
      (let (wheel, below) = straight_below-none cards n (ground arith) in
        (
          wheel,
          λ m l. (elim (ℕ_discrete m n) [
            | yes same ↦ rw same missing
            | no ne ↦ below m (omega arith)
          ]),
        ))
  | inr (found, there) ↦ absurd (ground arith)
]

-- Where `findStraight` returns none, there is no straight among the cards, the wheel included.
pub find_straight-none :
    (cards : List ℕ)
    → find_straight cards ≡ none
    → (run_of cards wheel_ranks ≡ none) × ((m : ℕ) → m < 9 → run_of cards (straight_ranks m) ≡ none)
unfolding find_straight
find_straight-none cards e = straight_below-none cards 9 e
