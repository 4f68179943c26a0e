-- ===== src/Poker/Pots/Sides.antt =====
-- Who is eligible for which pot: `buildPots` of apps/api/src/games/poker/pots.ts.
use casino_app.Prelude.{
  ℕ, ◌+◌, ◌≤◌, ◌<◌, ◌≡◌, ◌⊎◌, inl, inr, refl, true, false, ◌==◌, Option, none, some, List, [], ◌∷◌,
  find, includes, All, Bool-cases, arith, ==_iff,
}
use native.Mathlib.Decide.{dec_le}
use casino_app.Poker.Pots.{
  Pot, PotPlayer, is_in, pot_levels, is_eligible, eligible_at, cut_pots, build_pots,
}
use casino_app.Poker.Pots.Layers.{Rises, capped, layer_amount-add, pot_levels_facts, winnable}

abbrev pub find_pot_player : ℕ → List PotPlayer → Option PotPlayer
find_pot_player user = find (λ (p : PotPlayer). p.user_id == user)

-- No two players share an id.
abbrev pub DistinctIds : List PotPlayer → Type 0
DistinctIds [] = Unit
DistinctIds (p ∷ players) = (find_pot_player p.user_id players ≡ none) × DistinctIds players

stranger_not_eligible :
    (user level : ℕ) (players : List PotPlayer)
    → find_pot_player user players ≡ none
    → includes (eligible_at players level) user ≡ false
stranger_not_eligible user level [] h = refl
stranger_not_eligible user level (p ∷ players) h = elim (Bool-cases (is_eligible level p)) [
  | inl eligible ↦ rw eligible (ground (arith, stranger_not_eligible user level players))
  | inr short ↦ rw short (stranger_not_eligible user level players (ground arith))
]

eligible_is :
    (user level : ℕ) (players : List PotPlayer) (p : PotPlayer)
    → DistinctIds players
    → find_pot_player user players ≡ some p
    → includes (eligible_at players level) user ≡ true
    → (is_in p ≡ true) × (level ≤ p.committed)
eligible_is user level [] p d f e = absurd (ground arith)
eligible_is user level (q ∷ players) p d f e = elim (Bool-cases (q.user_id == user)) [
  | inl same ↦ elim (Bool-cases (is_eligible level q)) [
    | inl eligible ↦ (let eq : q ≡ p = ground arith in rw (← eq) (ground arith))
    | inr short ↦
        (let ids : q.user_id ≡ user = (==_iff q.user_id user).0 same in
          let out : includes (eligible_at players level) user ≡ false =
            stranger_not_eligible user level players (rw ids at d.0) in
          let e' : includes (eligible_at players level) user ≡ true = rw short at e in absurd (cc))
  ]
  | inr other ↦
      eligible_is user level players p d.1 (ground arith)
        (skip (Bool-cases (is_eligible level q)) other)
]
  where
    skip :
        (is_eligible level q ≡ true) ⊎ (is_eligible level q ≡ false)
        → (q.user_id == user) ≡ false
        → includes (eligible_at players level) user ≡ true
    skip (inl eligible) other =
        let e' : includes (q.user_id ∷ eligible_at players level) user ≡ true = rw eligible at e in
        ground arith
    skip (inr short) other = rw short at e

capped_mono : (players : List PotPlayer) (a b : ℕ) → a ≤ b → capped players a ≤ capped players b
capped_mono [] a b h = omega arith
capped_mono (p ∷ players) a b h = omega (arith, capped_mono players a b h)

module _ (players : List PotPlayer) (user : ℕ) (p : PotPlayer) (d : DistinctIds players)
    (f : find_pot_player user players ≡ some p) where
  winnable_above :
      (low : ℕ) (ls : List ℕ)
      → p.committed < low
      → Rises low ls
      → winnable user (cut_pots players low ls) ≡ 0
  unfolding cut_pots
  winnable_above low [] h r = refl
  winnable_above low (l ∷ ls) h r =
      ground (arith, winnable_above l ls, eligible_is user l players p d f)

  winnable_below :
      (low : ℕ) (ls : List ℕ)
      → low ≤ p.committed
      → Rises low ls
      → winnable user (cut_pots players low ls) + capped players low ≤ capped players p.committed
  unfolding cut_pots
  winnable_below low [] h r = omega (arith, capped_mono players low p.committed h)
  winnable_below low (l ∷ ls) h r = elim (dec_le l p.committed) [
    | yes below ↦ ground (arith, winnable_below l ls below r.1, layer_amount-add players low l r.0)
    | no above ↦ ground (
      arith,
      winnable_above l ls (omega arith) r.1,
      eligible_is user l players p d f,
      capped_mono players low p.committed h,
    )
  ]

-- A player who has folded is eligible for no pot.
folded_not_eligible :
    (players : List PotPlayer) (user : ℕ) (p : PotPlayer) (low : ℕ) (ls : List ℕ)
    → DistinctIds players
    → find_pot_player user players ≡ some p
    → p.folded ≡ true
    → All (λ (pot : Pot). includes pot.eligible user ≡ false) (cut_pots players low ls)
unfolding cut_pots
folded_not_eligible players user p low [] d f out = tt
folded_not_eligible players user p low (l ∷ ls) d f out =
    ground
      (arith, folded_not_eligible players user p l ls d f out, eligible_is user l players p d f)

-- With distinct ids, the pots that a player is eligible for hold no more than everybody's commitments,
-- each capped at the player's own; and one who has folded is eligible for no pot.
pub side_pot_limit :
    (players : List PotPlayer) (user : ℕ) (p : PotPlayer)
    → DistinctIds players
    → find_pot_player user players ≡ some p
    → (winnable user (build_pots players) ≤ capped players p.committed)
      × (p.folded ≡ true
          → All (λ (pot : Pot). includes pot.eligible user ≡ false) (build_pots players))
unfolding build_pots
side_pot_limit players user p d f = (
  omega (
    arith,
    winnable_below players user p d f 0 (pot_levels players) (omega arith)
        (pot_levels_facts players).0,
  ),
  λ out. folded_not_eligible players user p 0 (pot_levels players) d f out,
)
