-- ===== src/Risk/Collusion/Counts.antt =====
-- The hands that a pair has played together, as the flows count them and as the hands have them.
use casino_app.Prelude.{
  ℕ, ◌+◌, ◌<◌, ◌≡◌, ◌≢◌, ◌⊎◌, refl, sym, ap, ◌∙◌, inl, inr, ltb, ◌==◌, Bool, true, false, ◌&&◌,
  ◌||◌, if◌then◌else◌, List, [], ◌∷◌, sum_of, is_some, All, Bool-cases, arith, subst, ==_iff,
}
use casino_app.Prelude.Int.{ℤ}
use casino_app.Prelude.Dict.{Dict, lookup}
use casino_app.Risk.Collusion.Shares.{KeysDiffer}
use casino_app.Risk.Collusion.{
  HandSummary, PairFlow, is_pair, count_hand, count_pair, count_with, count_players, count_hands,
}

-- Both are among the players of a hand.
abbrev pub plays : ℕ → Dict ℤ → Bool
plays user net = is_some (lookup user net)

abbrev pub once : Bool → ℕ
once true = 1
once false = 0

-- How many of the hands the two have both played in.
abbrev pub hands_with : ℕ → ℕ → List HandSummary → ℕ
hands_with a b = sum_of (λ hand. once (plays a hand.net && plays b hand.net))

pub hands_with_comm :
    (a b : ℕ) (hands : List HandSummary) → hands_with a b hands ≡ hands_with b a hands
hands_with_comm a b [] = refl
hands_with_comm a b (hand ∷ hands) = ground (arith, hands_with_comm a b hands)

-- Every flow is for two players, the lesser first, and counts what `g` says.
abbrev pub Counting : (ℕ → ℕ → ℕ) → List PairFlow → Type 0
Counting g = All (λ (f : PairFlow). (f.a < f.b) × (f.hands_together ≡ g f.a f.b))

pub Counting-ext :
    (g h : ℕ → ℕ → ℕ) (flows : List PairFlow)
    → ((a b : ℕ) → a < b → g a b ≡ h a b)
    → Counting g flows
    → Counting h flows
Counting-ext g h [] e c = tt
Counting-ext g h (f ∷ flows) e c = ((c.0.0, c.0.1 ∙ e f.a f.b c.0.0), Counting-ext g h flows e c.1)

abbrev hit : ℕ → ℕ → ℕ → ℕ → ℕ
hit i j a b = once ((i == a && j == b) || (i == b && j == a))

count_pair-Counting :
    (g : ℕ → ℕ → ℕ) (i j : ℕ) (flows : List PairFlow)
    → Counting g flows
    → Counting (λ a b. g a b + hit i j a b) (count_pair i j flows)
unfolding count_pair
count_pair-Counting g i j [] c = tt
count_pair-Counting g i j (f ∷ flows) c = (
  counted (Bool-cases (is_pair (if ltb i j then i else j) (if ltb i j then j else i) f)),
  count_pair-Counting g i j flows c.1,
)
  where
    same_hit :
        is_pair (if ltb i j then i else j) (if ltb i j then j else i) f
        ≡ ((i == f.a && j == f.b) || (i == f.b && j == f.a))
    same_hit = (let lt : f.a < f.b = c.0.0 in ground arith)

    counted :
        (is_pair (if ltb i j then i else j) (if ltb i j then j else i) f ≡ true)
          ⊎ (is_pair (if ltb i j then i else j) (if ltb i j then j else i) f ≡ false)
        → let f' =
            if is_pair (if ltb i j then i else j) (if ltb i j then j else i) f
            then count_hand f
            else f in
          (f'.a < f'.b) × (f'.hands_together ≡ g f'.a f'.b + hit i j f'.a f'.b)
    counted (inl yes') = rw yes' (c.0.0, omega (arith, c.0.1, ap once (sym same_hit ∙ yes')))
    counted (inr no') = rw no' (c.0.0, omega (arith, c.0.1, ap once (sym same_hit ∙ no')))

abbrev hits : ℕ → Dict ℤ → ℕ → ℕ → ℕ
hits i [] a b = 0
hits i ((j, _) ∷ players) a b = hit i j a b + hits i players a b

abbrev all_hits : Dict ℤ → ℕ → ℕ → ℕ
all_hits [] a b = 0
all_hits ((i, _) ∷ players) a b = hits i players a b + all_hits players a b

count_with-Counting :
    (g : ℕ → ℕ → ℕ) (i : ℕ) (players : Dict ℤ) (flows : List PairFlow)
    → Counting g flows
    → Counting (λ a b. g a b + hits i players a b) (count_with i players flows)
unfolding count_with
count_with-Counting g i [] flows c =
    Counting-ext g (λ a b. g a b + 0) flows (λ a b lt. omega arith) c
count_with-Counting g i ((j, _) ∷ players) flows c =
    Counting-ext (λ a b. g a b + hit i j a b + hits i players a b)
      (λ a b. g a b + (hit i j a b + hits i players a b)) _ (λ a b lt. omega arith)
      (count_with-Counting (λ a b. g a b + hit i j a b) i players (count_pair i j flows)
        (count_pair-Counting g i j flows c))

count_players-Counting :
    (g : ℕ → ℕ → ℕ) (players : Dict ℤ) (flows : List PairFlow)
    → Counting g flows
    → Counting (λ a b. g a b + all_hits players a b) (count_players players flows)
unfolding count_players
count_players-Counting g [] flows c =
    Counting-ext g (λ a b. g a b + 0) flows (λ a b lt. omega arith) c
count_players-Counting g ((i, _) ∷ players) flows c =
    Counting-ext (λ a b. g a b + hits i players a b + all_hits players a b)
      (λ a b. g a b + (hits i players a b + all_hits players a b)) _ (λ a b lt. omega arith)
      (count_players-Counting (λ a b. g a b + hits i players a b) players
        (count_with i players flows) (count_with-Counting g i players flows c))

plays_none : (user : ℕ) (net : Dict ℤ) → All (λ e. e.0 ≢ user) net → plays user net ≡ false
plays_none user [] h = refl
plays_none user ((k, v) ∷ net) h = ground (arith, h.0, plays_none user net h.1)

hits_lem :
    (i : ℕ) (players : Dict ℤ) (a b : ℕ)
    → a < b
    → KeysDiffer players
    → hits i players a b
      ≡ (if i == a then once (plays b players) else if i == b then once (plays a players) else 0)
hits_lem i [] a b lt d = ground arith
hits_lem i ((j, v) ∷ players) a b lt d = elim (Bool-cases (j == a)) [
  | inl at_a ↦
      (let none_later : plays a players ≡ false =
          plays_none a players
            (subst (λ k. All (λ e. e.0 ≢ k) players) ((==_iff j a).0 at_a) d.0) in
        ground (arith, hits_lem i players a b lt d.1))
  | inr not_a ↦ elim (Bool-cases (j == b)) [
    | inl at_b ↦
        (let none_later : plays b players ≡ false =
            plays_none b players
              (subst (λ k. All (λ e. e.0 ≢ k) players) ((==_iff j b).0 at_b) d.0) in
          ground (arith, hits_lem i players a b lt d.1))
    | inr not_b ↦ ground (arith, hits_lem i players a b lt d.1)
  ]
]

all_hits_lem :
    (players : Dict ℤ) (a b : ℕ)
    → a < b
    → KeysDiffer players
    → all_hits players a b ≡ once (plays a players && plays b players)
all_hits_lem [] a b lt d = refl
all_hits_lem ((i, v) ∷ players) a b lt d = elim (Bool-cases (i == a)) [
  | inl at_a ↦
      (let none_later : plays a players ≡ false =
          plays_none a players
            (subst (λ k. All (λ e. e.0 ≢ k) players) ((==_iff i a).0 at_a) d.0) in
        ground (arith, hits_lem i players a b lt d.1, all_hits_lem players a b lt d.1))
  | inr not_a ↦ elim (Bool-cases (i == b)) [
    | inl at_b ↦
        (let none_later : plays b players ≡ false =
            plays_none b players
              (subst (λ k. All (λ e. e.0 ≢ k) players) ((==_iff i b).0 at_b) d.0) in
          ground (arith, hits_lem i players a b lt d.1, all_hits_lem players a b lt d.1))
    | inr not_b ↦ ground (arith, hits_lem i players a b lt d.1, all_hits_lem players a b lt d.1)
  ]
]

pub count_hands-Counting :
    (g : ℕ → ℕ → ℕ) (hands : List HandSummary) (flows : List PairFlow)
    → All (λ hand. KeysDiffer hand.net) hands
    → Counting g flows
    → Counting (λ a b. g a b + hands_with a b hands) (count_hands hands flows)
unfolding count_hands
count_hands-Counting g [] flows d c =
    Counting-ext g (λ a b. g a b + 0) flows (λ a b lt. omega arith) c
count_hands-Counting g (hand ∷ hands) flows d c =
    Counting-ext (λ a b. g a b + all_hits hand.net a b + hands_with a b hands)
      (λ a b. g a b + hands_with a b (hand ∷ hands)) _
      (λ a b lt. omega (arith, all_hits_lem hand.net a b lt d.0))
      (count_hands-Counting (λ a b. g a b + all_hits hand.net a b) hands
        (count_players hand.net flows) d.1 (count_players-Counting g hand.net flows c))
