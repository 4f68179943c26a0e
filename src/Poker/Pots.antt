-- ===== src/Poker/Pots.antt =====
-- apps/api/src/games/poker/pots.ts: the uncalled excess, the main and side pots, and the showdown.
-- Commitments are natural numbers. What is paid from a pot is an integer, since a share of the rake
-- may exceed the pot that it is taken from.
pub mod Layers
pub mod Sides
pub mod Payment
pub mod Conservation
use casino_app.Prelude.{
  ℕ, zero, suc, ◌+◌, ◌-◌, ◌*◌, ◌/◌, min, max, Bool, true, false, not, ◌&&◌, ◌||◌, ◌==◌, ltb, leb,
  if◌then◌else◌, Option, none, some, or_else, is_some, List, [], ◌∷◌, ◌++◌, map, length, get_elem?,
  take, find, filter, includes, unique, sum_of,
}
use casino_app.Prelude.Int.{ℤ, pos, ◌+ℤ◌, ◌-ℤ◌, ltb_ℤ, eqb_ℤ, floor_div, scale, sum_ℤ, pos_part}
use casino_app.Prelude.Dict.{Dict, lookup, put}
use casino_app.Prelude.Sort.{sort_by}
use casino_app.Poker.Cards.{HandRank, evaluate}

pub record PotPlayer : Type 0 where
  pub user_id : ℕ
  pub committed : ℕ
  pub folded : Bool
  pub all_in : Bool
  pub cards : Option (List ℕ)
  pub order : ℕ

pub record Pot : Type 0 where
  pub amount : ℕ
  pub eligible : List ℕ

pub record Ranked : Type 0 where
  pub user_id : ℕ
  pub value : ℕ
  pub cards : List ℕ

pub record Showdown : Type 0 where
  pub pots : List Pot
  -- user and amount
  pub awards : List (ℕ × ℤ)
  pub returned : List (ℕ × ℕ)
  pub rake : ℕ
  pub ranked : List Ranked

abbrev pub largest_first : ℕ → ℕ → Bool
largest_first a b = leb b a

abbrev pub smallest_first : ℕ → ℕ → Bool
smallest_first a b = leb a b

-- `sorted[i] ?? 0`, of the commitments, the largest first.
abbrev pub nth_commitment : List PotPlayer → ℕ → ℕ
nth_commitment players i =
    or_else (get_elem? (sort_by largest_first (map (λ (p : PotPlayer). p.committed) players)) i) 0

abbrev pub reduce_commitment : ℕ → ℕ → PotPlayer → PotPlayer
reduce_commitment owner excess p =
    if p.user_id == owner then record p { committed = p.committed - excess } else p

-- Once the two highest commitments are known to differ.
abbrev pub return_excess : List PotPlayer → ℕ → ℕ → List PotPlayer × List (ℕ × ℕ)
return_excess players highest second =
    elim (find (λ (p : PotPlayer). p.committed == highest) players) [
      | none ↦ (players, [])
      | some owner ↦ (
        map (reduce_commitment owner.user_id (highest - second)) players,
        (owner.user_id, highest - second) ∷ [],
      )
    ]

unfoldable pub return_uncalled : List PotPlayer → List PotPlayer × List (ℕ × ℕ)
return_uncalled players =
    let highest = nth_commitment players 0 in
    let second = nth_commitment players 1 in
    if highest == 0 || highest == second
    then (players, [])
    else return_excess players highest second

abbrev pub max_of : List ℕ → ℕ
max_of [] = 0
max_of (x ∷ xs) = max x (max_of xs)

abbrev pub is_in : PotPlayer → Bool
is_in p = not p.folded

abbrev pub max_live : List PotPlayer → ℕ
max_live players = max_of (map (λ (p : PotPlayer). p.committed) (filter is_in players))

-- The distinct commitments of the players who are all in, in rising order.
abbrev pub all_in_levels : List PotPlayer → List ℕ
all_in_levels players = sort_by smallest_first (
    unique (
      filter (λ amount. ltb 0 amount)
        (map (λ (p : PotPlayer). p.committed) (filter (λ p. is_in p && p.all_in) players))))

-- `levels.at(-1)`.
abbrev pub last_of : List ℕ → Option ℕ
last_of [] = none
last_of (x ∷ []) = some x
last_of (x ∷ y ∷ xs) = last_of (y ∷ xs)

abbrev pub is_last : ℕ → List ℕ → Bool
is_last m levels = elim (last_of levels) [ none ↦ false | some l ↦ l == m ]

abbrev pub add_top : ℕ → List ℕ → List ℕ
add_top top levels = if ltb 0 top && not (is_last top levels) then levels ++ top ∷ [] else levels

unfoldable pub pot_levels : List PotPlayer → List ℕ
pot_levels players = add_top (max_live players) (all_in_levels players)

-- What the players have put in between two levels. The levels rise, so no difference is negative.
abbrev pub layer_amount : List PotPlayer → ℕ → ℕ → ℕ
layer_amount players previous level =
    sum_of (λ p. min p.committed level - min p.committed previous) players

abbrev pub is_eligible : ℕ → PotPlayer → Bool
is_eligible level p = is_in p && leb level p.committed

abbrev pub eligible_at : List PotPlayer → ℕ → List ℕ
eligible_at players level = map (λ (p : PotPlayer). p.user_id) (filter (is_eligible level) players)

-- The loop of `buildPots`.
unfoldable pub cut_pots : List PotPlayer → ℕ → List ℕ → List Pot
cut_pots players previous [] = []
cut_pots players previous (level ∷ levels) =
    let rest = cut_pots players level levels in
    if ltb 0 (layer_amount players previous level) && ltb 0 (length (eligible_at players level))
    then record {
      amount = layer_amount players previous level;
      eligible = eligible_at players level;
    }
      ∷ rest
    else rest

unfoldable pub build_pots : List PotPlayer → List Pot
unfolding cut_pots pot_levels
build_pots players = cut_pots players 0 (pot_levels players)

abbrev pub ranked_of : PotPlayer → HandRank → Ranked
ranked_of p best = record { user_id = p.user_id; value = best.value; cards = best.cards }

abbrev pub has_hand : PotPlayer → Bool
has_hand p = is_in p && elim p.cards [ none ↦ false | some cards ↦ ltb 0 (length cards) ]

-- The ranked hands; `none` stands for the error of `evaluate`.
unfoldable pub rank_players : List ℕ → List PotPlayer → Option (List Ranked)
rank_players board [] = some []
rank_players board (p ∷ players) = elim (rank_players board players) [
  | none ↦ none
  | some rest ↦
      if has_hand p
      then elim (evaluate (or_else p.cards [] ++ board)) [
        | none ↦ none
        | some best ↦ some (ranked_of p best ∷ rest)
      ]
      else some rest
]

abbrev pub best_first : Ranked → Ranked → Bool
best_first a b = leb b.value a.value

abbrev pub order_of : List PotPlayer → ℕ → ℕ
order_of players user = elim (find (λ (p : PotPlayer). p.user_id == user) players) [
  | none ↦ 0
  | some p ↦ p.order
]

-- The winners of a pot among the ranked hands; with no ranked contender, the first eligible player.
abbrev pub pot_winners : List Ranked → Pot → List ℕ
pot_winners ranked pot =
    let contenders = filter (λ (r : Ranked). includes pot.eligible r.user_id) ranked in
    let best = max_of (map (λ (r : Ranked). r.value) contenders) in
    if length contenders == 0
    then take 1 pot.eligible
    else map (λ (r : Ranked). r.user_id) (filter (λ (r : Ranked). r.value == best) contenders)

-- `byUser.set(userId, (byUser.get(userId) ?? 0) + amount)`.
abbrev pub credit : ℕ → ℤ → Dict ℤ → Dict ℤ
credit user amount by_user = put user (or_else (lookup user by_user) (pos 0) +ℤ amount) by_user

-- The inner loop over the winners, from a position on.
unfoldable pub pay_winners : ℤ → ℤ → ℕ → List ℕ → Dict ℤ → Dict ℤ
pay_winners each remainder position [] by_user = by_user
pay_winners each remainder position (user ∷ users) by_user =
    pay_winners each remainder (position + 1) users
      (credit user (each +ℤ (if ltb_ℤ (pos position) remainder then pos 1 else pos 0)) by_user)

abbrev pub by_order : List PotPlayer → List ℕ → List ℕ
by_order players = sort_by (λ a b. leb (order_of players a) (order_of players b))

-- Pays `payable` to the winners of a pot, in the order from the button's left.
unfoldable pub pay_pot : List PotPlayer → List ℕ → ℤ → Dict ℤ → Dict ℤ
unfolding pay_winners
pay_pot players winners payable by_user =
    let each = floor_div payable (length winners) in
    pay_winners each (payable -ℤ scale each (length winners)) 0 (by_order players winners) by_user

abbrev pub pot_share : ℕ → ℕ → ℤ → Pot → List Pot → ℤ
pot_share rake total taken pot [] = pos rake -ℤ taken
pot_share rake total taken pot (_ ∷ _) = pos (rake * pot.amount / max total 1)

-- The loop over the pots; `taken` is `rakeTaken`.
unfoldable pub pay_pots : List PotPlayer → List Ranked → ℕ → ℕ → ℤ → List Pot → Dict ℤ → Dict ℤ
unfolding pay_pot
pay_pots players ranked rake total taken [] by_user = by_user
pay_pots players ranked rake total taken (pot ∷ pots) by_user =
    let share = pot_share rake total taken pot pots in
    pay_pots players ranked rake total (taken +ℤ share) pots
      (pay_pot players (pot_winners ranked pot) (pos pot.amount -ℤ share) by_user)

pub data Settled : Type 0 where
  settled : Showdown → Settled
  hand_too_short : Settled
  lost_chips : (committed : ℕ) → (accounted : ℤ) → Settled

abbrev pub pots_total : List Pot → ℕ
pots_total = sum_of (λ pot. pot.amount)

abbrev pub accounted_for : Showdown → ℤ
accounted_for s =
    sum_ℤ (λ (a : ℕ × ℤ). a.1) s.awards
    +ℤ pos (sum_of (λ (a : ℕ × ℕ). a.1) s.returned)
    +ℤ pos s.rake

abbrev pub award_pots : List PotPlayer → List (ℕ × ℕ) → ℕ → List Pot → List Ranked → Showdown
award_pots adjusted returned asked pots ranked =
    let total = pots_total pots in
    let rake = min asked total in
    record {
      pots = pots;
      awards = pay_pots adjusted ranked rake total (pos 0) pots [];
      returned = returned;
      rake = rake;
      ranked = ranked;
    }

abbrev pub check_accounts : ℕ → Showdown → Settled
check_accounts committed s =
    if eqb_ℤ (accounted_for s) (pos committed)
    then settled s
    else lost_chips committed (accounted_for s)

unfoldable pub settle_showdown : List PotPlayer → List ℕ → ℕ → Settled
settle_showdown players board rake = elim (rank_players board (return_uncalled players).0) [
  | none ↦ hand_too_short
  | some ranked ↦ check_accounts (sum_of (λ (p : PotPlayer). p.committed) players) (
      award_pots (return_uncalled players).0 (return_uncalled players).1 rake
        (build_pots (return_uncalled players).0) (sort_by best_first ranked))
]
