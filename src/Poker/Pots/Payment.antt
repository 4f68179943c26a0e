-- ===== src/Poker/Pots/Payment.antt =====
-- How the pots are paid: the loop of `settleShowdown` in apps/api/src/games/poker/pots.ts.
use casino_app.Prelude.{
  ℕ, suc, ◌+◌, ◌-◌, ◌*◌, ◌/◌, ◌≤◌, ◌<◌, ◌≡◌, inl, inr, refl, ap, ◌≢◌, false, ◌==◌, leb, or_else,
  List, [], ◌∷◌, map, length, filter, take, includes, length-map, All, Bool-cases, arith, min, max,
}
use casino_app.Prelude.Int.{
  ℤ, pos, negsuc, ◌+ℤ◌, ◌-ℤ◌, ltb_ℤ, floor_div, scale, floor_div_rest, eq_parts, sum_ℤ, int_laws,
}
use casino_app.Prelude.Dict.{Dict, lookup, put}
use casino_app.Prelude.Sort.{length-sort_by}
use casino_app.Poker.Pots.{
  PotPlayer, Pot, Ranked, max_of, credit, pay_winners, by_order, pay_pot, pot_winners, pay_pots,
  pots_total, order_of,
}

-- The sum of what a table of awards holds.
abbrev pub held : Dict ℤ → ℤ
held = sum_ℤ (λ (a : ℕ × ℤ). a.1)

pub held-put :
    (user : ℕ) (v : ℤ) (m : Dict ℤ)
    → held (put user v m) +ℤ or_else (lookup user m) (pos 0) ≡ held m +ℤ v
held-put user v [] = omega int_laws
held-put user v ((k, w) ∷ m) = elim (Bool-cases (k == user)) [
  | inl same ↦ rw same (omega int_laws)
  | inr other ↦ rw other (omega (int_laws, eq_parts _ _ (held-put user v m)))
]

pub held-credit :
    (user : ℕ) (amount : ℤ) (m : Dict ℤ) → held (credit user amount m) ≡ held m +ℤ amount
held-credit user amount m =
    omega (int_laws, eq_parts _ _ (held-put user (or_else (lookup user m) (pos 0) +ℤ amount) m))

scale-zero : (a : ℤ) → scale a 0 ≡ pos 0
unfolding scale
scale-zero (pos a) = ground arith
scale-zero (negsuc a) = ground arith

scale-suc : (a : ℤ) (n : ℕ) → scale a (suc n) ≡ a +ℤ scale a n
unfolding scale ◌+ℤ◌
scale-suc (pos a) n = ground arith
scale-suc (negsuc a) n = ground arith

held-pay_winners :
    (each : ℤ) (r position : ℕ) (users : List ℕ) (m : Dict ℤ)
    → held (pay_winners each (pos r) position users m)
      ≡ held m
        +ℤ scale each (length users)
        +ℤ pos (min r (position + length users) - min r position)
unfolding pay_winners
held-pay_winners each r position [] m = omega (int_laws, eq_parts _ _ (scale-zero each))
held-pay_winners each r position (user ∷ users) m =
    elim (Bool-cases (ltb_ℤ (pos position) (pos r))) [
      | inl odd ↦ rw odd (
          let lt : position < r = ground arith in
          omega (
            int_laws,
            eq_parts _ _
                (held-pay_winners each r (position + 1) users (credit user (each +ℤ pos 1) m)),
            eq_parts _ _ (held-credit user (each +ℤ pos 1) m),
            eq_parts _ _ (scale-suc each (length users)),
          ))
      | inr even ↦ rw even (
          let le : r ≤ position = ground arith in
          omega (
            int_laws,
            eq_parts _ _
                (held-pay_winners each r (position + 1) users (credit user (each +ℤ pos 0) m)),
            eq_parts _ _ (held-credit user (each +ℤ pos 0) m),
            eq_parts _ _ (scale-suc each (length users)),
          ))
    ]

-- The winners of a pot are paid exactly what is payable from it.
pub pay_pot_total :
    (players : List PotPlayer) (winners : List ℕ) (payable : ℤ) (m : Dict ℤ)
    → 0 < length winners
    → held (pay_pot players winners payable m) ≡ held m +ℤ payable
unfolding pay_pot
pay_pot_total players winners payable m h =
    let (r, rest, lt) = floor_div_rest payable (length winners) h in
    let each = floor_div payable (length winners) in
    let before = λ (a b : ℕ). leb (order_of players a) (order_of players b) in
    rw rest (
      omega (
        int_laws,
        eq_parts _ _ (held-pay_winners each r 0 (by_order players winners) m),
        eq_parts _ _ (ap (scale each) (length-sort_by before winners)),
        length-sort_by before winners,
        eq_parts _ _ rest,
      ))

best_attained :
    (ranked : List Ranked)
    → 0 < length ranked
    → 0
      < length
          (filter (λ (r : Ranked). r.value == max_of (map (λ (r : Ranked). r.value) ranked)) ranked)
best_attained ranked h = attained ranked (max_of (map (λ (r : Ranked). r.value) ranked)) refl h
  where
    attained :
        (rs : List Ranked) (m : ℕ)
        → max_of (map (λ (r : Ranked). r.value) rs) ≡ m
        → 0 < length rs
        → 0 < length (filter (λ (r : Ranked). r.value == m) rs)
    attained [] m e h = absurd (omega arith)
    attained (r ∷ []) m e h = ground arith
    attained (r ∷ s ∷ rs) m e h = elim (Bool-cases (r.value == m)) [
      | inl hit ↦ rw hit (omega arith)
      | inr miss ↦ rw miss (attained (s ∷ rs) m (omega (arith, below miss)) (omega arith))
    ]
      where
        below : (r.value == m) ≡ false → r.value ≢ m
        below miss = ground arith

-- Every pot that somebody may win has a winner.
pub pot_winners_some :
    (ranked : List Ranked) (pot : Pot)
    → 0 < length pot.eligible
    → 0 < length (pot_winners ranked pot)
pot_winners_some ranked pot h =
    let contenders = filter (λ (r : Ranked). includes pot.eligible r.user_id) ranked in
    elim (Bool-cases (length contenders == 0)) [
      | inl nobody ↦ rw nobody (take_one pot.eligible h)
      | inr somebody ↦ rw somebody (
          omega (
            arith,
            best_attained contenders (ground arith),
            length-map
                (filter
                  (λ (r : Ranked). r.value == max_of (map (λ (r : Ranked). r.value) contenders))
                  contenders)
                (λ (r : Ranked). r.user_id),
          ))
    ]
  where
    take_one : (xs : List ℕ) → 0 < length xs → 0 < length (take 1 xs)
    take_one [] l = l
    take_one (x ∷ xs) l = omega arith

-- Once pots with an eligible player each are paid, the awards hold all that was in them but the part of
-- the rake not taken before.
pub pay_pots_total :
    (players : List PotPlayer) (ranked : List Ranked) (rake total : ℕ) (taken : ℤ) (pot : Pot)
    (pots : List Pot) (m : Dict ℤ)
    → All (λ (p : Pot). 0 < length p.eligible) (pot ∷ pots)
    → held (pay_pots players ranked rake total taken (pot ∷ pots) m)
      ≡ held m +ℤ pos (pots_total (pot ∷ pots)) -ℤ (pos rake -ℤ taken)
unfolding pay_pots
pay_pots_total players ranked rake total taken pot [] m h =
    let payable = pos pot.amount -ℤ (pos rake -ℤ taken) in
    let winners = pot_winners ranked pot in
    omega (
      int_laws,
      eq_parts _ _ (pay_pot_total players winners payable m (pot_winners_some ranked pot h.0)),
    )
pay_pots_total players ranked rake total taken pot (next ∷ pots) m h =
    let share : ℤ = pos (rake * pot.amount / max total 1) in
    let payable = pos pot.amount -ℤ share in
    let paid = pay_pot players (pot_winners ranked pot) payable m in
    omega (
      int_laws,
      eq_parts _ _ (
          pay_pot_total players (pot_winners ranked pot) payable m
            (pot_winners_some ranked pot h.0)),
      eq_parts _ _ (pay_pots_total players ranked rake total (taken +ℤ share) next pots paid h.1),
    )
