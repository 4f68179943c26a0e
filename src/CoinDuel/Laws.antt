-- ===== src/CoinDuel/Laws.antt =====
-- Laws of apps/api/src/game-engine/games/coin-duel.game.ts.
use casino_app.Prelude.{
  ℕ, suc, ◌+◌, ◌-◌, ◌*◌, ◌/◌, ◌≡◌, refl, ap, inl, inr, ◌==◌, Bool, true, false, not, if◌then◌else◌,
  Option, none, some, is_some, List, [], ◌∷◌, map, find, every, length, sum_of, Bool-cases,
  Option-cases, arith,
}
use native.Mathlib.Nat.{div-mul-le_self}
use casino_app.Prelude.Dict.{Dict, lookup, put}
use casino_app.CoinDuel.{
  Side, timeout_pick, Player, CoinDuelState, Context, Action, done, ReduceResult, stakes, init,
  has_picked, winners_of, apply_pick, reduce, unchanged, on_timeout, is_seat, side_of, pay_from,
  settle, player_view,
}

-- The pot holds the stakes, and once the coin has been flipped the winners are those who picked its side
-- and it is nobody's turn.
abbrev pub Decided : Context → CoinDuelState → Option Side → Type 0
Decided ctx s none = Unit
Decided ctx s (some side) = (s.winners ≡ winners_of side s.picks ctx.players) × (s.turn ≡ none)

abbrev pub Fair : Context → CoinDuelState → Type 0
Fair ctx s = (s.pot ≡ stakes ctx.players) × Decided ctx s s.flip

pub sum_of-pay_from :
    (share remainder index : ℕ) (users : List ℕ)
    → sum_of (λ (i : ℕ × ℕ). i.1) (pay_from share remainder (suc index) users)
      ≡ share * length users
sum_of-pay_from share remainder index [] = omega arith
sum_of-pay_from share remainder index (u ∷ users) =
    ground (arith, sum_of-pay_from share remainder (index + 1) users)

sum_of-refund :
    (players : List Player)
    → sum_of (λ (i : ℕ × ℕ). i.1) (map (λ (p : Player). (p.user_id, p.stake)) players)
      ≡ stakes players
sum_of-refund [] = refl
sum_of-refund (p ∷ players) = ap (λ n. p.stake + n) (sum_of-refund players)

-- A settlement pays out exactly the stakes if the pot holds them.
pub settle_pays_stakes :
    (ctx : Context) (s : CoinDuelState)
    → Fair ctx s
    → sum_of (λ (i : ℕ × ℕ). i.1) (settle ctx s) ≡ stakes ctx.players
unfolding settle
settle_pays_stakes ctx s fair = by_winners s.winners refl
  where
    by_winners :
        (ws : List ℕ)
        → s.winners ≡ ws
        → sum_of (λ (i : ℕ × ℕ). i.1) (settle ctx s) ≡ stakes ctx.players
    by_winners [] e = rw (e, settle) (sum_of-refund ctx.players)
    by_winners (w ∷ ws) e =
        let n = suc (length ws) in
        let some_won : (n == 0) ≡ false = ground arith in
        rw (e, settle)
          (rw some_won (
            omega (
              arith,
              sum_of-pay_from (s.pot / n) (s.pot - s.pot / n * n) 0 ws,
              div-mul-le_self s.pot n,
              fair.0,
            )))

done-inj : {r q : ReduceResult} → done r ≡ done q → r ≡ q
done-inj h = ground arith

module _ (ctx : Context) where
  apply_pick-Fair :
      (s : CoinDuelState) (user : ℕ) (choice : Side) (automatic : Bool) {r : ReduceResult}
      → Fair ctx s
      → s.flip ≡ none
      → apply_pick ctx s user choice automatic ≡ done r
      → Fair ctx r.state
  unfolding apply_pick
  apply_pick-Fair s user choice automatic {r} fair undecided e =
      let picks = put user choice s.picks in
      elim (Bool-cases (not (every (has_picked picks) ctx.players))) [
        | inl waiting ↦ elim (Option-cases (find (λ p. not (has_picked picks p)) ctx.players)) [
          | inl nobody ↦ absurd (ground arith)
          | inr (p, next) ↦
              (let is = done-inj (rw (waiting, next, apply_pick) at e) in
                rw (← is) (fair.0, rw undecided tt))
        ]
        | inr all_picked ↦
            (let is = done-inj (rw (all_picked, apply_pick) at e) in
              rw (← is) (fair.0, (refl, refl)))
      ]

  reduce-Fair :
      (s : CoinDuelState) (action : Action) {r : ReduceResult}
      → Fair ctx s
      → reduce ctx s action ≡ done r
      → Fair ctx r.state
  unfolding reduce
  reduce-Fair s action {r} fair e =
      elim (Option-cases (find (λ (p : Player). p.user_id == action.user_id) ctx.players)) [
        | inl stranger ↦ absurd (ground arith)
        | inr (player, found) ↦ elim (Option-cases s.flip) [
          | inl undecided ↦ elim (Option-cases action.choice) [
            | inl missing ↦ absurd (ground arith)
            | inr (choice, chosen) ↦
                apply_pick-Fair s action.user_id choice false {r = r} fair undecided (ground arith)
          ]
          | inr (side, decided) ↦ absurd (ground arith)
        ]
      ]

  on_timeout-Fair :
      (s : CoinDuelState) (timer : ℕ) {r : ReduceResult}
      → Fair ctx s
      → on_timeout ctx s timer ≡ done r
      → Fair ctx r.state
  unfolding on_timeout
  on_timeout-Fair s timer {r} fair e = elim (Bool-cases (is_some s.turn)) [
    | inl somebody ↦ elim (Bool-cases (is_some s.flip)) [
      | inl decided ↦ stays (rw (somebody, decided, on_timeout) at e)
      | inr waiting ↦
          elim (Option-cases (find (λ (p : Player). is_seat s.turn p.seat) ctx.players)) [
            | inl nobody ↦ stays (rw (somebody, waiting, nobody, on_timeout) at e)
            | inr (p, found) ↦
                apply_pick-Fair s p.user_id (side_of (ctx.random (timeout_pick timer))) true {r = r}
                  fair (ground arith) (rw (somebody, waiting, found, on_timeout) at e)
          ]
    ]
    | inr nobody ↦ stays (rw (nobody, on_timeout) at e)
  ]
    where
      stays : unchanged s ≡ done r → Fair ctx r.state
      stays h = (let is = done-inj h in rw (← is) fair)

  -- The matches that actions and timers reach from `init`.
  pub data Match : CoinDuelState → Type 0 where
    opened : Match (init ctx)
    acted :
        {s : CoinDuelState} (action : Action) (r : ReduceResult)
        → Match s
        → reduce ctx s action ≡ done r
        → Match r.state
    timed :
        {s : CoinDuelState} (timer : ℕ) (r : ReduceResult)
        → Match s
        → on_timeout ctx s timer ≡ done r
        → Match r.state

  Match-Fair : {s : CoinDuelState} → Match s → Fair ctx s
  unfolding init
  Match-Fair opened = (refl, tt)
  Match-Fair (acted action r m e) = reduce-Fair _ action (Match-Fair m) e
  Match-Fair (timed timer r m e) = on_timeout-Fair _ timer (Match-Fair m) e

  -- In every state that actions and timers reach from `init` the settlement pays out exactly the
  -- stakes, and once the coin has been flipped the winners are those who picked its side and nobody is
  -- to move.
  pub Match-settles :
      {s : CoinDuelState}
      → Match s
      → (sum_of (λ (i : ℕ × ℕ). i.1) (settle ctx s) ≡ stakes ctx.players) × Decided ctx s s.flip
  Match-settles {s} m = (settle_pays_stakes ctx s (Match-Fair m), (Match-Fair m).1)

-- The same users with other picks, but for one user's own.
abbrev pub repick : ℕ → (ℕ → Side) → ℕ × Side → ℕ × Side
repick user other (key, side) = (key, if key == user then side else other key)

lookup-repick :
    (user : ℕ) (other : ℕ → Side) (picks : Dict Side)
    → lookup user (map (repick user other) picks) ≡ lookup user picks
lookup-repick user other [] = refl
lookup-repick user other ((key, side) ∷ picks) = elim (Bool-cases (key == user)) [
  | inl own ↦ rw own refl
  | inr stranger ↦ rw stranger (lookup-repick user other picks)
]

same_keys :
    (user : ℕ) (other : ℕ → Side) (picks : Dict Side)
    → map (λ (e : ℕ × Side). e.0) (map (repick user other) picks)
      ≡ map (λ (e : ℕ × Side). e.0) picks
same_keys user other [] = refl
same_keys user other ((key, side) ∷ picks) = ap (λ ks. key ∷ ks) (same_keys user other picks)

-- Before the flip a player's view is the same whatever the others have picked.
pub player_view_hides_picks :
    (s : CoinDuelState) (user : ℕ) (other : ℕ → Side)
    → s.flip ≡ none
    → player_view (record s { picks = map (repick user other) s.picks }) user ≡ player_view s user
unfolding player_view
player_view_hides_picks s user other undecided =
    rw (undecided, lookup-repick user other s.picks, same_keys user other s.picks) refl
