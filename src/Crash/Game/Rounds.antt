-- ===== src/Crash/Game/Rounds.antt =====
-- Whole Crash rounds: any sequence of actions and timer ticks, at any clock readings, from lift-off to
-- settlement.
use casino_app.Prelude.{
  ℕ, ◌≤◌, ◌≡◌, refl, false, Option, none, some, List, [], ◌∷◌, arith, ◌==◌, Bool-cases,
  Option-cases, inl, inr, if◌then◌else◌, is_some, ltb, ==_iff, ◌∙◌, ap, sum_of, map,
}
use casino_app.Prelude.Dict.{Dict, lookup, lookup-put, Values-lookup}
use casino_app.Crash.Math.{payout_for}
use casino_app.Crash.Game.{
  Player, CrashState, Action, TimerId, done, ReduceResult, Context, find_player, init,
  live_multiplier, reduce_cash_out, reduce, auto_lock, auto_multiplier, auto_target_for,
  auto_cash_outs, on_timeout, instruction, settle,
}
use casino_app.Crash.Game.Laws.{
  IsValid, Parses, init-IsValid, reduce-IsValid, on_timeout-IsValid, reduce_cash_out_done,
}

-- The same roster and configuration at another clock reading.
abbrev pub at : {Seed : Type 0} → Context Seed → ℕ → Context Seed
at ctx now = record ctx { now = now }

module _ {Seed : Type 0} (hash32 : Seed → ℕ) (ctx : Context Seed) where
  pub data Round : CrashState → Type 0 where
    opened : {s : CrashState} (now : ℕ) → init hash32 (at ctx now) ≡ done s → Round s
    acted :
        {s : CrashState} (now : ℕ) (a : Action) (r : ReduceResult)
        → Round s
        → reduce (at ctx now) s a ≡ done r
        → Round r.state
    ticked :
        {s : CrashState} (now : ℕ) (timer : TimerId)
        → Round s
        → Round (on_timeout (at ctx now) s timer).state

  -- Every state that a round can reach, for a configuration in the schema or the fallback, is valid:
  -- the crash point stays within the cap, the timer on it, and every locked multiplier at 1.00x or more
  -- and below the crash point.
  pub Round-IsValid : {s : CrashState} → Parses ctx.parsed → Round s → IsValid s
  Round-IsValid h (opened now e) = init-IsValid hash32 (at ctx now) h e
  Round-IsValid h (acted now a r round e) =
      reduce-IsValid (at ctx now) _ a {r = r} (Round-IsValid h round) e
  Round-IsValid h (ticked now timer round) =
      on_timeout-IsValid (at ctx now) _ timer (Round-IsValid h round)

payout_mono : (stake m n : ℕ) → m ≤ n → payout_for stake m ≤ payout_for stake n
unfolding payout_for
payout_mono stake m n h = grind arith

instruction-le :
    (s : CrashState) (p : Player)
    → IsValid s
    → (instruction s p).1 ≤ payout_for p.stake s.crash_point_x100
instruction-le s p v = elim (Option-cases (lookup p.user_id s.cash_outs)) [
  | inl riding ↦ rw (riding, instruction) (omega arith)
  | inr (m, out) ↦
      rw (out, instruction)
        (payout_mono p.stake m s.crash_point_x100
          (omega (arith, Values-lookup _ p.user_id s.cash_outs v.locked out)))
]

settle-le :
    (s : CrashState) (players : List Player)
    → IsValid s
    → sum_of (λ i. i.1) (map (instruction s) players)
      ≤ sum_of (λ p. payout_for p.stake s.crash_point_x100) players
settle-le s [] v = omega arith
settle-le s (p ∷ players) v = omega (arith, instruction-le s p v, settle-le s players v)

worst_mono :
    (players : List Player) (m n : ℕ)
    → m ≤ n
    → sum_of (λ p. payout_for p.stake m) players ≤ sum_of (λ p. payout_for p.stake n) players
worst_mono [] m n h = omega arith
worst_mono (p ∷ players) m n h = omega (arith, payout_mono p.stake m n h, worst_mono players m n h)

-- In total a state that a round can reach pays at most what every stake would return at the crash point, and so at most what
-- every stake would return at the cap, for a configuration in the schema or the fallback.
pub settle_exposure :
    {Seed : Type 0} (hash32 : Seed → ℕ) (ctx : Context Seed) {s : CrashState}
    → Parses ctx.parsed
    → Round hash32 ctx s
    → (sum_of (λ i. i.1) (settle ctx s)
        ≤ sum_of (λ p. payout_for p.stake s.crash_point_x100) ctx.players)
      × (sum_of (λ i. i.1) (settle ctx s)
          ≤ sum_of (λ p. payout_for p.stake s.max_multiplier_x100) ctx.players)
unfolding settle
settle_exposure hash32 ctx {s} h round =
    let v = Round-IsValid hash32 ctx h round in
    (
      settle-le s ctx.players v,
      omega (
        arith,
        settle-le s ctx.players v,
        worst_mono ctx.players s.crash_point_x100 s.max_multiplier_x100 v.to_cap,
      ),
    )

auto_lock-other :
    (s : CrashState) (p : Player) (target : Option ℕ) (m : Dict ℕ) (user : ℕ)
    → (p.user_id == user) ≡ false
    → lookup user (auto_lock s p target m) ≡ lookup user m
auto_lock-other s p none m user h = refl
auto_lock-other s p (some target) m user h =
    elim (Bool-cases (ltb (auto_multiplier s target) s.crash_point_x100)) [
      | inl early ↦
          rw early (rw (lookup-put p.user_id user (auto_multiplier s target) m) (rw h refl))
      | inr lost ↦ rw lost refl
    ]

auto_cash_outs-keeps :
    (s : CrashState) (players : List Player) (m : Dict ℕ) (user : ℕ) {locked : ℕ}
    → lookup user m ≡ some locked
    → lookup user (auto_cash_outs s players m) ≡ some locked
unfolding auto_cash_outs
auto_cash_outs-keeps s [] m user h = h
auto_cash_outs-keeps s (p ∷ players) m user h = elim (Bool-cases (is_some (lookup p.user_id m))) [
  | inl out ↦ rw out (auto_cash_outs-keeps s players m user h)
  | inr riding ↦ rw riding (
      auto_cash_outs-keeps s players _ user
        (rw (auto_lock-other s p (auto_target_for p) m user (ground arith)) h))
]

-- A locked multiplier stays as it is through every action that is accepted and every timer.
pub cash_out_is_final :
    {Seed : Type 0} (ctx : Context Seed) (s : CrashState) (user : ℕ) {locked : ℕ}
    → lookup user s.cash_outs ≡ some locked
    → ((a : Action) (r : ReduceResult)
        → reduce ctx s a ≡ done r
        → lookup user r.state.cash_outs ≡ some locked)
      × ((timer : TimerId) → lookup user (on_timeout ctx s timer).state.cash_outs ≡ some locked)
unfolding reduce on_timeout
cash_out_is_final ctx s user {locked} h = (after_action, after_timer)
  where
    after_cash_out :
        (p : Player) (r : ReduceResult)
        → reduce_cash_out ctx s p ≡ done r
        → lookup user r.state.cash_outs ≡ some locked
    after_cash_out p r e =
        let facts = reduce_cash_out_done ctx s p e in
        rw (facts.0) (
          ground (arith, h, facts.2, lookup-put p.user_id user (live_multiplier ctx s) s.cash_outs))

    after_action :
        (a : Action) (r : ReduceResult)
        → reduce ctx s a ≡ done r
        → lookup user r.state.cash_outs ≡ some locked
    after_action a r e = elim (Option-cases (find_player a.user_id ctx.players)) [
      | inl stranger ↦ absurd (ground arith)
      | inr (p, found) ↦ after_cash_out p r (ground arith)
    ]

    after_timer :
        (timer : TimerId) → lookup user (on_timeout ctx s timer).state.cash_outs ≡ some locked
    after_timer timer = ground (arith, auto_cash_outs-keeps s ctx.players s.cash_outs user h)

-- What `onTimeout` leaves under a player's id, from what was there.
abbrev pub settled_multiplier : CrashState → Player → Option ℕ → Option ℕ → Option ℕ
settled_multiplier s p (some locked) target = some locked
settled_multiplier s p none none = none
settled_multiplier s p none (some target) =
    if ltb (auto_multiplier s target) s.crash_point_x100
    then some (auto_multiplier s target)
    else none

-- No two players of a roster share an id.
abbrev pub Distinct : List Player → Type 0
Distinct [] = Unit
Distinct (p ∷ players) = (find_player p.user_id players ≡ none) × Distinct players

auto_lock_self :
    (s : CrashState) (p : Player) (target : Option ℕ) (m : Dict ℕ)
    → lookup p.user_id m ≡ none
    → lookup p.user_id (auto_lock s p target m) ≡ settled_multiplier s p none target
auto_lock_self s p none m h = h
auto_lock_self s p (some target) m h =
    elim (Bool-cases (ltb (auto_multiplier s target) s.crash_point_x100)) [
      | inl early ↦ rw early (
          rw (lookup-put p.user_id p.user_id (auto_multiplier s target) m)
            (rw ((==_iff p.user_id p.user_id).1 refl) refl))
      | inr lost ↦ rw lost h
    ]

auto_cash_outs-stranger :
    (s : CrashState) (players : List Player) (m : Dict ℕ) (user : ℕ)
    → find_player user players ≡ none
    → lookup user (auto_cash_outs s players m) ≡ lookup user m
unfolding auto_cash_outs
auto_cash_outs-stranger s [] m user h = refl
auto_cash_outs-stranger s (q ∷ players) m user h =
    elim (Bool-cases (is_some (lookup q.user_id m))) [
      | inl out ↦ rw out (auto_cash_outs-stranger s players m user (ground arith))
      | inr riding ↦ rw riding (
          auto_cash_outs-stranger s players _ user (ground arith)
          ∙ auto_lock-other s q (auto_target_for q) m user (ground arith))
    ]

auto_cash_outs_head :
    (s : CrashState) (p : Player) (players : List Player) (m : Dict ℕ)
    → find_player p.user_id players ≡ none
    → lookup p.user_id (auto_cash_outs s (p ∷ players) m)
      ≡ settled_multiplier s p (lookup p.user_id m) (auto_target_for p)
unfolding auto_cash_outs
auto_cash_outs_head s p players m h = elim (Option-cases (lookup p.user_id m)) [
  | inl riding ↦
      rw (riding, settled_multiplier)
        (auto_cash_outs-stranger s players _ p.user_id h
          ∙ auto_lock_self s p (auto_target_for p) m riding)
  | inr (locked, out) ↦
      rw (out, settled_multiplier) (auto_cash_outs-stranger s players _ p.user_id h ∙ out)
]

-- Over a roster without repeated ids the loop of `onTimeout` gives each player what they had locked,
-- or else the multiplier of the first tick to reach their target if that is below the crash point.
pub auto_cash_outs_each :
    (s : CrashState) (players : List Player) (m : Dict ℕ) (user : ℕ) (p : Player)
    → Distinct players
    → find_player user players ≡ some p
    → lookup user (auto_cash_outs s players m)
      ≡ settled_multiplier s p (lookup user m) (auto_target_for p)
unfolding auto_cash_outs
auto_cash_outs_each s [] m user p d e = cc
auto_cash_outs_each s (q ∷ players) m user p d e = elim (Bool-cases (q.user_id == user)) [
  | inl same ↦
      (let ids : user ≡ q.user_id = ground arith in
        let found : p ≡ q = ground arith in rw (ids, found) (auto_cash_outs_head s q players m d.0))
  | inr other ↦ elim (Bool-cases (is_some (lookup q.user_id m))) [
    | inl out ↦ rw out (auto_cash_outs_each s players m user p d.1 (ground arith))
    | inr riding ↦ rw riding (
        auto_cash_outs_each s players _ user p d.1 (ground arith)
        ∙ ap (λ l. settled_multiplier s p l (auto_target_for p))
            (auto_lock-other s q (auto_target_for q) m user other))
  ]
]
