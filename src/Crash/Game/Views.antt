-- ===== src/Crash/Game/Views.antt =====
-- What leaves the server of a Crash round: `publicRound`, `publicView` and `playerView`.
use casino_app.Prelude.{
  ℕ, ◌≤◌, ◌≡◌, Option, none, some, List, [], ◌∷◌, ap, map, min, arith, if◌then◌else◌, or_else,
}
use casino_app.Prelude.Dict.{lookup}
use casino_app.Crash.Config.{CrashConfig}
use casino_app.Crash.Math.{tick_ms, growth_per_mille, payout_for}
use casino_app.Crash.Game.{
  Player, Phase, flying, crashed, is_flying, CrashState, Context, find_player, live_multiplier,
  auto_target_for, instruction,
}

pub record BetView : Type 0 where
  pub user_id : ℕ
  pub amount : ℕ
  pub cashed_out_at_x100 : Option ℕ
  pub payout : Option ℕ

pub record PublicRound (Seed : Type 0) : Type 0 where
  pub phase : Phase
  pub started_at : ℕ
  pub tick : ℕ
  pub growth : ℕ
  pub multiplier_x100 : ℕ
  pub max_multiplier_x100 : ℕ
  pub crashed_at_x100 : Option ℕ
  pub server_seed : Option Seed
  pub commitment : Option ℕ
  pub bets : List BetView

pub record YourBet : Type 0 where
  pub amount : ℕ
  pub auto_cash_out_x100 : Option ℕ
  pub cashed_out_at_x100 : Option ℕ
  pub payout : Option ℕ

abbrev pub bet_view : CrashState → Player → BetView
bet_view state player = record {
  user_id = player.user_id;
  amount = player.stake;
  cashed_out_at_x100 = lookup player.user_id state.cash_outs;
  payout =
      if is_flying state.phase
      then none
      else some (payout_for player.stake (or_else (lookup player.user_id state.cash_outs) 0));
}

abbrev pub your_bet : CrashState → ℕ → Player → YourBet
your_bet state user player = record {
  amount = player.stake;
  auto_cash_out_x100 = auto_target_for player;
  cashed_out_at_x100 = lookup user state.cash_outs;
  payout =
      if is_flying state.phase
      then none
      else some (elim (lookup user state.cash_outs) [
        | none ↦ 0
        | some multiplier_x100 ↦ payout_for player.stake multiplier_x100
      ]);
}

module _ {Seed : Type 0} where
  unfoldable pub public_round : Context Seed → CrashState → PublicRound Seed
  public_round ctx state = record {
    phase = state.phase;
    started_at = state.started_at;
    tick = tick_ms;
    growth = growth_per_mille;
    multiplier_x100 =
        if is_flying state.phase
        then min (live_multiplier ctx state) state.crash_point_x100
        else state.crash_point_x100;
    max_multiplier_x100 = state.max_multiplier_x100;
    crashed_at_x100 = if is_flying state.phase then none else some state.crash_point_x100;
    server_seed = if is_flying state.phase then none else ctx.server_seed;
    commitment = ctx.commitment;
    bets = map (bet_view state) ctx.players;
  }

  unfoldable pub player_view : Context Seed → CrashState → ℕ → PublicRound Seed × Option YourBet
  player_view ctx state user = (
    public_round ctx state,
    elim (find_player user ctx.players) [
      | none ↦ none
      | some player ↦ some (your_bet state user player)
    ],
  )

  -- While a round flies and the curve has not passed the crash point, what any user sees is the same
  -- for every crash point that the curve has not passed, and every timer, seed and configuration.
  pub player_view_hides :
      (ctx : Context Seed) (s : CrashState) (user : ℕ) (point timer : ℕ) (seed : Option Seed)
      (parsed : Option CrashConfig)
      → s.phase ≡ flying
      → live_multiplier ctx s ≤ s.crash_point_x100
      → live_multiplier ctx s ≤ point
      → player_view
          (record ctx { server_seed = seed; parsed = parsed })
          (record s { crash_point_x100 = point; crash_at_ms = timer })
          user
        ≡ player_view ctx s user
  unfolding player_view public_round
  player_view_hides ctx s user point timer seed parsed f h k = ground arith

find_player-id :
    (user : ℕ) (players : List Player) {p : Player}
    → find_player user players ≡ some p
    → p.user_id ≡ user
find_player-id user [] e = cc
find_player-id user (q ∷ players) {p} e = ground (arith, find_player-id user players {p = p})

abbrev pub shown_payout : Option YourBet → Option ℕ
shown_payout none = none
shown_payout (some bet) = bet.payout

-- Once a round has crashed everybody sees the crash point and the seed behind the commitment, and a
-- player of the round sees the payout of the settlement instruction made for them.
pub player_view_reveals :
    {Seed : Type 0} (ctx : Context Seed) (s : CrashState) (user : ℕ) (p : Player)
    → s.phase ≡ crashed
    → find_player user ctx.players ≡ some p
    → ((player_view ctx s user).0.crashed_at_x100 ≡ some s.crash_point_x100)
      × ((player_view ctx s user).0.server_seed ≡ ctx.server_seed)
      × (shown_payout (player_view ctx s user).1 ≡ some (instruction s p).1)
unfolding player_view public_round
player_view_reveals ctx s user p f e = ground (
  arith,
  find_player-id user ctx.players e,
  ap (λ u. lookup u s.cash_outs) (find_player-id user ctx.players e),
)
