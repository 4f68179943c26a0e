-- ===== src/Crash/Config.antt =====
-- apps/api/src/games/crash/crash.config.ts. `safeParse` is zod's: its outcome is an argument here, the
-- parsed configuration or none, and `InSchema` is what the schema promises of one that parses.
use casino_app.Prelude.{ℕ, ◌≤◌, Option, none, some, ltb, if◌then◌else◌}

pub record CrashConfig : Type 0 where
  pub bet_min : ℕ
  pub bet_max : ℕ
  pub max_round_stake : ℕ
  pub max_house_exposure : ℕ
  pub betting_window_ms : ℕ
  pub inter_round_ms : ℕ
  pub house_edge_bps : ℕ
  pub max_multiplier_x100 : ℕ

pub record InSchema (c : CrashConfig) : Type 0 where
  pub window_range : (1_000 ≤ c.betting_window_ms) × (c.betting_window_ms ≤ 60_000)
  pub inter_round_range : c.inter_round_ms ≤ 60_000
  pub edge_range : c.house_edge_bps ≤ 2_000
  pub multiplier_range : (200 ≤ c.max_multiplier_x100) × (c.max_multiplier_x100 ≤ 1_000_000)

abbrev pub crash_config_fallback : CrashConfig
crash_config_fallback = record {
  bet_min = 0;
  bet_max = 0;
  max_round_stake = 0;
  max_house_exposure = 0;
  betting_window_ms = 7_000;
  inter_round_ms = 5_000;
  house_edge_bps = 300;
  max_multiplier_x100 = 10_000;
}

pub data ConfigError : Type 0 where
  bet_max_below_bet_min invalid_config : ConfigError

unfoldable pub parse_crash_config : Option CrashConfig → CrashConfig × Option ConfigError
parse_crash_config (some c) =
    if ltb c.bet_max c.bet_min
    then (crash_config_fallback, some bet_max_below_bet_min)
    else (c, none)
parse_crash_config none = (crash_config_fallback, some invalid_config)
