-- ===== src/Poker/Config.antt =====
-- apps/api/src/games/poker/poker.config.ts. What zod's `safeParse` makes of the raw configuration is an
-- argument; `InSchema` is what the schema promises of a configuration that parses.
use casino_app.Prelude.{ℕ, ◌≤◌, Bool, true, Option, none, some, ltb, leb, if◌then◌else◌}

pub record PokerConfig : Type 0 where
  pub sb : ℕ
  pub bb : ℕ
  pub buy_in_min : ℕ
  pub buy_in_max : ℕ
  pub turn_timer_ms : ℕ
  pub timebank_ms : ℕ
  pub timebank_step_ms : ℕ
  pub rake_bps : ℕ
  pub rake_cap : ℕ
  pub button_order : ℕ
  pub muck_losers : Bool

pub record InSchema (c : PokerConfig) : Type 0 where
  pub blinds_range : (1 ≤ c.sb) × (2 ≤ c.bb)
  pub turn_timer_range : (3_000 ≤ c.turn_timer_ms) × (c.turn_timer_ms ≤ 120_000)
  pub timebank_range : c.timebank_ms ≤ 300_000
  pub timebank_step_range : (1_000 ≤ c.timebank_step_ms) × (c.timebank_step_ms ≤ 60_000)
  pub rake_range : c.rake_bps ≤ 1_000
  pub button_range : c.button_order ≤ 5

abbrev pub poker_config_fallback : PokerConfig
poker_config_fallback = record {
  sb = 1;
  bb = 2;
  buy_in_min = 40;
  buy_in_max = 200;
  turn_timer_ms = 15_000;
  timebank_ms = 30_000;
  timebank_step_ms = 10_000;
  rake_bps = 0;
  rake_cap = 0;
  button_order = 0;
  muck_losers = true;
}

pub data ConfigError : Type 0 where
  invalid big_blind_too_small buy_in_reversed : ConfigError

unfoldable pub parse_poker_config : Option PokerConfig → PokerConfig × Option ConfigError
parse_poker_config none = (poker_config_fallback, some invalid)
parse_poker_config (some c) =
    if leb c.bb c.sb
    then (poker_config_fallback, some big_blind_too_small)
    else if ltb c.buy_in_max c.buy_in_min
    then (poker_config_fallback, some buy_in_reversed)
    else (c, none)
