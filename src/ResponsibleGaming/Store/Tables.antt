-- ===== src/ResponsibleGaming/Store/Tables.antt =====
-- apps/api/src/responsible-gaming/rg.repository.ts: the tables of `rg`, and the status of the accounts.
use casino_app.Prelude.{ℕ, Option, List}
use casino_app.Prelude.Dict.{Dict}
use casino_app.ResponsibleGaming.{LimitType, LimitPeriod, RgLimit, RgUsage, RgExclusion}

pub data AccountStatus : Type 0 where
  active suspended self_excluded closed : AccountStatus

pub record RealityCheck : Type 0 where
  pub interval_ms : ℕ
  pub last_shown_at : Option ℕ
  pub last_ack_at : Option ℕ

-- A row of `rg.limit_usage`, with its primary key.
pub record UsageRow : Type 0 where
  pub user_id : ℕ
  pub limit_type : LimitType
  pub period : LimitPeriod
  pub window : ℕ
  pub usage : RgUsage

pub data RgEventType : Type 0 where
  limit_set limit_increase_requested limit_increase_cancelled cool_off_started : RgEventType
  self_exclusion_started exclusion_lapsed interval_set shown acknowledged : RgEventType

-- Payloads, which no decision reads, are left out.
pub record RgEvent : Type 0 where
  pub user_id : ℕ
  pub event_type : RgEventType
  pub created_at : ℕ

pub record RgDb : Type 0 where
  pub limits : List RgLimit
  pub usages : List UsageRow
  pub exclusions : List RgExclusion
  pub checks : Dict RealityCheck
  pub events : List RgEvent
  pub statuses : Dict AccountStatus
