-- ===== src/ResponsibleGaming/Service.antt =====
-- apps/api/src/responsible-gaming/rg.service.ts: the decisions and the player's controls. `now` is the
-- database's clock, `clock` the server's. Logs, audit rows and the timers themselves are left out.
mod Decisions
mod Controls
unfoldable pub use Decisions.*
unfoldable pub use Controls.*
