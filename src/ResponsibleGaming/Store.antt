-- ===== src/ResponsibleGaming/Store.antt =====
-- apps/api/src/responsible-gaming/rg.repository.ts: the tables of `rg` with the statements on them, and
-- the status of the accounts. `now` is the database's `now()`, and a fresh identifier is an argument.
mod Tables
mod LimitTable
mod UsageTable
mod ExclusionTable
mod CheckTable
unfoldable pub use Tables.*
unfoldable pub use LimitTable.*
unfoldable pub use UsageTable.*
unfoldable pub use ExclusionTable.*
unfoldable pub use CheckTable.*
