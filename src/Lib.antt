-- ===== src/Lib.antt =====
-- The game core of a casino platform: the pure reducers that the game engine runs, in
-- apps/api/src/games and apps/api/src/game-engine, and the money rules beside them.
--
-- A game is a definition with `init`, `reduce`, `onTimeout`, views and a settlement
-- (GameDefinition of packages/contracts). The engine loads a match, folds one action or timer into
-- it and stores the outcome; everything that a hand or a round decides is decided by these functions,
-- on a context of players, configuration, recorded clock and recorded draws. They are pure, so each is
-- a function here, an error is a value (`refused`), and a sequence of actions and timers is a sequence
-- of steps.
--
-- Prelude: Boolean tests, list operations, integers (Int), keyed records (Dict) and stable sorting
-- (Sort) over the native numbers. Identifiers are only compared, so they are numbers.
--
-- Crash, apps/api/src/games/crash:
--   Crash.Math is crash.math.ts (Crash.Curve has its laws), Crash.Config is crash.config.ts,
--   Crash.Game is crash.game.ts with its views in Crash.Game.Views; Crash.Game.Laws has the
--   invariant, and Crash.Game.Rounds whole rounds, as a data type of reachable states.
--
-- Poker, apps/api/src/games/poker:
--   Poker.Betting is betting.ts, Poker.Cards is cards.ts, Poker.Pots is pots.ts, Poker.Config is
--   poker.config.ts. Poker.Game and its children are poker.game.ts: Game has the state and the
--   chips, Finish closes a hand (finish, rakeFor), Flow moves it on (advance, nextStreet), Actions
--   takes an action or a timeout (reduce, onTimeout), Deal deals a hand (init, openStreet), Views shows
--   it. The modules below each of these have its laws.
--
-- Coin duel, apps/api/src/game-engine/games/coin-duel.game.ts, the reference game of the engine: CoinDuel.
--
-- The ledger, apps/api/src/wallet/ledger.service.ts: Ledger is LedgerService, with the tables as a record
-- and the trigger that keeps players' balances from going negative (0003_wallet.sql in
-- apps/api/src/platform/database/migrations). A failure rolls the whole transaction back.
--
-- Responsible gaming, apps/api/src/responsible-gaming: ResponsibleGaming is rg.types.ts, with the windows
-- (Windows); ResponsibleGaming.Store is rg.repository.ts, a record of tables with a function for each
-- statement; ResponsibleGaming.Service is rg.service.ts. Steps has the operations that write as a data
-- type; Allowance, Exclusions and Cooling are about decisions over any run of them, Limits about the
-- abstract limit that the rows stand for.
--
-- The wallet, apps/api/src/wallet: Wallet is wallet.repository.ts, the accounts and balances;
-- Wallet.Service has the spends of wallet.service.ts (postSpend over the ledger and the limits),
-- Wallet.Operations the operations that use them (addFunds, buyIn, sitDown, standUp, settleTableHand)
-- and Wallet.Settle settle, settleHouseBanked and reverse. A transaction is a function from the tables to a
-- result and the tables after it; an error leaves the tables as they were. The database's clock stands still in a
-- transaction; the server's is a sequence of readings, and a spend is metered at a later one than it was
-- checked at. AccountLaws, Legs, Balances,
-- Spends, Settlement and Reversal are about these. Wallet.Reconciliation is reconciliation.service.ts, with
-- Drift and Reached about the ledgers that posts can reach.
--
-- Risk, apps/api/src/risk: Risk.Collusion is collusion.ts, the flows between pairs of players over
-- summaries of hands, and the findings over flows; Shares, Totals, Nets, Exact, Counts and Pairs are
-- about the flows, and Dumping is about the findings. A ratio is kept as
-- two numbers, and compared exactly where the source compares doubles.
--
-- Numbers: JavaScript numbers that are whole and never negative by construction are natural numbers;
-- where a difference or an amount of a client may be negative they are integers (ℤ) or `Number`, which
-- also has what is no integer. A subtraction on natural numbers stands only where the source takes
-- Math.max(0, ...) or where a guard makes it exact.
--
-- Fuel: the loop of ticksToReach runs on the target as fuel, and each of its rounds adds at least one
-- to the multiplier. The other loops run over a list or a bounded counter.
--
-- Parameters: the first 32 bits of the sha256 of a seed (hash32), the draws of the engine (random), and
-- the identifiers that uuidv7 draws (fresh), numbers for the strings of idempotency keys (key_number), whom
-- risk has frozen and what the feature flags say, and what zod's safeParse makes of a raw configuration (parsed, none if it fails; InSchema is what the
-- schema promises). finish writes the final stacks into the seats; as an award may be negative, the exact
-- stacks stand in a field of their own, and a negative one is zero in the seat.
--
-- Not modelled: the services, repositories and gateways around the reducers (SQL, Redis, sockets),
-- authentication, risk scores, matchmaking, the admin and mobile applications, and
-- card names and labels for display.
pub mod Prelude
pub mod Crash
pub mod Poker
pub mod CoinDuel
pub mod Ledger
pub mod ResponsibleGaming
pub mod Wallet
pub mod Risk
