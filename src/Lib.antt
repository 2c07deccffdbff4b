-- ===== src/Lib.antt =====
-- The Hikari protocol's off-chain code: a stress-test simulator of the vault and a fuzzing
-- harness of its invariants, the wallet authentication service, the database client, the HTTP server
-- of the front end, the policy engine with its keeper bot, the proof of solvency, the agents that
-- propose an allocation, and a backtest. The server calls the service, the client, and a reader of the
-- contracts on the ledger; the keeper calls the risk engine, the policy verifier and the audit log.
--
--   Prelude: shared names, integers (BigInt), texts as JavaScript sees them, Maps, JSON values, calls
--   that throw, and Number, the double-precision arithmetic of the host as a parameter.
--   Simulator: scripts/simulate_stress_test.js. A `ProtocolSimulator` is a record, a method a
--   function from state to state, `none` a RangeError. Simulator/Run has the loops of
--   `runStressTest`, which are structural recursion on the rounds that are left.
--   Fuzz: scripts/run_fuzz_tests.js. `iteration` is the body of the loop, with the random integers as
--   its argument `Draw`; a check that fails, or a RangeError, is a `Failure`.
--   Auth: services/database/src/auth-service.ts. A `Service` is a record of Maps and the log; the
--   draws of the clock and the random source are the argument `Draw` of a call, and crypto, Buffer
--   and the Stellar SDK the parameter `Host`. `verifySignature` is `verify_signature`, and so on;
--   Auth/Replay applies any sequence of calls.
--   Database: services/database/src/db-client.ts. A `Database` is a record of the four tables and the
--   sync file; what JSON reads from that file is the field `parse` of the Host. Database/Storage has
--   the constructor, `persistState` and `getHealth`, Database/Profiles and Database/Booking the other
--   methods; Database/Isolation applies any sequence of calls.
--   Server: frontend/server.js. A handler is a function from a request to a response, or to `Except`
--   where it may end without one; one that changes something goes from a `State` (the service, the
--   database, telemetry_data.json) to a state. The reader, the SDK, JSON, `fetch` and the clock are
--   the parameter `World`, the services that the handlers load the parameter `Services`.
--     Http, Services: requests, responses and the parameters; Router: `handleRequest`; Static: the
--     files and `MIME_TYPES`; Ports: `bootstrap`.
--     Transactions, Tickets, Telemetry, Contracts, Yield, Governance, Voting: the endpoints that read
--     the ledger or build a transaction. Trading: `/api/trading-agent`, with its feeds (Feed), its
--     indicators (Indicators) and its signal (Desk). Payments, Insights: endpoints in front of other
--     services. Replies: the state and what the answers carry; Sessions, Users: login, profiles and
--     deposits. Breaker: the shock and the reset.
--   Engine: engine/src. Types: types.ts. Policy: policy_verifier.ts, a `PolicyVerifier` with the day's
--   spending; Rebalance: policy_engine.ts. Audit: audit_logger.ts; Levels, Merkle:
--   cryptographic_verifier.ts. Risk: risk_engine.ts; Reputation: agents/reputation.ts. Drift,
--   Arbitrage, Keeper: agents/keeper_bot.ts, where `run_keeper_cycle` goes from a `KeeperBot`, which
--   holds the components that it calls, to a `KeeperBot` and a result. SHA-256, `JSON.stringify`, texts
--   of numbers and `toLowerCase` are parameters; the clock is an argument. Points: points_engine.ts;
--   Rationale: audit/rationale_feed.ts; Portfolio: portfolio_risk.ts.
--   Solvency: services/automation/src/merkle-solvency.ts, over the levels of Engine/Levels.
--   Agents: agents/src/yield_agent.ts, risk_agent.ts and `buildProposal` of execution_agent.ts, which
--   pass a ranking on to a proposal; Agents/Payment: payment_agent.ts;
--   Agents/Backrun: `scanArbitrage` of mev_backrun.ts.
--   Backtest: scripts/run_backtest.js, whose loops are structural recursion on the days that are left.
--
-- Not modelled: console output, the transport, and the other services; every step that the code
-- leaves to a library is a field of Host, Number, World or Files. A URL or a header that cannot be
-- parsed is left out. No definition runs on fuel:
-- the loops over the levels of a Merkle tree recur on the length of a level. Of the engine, the
-- tiers, the adapters and the daemon are left out; of the agents, those of the market and of the
-- orchestration, `executeOnChain` and `executeBackrunBundle`.
pub mod Prelude
pub mod Simulator
pub mod Solvency
pub mod Engine
pub mod Agents
pub mod Backtest
pub mod Fuzz
pub mod Auth
pub mod Database
pub mod Server
