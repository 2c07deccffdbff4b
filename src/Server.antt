-- ===== src/Server.antt =====
-- frontend/server.js: the HTTP server of the front end.
pub mod Services
pub mod Http
pub mod Transactions
pub mod Tickets
pub mod Telemetry
pub mod Governance
pub mod Voting
pub mod Trading
pub mod Replies
pub mod Sessions
pub mod Users
pub mod Payments
pub mod Insights
pub mod Breaker
pub mod Yield
pub mod Contracts
pub mod Static
pub mod Router
pub mod Ports
mod Tests
