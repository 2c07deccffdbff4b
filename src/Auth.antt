-- ===== src/Auth.antt =====
-- services/database/src/auth-service.ts: challenges, sessions and the security log of
-- `HikariWalletSecurityService`. A method returns its result beside the new state.
pub mod Types
pub mod Log
pub mod Token
pub mod Challenge
pub mod Verify
pub mod Session
pub mod Soundness
pub mod Replay
pub mod Tokens
pub mod LogBound
pub mod RoundTrip
pub mod Tests
