-- ===== src/Database.antt =====
-- services/database/src/db-client.ts: the store of profiles, portfolios, transactions and loyalty.
pub mod Types
pub mod Storage
pub mod Profiles
pub mod Booking
pub mod Deposits
pub mod Isolation
pub mod History
pub mod Keyed
pub mod Restart
mod Tests
