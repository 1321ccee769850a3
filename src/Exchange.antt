-- ===== src/Exchange.antt =====
-- lib/exchange.js.
pub mod Confirms
pub mod State
pub mod Sources
pub mod Unanswered
pub mod Counts
pub mod Accounts
pub mod Runs
