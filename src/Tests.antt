-- ===== src/Tests.antt =====
-- Runs of the definitions, and the theorems at concrete inputs.
mod Tables
mod Wire
mod Platform
mod Values
mod Sending
mod Tasks
mod Promises
mod Methods
mod Headers
mod Exchanges
mod Links
mod Queues
