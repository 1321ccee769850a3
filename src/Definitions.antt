-- ===== src/Definitions.antt =====
-- lib/amqp-definitions-0-9-1.js, class by class, and the tables that lib/definitions.js builds of it.
pub mod Info
pub mod Connection
pub mod Channel
pub mod Exchange
pub mod Queue
pub mod Basic
pub mod Protocol
pub mod Tables
pub mod Complete
