-- ===== src/Connection.antt =====
-- lib/connection.js.
pub mod Frame
pub mod Body
pub mod Delivery
pub mod ChannelIds
pub mod Methods
pub mod Calls
pub mod Unknown
pub mod Headers
pub mod Properties
pub mod Contents
pub mod Backoff
pub mod Attempts
pub mod Control
