-- ===== src/Channel.antt =====
-- lib/channel.js.
pub mod Tasks
pub mod Members
pub mod Order
pub mod Complete
pub mod Replies
pub mod Waiting
