-- ===== src/Queue.antt =====
-- lib/queue.js and lib/message.js.
pub mod Messages
pub mod Bodies
pub mod Bindings
pub mod Subscriptions
pub mod Unbinding
pub mod Rebinding
pub mod State
pub mod Jobs
pub mod Calls
pub mod Handlers
pub mod Idle
pub mod Resubscribing
pub mod Restoring
pub mod Answers
