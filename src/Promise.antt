-- ===== src/Promise.antt =====
-- lib/promise.js.
pub mod Events
pub mod Once
