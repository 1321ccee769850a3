-- ===== src/Parser.antt =====
-- lib/parser.js: from the bytes of the socket to frames, and from the bytes of a frame to values.
pub mod Cursor
pub mod Ints
pub mod Values
pub mod Frames
pub mod Stream
pub mod Chunks
pub mod Fields
pub mod Methods
