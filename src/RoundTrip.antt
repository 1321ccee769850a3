-- ===== src/RoundTrip.antt =====
-- What lib/parser.js reads back of what lib/serializer.js wrote.
pub mod Ints
pub mod Reads
pub mod Bits
pub mod Received
pub mod Places
pub mod Steps
pub mod Scalars
pub mod Values
pub mod Tables
pub mod Endless
pub mod Plain
pub mod Octets
pub mod Params
pub mod Fields
pub mod Flags
pub mod Protocol
