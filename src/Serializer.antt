-- ===== src/Serializer.antt =====
-- lib/serializer.js: what is written into a buffer, the buffer's index `used` included.
pub mod Buffer
pub mod Ints
pub mod Writes
pub mod Values
pub mod Format
pub mod Refines
pub mod Fields
pub mod FieldFormat
pub mod FieldWrites
