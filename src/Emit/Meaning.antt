-- ===== src/Emit/Meaning.antt =====
-- What the emitted bytes say, by the reference decoder.
pub mod Shapes
pub mod Arith64
pub mod Moves64
pub mod Memory64
pub mod Indirect64
pub mod Arith32
pub mod Memory32
pub mod Shared
pub mod Lea64
pub mod Nops
