-- ===== src/Emit.antt =====
-- src/X86InstructionFactory.C: the functions that build instructions byte by byte.
pub mod Buffer
pub mod Factory
pub mod Factory32
pub mod Factory64
pub mod Meaning
