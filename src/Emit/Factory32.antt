-- ===== src/Emit/Factory32.antt =====
-- src/X86InstructionFactory.C: class X86InstructionFactory32. The definitions are as in Factory64.
pub mod Moves
pub mod Memory
