-- ===== src/Emit/Factory.antt =====
-- src/X86InstructionFactory.C: class X86InstructionFactory, the emitters that both modes share. The
-- definitions are as in Factory64.
pub mod Simple
pub mod Control
pub mod Moves
pub mod Nops
