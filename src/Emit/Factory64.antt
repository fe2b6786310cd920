-- ===== src/Emit/Factory64.antt =====
-- src/X86InstructionFactory.C: class X86InstructionFactory64. Each definition gives the buffer that
-- the method hands to `emitInstructionBase`, or `none` where an ASSERT of its own fails. The ASSERTs
-- that compare `(uint32_t)x` with itself always hold and are left out.
pub mod Arith
pub mod Moves
pub mod Memory
pub mod Indirect
pub mod Lea
