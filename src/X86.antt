-- ===== src/X86.antt =====
-- Reference: the part of the x86 instruction format (prefixes, REX, opcode, ModRM, SIB,
-- displacement, immediate) that the instructions of src/X86InstructionFactory.C use, as the
-- architecture manual gives it. Nothing here is taken from the repository's code.
pub mod Bytes
pub mod Format
pub mod Decode
