-- ===== src/Elf.antt =====
-- Checks on a whole ELF file.
pub mod Ranges
