-- ===== src/Hash.antt =====
-- src/HashTable.C: the symbol hash tables of an ELF file.
pub mod Name
pub mod Sysv
