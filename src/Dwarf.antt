-- ===== src/Dwarf.antt =====
-- DWARF debug information: the parts of include/CStructuresDwarf.h and src/LineInformation.C that read
-- the line number program of a .debug_line section.
pub mod Leb128
pub mod LineProgram
pub mod LineTable
pub mod Finder
