-- ===== src/Lib.antt =====
-- PEBIL rewrites compiled programs: it reads an ELF file, finds the functions and the basic blocks
-- of its text, and adds instructions and library calls that watch the program at run time. For
-- this it makes x86 machine code, and rebuilds the tables of the file that its additions change.
--
-- Parts of the program, and their models:
--
-- - src/X86InstructionFactory.C: static functions which each write one instruction into a fresh
--   buffer. Module Emit. A function `emitXyz` is the definition `emit_xyz`; Emit/Factory is the base
--   class, Emit/Factory64 and Emit/Factory32 the two classes for a mode. An emitter returns the
--   buffer's bytes, or `none` where an ASSERT fails. A buffer (Emit/Buffer) is a list of cells that
--   the emitter writes by index; a write outside of it, or a byte that is never written, is `none`.
--   `emit_instruction_base` is the end of each emitter: the bytes are disassembled, and an ASSERT
--   compares the sizes. The disassembler is third-party code (external/udis86-1.7). It is a parameter
--   of the model, and the hypothesis on it is its documented behaviour: on bytes that are exactly
--   one instruction, it finds the size of that instruction.
-- - The instruction format itself is not in the repository. Module X86 is an independent decoder
--   for the instructions in question: prefixes, REX, ModRM, SIB, displacement, immediate. The
--   theorems of Emit/Meaning say what emitted bytes mean by this decoder.
-- - src/HashTable.C and include/CStructuresElf.h: the hash section of a dynamic symbol table.
--   Module Hash: the hash functions and name comparison in Hash/Name, class SysvHashTable in
--   Hash/Sysv. What it looks up in its file, the names and st_name of the symbols and two fields of its
--   section header, is the record ElfFile; `verify`, which `buildTable` calls at its end, ends the program
--   through PRINT_ERROR where a symbol is not found at its index, and `build_table` is `none` there.
-- - src/Base.C: logarithms, powers of two, alignment, and class HashCode of
--   include/Base.h. Module Numeric.
-- - include/PriorityQueue.h and include/BitSet.h: the binary heap and the bit set that the check of the
--   ELF file and the control flow graph use. Module Containers. What a queue promises is stated for its abstract value, the bag of
--   its entries, which a queue determines by the sums of any weight over its entries. Of the bit set,
--   Containers/BitSet has the operations, an operator on two sets (`operator|=` is `unite`, `operator&=`
--   `intersect`, `operator-=` `subtract`) returning `none` where the ASSERT on the maxima fails. The
--   copies, `operator==`, the printing and the array of elements are left out.
-- - src/ElfFile.C: the part of `ElfFile::verify` that looks for parts of the file which intersect.
--   Module Elf/Ranges. It is a client of the priority queue, by the laws of that module.
-- - src/FlowGraph.C: in `FlowGraph::buildLoops`, the search for the blocks of the natural loop of a
--   back edge. Module Graph. It is a client of the bit set, by the laws of that module.
-- - include/CStructuresDwarf.h and src/LineInformation.C: LEB128 numbers and the machine that runs the
--   line number program of a .debug_line section, and the reader of the table around it (module
--   Dwarf/LineTable, its layout in Dwarf/LineTable/Encoded). Module Dwarf. Dwarf/LineProgram/Instructions says
--   how DWARF encodes an instruction and what it does to the line table; the machine is compared with
--   that. A row is a value: the program never changes registers that it has appended.
--   Dwarf/Finder is the lookup of `LineInfoFinder` over the rows that its constructor has sorted; the
--   `bsearch` of the C library is a parameter of it, and IsSearch says what is relied on.
-- - instcode/Simulation.cpp and instcode/Simulation.hpp: the cache simulation that runs inside a traced
--   program. Module Sim. Sim/Level is a level with its sets, its replacement policies and the ring of
--   links that keeps true LRU (class CacheLevel); Sim/Fast the levels of high associativity; Sim/Stats the
--   counts (class CacheStats); Sim/Structure the Process of the inclusive and the exclusive levels and the
--   loop over them (class CacheStructureHandler); Sim/Ranges the address ranges (class RangeStats). The
--   numbers that rand() returns are an argument. Sim/Ring gives each line an age, and
--   Sim/Ring/Recency compares a set with the list of its stores in the order of their last use.
--
-- A register, an immediate or a length that an emitter takes is a value of its C type already: what a
-- caller's wider value becomes at the call is not looked at. The disassembler is relied on for the
-- instructions only that X86/Decode gives in full, by `is_regular` of X86/Format.
--
-- By DWARF the standard opcodes of a line number program are those below opcode_base; the code takes the
-- last of them for a special one, and `IsHandled` of Dwarf/LineProgram/Instructions names the instructions
-- to which this does not happen.
--
-- Machine integers are natural numbers with their wrap-around written out. Characters are numbers
-- below 256, and a signed `char` is extended where the source extends it.
--
-- A hash section in a file is the list of its bytes (Hash/Sysv/File); reading returns the bytes behind
-- it.
--
-- Loops: `logBase2` runs on 33 rounds of fuel, one more than a uint32_t has bits. The lookup of a
-- symbol runs on one round more than the table has entries, since each step of a chain goes to a
-- smaller index. The inner loop of `emitNopSeries` has one round more than the length left. Running
-- out is a result of its own or `none`, and the theorems give results, so that it does not happen.
--
-- The search for a natural loop has one round more than the graph has blocks, since each is pushed once
-- at most. The heap has one round more than entries. The loop over a line number program has one round more than
-- bytes. A shift of an int that C++ does not define, as in the LEB128 readers, is `none`.
--
-- The lists of a line table are read on one round for each byte that is left; an entry has one at least.
--
-- The loop that counts the bits of a word has 32 rounds; each clears one bit that is set.
--
-- An access to a structure of n cache levels has 2 n + 2 rounds: it goes down the levels once, and once
-- more through the exclusive ones.
--
-- Not modelled: printing and file access; `emitAddressComputation` and the 32-bit address loads; the
-- GNU hash table; the other ELF structures, the other algorithms on control flow graphs, dominators, the other
-- containers, instrumentation, and of the run-time libraries all but the cache simulation, of which the
-- parser of cache descriptions, sampling, reports and threads are left out; the vendored disassembler and reuse-distance library.
pub mod Common
pub mod X86
pub mod Emit
pub mod Numeric
pub mod Sim
pub mod Hash
pub mod Containers
pub mod Elf
pub mod Dwarf
pub mod Graph
pub mod Tests
