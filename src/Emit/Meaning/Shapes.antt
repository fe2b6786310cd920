-- ===== src/Emit/Meaning/Shapes.antt =====
-- Instructions by their parts, for the statements about the emitters.
use pebil.Common.{ℕ, Bool, true, false, none, some, List, []}
use pebil.X86.Format.{Insn, Operand, mem}

-- 64-bit operand size (REX.W).
abbrev pub wide_insn : ℕ → ℕ → Operand → ℕ → Insn
wide_insn op r o i = record { prefixes = []; wide = true; opcode = op; reg = r; rm = o; imm = i }

-- The default operand size.
abbrev pub insn : ℕ → ℕ → Operand → ℕ → Insn
insn op r o i = record { prefixes = []; wide = false; opcode = op; reg = r; rm = o; imm = i }

abbrev pub prefixed : List ℕ → Bool → ℕ → ℕ → Operand → ℕ → Insn
prefixed ps w op r o i = record { prefixes = ps; wide = w; opcode = op; reg = r; rm = o; imm = i }

-- An operand at a register's address and a 32-bit displacement, and at a 32-bit address.
abbrev pub at_reg : ℕ → ℕ → Operand
at_reg r d = mem (some r) none d

abbrev pub at_address : ℕ → Operand
at_address a = mem none none a
