-- ===== src/Tests.antt =====
-- The theorems at concrete inputs, with a disassembler that is the reference decoder itself.
mod Emit64
mod Emit32
mod Tables
mod Queues
mod Sets
mod Lines
mod Loops
mod Finders
mod Caches
use pebil.Common.{[], ◌∷◌, ℕ, ◌≡◌, refl, List, some, none, length, ◌∷◌}
use pebil.X86.Decode.{decode}
use pebil.Emit.Buffer.{Disassembler, Measures}

-- It measures a single complete instruction, and gives 0 for any other bytes.
abbrev pub reference : Disassembler
reference is64 bs = elim (decode is64 bs) [
  | none ↦ 0
  | some (i, []) ↦ length bs
  | some (i, b ∷ rest) ↦ 0
]

pub reference-Measures : Measures reference
reference-Measures is64 bs i h = rw (h, reference) refl
