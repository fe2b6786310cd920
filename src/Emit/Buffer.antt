-- ===== src/Emit/Buffer.antt =====
-- The buffer of an emitter of src/X86InstructionFactory.C: `new char[len]`, writes by index and by
-- memcpy, and `emitInstructionBase`, which makes the instruction.
use pebil.Common.{
  ℕ, ◌+◌, ◌%◌, ◌^◌, ◌≡◌, Bool, true, false, Option, none, some, List, [], ◌∷◌, ltb, ◌==◌,
  if◌then◌else◌, ◌>>=◌, ◌≤◌, ◌<◌, length, set, replicate, tabulate, tabulate_ext, tabulate_ext₂,
  arith, tabulate_ext₃,
}
use pebil.X86.Bytes.{le_bytes}
use pebil.X86.Format.{Insn}
use pebil.X86.Decode.{decode}

-- One byte at one offset.
abbrev pub Write : Type 0
Write = ℕ × ℕ

-- buff[o] = v; a char keeps the low eight bits.
abbrev pub byte : ℕ → ℕ → List Write
byte o v = (o, v % 256) ∷ []

writes_from : ℕ → List ℕ → List Write
writes_from o [] = []
writes_from o (b ∷ bs) = (o, b) ∷ writes_from (o + 1) bs

-- memcpy(buff + o, &v, n)
unfoldable pub copy : ℕ → ℕ → ℕ → List Write
unfolding writes_from le_bytes
copy o n v = writes_from o (le_bytes n v)

abbrev pub when : Bool → List Write → List Write
when b ws = if b then ws else []

-- A cell that was not written yet is `none`. A write outside of the buffer is a fault.
write_all : List (Option ℕ) → List Write → Option (List (Option ℕ))
write_all cells [] = some cells
write_all cells ((o, v) ∷ ws) = elim (ltb o (length cells)) [
  | true ↦ write_all (set cells o (some v)) ws
  | false ↦ none
]

-- ASSERT(imm32 == imm), for the cut imm32 of a wider imm.
pub fits : ℕ → Bool
fits v = v % 2 ^ 32 == v

pub fits_of_lt : {v : ℕ} → v < 2 ^ 32 → fits v ≡ true
unfolding fits
fits_of_lt h = ground arith

pub not_fits : (v : ℕ) → 2 ^ 32 ≤ v → fits v ≡ false
unfolding fits
not_fits v h = ground arith

-- The bytes, if each of them was written.
contents : List (Option ℕ) → Option (List ℕ)
contents [] = some []
contents (none ∷ cells) = none
contents (some b ∷ cells) = contents cells >>= λ bs. some (b ∷ bs)

-- A buffer of `len` bytes after the writes, in their order. `none` if a write goes outside of it,
-- or if a byte of it is left as the allocation gave it.
unfoldable pub fill : ℕ → List Write → Option (List ℕ)
unfolding write_all contents
fill len ws = write_all (replicate len none) ws >>= contents

-- The third-party disassembler: the size that it finds for the first instruction of some bytes, in
-- 64-bit mode or not.
abbrev pub Disassembler : Type 0
Disassembler = Bool → List ℕ → ℕ

-- `emitInstructionBase`, where the buffer is complete: the constructor disassembles the bytes, and
-- an ASSERT compares the size that was found with the size of the buffer.
unfoldable pub emit_instruction_base : Disassembler → Bool → List ℕ → Option (List ℕ)
emit_instruction_base size is64 bs = if size is64 bs == length bs then some bs else none

-- The documented behaviour of a disassembler: if bytes are exactly one instruction by the
-- architecture's format, of those that `decode` gives in full, it finds their number.
abbrev pub Measures : Disassembler → Type 0
Measures size =
    (is64 : Bool) (bs : List ℕ) (i : Insn)
    → decode is64 bs ≡ some (i, [])
    → size is64 bs ≡ length bs

-- An emitter's buffer becomes an instruction, no ASSERT fails, and the instruction says `i`.
abbrev pub Emits : Disassembler → Bool → Option (List ℕ) → Insn → Type 0
Emits size is64 buffer i =
    (bs : List ℕ) × ((buffer >>= emit_instruction_base size is64) ≡ some bs)
    × (decode is64 bs ≡ some (i, []))

pub Emits_of_decode :
    {size : Disassembler} (is64 : Bool) (buffer : Option (List ℕ)) (i : Insn)
    → Measures size
    → (buffer >>= decode is64) ≡ some (i, [])
    → Emits size is64 buffer i
unfolding emit_instruction_base
Emits_of_decode is64 none i measures h = cc
Emits_of_decode is64 (some bs) i measures h = (bs, ground (arith, measures is64 bs i h), h)

-- An emitter of the base class: its static `emitInstructionBase` disassembles in 32-bit mode, and the
-- bytes say the same in either mode.
abbrev pub EmitsBoth : Disassembler → Option (List ℕ) → Insn → Type 0
EmitsBoth size buffer i = Emits size false buffer i × ((buffer >>= decode true) ≡ some (i, []))

pub EmitsBoth-of_decode :
    {size : Disassembler} (buffer : Option (List ℕ)) (i : Insn)
    → Measures size
    → ((is64 : Bool) → (buffer >>= decode is64) ≡ some (i, []))
    → EmitsBoth size buffer i
EmitsBoth-of_decode buffer i measures h =
    (Emits_of_decode false buffer i measures (h false), h true)

-- The same for a register below `n`, and for two: by computing at each of them.
pub Emits_of_table :
    {size : Disassembler} (is64 : Bool) (n : ℕ) (f : ℕ → Option (List ℕ)) (g : ℕ → Insn)
    → Measures size
    → tabulate n (λ r. f r >>= decode is64) ≡ tabulate n (λ r. some (g r, []))
    → (r : ℕ) → r < n
    → Emits size is64 (f r) (g r)
Emits_of_table is64 n f g m e r h =
    Emits_of_decode is64 (f r) (g r) m
      (tabulate_ext n (λ x. f x >>= decode is64) (λ x. some (g x, [])) e r h)

pub Emits_of_table₂ :
    {size : Disassembler} (is64 : Bool) (n k : ℕ) (f : ℕ → ℕ → Option (List ℕ)) (g : ℕ → ℕ → Insn)
    → Measures size
    → tabulate n (λ r. tabulate k (λ s. f r s >>= decode is64))
      ≡ tabulate n (λ r. tabulate k (λ s. some (g r s, [])))
    → (r s : ℕ) → r < n
    → s < k
    → Emits size is64 (f r s) (g r s)
Emits_of_table₂ is64 n k f g m e r s hr hs =
    Emits_of_decode is64 (f r s) (g r s) m
      (tabulate_ext₂ n k (λ x y. f x y >>= decode is64) (λ x y. some (g x y, [])) e r s hr hs)

-- The same at the registers that pass a test.
unfoldable pub at_passing {ℓ} : {A : Type ℓ} → Bool → Option A → Option A
at_passing b x = if b then x else none

pub Emits_of_table_if :
    {size : Disassembler} (is64 : Bool) (n : ℕ) (p : ℕ → Bool) (f : ℕ → Option (List ℕ))
    (g : ℕ → Insn)
    → Measures size
    → tabulate n (λ r. at_passing (p r) (f r >>= decode is64))
      ≡ tabulate n (λ r. at_passing (p r) (some (g r, [])))
    → (r : ℕ) → r < n
    → p r ≡ true
    → Emits size is64 (f r) (g r)
unfolding at_passing
Emits_of_table_if is64 n p f g m e r h t =
    let at_r =
      tabulate_ext n (λ x. at_passing (p x) (f x >>= decode is64))
        (λ x. at_passing (p x) (some (g x, []))) e r h in
    Emits_of_decode is64 (f r) (g r) m (rw t at at_r)

pub Emits_of_table₂_if :
    {size : Disassembler} (is64 : Bool) (n k : ℕ) (p : ℕ → ℕ → Bool) (f : ℕ → ℕ → Option (List ℕ))
    (g : ℕ → ℕ → Insn)
    → Measures size
    → tabulate n (λ r. tabulate k (λ s. at_passing (p r s) (f r s >>= decode is64)))
      ≡ tabulate n (λ r. tabulate k (λ s. at_passing (p r s) (some (g r s, []))))
    → (r s : ℕ) → r < n
    → s < k
    → p r s ≡ true
    → Emits size is64 (f r s) (g r s)
unfolding at_passing
Emits_of_table₂_if is64 n k p f g m e r s hr hs t =
    let at_rs =
      tabulate_ext₂ n k (λ x y. at_passing (p x y) (f x y >>= decode is64))
        (λ x y. at_passing (p x y) (some (g x y, []))) e r s hr hs in
    Emits_of_decode is64 (f r s) (g r s) m (rw t at at_rs)

pub Emits_of_table₃_if :
    {size : Disassembler} (is64 : Bool) (n k m : ℕ) (p : ℕ → ℕ → ℕ → Bool)
    (f : ℕ → ℕ → ℕ → Option (List ℕ)) (g : ℕ → ℕ → ℕ → Insn)
    → Measures size
    → tabulate n
        (λ r. tabulate k (λ s. tabulate m (λ t. at_passing (p r s t) (f r s t >>= decode is64))))
      ≡ tabulate n
          (λ r. tabulate k (λ s. tabulate m (λ t. at_passing (p r s t) (some (g r s t, [])))))
    → (r s t : ℕ) → r < n
    → s < k
    → t < m
    → p r s t ≡ true
    → Emits size is64 (f r s t) (g r s t)
unfolding at_passing
Emits_of_table₃_if is64 n k m p f g measures e r s t hr hs ht pass =
    let here =
      tabulate_ext₃ n k m (λ x y z. at_passing (p x y z) (f x y z >>= decode is64))
        (λ x y z. at_passing (p x y z) (some (g x y z, []))) e r s t hr hs ht in
    Emits_of_decode is64 (f r s t) (g r s t) measures (rw pass at here)
