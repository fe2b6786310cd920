-- ===== src/Emit/Meaning/Nops.antt =====
-- `emitNop` and `emitNopSeries`.
use pebil.Common.{
  ◌>>=◌, ℕ, zero, suc, ◌+◌, ◌-◌, ◌/◌, ◌%◌, ◌≤◌, ◌<◌, ◌≡◌, refl, Bool, true, false, ◌||◌, none, some,
  List, [], ◌∷◌, ◌++◌, length, replicate, tabulate, tabulate_ext, ltb, ◌==◌, if◌then◌else◌, arith,
  lt→ltb, inl, inr, Bool-cases, ltb→lt,
}
use pebil.X86.Format.{Insn, absent}
use pebil.Emit.Meaning.Shapes.{insn}
use mathlib.Core.List.{append_assoc, append-nil}
use pebil.X86.Decode.{decode}
use pebil.Emit.Buffer.{EmitsBoth, EmitsBoth-of_decode, Disassembler, Measures}
use pebil.Emit.Factory.Simple.{emit_nop}
use pebil.Emit.Factory.Nops.{nop_while, nop_for, emit_nop_series}

-- The two instructions of the architecture that do nothing: NOP, and NOP with an operand.
abbrev is_nop : Insn → Bool
is_nop i = i.opcode == 0x90 || i.opcode == 0x0f1f

-- The bytes of a nop of a length, and what they say.
abbrev pub nop_bytes : ℕ → List ℕ
nop_bytes n = elim (emit_nop n) [ none ↦ [] | some bs ↦ bs ]

abbrev nop_insn : ℕ → Insn
nop_insn n = elim (decode true (nop_bytes n)) [ none ↦ insn 0 0 absent 0 | some r ↦ r.0 ]

at_nops : (n : ℕ) → n < 8 → emit_nop (n + 1) ≡ some (nop_bytes (n + 1))
unfolding tabulate emit_nop
at_nops = tabulate_ext 8 (λ n. emit_nop (n + 1)) (λ n. some (nop_bytes (n + 1))) refl

length-nop_bytes : (n : ℕ) → n < 8 → length (nop_bytes (n + 1)) ≡ n + 1
unfolding tabulate emit_nop
length-nop_bytes = tabulate_ext 8 (λ n. length (nop_bytes (n + 1))) (λ n. n + 1) refl

is_nop-nop_insn : (n : ℕ) → n < 8 → is_nop (nop_insn (n + 1)) ≡ true
unfolding tabulate emit_nop decode
is_nop-nop_insn = tabulate_ext 8 (λ n. is_nop (nop_insn (n + 1))) (λ n. true) refl

nop-decode :
    (is64 : Bool) (n : ℕ) → n < 8 → (emit_nop (n + 1) >>= decode is64) ≡ some (nop_insn (n + 1), [])
unfolding tabulate emit_nop decode
nop-decode true =
    tabulate_ext 8 (λ n. emit_nop (n + 1) >>= decode true) (λ n. some (nop_insn (n + 1), [])) refl
nop-decode false =
    tabulate_ext 8 (λ n. emit_nop (n + 1) >>= decode false) (λ n. some (nop_insn (n + 1), [])) refl

module _ {size : Disassembler} (measures : Measures size) where
  -- For each length from 1 to 8, `emitNop` makes one instruction of that length which does nothing;
  -- it is accepted by the 32-bit check of the base class and reads the same in 64-bit mode.
  emit_nop_lem :
      (n : ℕ)
      → n < 8
      → (length (nop_bytes (n + 1)) ≡ n + 1)
        × (i : Insn) × EmitsBoth size (emit_nop (n + 1)) i
        × (is_nop i ≡ true)
  emit_nop_lem n h = (
    length-nop_bytes n h,
    nop_insn (n + 1),
    EmitsBoth-of_decode (emit_nop (n + 1)) _ measures (λ is64. nop-decode is64 n h),
    is_nop-nop_insn n h,
  )

-- The rest of a series: at most one nop.
abbrev pub last_nop : ℕ → List (List ℕ)
last_nop n = if n == 0 then [] else nop_bytes n ∷ []

eights :
    (fuel len : ℕ) (series : List (List ℕ))
    → len < fuel
    → nop_while fuel 7 len series ≡ some (len % 8, series ++ replicate (len / 8) (nop_bytes 8))
unfolding nop_while
eights zero len series h = absurd (omega arith)
eights (suc fuel) len series h = elim (Bool-cases (ltb 7 len)) [
  | inl more ↦
      let l : 7 < len = ltb→lt 7 len more in
      let e : len / 8 ≡ suc ((len - 8) / 8) = omega arith in
      let m : len % 8 ≡ (len - 8) % 8 = omega arith in
      rw
        (
          more,
          nop_while,
          at_nops 7 (omega arith),
          e,
          m,
          eights fuel (len - 8) (series ++ nop_bytes 8 ∷ []) (omega arith),
        )
        (rw (append_assoc series (nop_bytes 8 ∷ []) (replicate ((len - 8) / 8) (nop_bytes 8))) refl)
  | inr done ↦
      let e : len / 8 ≡ 0 = ground arith in
      let m : len % 8 ≡ len = ground arith in
      rw (done, nop_while, e, m) (rw (append-nil series) refl)
]

while_step :
    (fuel i len : ℕ) (series : List (List ℕ))
    → i < len
    → i < 8
    → nop_while (suc fuel) i len series
      ≡ nop_while fuel i (len - (i + 1)) (series ++ nop_bytes (i + 1) ∷ [])
unfolding nop_while
while_step fuel i len series h k = rw (lt→ltb i len h, nop_while, at_nops i k) refl

while_ends :
    (fuel i len : ℕ) (series : List (List ℕ))
    → len ≤ i
    → nop_while (suc fuel) i len series ≡ some (len, series)
unfolding nop_while
while_ends fuel i len series h = let a : ltb i len ≡ false = ground arith in rw (a, nop_while) refl

while_once :
    (i : ℕ) (series : List (List ℕ))
    → i < 8
    → nop_while (suc (suc i)) i (suc i) series ≡ some (0, series ++ nop_bytes (suc i) ∷ [])
while_once i series h =
    let d : suc i - (i + 1) ≡ 0 = omega arith in
    let p : i + 1 ≡ suc i = omega arith in
    rw (while_step (suc i) i (suc i) series (omega arith) h, d, p)
      (while_ends i i 0 (series ++ nop_bytes (suc i) ∷ []) (omega arith))

tail_for :
    (i len : ℕ) (series : List (List ℕ))
    → i < 8
    → len ≤ i
    → nop_for i len series ≡ some (0, series ++ last_nop len)
unfolding nop_for
tail_for zero len series hi hl = let e : len ≡ 0 = omega arith in rw (e, append-nil series) refl
tail_for (suc i) len series hi hl = elim (Bool-cases (len == suc i)) [
  | inl same ↦
      let e : len ≡ suc i = ground arith in
      let z : (suc i == 0) ≡ false = ground arith in
      rw
        (
          e,
          while_once i series (omega arith),
          tail_for i 0 (series ++ nop_bytes (suc i) ∷ []) (omega arith) (omega arith),
          append-nil (series ++ nop_bytes (suc i) ∷ []),
          z,
        )
        refl
  | inr other ↦
      rw (while_ends len i len series (ground arith))
        (tail_for i len series (omega arith) (ground arith))
]

series :
    (len : ℕ) → emit_nop_series len ≡ some (replicate (len / 8) (nop_bytes 8) ++ last_nop (len % 8))
unfolding emit_nop_series nop_for
series len =
    rw
      (
        eights (suc len) len [] (omega arith),
        tail_for 7 (len % 8) (replicate (len / 8) (nop_bytes 8)) (omega arith) (omega arith),
      )
      refl

-- Bytes that are one nop in either mode, of eight bytes at most.
pub record IsNop (bs : List ℕ) : Type 0 where
  pub says : Insn
  pub in_32 : decode false bs ≡ some (says, [])
  pub in_64 : decode true bs ≡ some (says, [])
  pub idle : is_nop says ≡ true
  pub short : length bs ≤ 8

pub data AllNops : List (List ℕ) → Type 0 where
  no_nops : AllNops []
  one_nop : (bs : List ℕ) (rest : List (List ℕ)) → IsNop bs → AllNops rest → AllNops (bs ∷ rest)

unfoldable pub total : List (List ℕ) → ℕ
total [] = 0
total (bs ∷ rest) = length bs + total rest
