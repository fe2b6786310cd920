-- ===== src/X86/Decode.antt =====
-- The decoder: bytes to an instruction and the bytes behind it.
use pebil.Common.{
  ℕ, zero, suc, ◌+◌, ◌*◌, ◌/◌, ◌%◌, ◌^◌, Bool, true, false, ◌&&◌, ◌||◌, Option, none, some, List,
  [], ◌∷◌, ◌++◌, ltb, leb, ◌==◌, if◌then◌else◌, ◌>>=◌,
}
use pebil.X86.Bytes.{le_value}
use pebil.X86.Format.{
  Operand, absent, gpr, mem, mem_byte, rip, Insn, Rex, Form, modrm, in_opcode, plain, unknown,
  is_prefix, form_of, form_of_two, is_regular,
}

-- A value of `n` bytes off the front.
unfoldable pub value : ℕ → List ℕ → List ℕ → Option (ℕ × List ℕ)
unfolding le_value
value zero acc rest = some (le_value acc, rest)
value (suc n) acc [] = none
value (suc n) acc (b ∷ rest) = value n (acc ++ b ∷ []) rest

unfoldable pub strip : List ℕ → List ℕ → List ℕ × List ℕ
unfolding is_prefix
strip acc [] = (acc, [])
strip acc (b ∷ rest) = elim (is_prefix b) [
  | true ↦ strip (acc ++ b ∷ []) rest
  | false ↦ (acc, b ∷ rest)
]

abbrev no_rex : Rex
no_rex = record { w = false; r = 0; x = 0; b = 0 }

unfoldable pub rex_of : Bool → List ℕ → Rex × List ℕ
rex_of false bs = (no_rex, bs)
rex_of true [] = (no_rex, [])
rex_of true (b ∷ rest) =
    if leb 0x40 b && ltb b 0x50
    then (record { w = b / 8 % 2 == 1; r = b / 4 % 2; x = b / 2 % 2; b = b % 2 }, rest)
    else (no_rex, b ∷ rest)

-- The displacement that the ModRM mode field asks for.
unfoldable pub with_disp : ℕ → Option ℕ → Option (ℕ × ℕ) → List ℕ → Option (Operand × List ℕ)
unfolding value
with_disp mode base index rest =
    if mode == 0
    then some (mem base index 0, rest)
    else if mode == 1
    then value 1 [] rest >>= (λ d. some (mem_byte base index d.0, d.1))
    else value 4 [] rest >>= (λ d. some (mem base index d.0, d.1))

unfoldable pub sib : ℕ → Rex → List ℕ → Option (Operand × List ℕ)
unfolding with_disp value
sib mode rex [] = none
sib mode rex (s ∷ rest) =
    let i = s / 8 % 8 + 8 * rex.x in
    let index : Option (ℕ × ℕ) = if i == 4 then none else some (i, 2 ^ (s / 64)) in
    if s % 8 == 5 && mode == 0
    then value 4 [] rest >>= (λ d. some (mem none index d.0, d.1))
    else with_disp mode (some (s % 8 + 8 * rex.b)) index rest

unfoldable pub rm_of : Bool → Rex → ℕ → List ℕ → Option (Operand × List ℕ)
unfolding sib with_disp value
rm_of is64 rex m rest =
    if m / 64 == 3
    then some (gpr (m % 8 + 8 * rex.b), rest)
    else if m % 8 == 4
    then sib (m / 64) rex rest
    else if m / 64 == 0 && m % 8 == 5
    then value 4 [] rest >>= (λ d. some (if is64 then rip d.0 else mem none none d.0, d.1))
    else with_disp (m / 64) (some (m % 8 + 8 * rex.b)) none rest

unfoldable pub body : Bool → List ℕ → Rex → ℕ → Form → List ℕ → Option (Insn × List ℕ)
unfolding rm_of value
body is64 pfx rex op unknown rest = none
body is64 pfx rex op (plain n) rest = value n [] rest >>= λ v.
    some
      (record { prefixes = pfx; wide = rex.w; opcode = op; reg = 0; rm = absent; imm = v.0 }, v.1)
body is64 pfx rex op (in_opcode n) rest = value n [] rest >>= λ v. some (
  record {
    prefixes = pfx;
    wide = rex.w;
    opcode = op / 8 * 8;
    reg = op % 8 + 8 * rex.b;
    rm = absent;
    imm = v.0;
  },
  v.1,
)
body is64 pfx rex op (modrm n) [] = none
body is64 pfx rex op (modrm n) (m ∷ rest) = rm_of is64 rex m rest >>= λ o. value n [] o.1 >>= λ v.
    some (
      record {
        prefixes = pfx;
        wide = rex.w;
        opcode = op;
        reg = m / 8 % 8 + 8 * rex.r;
        rm = o.0;
        imm = v.0;
      },
      v.1,
    )

unfoldable pub has_operand_size : List ℕ → Bool
has_operand_size [] = false
has_operand_size (p ∷ ps) = p == 0x66 || has_operand_size ps

unfoldable pub opcode_of : Bool → List ℕ → Rex → List ℕ → Option (Insn × List ℕ)
unfolding body form_of form_of_two has_operand_size
opcode_of is64 pfx rex [] = none
opcode_of is64 pfx rex (op ∷ rest) =
    if op == 0x0f
    then second rest
    else body is64 pfx rex op (form_of (has_operand_size pfx) rex.w op) rest
  where
    second : List ℕ → Option (Insn × List ℕ)
    second [] = none
    second (b ∷ behind) = body is64 pfx rex (0x0f00 + b) (form_of_two b) behind

-- The first instruction of a byte sequence, in 64-bit or in 32-bit mode, if it is one that the format
-- gives in full.
unfoldable pub decode : Bool → List ℕ → Option (Insn × List ℕ)
unfolding strip rex_of opcode_of is_regular
decode is64 bs =
    let s = strip [] bs in
    let p = rex_of is64 s.1 in
    opcode_of is64 s.0 p.0 p.1 >>= λ r. if is_regular is64 r.0 then some r else none
