-- ===== src/Dwarf/LineProgram/Operands.antt =====
-- The operands of an instruction are read back, and how an opcode is found.
use native.Mathlib.Nat.{pow-suc, pow-zero}
use pebil.Common.{
  ℕ, zero, suc, ◌+◌, ◌-◌, ◌*◌, ◌/◌, ◌^◌, ◌<◌, ◌≡◌, ◌≢◌, refl, sym, ap, ◌∙◌, false, some, List, [],
  ◌∷◌, ◌++◌, ◌==◌, get_elem?, length, drop, drop-append, lt→ltb, arith,
}
use mathlib.Core.List.{append_assoc}
use pebil.X86.Bytes.{le_bytes}
use pebil.Dwarf.Leb128.{get_leb128_unsigned, get_leb128_signed}
use pebil.Dwarf.Leb128.Laws.{leb_bytes, get_leb128_unsigned-leb_bytes, get_leb128_signed-forward}
use pebil.Dwarf.LineProgram.{
  Header, Machine, get_uint, get_operand, get_string, get_file_name, LineNumberOp, LineNumberXOp,
  line_number_ops, line_number_x_ops, execute_standard, execute_standard_opcode, execute_extended,
  execute_extended_opcode, execute_instruction,
}
use pebil.Dwarf.LineProgram.Instructions.{
  Operand, IsOperand, operand_bytes, AllNonzero, Knows, file_bytes, no_chars, one_char,
}

pub length-leb_bytes : (k n : ℕ) → length (leb_bytes k n) ≡ k + 1
unfolding leb_bytes
length-leb_bytes zero n = refl
length-leb_bytes (suc k) n = omega (arith, length-leb_bytes k (n / 128))

pub length-le_bytes : (n v : ℕ) → length (le_bytes n v) ≡ n
unfolding le_bytes
length-le_bytes zero v = refl
length-le_bytes (suc n) v = ap suc (length-le_bytes n (v / 256))

pub get_uint-le_bytes :
    (n v : ℕ) (rest : List ℕ) → v < 256 ^ n → get_uint n (le_bytes n v ++ rest) ≡ some v
unfolding get_uint le_bytes
get_uint-le_bytes zero v rest h = ap some (omega (arith, pow-zero 256))
get_uint-le_bytes (suc n) v rest h =
    rw (get_uint-le_bytes n (v / 256) rest (omega (arith, pow-suc 256 n))) (ap some (omega arith))

module _ (o : Operand) (rest : List ℕ) (ok : IsOperand o) where
  pub get_leb128-operand :
      get_leb128_unsigned (operand_bytes o ++ rest) ≡ some (o.value, o.more + 1)
  unfolding operand_bytes
  get_leb128-operand = get_leb128_unsigned-leb_bytes o.more o.value rest ok.short ok.small ok.fits

  pub get_operand-operand : get_operand (operand_bytes o ++ rest) ≡ some (o.value, o.more + 1)
  unfolding get_operand
  get_operand-operand =
      rw (get_leb128-operand, lt→ltb o.value (2 ^ 32) (omega (arith, ok.small))) refl

pub get_signed-operand :
    (o : Operand) (rest : List ℕ)
    → IsOperand o
    → o.value < 64 * 128 ^ o.more
    → get_leb128_signed (operand_bytes o ++ rest) ≡ some (o.value, o.more + 1)
unfolding operand_bytes
get_signed-operand o rest ok low =
    get_leb128_signed-forward o.more o.value rest ok.short ok.small low

pub length-operand : (o : Operand) → length (operand_bytes o) ≡ o.more + 1
unfolding operand_bytes
length-operand o = length-leb_bytes o.more o.value

drop-operand : (o : Operand) (rest : List ℕ) → drop (o.more + 1) (operand_bytes o ++ rest) ≡ rest
drop-operand o rest = rw (sym (length-operand o)) (drop-append (operand_bytes o) rest)

pub get_string-append :
    (name rest : List ℕ) → AllNonzero name → get_string (name ++ (0 ∷ rest)) ≡ some (name, rest)
unfolding get_string
get_string-append [] rest no_chars = refl
get_string-append (zero ∷ name) rest h = elim h [ ]
get_string-append (suc c ∷ name) rest (one_char _ _ h) =
    let char : (suc c == 0) ≡ false = ground arith in rw (get_string-append name rest h, char) refl

pub get_file_name-file_bytes :
    (name : List ℕ) (dir time size : Operand) (rest : List ℕ)
    → AllNonzero name
    → IsOperand dir
    → IsOperand time
    → IsOperand size
    → get_file_name (file_bytes name dir time size ++ rest)
      ≡ some (
        record { name = name; dir_index = dir.value; mod_time = time.value; size = size.value },
        rest,
      )
unfolding get_file_name file_bytes
get_file_name-file_bytes name dir time size rest hn hd ht hs =
    let third = operand_bytes size ++ rest in
    let second = operand_bytes time ++ third in
    let first = operand_bytes dir ++ second in
    let shape : (name ++ (0 ∷ operand_bytes dir ++ (operand_bytes time ++ operand_bytes size)))
          ++ rest
        ≡ name ++ (0 ∷ first) =
      append_assoc name _ rest
      ∙ ap (λ t. name ++ (0 ∷ t))
          (append_assoc (operand_bytes dir) _ rest
            ∙ ap (λ t. operand_bytes dir ++ t)
                (append_assoc (operand_bytes time) (operand_bytes size) rest)) in
    rw
      (
        shape,
        get_string-append name first hn,
        get_leb128-operand dir second hd,
        drop-operand dir second,
        get_leb128-operand time third ht,
        drop-operand time third,
        get_leb128-operand size rest hs,
        drop-operand size rest,
      )
      refl

module _ (h : Header) (m : Machine) where
  -- A standard opcode that the header knows.
  pub runs_standard :
      (opcode n : ℕ) (op : LineNumberOp) (ptr : List ℕ)
      → Knows h opcode n
      → suc opcode ≢ h.opcode_base
      → 0 < opcode
      → opcode < 128
      → get_elem? line_number_ops opcode ≡ some op
      → execute_instruction h (opcode ∷ ptr) m ≡ execute_standard h op n ptr m
  unfolding execute_instruction execute_standard_opcode
  runs_standard opcode n op ptr k last pos small found =
      let standard : (opcode == 0) ≡ false = ground arith in
      rw
        (
          lt→ltb opcode (h.opcode_base - 1) (omega (arith, k.below, last)),
          standard,
          lt→ltb opcode 128 small,
          k.known,
          found,
        )
        refl

  pub runs_extended :
      (size opcode : ℕ) (op : LineNumberXOp) (ptr : List ℕ) (r : Machine)
      → 1 < h.opcode_base
      → size < 128
      → 0 < opcode
      → get_elem? line_number_x_ops (opcode - 1) ≡ some op
      → execute_extended h op ptr m ≡ some r
      → execute_instruction h (0 ∷ size ∷ opcode ∷ ptr) m ≡ some (2 + size, r)
  unfolding execute_instruction execute_extended_opcode
  runs_extended size opcode op ptr r base small pos found run =
      rw
        (
          lt→ltb 0 (h.opcode_base - 1) (omega arith),
          lt→ltb size 128 small,
          lt→ltb 0 opcode pos,
          found,
          run,
        )
        refl
