-- ===== src/Emit/Meaning/Lea64.antt =====
-- `emitLoadEffectiveAddress` of X86InstructionFactory64: the address that the instruction computes
-- is the one that was asked for.
use pebil.Common.{
  ℕ, zero, suc, ◌*◌, ◌%◌, ◌^◌, ◌<◌, ◌≡◌, refl, subst, Bool, true, false, some, none, tabulate,
  tabulate_ext, not, ◌==◌, Bool-cases, inl, inr, leb, if◌then◌else◌, arith, ◌&&◌, lt→ltb, ◌≤◌,
}
use pebil.X86.Bytes.{le_bytes, le_value, le_value-bytes_four}
use pebil.X86.Format.{Operand, mem, mem_byte}
use pebil.X86.Decode.{decode}
use pebil.Numeric.Power.{log_loop, power_loop, is_power_of_two}
use pebil.Emit.Buffer.{
  Disassembler, Measures, Emits, Emits_of_table, Emits_of_table₂, Emits_of_table₂_if,
  Emits_of_table₃_if, at_passing,
}
use pebil.Emit.Factory64.Lea.{
  Address, emit_load_effective_address, lea_sib_value, lea_sib_base, lea_base, lea_constant,
  scale_bits,
}
use pebil.Emit.Meaning.Shapes.{wide_insn, at_reg, at_address}

abbrev pub with_index : ℕ → ℕ → ℕ → Bool → ℕ → Address
with_index b i k has v = record {
  base_reg = b;
  index_reg = i;
  scale = k;
  value = v;
  has_base = has;
  has_index = true;
}

abbrev pub no_index : ℕ → Bool → ℕ → Address
no_index b has v = record {
  base_reg = b;
  index_reg = 0;
  scale = 1;
  value = v;
  has_base = has;
  has_index = false;
}

-- No displacement. Behind RBP and R13 a displacement byte of 0 stands there.
abbrev pub at_base_index : ℕ → ℕ → ℕ → Operand
at_base_index b i k =
    if b % 8 == 5 then mem_byte (some b) (some (i, k)) 0 else mem (some b) (some (i, k)) 0

scale_test : (k : ℕ) → k < 4 → (2 ^ k == 0) ≡ false
unfolding tabulate
scale_test = tabulate_ext 4 (λ k. 2 ^ k == 0) (λ k. false) refl

scale_power : (k : ℕ) → k < 4 → (is_power_of_two (2 ^ k) && leb (2 ^ k) 8) ≡ true
unfolding tabulate is_power_of_two power_loop
scale_power = tabulate_ext 4 (λ k. is_power_of_two (2 ^ k) && leb (2 ^ k) 8) (λ k. true) refl

scale_bits_lem : (k : ℕ) → k < 4 → scale_bits (2 ^ k) ≡ some (64 * k)
unfolding tabulate scale_bits log_loop
scale_bits_lem = tabulate_ext 4 (λ k. scale_bits (2 ^ k)) (λ k. some (64 * k)) refl

-- With an index, in range, the emitter takes one of its two SIB forms.
lea_with_index :
    (rip_reg b i k d v : ℕ) (has : Bool)
    → d < 16
    → b < 16
    → i < 16
    → k < 4
    → emit_load_effective_address rip_reg (with_index b i (2 ^ k) has v) d ≡ (
        if has && v == 0
        then lea_sib_base (with_index b i (2 ^ k) has v) (64 * k) d
        else lea_sib_value (with_index b i (2 ^ k) has v) (64 * k) d)
unfolding emit_load_effective_address
lea_with_index rip_reg b i k d v has hd hb hi hk =
    rw
      (
        lt→ltb d 16 hd,
        lt→ltb b 16 hb,
        lt→ltb i 16 hi,
        scale_test k hk,
        scale_power k hk,
        scale_bits_lem k hk,
      )
      refl

scale_one : (is_power_of_two 1 && leb 1 8) ≡ true
scale_one = scale_power 0 (omega arith)

lea_without_index :
    (rip_reg b d v : ℕ) (has : Bool)
    → d < 16
    → b < 16
    → emit_load_effective_address rip_reg (no_index b has v) d
      ≡ (if has then lea_base rip_reg (no_index b has v) d else lea_constant (no_index b has v) d)
unfolding emit_load_effective_address
lea_without_index rip_reg b d v has hd hb = rw (lt→ltb d 16 hd, lt→ltb b 16 hb, scale_one) refl

not_equal : (b n : ℕ) → b < 16 → 16 ≤ n → (b == n) ≡ false
not_equal b n h k = ground arith

lea_base_not_rip :
    (rip_reg b d v : ℕ)
    → b < 16
    → 16 ≤ rip_reg
    → lea_base rip_reg (no_index b true v) d ≡ lea_base 16 (no_index b true v) d
unfolding lea_base
lea_base_not_rip rip_reg b d v hb hr =
    rw (not_equal b rip_reg hb hr, not_equal b 16 hb (omega arith)) refl

module _ {size : Disassembler} (measures : Measures size) where
  value_by_one :
      (v d b i : ℕ)
      → d < 16
      → b < 16
      → i < 16
      → (not (i == 4)) ≡ true
      → Emits size true
          (lea_sib_value (with_index b i 1 true v) 0 d)
          (wide_insn 0x8d d (mem (some b) (some (i, 1)) (v % 2 ^ 32)) 0)
  unfolding lea_sib_value tabulate decode le_bytes le_value at_passing
  value_by_one v d b i hd hb hi ni =
      subst
        (λ w.
          Emits size true (lea_sib_value (with_index b i 1 true v) 0 d)
            (wide_insn 0x8d d (mem (some b) (some (i, 1)) w) 0))
        (le_value-bytes_four v)
        (Emits_of_table₃_if true 16 16 16 (λ d b i. not (i == 4))
          (λ d b i. lea_sib_value (with_index b i 1 true v) 0 d)
          (λ d b i. wide_insn 0x8d d (mem (some b) (some (i, 1)) (le_value (le_bytes 4 v))) 0)
          measures refl d b i hd hb hi ni)

  base_by_one :
      (d b i : ℕ)
      → d < 16
      → b < 16
      → i < 16
      → (not (i == 4)) ≡ true
      → Emits size true
          (lea_sib_base (with_index b i 1 true 0) 0 d)
          (wide_insn 0x8d d (at_base_index b i 1) 0)
  unfolding lea_sib_base tabulate decode le_bytes le_value at_passing
  base_by_one =
      Emits_of_table₃_if true 16 16 16 (λ d b i. not (i == 4))
        (λ d b i. lea_sib_base (with_index b i 1 true 0) 0 d)
        (λ d b i. wide_insn 0x8d d (at_base_index b i 1) 0) measures refl

  index_by_one :
      (v b d i : ℕ)
      → d < 16
      → i < 16
      → (not (i == 4)) ≡ true
      → Emits size true
          (lea_sib_value (with_index b i 1 false v) 0 d)
          (wide_insn 0x8d d (mem none (some (i, 1)) (v % 2 ^ 32)) 0)
  unfolding lea_sib_value tabulate decode le_bytes le_value at_passing
  index_by_one v b =
      Emits_of_table₂_if true 16 16 (λ d i. not (i == 4))
        (λ d i. lea_sib_value (with_index b i 1 false v) 0 d)
        (λ d i. wide_insn 0x8d d (mem none (some (i, 1)) (v % 2 ^ 32)) 0) measures
        (rw (← le_value-bytes_four v) refl)

  value_by_two :
      (v d b i : ℕ)
      → d < 16
      → b < 16
      → i < 16
      → (not (i == 4)) ≡ true
      → Emits size true
          (lea_sib_value (with_index b i 2 true v) 64 d)
          (wide_insn 0x8d d (mem (some b) (some (i, 2)) (v % 2 ^ 32)) 0)
  unfolding lea_sib_value tabulate decode le_bytes le_value at_passing
  value_by_two v d b i hd hb hi ni =
      subst
        (λ w.
          Emits size true (lea_sib_value (with_index b i 2 true v) 64 d)
            (wide_insn 0x8d d (mem (some b) (some (i, 2)) w) 0))
        (le_value-bytes_four v)
        (Emits_of_table₃_if true 16 16 16 (λ d b i. not (i == 4))
          (λ d b i. lea_sib_value (with_index b i 2 true v) 64 d)
          (λ d b i. wide_insn 0x8d d (mem (some b) (some (i, 2)) (le_value (le_bytes 4 v))) 0)
          measures refl d b i hd hb hi ni)

  base_by_two :
      (d b i : ℕ)
      → d < 16
      → b < 16
      → i < 16
      → (not (i == 4)) ≡ true
      → Emits size true
          (lea_sib_base (with_index b i 2 true 0) 64 d)
          (wide_insn 0x8d d (at_base_index b i 2) 0)
  unfolding lea_sib_base tabulate decode le_bytes le_value at_passing
  base_by_two =
      Emits_of_table₃_if true 16 16 16 (λ d b i. not (i == 4))
        (λ d b i. lea_sib_base (with_index b i 2 true 0) 64 d)
        (λ d b i. wide_insn 0x8d d (at_base_index b i 2) 0) measures refl

  index_by_two :
      (v b d i : ℕ)
      → d < 16
      → i < 16
      → (not (i == 4)) ≡ true
      → Emits size true
          (lea_sib_value (with_index b i 2 false v) 64 d)
          (wide_insn 0x8d d (mem none (some (i, 2)) (v % 2 ^ 32)) 0)
  unfolding lea_sib_value tabulate decode le_bytes le_value at_passing
  index_by_two v b =
      Emits_of_table₂_if true 16 16 (λ d i. not (i == 4))
        (λ d i. lea_sib_value (with_index b i 2 false v) 64 d)
        (λ d i. wide_insn 0x8d d (mem none (some (i, 2)) (v % 2 ^ 32)) 0) measures
        (rw (← le_value-bytes_four v) refl)

  value_by_four :
      (v d b i : ℕ)
      → d < 16
      → b < 16
      → i < 16
      → (not (i == 4)) ≡ true
      → Emits size true
          (lea_sib_value (with_index b i 4 true v) 128 d)
          (wide_insn 0x8d d (mem (some b) (some (i, 4)) (v % 2 ^ 32)) 0)
  unfolding lea_sib_value tabulate decode le_bytes le_value at_passing
  value_by_four v d b i hd hb hi ni =
      subst
        (λ w.
          Emits size true (lea_sib_value (with_index b i 4 true v) 128 d)
            (wide_insn 0x8d d (mem (some b) (some (i, 4)) w) 0))
        (le_value-bytes_four v)
        (Emits_of_table₃_if true 16 16 16 (λ d b i. not (i == 4))
          (λ d b i. lea_sib_value (with_index b i 4 true v) 128 d)
          (λ d b i. wide_insn 0x8d d (mem (some b) (some (i, 4)) (le_value (le_bytes 4 v))) 0)
          measures refl d b i hd hb hi ni)

  base_by_four :
      (d b i : ℕ)
      → d < 16
      → b < 16
      → i < 16
      → (not (i == 4)) ≡ true
      → Emits size true
          (lea_sib_base (with_index b i 4 true 0) 128 d)
          (wide_insn 0x8d d (at_base_index b i 4) 0)
  unfolding lea_sib_base tabulate decode le_bytes le_value at_passing
  base_by_four =
      Emits_of_table₃_if true 16 16 16 (λ d b i. not (i == 4))
        (λ d b i. lea_sib_base (with_index b i 4 true 0) 128 d)
        (λ d b i. wide_insn 0x8d d (at_base_index b i 4) 0) measures refl

  index_by_four :
      (v b d i : ℕ)
      → d < 16
      → i < 16
      → (not (i == 4)) ≡ true
      → Emits size true
          (lea_sib_value (with_index b i 4 false v) 128 d)
          (wide_insn 0x8d d (mem none (some (i, 4)) (v % 2 ^ 32)) 0)
  unfolding lea_sib_value tabulate decode le_bytes le_value at_passing
  index_by_four v b =
      Emits_of_table₂_if true 16 16 (λ d i. not (i == 4))
        (λ d i. lea_sib_value (with_index b i 4 false v) 128 d)
        (λ d i. wide_insn 0x8d d (mem none (some (i, 4)) (v % 2 ^ 32)) 0) measures
        (rw (← le_value-bytes_four v) refl)

  value_by_eight :
      (v d b i : ℕ)
      → d < 16
      → b < 16
      → i < 16
      → (not (i == 4)) ≡ true
      → Emits size true
          (lea_sib_value (with_index b i 8 true v) 192 d)
          (wide_insn 0x8d d (mem (some b) (some (i, 8)) (v % 2 ^ 32)) 0)
  unfolding lea_sib_value tabulate decode le_bytes le_value at_passing
  value_by_eight v d b i hd hb hi ni =
      subst
        (λ w.
          Emits size true (lea_sib_value (with_index b i 8 true v) 192 d)
            (wide_insn 0x8d d (mem (some b) (some (i, 8)) w) 0))
        (le_value-bytes_four v)
        (Emits_of_table₃_if true 16 16 16 (λ d b i. not (i == 4))
          (λ d b i. lea_sib_value (with_index b i 8 true v) 192 d)
          (λ d b i. wide_insn 0x8d d (mem (some b) (some (i, 8)) (le_value (le_bytes 4 v))) 0)
          measures refl d b i hd hb hi ni)

  base_by_eight :
      (d b i : ℕ)
      → d < 16
      → b < 16
      → i < 16
      → (not (i == 4)) ≡ true
      → Emits size true
          (lea_sib_base (with_index b i 8 true 0) 192 d)
          (wide_insn 0x8d d (at_base_index b i 8) 0)
  unfolding lea_sib_base tabulate decode le_bytes le_value at_passing
  base_by_eight =
      Emits_of_table₃_if true 16 16 16 (λ d b i. not (i == 4))
        (λ d b i. lea_sib_base (with_index b i 8 true 0) 192 d)
        (λ d b i. wide_insn 0x8d d (at_base_index b i 8) 0) measures refl

  index_by_eight :
      (v b d i : ℕ)
      → d < 16
      → i < 16
      → (not (i == 4)) ≡ true
      → Emits size true
          (lea_sib_value (with_index b i 8 false v) 192 d)
          (wide_insn 0x8d d (mem none (some (i, 8)) (v % 2 ^ 32)) 0)
  unfolding lea_sib_value tabulate decode le_bytes le_value at_passing
  index_by_eight v b =
      Emits_of_table₂_if true 16 16 (λ d i. not (i == 4))
        (λ d i. lea_sib_value (with_index b i 8 false v) 192 d)
        (λ d i. wide_insn 0x8d d (mem none (some (i, 8)) (v % 2 ^ 32)) 0) measures
        (rw (← le_value-bytes_four v) refl)

  base_only :
      (v d b : ℕ)
      → d < 16
      → b < 16
      → Emits size true
          (lea_base 16 (no_index b true v) d)
          (wide_insn 0x8d d (at_reg b (v % 2 ^ 32)) 0)
  unfolding lea_base tabulate decode le_bytes le_value
  base_only v = Emits_of_table₂ true 16 16 _ _ measures (rw (← le_value-bytes_four v) refl)

  constant_only :
      (v b d : ℕ)
      → d < 16
      → Emits size true
          (lea_constant (no_index b false v) d)
          (wide_insn 0x8d d (at_address (v % 2 ^ 32)) 0)
  unfolding lea_constant tabulate decode le_bytes le_value
  constant_only v b =
      Emits_of_table true 16 (λ d. lea_constant (no_index b false v) d)
        (λ d. wide_insn 0x8d d (at_address (v % 2 ^ 32)) 0) measures
        (rw (← le_value-bytes_four v) refl)

  value :
      (k v d b i : ℕ)
      → k < 4
      → d < 16
      → b < 16
      → i < 16
      → (not (i == 4)) ≡ true
      → Emits size true
          (lea_sib_value (with_index b i (2 ^ k) true v) (64 * k) d)
          (wide_insn 0x8d d (mem (some b) (some (i, 2 ^ k)) (v % 2 ^ 32)) 0)
  value zero v d b i hk hd hb hi ni = value_by_one v d b i hd hb hi ni
  value (suc zero) v d b i hk hd hb hi ni = value_by_two v d b i hd hb hi ni
  value (suc (suc zero)) v d b i hk hd hb hi ni = value_by_four v d b i hd hb hi ni
  value (suc (suc (suc zero))) v d b i hk hd hb hi ni = value_by_eight v d b i hd hb hi ni
  value (suc (suc (suc (suc k)))) v d b i hk hd hb hi ni = absurd (omega arith)

  base :
      (k d b i : ℕ)
      → k < 4
      → d < 16
      → b < 16
      → i < 16
      → (not (i == 4)) ≡ true
      → Emits size true
          (lea_sib_base (with_index b i (2 ^ k) true 0) (64 * k) d)
          (wide_insn 0x8d d (at_base_index b i (2 ^ k)) 0)
  base zero d b i hk hd hb hi ni = base_by_one d b i hd hb hi ni
  base (suc zero) d b i hk hd hb hi ni = base_by_two d b i hd hb hi ni
  base (suc (suc zero)) d b i hk hd hb hi ni = base_by_four d b i hd hb hi ni
  base (suc (suc (suc zero))) d b i hk hd hb hi ni = base_by_eight d b i hd hb hi ni
  base (suc (suc (suc (suc k)))) d b i hk hd hb hi ni = absurd (omega arith)

  index :
      (k v b d i : ℕ)
      → k < 4
      → d < 16
      → i < 16
      → (not (i == 4)) ≡ true
      → Emits size true
          (lea_sib_value (with_index b i (2 ^ k) false v) (64 * k) d)
          (wide_insn 0x8d d (mem none (some (i, 2 ^ k)) (v % 2 ^ 32)) 0)
  index zero v b d i hk hd hi ni = index_by_one v b d i hd hi ni
  index (suc zero) v b d i hk hd hi ni = index_by_two v b d i hd hi ni
  index (suc (suc zero)) v b d i hk hd hi ni = index_by_four v b d i hd hi ni
  index (suc (suc (suc zero))) v b d i hk hd hi ni = index_by_eight v b d i hd hi ni
  index (suc (suc (suc (suc k)))) v b d i hk hd hi ni = absurd (omega arith)

  -- LEA with an index register that is not RSP and a scale of 1, 2, 4 or 8, for a disassembler that
  -- measures instructions: one instruction which computes the base if there is one, plus the index
  -- times the scale, plus the displacement, of which it holds the low 32 bits.
  pub lea_indexed-Emits :
      (rip_reg b i k d v : ℕ) (has : Bool)
      → d < 16
      → b < 16
      → i < 16
      → (not (i == 4)) ≡ true
      → k < 4
      → Emits size true (emit_load_effective_address rip_reg (with_index b i (2 ^ k) has v) d) (
          wide_insn 0x8d d
            (if has
              then (if v == 0
                  then at_base_index b i (2 ^ k)
                  else mem (some b) (some (i, 2 ^ k)) (v % 2 ^ 32))
              else mem none (some (i, 2 ^ k)) (v % 2 ^ 32))
            0)
  lea_indexed-Emits rip_reg b i k d v false hd hb hi ni hk =
      rw (lea_with_index rip_reg b i k d v false hd hb hi hk) (index k v b d i hk hd hi ni)
  lea_indexed-Emits rip_reg b i k d v true hd hb hi ni hk =
      rw (lea_with_index rip_reg b i k d v true hd hb hi hk) (elim (Bool-cases (v == 0)) [
        | inl z ↦ let e : v ≡ 0 = ground arith in rw (e) (base k d b i hk hd hb hi ni)
        | inr nz ↦ rw (nz) (value k v d b i hk hd hb hi ni)
      ])

  -- LEA without an index: a base register and the displacement, or the displacement alone.
  lea_plain-Emits :
      (rip_reg b d v : ℕ) (has : Bool)
      → d < 16
      → b < 16
      → 16 ≤ rip_reg
      → Emits size true
          (emit_load_effective_address rip_reg (no_index b has v) d)
          (wide_insn 0x8d d (if has then at_reg b (v % 2 ^ 32) else at_address (v % 2 ^ 32)) 0)
  lea_plain-Emits rip_reg b d v true hd hb hr =
      rw (lea_without_index rip_reg b d v true hd hb, lea_base_not_rip rip_reg b d v hb hr)
        (base_only v d b hd hb)
  lea_plain-Emits rip_reg b d v false hd hb hr =
      rw (lea_without_index rip_reg b d v false hd hb) (constant_only v b d hd)
