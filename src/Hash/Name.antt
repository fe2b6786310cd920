-- ===== src/Hash/Name.antt =====
-- Symbol names, their comparison by strcmp, and the hash functions of include/CStructuresElf.h.
use Prim.Native.Nat.{bit_and, bit_xor}
use pebil.Common.{
  ℕ, ◌+◌, ◌-◌, ◌*◌, ◌/◌, ◌%◌, ◌^◌, ◌≡◌, refl, Bool, true, false, ◌&&◌, List, [], ◌∷◌, ltb, ◌==◌,
  if◌then◌else◌, arith,
}

-- The characters before the terminating zero, as unsigned values below 256.
abbrev pub Name : Type 0
Name = List ℕ

-- !strcmp(s, t)
unfoldable pub same_name : Name → Name → Bool
same_name [] [] = true
same_name [] (d ∷ t) = false
same_name (c ∷ s) [] = false
same_name (c ∷ s) (d ∷ t) = c == d && same_name s t

pub same_name_refl : (s : Name) → same_name s s ≡ true
unfolding same_name
same_name_refl [] = refl
same_name_refl (c ∷ s) = ground (arith, same_name_refl s)

pub same_name-eq : (s t : Name) → same_name s t ≡ true → s ≡ t
unfolding same_name
same_name-eq [] [] h = refl
same_name-eq [] (d ∷ t) h = absurd (cc)
same_name-eq (c ∷ s) [] h = absurd (cc)
same_name-eq (c ∷ s) (d ∷ t) h = ground (arith, same_name-eq s t)

-- A `char` that is added to a uint32_t is extended by its sign.
unfoldable pub char_value : ℕ → ℕ
char_value c = if ltb c 128 then c else 2 ^ 32 - 256 + c

-- One round of the loop, on a uint32_t: `if (g = h & 0xf0000000) h ^= g >> 24; h &= ~g;`
unfoldable pub elf_sysv_step : ℕ → ℕ → ℕ
unfolding char_value
elf_sysv_step h c =
    let h₁ = (h * 2 ^ 4 + char_value c) % 2 ^ 32 in
    let g = bit_and h₁ 0xf0000000 in
    let h₂ = if g == 0 then h₁ else bit_xor h₁ (g / 2 ^ 24) in bit_and h₂ (2 ^ 32 - 1 - g)

unfoldable pub elf_sysv_from : ℕ → Name → ℕ
unfolding elf_sysv_step
elf_sysv_from h [] = h
elf_sysv_from h (c ∷ s) = elf_sysv_from (elf_sysv_step h c) s

unfoldable pub elf_sysv_hash : Name → ℕ
unfolding elf_sysv_from
elf_sysv_hash s = elf_sysv_from 0 s

-- h = h * 33 + c on a uint32_t, with unsigned characters.
unfoldable pub elf_gnu_from : ℕ → Name → ℕ
elf_gnu_from h [] = h
elf_gnu_from h (c ∷ s) = elf_gnu_from ((h * 33 + c) % 2 ^ 32) s

unfoldable pub elf_gnu_hash : Name → ℕ
unfolding elf_gnu_from
elf_gnu_hash s = elf_gnu_from 5381 s
