-- ===== src/Numeric/HashCode.antt =====
-- include/Base.h, src/Base.C: class HashCode, which packs the position of an instruction, as section,
-- function, block and instruction number, into 64 bits.
pub mod Laws
use pebil.Common.{
  ℕ, ◌+◌, ◌-◌, ◌*◌, ◌/◌, ◌%◌, ◌^◌, Bool, true, false, not, ◌&&◌, ◌||◌, ltb, ◌==◌, if◌then◌else◌,
}

-- The bit fields of HashCodeEntry: 16, 16, 16, 8 and 8 bits, from the lowest.
pub record HashCode : Type 0 where
  pub instruction : ℕ
  pub block : ℕ
  pub function : ℕ
  pub section : ℕ
  pub res : ℕ

-- entry.bits, and the fields of a value of 64 bits.
unfoldable pub get_value : HashCode → ℕ
get_value h =
    h.instruction + 2 ^ 16 * h.block + 2 ^ 32 * h.function + 2 ^ 48 * h.section + 2 ^ 56 * h.res

unfoldable pub of_value : ℕ → HashCode
of_value a = record {
  instruction = a % 2 ^ 16;
  block = a / 2 ^ 16 % 2 ^ 16;
  function = a / 2 ^ 32 % 2 ^ 16;
  section = a / 2 ^ 48 % 2 ^ 8;
  res = a / 2 ^ 56 % 2 ^ 8;
}

abbrev invalid : HashCode
invalid = record { instruction = 0; block = 0; function = 0; section = 0; res = 0 }

unfoldable pub valid_section : ℕ → Bool
valid_section s = ltb s (2 ^ 8)

-- validFunction, validBlock and validInstruction
unfoldable pub valid_part : ℕ → Bool
valid_part n = ltb n (2 ^ 16 - 1)

-- The constructors of one to four numbers. A field keeps the low bits of the number plus one.
unfoldable pub of_section : ℕ → HashCode
unfolding valid_section
of_section s =
    if valid_section s
    then record { instruction = 0; block = 0; function = 0; section = (s + 1) % 2 ^ 8; res = 0 }
    else invalid

unfoldable pub of_function : ℕ → ℕ → HashCode
unfolding valid_section valid_part
of_function s f =
    if valid_section s && valid_part f
    then record {
      instruction = 0;
      block = 0;
      function = (f + 1) % 2 ^ 16;
      section = (s + 1) % 2 ^ 8;
      res = 0;
    }
    else invalid

unfoldable pub of_block : ℕ → ℕ → ℕ → HashCode
unfolding valid_section valid_part
of_block s f b =
    if valid_section s && (valid_part f && valid_part b)
    then record {
      instruction = 0;
      block = (b + 1) % 2 ^ 16;
      function = (f + 1) % 2 ^ 16;
      section = (s + 1) % 2 ^ 8;
      res = 0;
    }
    else invalid

unfoldable pub of_instruction : ℕ → ℕ → ℕ → ℕ → HashCode
unfolding valid_section valid_part
of_instruction s f b m =
    if valid_section s && (valid_part f && (valid_part b && valid_part m))
    then record {
      instruction = (m + 1) % 2 ^ 16;
      block = (b + 1) % 2 ^ 16;
      function = (f + 1) % 2 ^ 16;
      section = (s + 1) % 2 ^ 8;
      res = 0;
    }
    else invalid

unfoldable pub has : ℕ → Bool
has n = not (n == 0)

unfoldable pub is_section : HashCode → Bool
unfolding has
is_section h =
    has h.section && (not (has h.function) && (not (has h.block) && not (has h.instruction)))

unfoldable pub is_function : HashCode → Bool
unfolding has
is_function h = has h.section && (has h.function && (not (has h.block) && not (has h.instruction)))

unfoldable pub is_block : HashCode → Bool
unfolding has
is_block h = has h.section && (has h.function && (has h.block && not (has h.instruction)))

unfoldable pub is_instruction : HashCode → Bool
unfolding has
is_instruction h = has h.section && (has h.function && (has h.block && has h.instruction))

unfoldable pub is_valid : HashCode → Bool
unfolding is_section is_function is_block is_instruction
is_valid h = is_section h || (is_function h || (is_block h || is_instruction h))

-- getSection, getFunction, getBlock and getInstruction
unfoldable pub part : ℕ → ℕ
unfolding has
part n = if has n then n - 1 else 0
