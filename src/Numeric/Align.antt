-- ===== src/Numeric/Align.antt =====
-- src/Base.C: `nextAlignAddress` and its fixed-width versions.
pub mod Laws
pub mod Mask
use Prim.Native.Nat.{bit_and}
use pebil.Common.{
  ℕ, zero, suc, ◌+◌, ◌-◌, ◌*◌, ◌/◌, ◌%◌, ◌^◌, Bool, true, false, ◌||◌, Option, none, some, ◌==◌,
  ltb, if◌then◌else◌, ensure, ◌>>◌, ◌>>=◌,
}
use pebil.Numeric.Power.{is_power_of_two, log_loop}

-- align_mask_or[p] and align_mask_and[p], for p < 32: the tables hold 2 ^ p and 2 ^ 32 - 2 ^ p.
unfoldable pub align_mask_or : ℕ → ℕ
align_mask_or p = 2 ^ p

unfoldable pub align_mask_and : ℕ → ℕ
align_mask_and p = 2 ^ 32 - 2 ^ p

-- The loop that finds `pow`: it starts at -1, so its result is one less than the digits counted.
unfoldable pub align_power : ℕ → Option ℕ
align_power align = log_loop 33 align 0 >>= λ digits. some (digits - 1)

-- The masks are uint32_t, so the conjunction with the uint64_t address clears its high half.
unfoldable pub next_align_address : ℕ → ℕ → Option ℕ
unfolding align_power align_mask_and align_mask_or
next_align_address addr align =
    if align == 0 || (align == 1 || addr == 0)
    then some addr
    else if ltb addr align
    then some align
    else (do
      ensure (is_power_of_two align)
      pow ← align_power align
      let aligned = bit_and addr (align_mask_and pow)
      some (if ltb aligned addr then (aligned + align_mask_or pow) % 2 ^ 64 else aligned))

-- addr += (addr % w ? w : 0); addr >>= k; addr <<= k; on a uint64_t, with w = 2 ^ k.
unfoldable pub next_align_address_half_word : ℕ → ℕ
next_align_address_half_word addr =
    (addr + (if addr % 2 == 0 then 0 else 2)) % 2 ^ 64 / 2 ^ 1 * 2 ^ 1 % 2 ^ 64

unfoldable pub next_align_address_word : ℕ → ℕ
next_align_address_word addr =
    (addr + (if addr % 4 == 0 then 0 else 4)) % 2 ^ 64 / 2 ^ 2 * 2 ^ 2 % 2 ^ 64

unfoldable pub next_align_address_double : ℕ → ℕ
next_align_address_double addr =
    (addr + (if addr % 8 == 0 then 0 else 8)) % 2 ^ 64 / 2 ^ 3 * 2 ^ 3 % 2 ^ 64
