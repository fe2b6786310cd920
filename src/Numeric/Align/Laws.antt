-- ===== src/Numeric/Align/Laws.antt =====
-- Alignment: the result is the least multiple that is not below the address.
use pebil.Common.{ℕ, ◌+◌, ◌%◌, ◌^◌, ◌≤◌, ◌<◌, ◌≡◌, arith}
use pebil.Numeric.Align.{
  next_align_address_half_word, next_align_address_word, next_align_address_double,
}

-- `r` is the least multiple of `w` that is not below `a`.
pub record IsNextMultiple (w a r : ℕ) : Type 0 where
  pub divides : r % w ≡ 0
  pub above : a ≤ r
  pub nearest : r < a + w

-- The three fixed-width functions round up to the next multiple of 2, 4 and 8, for each address at
-- which the sum with the width does not wrap.
next_align_fixed :
    (addr : ℕ)
    → addr + 8 < 2 ^ 64
    → IsNextMultiple 2 addr (next_align_address_half_word addr)
      × IsNextMultiple 4 addr (next_align_address_word addr)
      × IsNextMultiple 8 addr (next_align_address_double addr)
unfolding next_align_address_half_word next_align_address_word next_align_address_double
next_align_fixed addr h = (ground arith, ground arith, ground arith)
