-- ===== src/Sim/Ranges.antt =====
-- instcode/Simulation.cpp, `RangeStats` and `AddressRangeHandler::Process`: the least and the greatest
-- address of each memory instruction, and how often it ran.
pub mod Extent
use pebil.Common.{
  ℕ, ◌+◌, ◌-◌, ◌%◌, ◌^◌, Option, none, some, List, [], ◌∷◌, ltb, if◌then◌else◌, get_elem?, set,
  replicate, ◌>>=◌, ◌>>◌, ensure,
}

pub record AddressRange : Type 0 where
  pub minimum : ℕ
  pub maximum : ℕ

pub record RangeStats : Type 0 where
  pub capacity : ℕ
  pub counts : List ℕ
  pub ranges : List AddressRange

-- MAX_64BIT_VALUE
abbrev pub max_64bit_value : ℕ
max_64bit_value = 0xffffffffffffffff

unfoldable pub new_ranges : ℕ → RangeStats
new_ranges capacity = record {
  capacity = capacity;
  counts = replicate capacity 0;
  ranges = replicate capacity (record { minimum = max_64bit_value; maximum = 0 });
}

unfoldable pub widen : AddressRange → ℕ → AddressRange
widen r addr =
    let low = if ltb addr r.minimum then record r { minimum = addr } else r in
    if ltb low.maximum addr then record low { maximum = addr } else low

-- Update does not ask HasMemId: an unknown instruction is an access outside of Ranges.
unfoldable pub update : RangeStats → ℕ → ℕ → ℕ → Option RangeStats
update s memid addr count = do
  r ← get_elem? s.ranges memid
  c ← get_elem? s.counts memid
  some record s {
    ranges = set s.ranges memid (widen r addr);
    counts = set s.counts memid ((c + count) % 2 ^ 64);
  }

unfoldable pub get_minimum : RangeStats → ℕ → Option ℕ
get_minimum s memid =
    ensure (ltb memid s.capacity) >> get_elem? s.ranges memid >>= λ r. some r.minimum

unfoldable pub get_maximum : RangeStats → ℕ → Option ℕ
get_maximum s memid =
    ensure (ltb memid s.capacity) >> get_elem? s.ranges memid >>= λ r. some r.maximum

-- AddressRangeHandler::Process, for each access (memseq, address) of a buffer.
unfoldable pub process_ranges : RangeStats → List (ℕ × ℕ) → Option RangeStats
process_ranges s [] = some s
process_ranges s ((memseq, address) ∷ rest) =
    update s (memseq % 2 ^ 32) address 1 >>= λ s'. process_ranges s' rest
