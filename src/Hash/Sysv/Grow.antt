-- ===== src/Hash/Sysv/Grow.antt =====
-- A symbol more, and more buckets: `addEntry` and `expandSize`.
use pebil.Common.{ℕ, ◌+◌, ◌-◌, ◌*◌, ◌%◌, ◌^◌, ◌<◌, ◌≡◌, refl, List, some, none, length, arith}
use pebil.Hash.Name.{Name}
use pebil.Hash.Sysv.{SysvTable, ElfFile, build_table, find_symbol, add_entry, expand_size}
use pebil.Hash.Sysv.Verify.{IsDistinct, IsSysv, Small, build_table-Indexes}
use pebil.Hash.Sysv.Find.{Says, find_symbol-Says}

-- A table of `b` buckets that answers every lookup in `names`.
pub record Answers (names : List Name) (b : ℕ) (t : SysvTable) : Type 0 where
  pub buckets : t.number_of_buckets ≡ b
  pub bytes : t.size_in_bytes ≡ 4 * (2 + b + length names)
  pub says : (s : Name) → Says names s (find_symbol names t s)

build_table-Answers :
    (f : ElfFile) (n b : ℕ)
    → n ≡ length f.names
    → IsSysv f
    → Small f b
    → IsDistinct f
    → (t : SysvTable) × (build_table f n b ≡ some t) × Answers f.names b t
build_table-Answers f n b e sysv small d =
    let (t, run, ix, buckets, bytes) = build_table-Indexes f b sysv small d in
    (
      t,
      rw e run,
      record {
        buckets = buckets;
        bytes = bytes;
        says = λ s. find_symbol-Says f.names t ix s small.symbols;
      },
    )

-- `addEntry` for a System V hash section, when the symbol table has grown by one: with two buckets or more,
-- a size that fits in 32 bits, and no symbol with a name that has a later namesake, it makes a table of
-- the same size with a bucket less, in which every lookup is right.
pub add_entry-Answers :
    (f : ElfFile) (t : SysvTable)
    → IsSysv f
    → IsDistinct f
    → length f.names ≡ t.number_of_entries + 1
    → 1 < t.number_of_buckets
    → 4 * (1 + t.number_of_buckets + length f.names) < 2 ^ 32
    → (u : SysvTable) × (add_entry f t ≡ some u) × Answers f.names (t.number_of_buckets - 1) u
unfolding add_entry
add_entry-Answers f t sysv d e more small =
    let n : (t.number_of_entries + 1) % 2 ^ 32 ≡ length f.names = omega arith in
    let b : (t.number_of_buckets + 2 ^ 32 - 1) % 2 ^ 32 ≡ t.number_of_buckets - 1 = omega arith in
    rw (n, b)
      (build_table-Answers f (length f.names) (t.number_of_buckets - 1) refl sysv
        (record { symbols = omega arith; buckets = omega arith; bytes = omega arith }) d)

-- `addEntry` on a table with a single bucket fails an ASSERT: no bucket is left.
add_entry-none : (f : ElfFile) (t : SysvTable) → t.number_of_buckets ≡ 1 → add_entry f t ≡ none
unfolding add_entry build_table
add_entry-none f t e = rw e refl

-- `expandSize` for a System V hash section, on a table of all the symbols: for a new size that fits in 32
-- bits, and no symbol with a name that has a later namesake, every lookup is right in the table that it
-- makes.
expand_size-Answers :
    (f : ElfFile) (t : SysvTable) (amt : ℕ)
    → IsSysv f
    → IsDistinct f
    → t.number_of_entries ≡ length f.names
    → Small f (t.number_of_buckets + amt)
    → (u : SysvTable) × (expand_size f t amt ≡ some u)
      × Answers f.names (t.number_of_buckets + amt) u
unfolding expand_size
expand_size-Answers f t amt sysv d e small =
    let b : (t.number_of_buckets + amt) % 2 ^ 32 ≡ t.number_of_buckets + amt =
      omega (arith, small.bytes) in
    rw b (build_table-Answers f t.number_of_entries (t.number_of_buckets + amt) e sysv small d)
