-- ===== src/Hash/Sysv.antt =====
-- src/HashTable.C: class SysvHashTable. The names of the symbols are a list, in the order of their
-- indices; symbol 0 is the null symbol.
pub mod Search
pub mod Build
pub mod Find
pub mod Verify
pub mod Grow
pub mod File
use pebil.Common.{
  ℕ, zero, suc, ◌+◌, ◌-◌, ◌*◌, ◌/◌, ◌%◌, ◌≤◌, ◌≡◌, Bool, true, false, Option, none, some, List, [],
  ◌∷◌, map, ltb, leb, ◌&&◌, ◌==◌, ◌||◌, not, if◌then◌else◌, ensure, ◌>>◌, length, get_or, set, ◌^◌,
}
use pebil.Hash.Name.{Name, same_name, elf_sysv_hash}

-- The fields of HashTable that a SysvHashTable uses.
pub record SysvTable : Type 0 where
  pub number_of_buckets : ℕ
  pub number_of_entries : ℕ
  pub buckets : List ℕ
  pub entries : List ℕ
  pub size_in_bytes : ℕ

-- The `while` over `entryidx`, from `k - 1` down: the sentinel `n` where no entry is `i`.
unfoldable pub search_bucket : List ℕ → ℕ → ℕ → ℕ → ℕ
search_bucket es i n zero = n
search_bucket es i n (suc k) = elim (get_or es k 0 == i) [
  | true ↦ k
  | false ↦ search_bucket es i n k
]

-- The rounds of a loop down from `n - 1` as an int32_t: none where that is negative.
abbrev pub signed_rounds : ℕ → ℕ
signed_rounds n = if leb n (2 ^ 31) then n else 0

-- buckets[i]: the last entry of the bucket, or 0.
unfoldable pub bucket_value : List ℕ → ℕ → ℕ → ℕ
bucket_value es n i = let x = search_bucket es i n (signed_rounds n) in if x == n then 0 else x

-- for (i …) buckets[i] = …, from `i`, with the rounds left.
unfoldable pub bucket_list : List ℕ → ℕ → ℕ → ℕ → List ℕ
bucket_list es n i zero = []
bucket_list es n i (suc rounds) = bucket_value es n i ∷ bucket_list es n (i + 1) rounds

-- The inner `for` over j, from `j - 1` down: the first entry that is equal to entries[i], or 0.
unfoldable pub search_previous : List ℕ → ℕ → ℕ → ℕ
search_previous es i zero = 0
search_previous es i (suc j) = elim (get_or es i 0 == get_or es j 0) [
  | true ↦ j
  | false ↦ search_previous es i j
]

-- for (i = n - 1; i >= 0; i--): in place, from the last entry down.
unfoldable pub chain_loop : ℕ → List ℕ → List ℕ
chain_loop zero es = es
chain_loop (suc i) es = chain_loop i (set es i (search_previous es i i))

-- `missing` is the branch of PRINT_ERROR, which aborts.
pub data Lookup : Type 0 where
  found : ℕ → Lookup
  missing out_of_fuel : Lookup

-- The `while` of findSymbol, on fuel.
unfoldable pub find_loop : List Name → List ℕ → Name → ℕ → ℕ → Lookup
find_loop names es s zero x = out_of_fuel
find_loop names es s (suc fuel) x = elim (same_name s (get_or names x [])) [
  | true ↦ found x
  | false ↦ elim (x == get_or es x 0) [
    | true ↦ missing
    | false ↦ find_loop names es s fuel (get_or es x 0)
  ]
]

-- One round more than there are entries is enough.
unfoldable pub find_symbol : List Name → SysvTable → Name → Lookup
unfolding find_loop
find_symbol names t s =
    find_loop names t.entries s (suc t.number_of_entries)
      (get_or t.buckets (elf_sysv_hash s % t.number_of_buckets) 0)

-- What the table looks up in its file: of each symbol its name and st_name, and of its section header
-- sh_type and sh_entsize.
pub record ElfFile : Type 0 where
  pub names : List Name
  pub st_names : List ℕ
  pub sh_type : ℕ
  pub sh_entsize : ℕ

unfoldable pub is_found : ℕ → Lookup → Bool
is_found i (found x) = x == i
is_found i missing = false
is_found i out_of_fuel = false

-- The two loops of verify, from `lo` and below `k`: findSymbol gives each symbol that has a name.
unfoldable pub found_from : ElfFile → SysvTable → ℕ → ℕ → Bool
unfolding is_found
found_from f t lo zero = true
found_from f t lo (suc k) =
    (ltb k lo
      || (get_or f.st_names k 0 == 0 || is_found k (find_symbol f.names t (get_or f.names k []))))
    && found_from f t lo k

-- False where it prints an error, which ends the program. SHT_HASH is 5.
unfoldable pub verify : ElfFile → SysvTable → Bool
unfolding found_from
verify f t =
    f.sh_type == 5
    && (t.number_of_entries == length f.names
        && (found_from f t 1 t.number_of_entries
            && (f.sh_entsize == 4
                && (found_from f t 0 t.number_of_entries
                    && t.size_in_bytes
                      == 4 * ((2 + t.number_of_entries + t.number_of_buckets) % 2 ^ 32)))))

-- The arrays that buildTable fills, and sizeInBytes.
unfoldable pub fill_table : List Name → ℕ → ℕ → SysvTable
unfolding bucket_list bucket_value search_bucket chain_loop search_previous
fill_table names num_entries num_buckets =
    let es = map (λ s. elf_sysv_hash s % num_buckets) names in
    record {
      number_of_buckets = num_buckets;
      number_of_entries = num_entries;
      buckets = bucket_list es num_entries 0 num_buckets;
      entries = chain_loop (signed_rounds num_entries) es;
      size_in_bytes = 4 * (2 + num_buckets + num_entries) % 2 ^ 32;
    }

-- The ASSERTs on the number of buckets and of symbols, and verify at the end.
unfoldable pub build_table : ElfFile → ℕ → ℕ → Option SysvTable
unfolding fill_table verify
build_table f num_entries num_buckets = do
  ensure (ltb 0 num_buckets)
  ensure (length f.names == num_entries)
  ensure (verify f (fill_table f.names num_entries num_buckets))
  some (fill_table f.names num_entries num_buckets)

-- while maintaining a fixed-size table: one entry more, one bucket less. The uint32_t difference
-- wraps at 0.
unfoldable pub add_entry : ElfFile → SysvTable → Option SysvTable
unfolding build_table
add_entry f t =
    build_table f ((t.number_of_entries + 1) % 2 ^ 32) ((t.number_of_buckets + 2 ^ 32 - 1) % 2 ^ 32)

unfoldable pub expand_size : ElfFile → SysvTable → ℕ → Option SysvTable
unfolding build_table
expand_size f t amt = build_table f t.number_of_entries ((t.number_of_buckets + amt) % 2 ^ 32)

unfoldable pub passed_threshold : SysvTable → Bool
passed_threshold t = ltb t.number_of_buckets (t.number_of_entries / 2) || ltb t.number_of_buckets 2
