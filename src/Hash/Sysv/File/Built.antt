-- ===== src/Hash/Sysv/File/Built.antt =====
-- A table that `build_table` made survives the file.
use pebil.Common.{ℕ, suc, ◌^◌, ◌<◌, ◌≡◌, ◌++◌, some, List, [], ◌∷◌, length, get_or, arith}
use pebil.Hash.Name.{Name}
use pebil.Hash.Sysv.{SysvTable, ElfFile, build_table}
use pebil.Hash.Sysv.Build.{Previous, last, nothing}
use pebil.Hash.Sysv.Verify.{IsDistinct, IsSysv, Small, build_table-Indexes}
use pebil.Hash.Sysv.File.{dump, read}
use pebil.Hash.Sysv.File.Laws.{Words, none_left, word, read-dump}

Words-of_bound : (xs : List ℕ) → ((i : ℕ) → i < length xs → get_or xs i 0 < 2 ^ 32) → Words xs
Words-of_bound [] h = none_left
Words-of_bound (x ∷ xs) h =
    word (h 0 (omega arith)) (Words-of_bound xs (λ i l. h (suc i) (omega arith)))

Previous-small :
    (names : List Name) (b c k r : ℕ) → k < 2 ^ 32 → Previous b names c k r → r < 2 ^ 32
Previous-small names b c k r h (last below holds greatest) = omega arith
Previous-small names b c k r h (nothing z none_below) = omega arith

-- For a System V hash section, at least one symbol and one bucket, and a size that fits in 32 bits, where
-- no symbol that has a name has a later namesake: the table that is built, dumped, with anything behind
-- it, reads back as the same table.
pub build_table-read :
    (f : ElfFile) (b : ℕ) (rest : List ℕ)
    → IsSysv f
    → Small f b
    → IsDistinct f
    → (t : SysvTable) × (build_table f (length f.names) b ≡ some t)
      × (read t.size_in_bytes (dump t ++ rest) ≡ some (t, rest))
build_table-read f b rest sysv fits d =
    let (t, run, ix, buckets, bytes) = build_table-Indexes f b sysv fits d in
    let room = fits.bytes in
    (
      t,
      run,
      read-dump t rest (record {
        buckets_count = ix.buckets_count;
        entries_count = ix.entries_count;
        buckets_words = Words-of_bound t.buckets (λ i l.
            Previous-small f.names _ i (length f.names) _ (omega arith)
              (ix.bucket i (omega (arith, ix.buckets_count))));
        entries_words = Words-of_bound t.entries (λ i l.
            Previous-small f.names _ _ i _ (omega (arith, ix.entries_count, ix.all_entries))
              (ix.entry i (omega (arith, ix.entries_count, ix.all_entries))));
        small = omega (arith, ix.all_entries);
        size = omega (arith, ix.all_entries);
      }),
    )
