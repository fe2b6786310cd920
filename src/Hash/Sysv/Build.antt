-- ===== src/Hash/Sysv/Build.antt =====
-- The table that `build_table` makes: buckets and chains.
use pebil.Common.{
  set, length-set, ℕ, zero, suc, ◌+◌, ◌%◌, ◌^◌, leb, true, ◌≤◌, ◌<◌, ◌≡◌, ◌≢◌, inl, inr, refl, sym,
  ap, ◌∙◌, subst, List, [], ◌∷◌, map, length, get_or, length-map, arith,
}
use pebil.Hash.Name.{Name, elf_sysv_hash}
use pebil.Hash.Sysv.{
  SysvTable, search_bucket, bucket_value, bucket_list, search_previous, chain_loop, fill_table,
  signed_rounds,
}
use pebil.Hash.Sysv.Search.{IsLast, Nowhere, search_bucket_lem, search_previous_lem, chain_loop_lem}

-- The bucket of a symbol.
abbrev pub bucket_of : ℕ → List Name → ℕ → ℕ
bucket_of b names i = elf_sysv_hash (get_or names i []) % b

get_or-map :
    (b : ℕ) (names : List Name) (i : ℕ)
    → i < length names
    → get_or (map (λ s. elf_sysv_hash s % b) names) i 0 ≡ bucket_of b names i
get_or-map b [] i h = absurd (omega arith)
get_or-map b (s ∷ names) zero h = refl
get_or-map b (s ∷ names) (suc i) h = get_or-map b names i (omega arith)

get_or-bucket_list :
    (es : List ℕ) (n i rounds j : ℕ)
    → j < rounds
    → get_or (bucket_list es n i rounds) j 0 ≡ bucket_value es n (i + j)
unfolding bucket_list
get_or-bucket_list es n i zero j h = absurd (omega arith)
get_or-bucket_list es n i (suc r) zero h = ap (bucket_value es n) (omega arith)
get_or-bucket_list es n i (suc r) (suc j) h =
    get_or-bucket_list es n (i + 1) r j (omega arith) ∙ ap (bucket_value es n) (omega arith)

length-bucket_list : (es : List ℕ) (n i rounds : ℕ) → rounds ≡ length (bucket_list es n i rounds)
unfolding bucket_list
length-bucket_list es n i zero = refl
length-bucket_list es n i (suc r) = ap suc (length-bucket_list es n (i + 1) r)

length-chain_loop : (k : ℕ) (es : List ℕ) → length (chain_loop k es) ≡ length es
unfolding chain_loop
length-chain_loop zero es = refl
length-chain_loop (suc k) es =
    length-chain_loop k (set es k (search_previous es k k))
    ∙ length-set es k (search_previous es k k)

-- `r` is the last symbol before `k` in bucket `c`; or there is none, and `r` is 0.
pub data Previous (b : ℕ) (names : List Name) (c k r : ℕ) : Type 0 where
  last :
      r < k
      → bucket_of b names r ≡ c
      → ((j : ℕ) → r < j → j < k → bucket_of b names j ≢ c)
      → Previous b names c k r
  nothing : r ≡ 0 → ((j : ℕ) → j < k → bucket_of b names j ≢ c) → Previous b names c k r

signed_rounds_lem : (n : ℕ) → n ≤ 2 ^ 31 → signed_rounds n ≡ n
signed_rounds_lem n h = let e : leb n (2 ^ 31) ≡ true = ground arith in rw e refl

module _ (b : ℕ) (names : List Name) where
  abbrev hashes : List ℕ
  hashes = map (λ s. elf_sysv_hash s % b) names

  Previous-of_IsLast : (c k r : ℕ) → k ≤ length names → IsLast hashes c k r → Previous b names c k r
  Previous-of_IsLast c k r h l =
      last l.below (sym (get_or-map b names r (omega (arith, l.below))) ∙ l.holds)
        (λ j p q e. l.greatest j p q (get_or-map b names j (omega arith) ∙ e))

  Previous-of_Nowhere :
      (c k r : ℕ) → k ≤ length names → r ≡ 0 → Nowhere hashes c k → Previous b names c k r
  Previous-of_Nowhere c k r h z n =
      nothing z (λ j q e. n j q (get_or-map b names j (omega arith) ∙ e))

  pub bucket_value-Previous :
      (c : ℕ)
      → length names ≤ 2 ^ 31
      → Previous b names c (length names) (bucket_value hashes (length names) c)
  unfolding bucket_value
  bucket_value-Previous c small =
      let n = length names in
      let all : signed_rounds n ≡ n = signed_rounds_lem n small in
      let x = search_bucket hashes c n n in
      elim (search_bucket_lem hashes c n n) [
        | inl l ↦
            let e : bucket_value hashes n c ≡ x = rw all (ground (arith, l.below)) in
            subst (Previous b names c n) (sym e) (Previous-of_IsLast c n x (omega arith) l)
        | inr (e, nowhere) ↦
            Previous-of_Nowhere c n _ (omega arith) (rw all (ground (arith, e))) nowhere
      ]

  pub entry-Previous :
      (i : ℕ)
      → i < length names
      → Previous b names (bucket_of b names i) i (get_or (chain_loop (length names) hashes) i 0)
  entry-Previous i h =
      let n = length names in
      let same = get_or-map b names i h in
      let run =
        chain_loop_lem n hashes i (omega (arith, length-map names (λ s. elf_sysv_hash s % b))) h in
      subst (Previous b names (bucket_of b names i) i) (sym run)
        (elim (search_previous_lem hashes i i) [
          | inl l ↦
              Previous-of_IsLast _ i _ (omega arith)
                (subst (λ c. IsLast hashes c i (search_previous hashes i i)) same l)
          | inr (z, nowhere) ↦
              Previous-of_Nowhere _ i _ (omega arith) z
                (subst (λ c. Nowhere hashes c i) same nowhere)
        ])

-- What `find_symbol` needs of a table for `names`.
pub record Indexes (names : List Name) (t : SysvTable) : Type 0 where
  pub some_buckets : 0 < t.number_of_buckets
  pub all_entries : t.number_of_entries ≡ length names
  pub buckets_count : t.number_of_buckets ≡ length t.buckets
  pub entries_count : t.number_of_entries ≡ length t.entries
  pub bucket :
      (c : ℕ)
      → c < t.number_of_buckets
      → Previous t.number_of_buckets names c (length names) (get_or t.buckets c 0)
  pub entry :
      (i : ℕ)
      → i < length names
      → Previous t.number_of_buckets names
          (bucket_of t.number_of_buckets names i)
          i
          (get_or t.entries i 0)

-- The arrays that are filled for the names index them.
pub fill_table-Indexes :
    (names : List Name) (b : ℕ)
    → 0 < b
    → length names ≤ 2 ^ 31
    → Indexes names (fill_table names (length names) b)
unfolding fill_table
fill_table-Indexes names b h small = record {
  some_buckets = h;
  all_entries = refl;
  buckets_count = length-bucket_list (hashes b names) (length names) 0 b;
  entries_count = sym (
      length-chain_loop (signed_rounds (length names)) (hashes b names)
      ∙ length-map names (λ s. elf_sysv_hash s % b));
  bucket = λ c k.
      subst (Previous b names c (length names))
        (sym (
          get_or-bucket_list (hashes b names) (length names) 0 b c k
          ∙ ap (bucket_value (hashes b names) (length names)) (omega arith)))
        (bucket_value-Previous b names c small);
  entry = λ i l.
      subst
        (λ n. Previous b names (bucket_of b names i) i (get_or (chain_loop n (hashes b names)) i 0))
        (sym (signed_rounds_lem (length names) small)) (entry-Previous b names i l);
}
