-- ===== src/Hash/Sysv/Verify.antt =====
-- `buildTable` with the `verify` at its end.
use pebil.Common.{
  ℕ, zero, suc, ◌+◌, ◌*◌, ◌^◌, ◌≤◌, ◌<◌, ◌≡◌, ◌≢◌, refl, sym, ap, ◌∙◌, subst, Bool, true, false,
  ◌||◌, Option, some, none, List, [], ◌==◌, ltb, length, get_or, arith, lt→ltb, ==_iff, inl, inr,
  Bool-cases, lt_or_ge, ensure, ◌>>◌,
}
use mathlib.Core.Bool.{false≢true}
use pebil.Hash.Name.{Name}
use pebil.Hash.Sysv.{
  SysvTable, ElfFile, Lookup, found, missing, out_of_fuel, is_found, found_from, verify, fill_table,
  build_table, find_symbol,
}
use pebil.Hash.Sysv.Build.{Indexes, fill_table-Indexes}
use pebil.Hash.Sysv.Find.{Says, at_last, absent, find_symbol-Says}

-- No symbol behind a symbol that has a name (st_name is not 0) is called the same.
abbrev pub IsDistinct : ElfFile → Type 0
IsDistinct f =
    (i j : ℕ)
    → 0 < get_or f.st_names i 0
    → i < j
    → j < length f.names
    → get_or f.names j [] ≢ get_or f.names i []

-- A section for a hash table of the System V kind.
pub record IsSysv (f : ElfFile) : Type 0 where
  pub type : f.sh_type ≡ 5
  pub entsize : f.sh_entsize ≡ 4

-- A number of symbols and of buckets whose table has a size of 32 bits.
pub record Small (f : ElfFile) (b : ℕ) : Type 0 where
  pub symbols : 0 < length f.names
  pub buckets : 0 < b
  pub bytes : 4 * (2 + b + length f.names) < 2 ^ 32

Says-found :
    {names : List Name} {s : Name} (r : Lookup) (i : ℕ)
    → Says names s r
    → is_found i r ≡ true
    → (j : ℕ) → i < j
    → j < length names
    → get_or names j [] ≢ s
unfolding is_found
Says-found (found x) i (at_last below holds greatest) e j l k =
    greatest j (let same : x ≡ i = ground arith in omega arith) k
Says-found missing i (absent none_there) e j l k = absurd (false≢true e)
Says-found out_of_fuel i says e j l k = absurd (false≢true e)

found-Says :
    {names : List Name} {s : Name} (r : Lookup) (i : ℕ)
    → Says names s r
    → i < length names
    → get_or names i [] ≡ s
    → ((j : ℕ) → i < j → j < length names → get_or names j [] ≢ s)
    → is_found i r ≡ true
unfolding is_found
found-Says (found x) i (at_last below holds greatest) l here behind = elim (lt_or_ge x i) [
  | inl less ↦ absurd (greatest i less l here)
  | inr not_less ↦ elim (lt_or_ge i x) [
    | inl more ↦ absurd (behind x more below holds)
    | inr not_more ↦ ground arith
  ]
]
found-Says missing i (absent none_there) l here behind = absurd (none_there i l here)
found-Says out_of_fuel i says l here behind = elim says [ ]

or_right : (a b : Bool) → b ≡ true → (a || b) ≡ true
or_right true b e = refl
or_right false b e = e

module _ (f : ElfFile) (t : SysvTable)
    (says : (s : Name) → Says f.names s (find_symbol f.names t s)) where
  found_from-Distinct : (lo k : ℕ) → k ≤ length f.names → IsDistinct f → found_from f t lo k ≡ true
  unfolding found_from
  found_from-Distinct lo zero h d = refl
  found_from-Distinct lo (suc k) h d =
      let below = found_from-Distinct lo k (omega arith) d in
      elim (Bool-cases (get_or f.st_names k 0 == 0)) [
        | inl unnamed ↦ rw (unnamed, below, or_right (ltb k lo) true refl) refl
        | inr named ↦
            let here =
              found-Says (find_symbol f.names t (get_or f.names k [])) k
                (says (get_or f.names k [])) (omega arith) refl
                (λ j l m. d k j (ground arith) l m) in
            rw (named, here, below, or_right (ltb k lo) true refl) refl
      ]

  found_from-found :
      (k : ℕ)
      → found_from f t 0 k ≡ true
      → (i : ℕ) → i < k
      → 0 < get_or f.st_names i 0
      → is_found i (find_symbol f.names t (get_or f.names i [])) ≡ true
  unfolding found_from
  found_from-found zero e i l named = absurd (omega arith)
  found_from-found (suc k) e i l named = elim (Bool-cases (i == k)) [
    | inl same ↦
        let there : is_found k (find_symbol f.names t (get_or f.names k [])) ≡ true =
          let at : i ≡ k = ground arith in
          let named_k : 0 < get_or f.st_names k 0 =
            subst (λ x. 0 < get_or f.st_names x 0) at named in
          ground arith in
        subst (λ x. is_found x (find_symbol f.names t (get_or f.names x [])) ≡ true)
          (let at : k ≡ i = ground arith in at) there
    | inr other ↦ found_from-found k (ground arith) i (ground arith) named
  ]

  Distinct-found_from : found_from f t 0 (length f.names) ≡ true → IsDistinct f
  Distinct-found_from e i j named l m =
      Says-found (find_symbol f.names t (get_or f.names i [])) i (says (get_or f.names i []))
        (found_from-found (length f.names) e i (omega arith) named) j l m

-- Two ASSERTs that hold.
passes :
    {a b : Bool} {x : Option SysvTable} → a ≡ true → b ≡ true → (ensure a >> (ensure b >> x)) ≡ x
passes p q = rw (p, q) refl

-- The checks of verify for the arrays that were filled.
module _ (f : ElfFile) (b : ℕ) (sysv : IsSysv f) (small : Small f b) where
  abbrev made : SysvTable
  made = fill_table f.names (length f.names) b

  made-Indexes : Indexes f.names made
  made-Indexes = fill_table-Indexes f.names b small.buckets (omega (arith, small.bytes))

  made-Says : (s : Name) → Says f.names s (find_symbol f.names made s)
  made-Says s = find_symbol-Says f.names made made-Indexes s small.symbols

  made-size : made.size_in_bytes ≡ 4 * (2 + b + length f.names)
  unfolding fill_table
  made-size = omega (arith, small.bytes)

  verify-Distinct : IsDistinct f → verify f made ≡ true
  unfolding verify fill_table
  verify-Distinct d =
      let below = found_from-Distinct f made made-Says 1 (length f.names) (omega arith) d in
      let all = found_from-Distinct f made made-Says 0 (length f.names) (omega arith) d in
      ground (arith, below, all, sysv.type, sysv.entsize, small.bytes)

  Distinct-verify : verify f made ≡ true → IsDistinct f
  unfolding verify fill_table
  Distinct-verify e = Distinct-found_from f made made-Says (ground arith)

  build-made : IsDistinct f → build_table f (length f.names) b ≡ some made
  unfolding build_table
  build-made d =
      passes (lt→ltb 0 b small.buckets) ((==_iff (length f.names) (length f.names)).1 refl)
      ∙ ap (λ v. ensure v >> some made) (verify-Distinct d)

  made-build : (t : SysvTable) → build_table f (length f.names) b ≡ some t → IsDistinct f
  unfolding build_table
  made-build t e =
      let buckets = lt→ltb 0 b small.buckets in
      let entries = (==_iff (length f.names) (length f.names)).1 refl in
      elim (Bool-cases (verify f made)) [
        | inl good ↦ Distinct-verify good
        | inr bad ↦
            let checked : (ensure (verify f made) >> some made) ≡ some t =
              sym (passes buckets entries) ∙ e in
            let failed : none ≡ some t = sym (ap (λ v. ensure v >> some made) bad) ∙ checked in
            absurd (cc)
      ]

-- For a System V hash section, at least one symbol and one bucket, and a size that fits in 32 bits: if no
-- symbol that has a name has a later namesake, build_table returns a table in which each lookup ends and
-- is right, giving the last symbol of the name, or `missing` exactly if no symbol has the name; and if
-- build_table returns a table at all, then no symbol that has a name has a later namesake.
pub build_table-find_symbol :
    (f : ElfFile) (b : ℕ)
    → IsSysv f
    → Small f b
    → (IsDistinct f
        → (t : SysvTable) × (build_table f (length f.names) b ≡ some t)
          × ((s : Name) → Says f.names s (find_symbol f.names t s)))
      × ((t : SysvTable) → build_table f (length f.names) b ≡ some t → IsDistinct f)
build_table-find_symbol f b sysv small = (
  λ d. (made f b sysv small, build-made f b sysv small d, made-Says f b sysv small),
  made-build f b sysv small,
)

-- For a System V hash section, at least one symbol and one bucket, and a size that fits in 32 bits, where
-- no symbol that has a name has a later namesake: build_table returns a table whose buckets and entries
-- lead from each bucket to its last symbol and from each symbol to the one before it in its bucket, 0
-- standing for none, and whose number of buckets and size are as asked.
pub build_table-Indexes :
    (f : ElfFile) (b : ℕ)
    → IsSysv f
    → Small f b
    → IsDistinct f
    → (t : SysvTable) × (build_table f (length f.names) b ≡ some t)
      × Indexes f.names t
      × (t.number_of_buckets ≡ b)
      × (t.size_in_bytes ≡ 4 * (2 + b + length f.names))
unfolding fill_table
build_table-Indexes f b sysv small d = (
  made f b sysv small,
  build-made f b sysv small d,
  made-Indexes f b sysv small,
  refl,
  made-size f b sysv small,
)
