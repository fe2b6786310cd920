-- ===== src/Hash/Sysv/Find.antt =====
-- Lookups: `find_symbol` against the list of names.
use pebil.Common.{
  ℕ, zero, suc, ◌%◌, ◌≤◌, ◌<◌, ◌≡◌, ◌≢◌, ◌⊎◌, inl, inr, sym, ap, ◌∙◌, subst, List, [], true, ◌==◌,
  length, get_or, arith, Bool-cases, lt_or_ge,
}
use mathlib.Core.Bool.{false≢true}
use pebil.Hash.Name.{Name, elf_sysv_hash, same_name, same_name_refl, same_name-eq}
use pebil.Hash.Sysv.{SysvTable, Lookup, found, missing, find_loop, find_symbol}
use pebil.Hash.Sysv.Build.{Previous, last, nothing, bucket_of, Indexes}

-- What a lookup of `s` should say: the last symbol of that name, or that there is none.
pub data Says (names : List Name) (s : Name) : Lookup → Type 0 where
  at_last :
      {i : ℕ}
      → i < length names
      → get_or names i [] ≡ s
      → ((j : ℕ) → i < j → j < length names → get_or names j [] ≢ s)
      → Says names s (found i)
  absent : ((j : ℕ) → j < length names → get_or names j [] ≢ s) → Says names s missing

module _ (names : List Name) (t : SysvTable) (ix : Indexes names t) (s : Name) where
  abbrev home : ℕ
  home = elf_sysv_hash s % t.number_of_buckets

  -- The loop stands at `x`, and no symbol behind `x` has the name; `x` is in the name's bucket, or 0.
  record At (x : ℕ) : Type 0 where
    inside : x < length names
    behind : (j : ℕ) → x < j → j < length names → get_or names j [] ≢ s
    place : (bucket_of t.number_of_buckets names x ≡ home) ⊎ (x ≡ 0)

  in_home : (j : ℕ) → get_or names j [] ≡ s → bucket_of t.number_of_buckets names j ≡ home
  in_home j e = ap (λ n. elf_sysv_hash n % t.number_of_buckets) e

  -- A previous entry of the name's bucket, or 0, is where the search goes on.
  At-of_Previous :
      (k r : ℕ)
      → 0 < length names
      → k ≤ length names
      → ((j : ℕ) → k ≤ j → j < length names → get_or names j [] ≢ s)
      → Previous t.number_of_buckets names home k r
      → At r
  At-of_Previous k r pos h behind (last below holds greatest) = record {
    inside = omega arith;
    behind = λ j p q e. elim (lt_or_ge j k) [
      | inl l ↦ greatest j p l (in_home j e)
      | inr g ↦ behind j g q e
    ];
    place = inl holds;
  }
  At-of_Previous k r pos h behind (nothing z none_below) = record {
    inside = omega arith;
    behind = λ j p q e. elim (lt_or_ge j k) [
      | inl l ↦ none_below j l (in_home j e)
      | inr g ↦ behind j g q e
    ];
    place = inr z;
  }

  abbrev next : ℕ → ℕ
  next x = get_or t.entries x 0

  Previous-le : (c k r : ℕ) → Previous t.number_of_buckets names c k r → (r < k) ⊎ (r ≡ 0)
  Previous-le c k r (last below holds greatest) = inl below
  Previous-le c k r (nothing z none_below) = inr z

  -- Behind `x`, and at `x` itself.
  from_here :
      (x : ℕ)
      → At x
      → get_or names x [] ≢ s
      → (j : ℕ) → x ≤ j
      → j < length names
      → get_or names j [] ≢ s
  from_here x a ne j h q = elim (lt_or_ge x j) [
    | inl l ↦ a.behind j l q
    | inr g ↦ let e : x ≡ j = omega arith in subst (λ k. get_or names k [] ≢ s) e ne
  ]

  At-next : (x : ℕ) → At x → get_or names x [] ≢ s → x ≢ next x → At (next x) × (next x < x)
  At-next x a ne moves = elim (Previous-le _ x (next x) (ix.entry x a.inside)) [
    | inr z ↦ elim a.place [
      | inl here ↦ (step here, omega arith)
      | inr zero_here ↦ absurd (moves (omega arith))
    ]
    | inl l ↦ elim a.place [ inl here ↦ (step here, l) | inr zero_here ↦ absurd (omega arith) ]
  ]
    where
      step : bucket_of t.number_of_buckets names x ≡ home → At (next x)
      step here =
          At-of_Previous x (next x) (omega (arith, a.inside)) (omega (arith, a.inside))
            (from_here x a ne)
            (subst (λ c. Previous t.number_of_buckets names c x (next x)) here
              (ix.entry x a.inside))

  find_loop-Says :
      (fuel x : ℕ) → x < fuel → At x → Says names s (find_loop names t.entries s fuel x)
  unfolding find_loop
  find_loop-Says zero x h a = absurd (omega arith)
  find_loop-Says (suc fuel) x h a = elim (Bool-cases (same_name s (get_or names x []))) [
    | inl same ↦
        rw (same, find_loop)
          (at_last a.inside (sym (same_name-eq s (get_or names x []) same)) a.behind)
    | inr other ↦
        let ne : get_or names x [] ≢ s = λ e.
          false≢true (sym other ∙ subst (λ n. same_name s n ≡ true) (sym e) (same_name_refl s)) in
        elim (Bool-cases (x == next x)) [
          | inl stays ↦
              let x0 : x ≡ 0 = elim (Previous-le _ x (next x) (ix.entry x a.inside)) [
                | inl l ↦ absurd (ground arith)
                | inr z ↦ ground arith
              ] in
              rw (other, stays, find_loop) (absent (λ j q. from_here x a ne j (omega arith) q))
          | inr moves ↦
              let (a', l) = At-next x a ne (ground arith) in
              rw (other, moves, find_loop) (find_loop-Says fuel (next x) (omega arith) a')
        ]
  ]

  -- In a table that indexes the names of a symbol table that is not empty, a lookup returns, and
  -- says the last symbol of the name, or that no symbol has it.
  pub find_symbol-Says : 0 < length names → Says names s (find_symbol names t s)
  unfolding find_symbol
  find_symbol-Says pos =
      let start =
        At-of_Previous (length names) (get_or t.buckets home 0) pos (omega arith)
          (λ j p q. absurd (omega arith)) (ix.bucket home (omega (arith, ix.some_buckets))) in
      find_loop-Says (suc t.number_of_entries) (get_or t.buckets home 0)
        (omega (arith, ix.all_entries, start.inside)) start
