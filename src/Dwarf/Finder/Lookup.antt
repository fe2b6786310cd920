-- ===== src/Dwarf/Finder/Lookup.antt =====
-- src/LineInformation.C, the promise of `LineInfoFinder::lookupLineInfo` over sorted rows.
use mathlib.Core.Logic.{◌≢◌}
use pebil.Common.{
  ℕ, zero, suc, ◌+◌, ◌-◌, ◌%◌, ◌^◌, ◌≤◌, ◌<◌, ◌≡◌, refl, sym, ◌∙◌, subst, ◌⊎◌, inl, inr, false,
  Option, none, some, List, [], ◌∷◌, ltb, leb, arith, Bool-cases, lt→ltb, get_elem?,
}
use pebil.Dwarf.Finder.{
  LineInfo, spans, set_spans, Side, before, inside, behind, search_line_info_address, Search,
  lookup_line_info,
}

pub data Each (P : LineInfo → Type 0) : List LineInfo → Type 0 where
  none_left : Each P []
  one_of : (li : LineInfo) (rest : List LineInfo) → P li → Each P rest → Each P (li ∷ rest)

pub data Sorted : List LineInfo → Type 0 where
  sorted_none : Sorted []
  sorted_one : (li : LineInfo) → li.address_span ≡ 0 → li.address < 2 ^ 64 → Sorted (li ∷ [])
  sorted_more :
      (li next : LineInfo) (rest : List LineInfo)
      → li.address ≤ next.address
      → li.address < 2 ^ 64
      → next.address < 2 ^ 64
      → Sorted (next ∷ rest)
      → Sorted (li ∷ next ∷ rest)

-- The order that bsearch asks of an array: those that the key is behind, those that it is inside of,
-- and those that it is before.
pub data Partitioned (f : LineInfo → Side) : List LineInfo → Type 0 where
  no_parts : Partitioned f []
  in_order :
      (li : LineInfo) (rest : List LineInfo)
      → (f li ≢ behind → Each (λ x. f x ≡ before ⊎ f x ≡ inside) rest)
      → (f li ≡ before → Each (λ x. f x ≡ before) rest)
      → Partitioned f rest
      → Partitioned f (li ∷ rest)

-- What the C library documents of bsearch.
pub record IsSearch (bsearch : Search) : Type 0 where
  pub found :
      (f : LineInfo → Side) (xs : List LineInfo) (i : ℕ)
      → bsearch f xs ≡ some i
      → (x : LineInfo) × (get_elem? xs i ≡ some x) × (f x ≡ inside)
  pub missing :
      (f : LineInfo → Side) (xs : List LineInfo)
      → Partitioned f xs
      → bsearch f xs ≡ none
      → Each (λ x. f x ≢ inside) xs

-- The row's own range of addresses.
abbrev pub Holds : ℕ → LineInfo → Type 0
Holds addr li = (li.address ≤ addr) × (addr < li.address + li.address_span)

Above : (bound : ℕ) (xs : List LineInfo) → Type 0
Above bound xs = Each (λ x. (bound ≤ x.address) × (x.address + x.address_span < 2 ^ 64)) xs

spans-Above :
    (bound : ℕ) (li : LineInfo) (rest : List LineInfo)
    → bound ≤ li.address
    → Sorted (li ∷ rest)
    → Above bound (spans (li ∷ rest))
unfolding spans Above
spans-Above bound li [] le (sorted_one _ z small) = one_of _ _ (le, omega arith) none_left
spans-Above bound li (next ∷ rest) le (sorted_more _ _ _ l s t more) =
    one_of _ _ (le, omega arith) (spans-Above bound next rest (omega arith) more)

Each-map :
    {P Q : LineInfo → Type 0} (xs : List LineInfo)
    → ((x : LineInfo) → P x → Q x)
    → Each P xs
    → Each Q xs
Each-map [] h none_left = none_left
Each-map (x ∷ xs) h (one_of _ _ p rest) = one_of x xs (h x p) (Each-map xs h rest)

Each-at :
    {P : LineInfo → Type 0} (xs : List LineInfo) (i : ℕ) (x : LineInfo)
    → Each P xs
    → get_elem? xs i ≡ some x
    → P x
Each-at [] i x none_left e = absurd cc
Each-at {P} (y ∷ xs) zero x (one_of _ _ p rest) e = let same : y ≡ x = cc in subst P same p
Each-at (y ∷ xs) (suc i) x (one_of _ _ p rest) e = Each-at xs i x rest e

module _ (key : ℕ) (x : LineInfo) where
  is_before : key < x.address → search_line_info_address key x ≡ before
  unfolding search_line_info_address
  is_before h = rw (lt→ltb key x.address h) refl

  is_inside :
      x.address + x.address_span < 2 ^ 64 → Holds key x → search_line_info_address key x ≡ inside
  unfolding search_line_info_address
  is_inside fits (lo, hi) =
      let not_less : ltb key x.address ≡ false = ground arith in
      let not_past : leb ((x.address + x.address_span) % 2 ^ 64) key ≡ false = ground arith in
      rw (not_less, not_past) refl

  -- What is not behind ends Above the key, and what is inside starts below it too.
  not_behind :
      x.address + x.address_span < 2 ^ 64
      → search_line_info_address key x ≢ behind
      → key < x.address + x.address_span
  unfolding search_line_info_address
  not_behind fits h = elim (Bool-cases (ltb key x.address)) [
    | inl less ↦ ground arith
    | inr more ↦ elim (Bool-cases (leb ((x.address + x.address_span) % 2 ^ 64) key)) [
      | inl past ↦ absurd (h (rw (more, past) refl))
      | inr inner ↦ ground arith
    ]
  ]

  inside-Holds :
      x.address + x.address_span < 2 ^ 64 → search_line_info_address key x ≡ inside → Holds key x
  unfolding search_line_info_address
  inside-Holds fits h = elim (Bool-cases (ltb key x.address)) [
    | inl less ↦ let e : before ≡ inside = sym (rw less refl) ∙ h in absurd cc
    | inr more ↦ elim (Bool-cases (leb ((x.address + x.address_span) % 2 ^ 64) key)) [
      | inl past ↦ let e = rw (more, past) at h in absurd cc
      | inr inner ↦ (ground arith, ground arith)
    ]
  ]

before_not_behind : {side : Side} → side ≡ before → side ≢ behind
before_not_behind e h = let clash : before ≡ behind = sym e ∙ h in absurd cc

spans-Partitioned :
    (key : ℕ) (xs : List LineInfo)
    → Sorted xs
    → Partitioned (search_line_info_address key) (spans xs)
unfolding spans Above
spans-Partitioned key [] sorted_none = no_parts
spans-Partitioned key (li ∷ []) (sorted_one _ z s) =
    in_order li [] (λ h. none_left) (λ h. none_left) no_parts
spans-Partitioned key (li ∷ next ∷ rest) (sorted_more _ _ _ l s t more) =
    let row : LineInfo = record li {
      address_span = (next.address + 2 ^ 64 - li.address) % 2 ^ 64;
    } in
    let ends : li.address + row.address_span ≡ next.address = omega arith in
    let fits : row.address + row.address_span < 2 ^ 64 = omega (arith, ends) in
    let all_before : key < next.address
        → Each (λ x. search_line_info_address key x ≡ before) (spans (next ∷ rest)) =
      λ h.
        Each-map _ (λ x p. is_before key x (omega (arith, p.0)))
          (spans-Above next.address next rest (omega arith) more) in
    let ahead : search_line_info_address key row ≢ behind → key < next.address =
      λ h. omega (arith, ends, not_behind key row fits h) in
    in_order row _ (λ h. Each-map _ (λ x e. inl e) (all_before (ahead h)))
      (λ h. all_before (ahead (before_not_behind h))) (spans-Partitioned key (next ∷ rest) more)

-- What lookup_line_info promises of an answer.
unfoldable pub Answers : ℕ → List LineInfo → Option LineInfo → Type 0
Answers addr xs none = Each (λ x. ¬ Holds addr x) xs
Answers addr xs (some x) = (i : ℕ) × (get_elem? xs i ≡ some x) × Holds addr x

Each-both :
    {P Q R : LineInfo → Type 0} (xs : List LineInfo)
    → ((x : LineInfo) → P x → Q x → R x)
    → Each P xs
    → Each Q xs
    → Each R xs
Each-both [] h none_left none_left = none_left
Each-both (x ∷ xs) h (one_of _ _ p ps) (one_of _ _ q qs) =
    one_of x xs (h x p q) (Each-both xs h ps qs)

abbrev pub Answered : Search → ℕ → List LineInfo → Type 0
Answered bsearch addr xs =
    (found : Option LineInfo) × (lookup_line_info bsearch xs addr ≡ some found)
    × Answers addr xs found

module _ (bsearch : Search) (ok : IsSearch bsearch) (addr : ℕ) where
  searched :
      (x : LineInfo) (rest : List LineInfo)
      → Partitioned (search_line_info_address addr) (x ∷ rest)
      → Above 0 (x ∷ rest)
      → (result : Option ℕ) → bsearch (search_line_info_address addr) (x ∷ rest) ≡ result
      → Answered bsearch addr (x ∷ rest)
  unfolding Answers lookup_line_info Above
  searched x rest parts fits none e = (
    none,
    rw (e, lookup_line_info) refl,
    Each-both (x ∷ rest) (λ y fit out held. out (is_inside addr y fit.1 held)) fits
        (ok.missing _ _ parts e),
  )
  searched x rest parts fits (some i) e =
      let (y, at, inner) = ok.found _ _ i e in
      (
        some y,
        rw (e, at, lookup_line_info) refl,
        (i, at, inside-Holds addr y (Each-at (x ∷ rest) i y fits at).1 inner),
      )

  searched_all :
      (xs : List LineInfo)
      → Partitioned (search_line_info_address addr) xs
      → Above 0 xs
      → Answered bsearch addr xs
  unfolding Answers lookup_line_info
  searched_all [] parts fits = (none, refl, none_left)
  searched_all (x ∷ rest) parts fits = searched x rest parts fits _ refl

  -- For rows that are sorted by their address, the last of span 0, and a bsearch that keeps what the
  -- C library documents: once the spans are set, a lookup always answers, with a row of the table
  -- whose range of addresses holds the address, or with NULL, and then no row of it does.
  pub lookup_line_info_lem :
      (rows table : List LineInfo)
      → Sorted rows
      → set_spans rows ≡ some table
      → Answered bsearch addr table
  unfolding set_spans
  lookup_line_info_lem [] table sorted e = absurd cc
  lookup_line_info_lem (li ∷ rest) table sorted e =
      let same : spans (li ∷ rest) ≡ table = cc in
      subst (Answered bsearch addr) same (
        searched_all _ (spans-Partitioned addr _ sorted)
          (spans-Above 0 li rest (omega arith) sorted))
