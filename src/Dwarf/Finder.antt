-- ===== src/Dwarf/Finder.antt =====
-- src/LineInformation.C, `LineInfoFinder`: the lookup of the line of an address. `bsearch` is the C
-- library's, a parameter: it gets the comparison with the key and the array, and answers an index or
-- NULL. The rows are those that the constructor has sorted.
pub mod Lookup
use pebil.Common.{
  ℕ, zero, suc, ◌+◌, ◌-◌, ◌%◌, ◌^◌, Option, none, some, List, [], ◌∷◌, ltb, leb, if◌then◌else◌,
  ◌>>=◌, get_elem?,
}

pub record LineInfo : Type 0 where
  pub address : ℕ
  pub address_span : ℕ

-- The constructor's last loop: each row but the last gets the distance to the next. Without a row,
-- `size()-1` wraps, and the ASSERT of operator[] fails.
unfoldable pub spans : List LineInfo → List LineInfo
spans [] = []
spans (li ∷ []) = li ∷ []
spans (li ∷ next ∷ rest) =
    record li { address_span = (next.address + 2 ^ 64 - li.address) % 2 ^ 64 } ∷ spans (next ∷ rest)

unfoldable pub set_spans : List LineInfo → Option (List LineInfo)
unfolding spans
set_spans [] = none
set_spans (li ∷ rest) = some (spans (li ∷ rest))

-- searchLineInfoAddress: -1, 0 and 1.
pub data Side : Type 0 where
  before inside behind : Side

unfoldable pub search_line_info_address : ℕ → LineInfo → Side
search_line_info_address key li =
    if ltb key li.address
    then before
    else if leb ((li.address + li.address_span) % 2 ^ 64) key
    then behind
    else inside

abbrev pub Search : Type 0
Search = (LineInfo → Side) → List LineInfo → Option ℕ

-- `some none` is NULL.
unfoldable pub lookup_line_info : Search → List LineInfo → ℕ → Option (Option LineInfo)
lookup_line_info bsearch [] addr = some none
lookup_line_info bsearch (li ∷ rest) addr =
    elim (bsearch (search_line_info_address addr) (li ∷ rest)) [
      | none ↦ some none
      | some ridx ↦ get_elem? (li ∷ rest) ridx >>= λ found. some (some found)
    ]
