-- ===== src/Tests/Finders.antt =====
-- LineInfoFinder: a lookup in a table of three rows, with a bsearch that looks at every element.
use pebil.Common.{
  ℕ, suc, zero, ◌≡◌, refl, sym, ◌∙◌, Option, none, some, List, [], ◌∷◌, arith, get_elem?,
}
use pebil.Dwarf.Finder.{LineInfo, Side, before, inside, behind, Search, set_spans}
use pebil.Dwarf.Finder.Lookup.{
  Each, none_left, one_of, Sorted, sorted_one, sorted_more, IsSearch, Answered,
  lookup_line_info_lem,
}
use mathlib.Core.Logic.{◌≢◌}

unfoldable next_of : Option ℕ → Option ℕ
next_of none = none
next_of (some i) = some (suc i)

unfoldable step : Side → Option ℕ → Option ℕ
step before rest = next_of rest
step inside rest = some 0
step behind rest = next_of rest

unfoldable linear : Search
linear f [] = none
linear f (x ∷ xs) = let rest = linear f xs in step (f x) rest

unfoldable Found : (LineInfo → Side) → List LineInfo → ℕ → Type 0
Found f xs i = (x : LineInfo) × (get_elem? xs i ≡ some x) × (f x ≡ inside)

linear-Found :
    (f : LineInfo → Side) (xs : List LineInfo) (i : ℕ) → linear f xs ≡ some i → Found f xs i
unfolding linear step next_of Found
linear-Found f [] i e = absurd cc
linear-Found f (x ∷ xs) i e =
    at_side (λ j r. linear-Found f xs j r) (f x) refl (linear f xs) refl i e
  where
    at_side :
        ((j : ℕ) → linear f xs ≡ some j → Found f xs j)
        → (side : Side) → f x ≡ side
        → (rest : Option ℕ) → linear f xs ≡ rest
        → (i : ℕ) → step side rest ≡ some i
        → Found f (x ∷ xs) i
    at_side deeper inside h rest r zero e = (x, refl, h)
    at_side deeper inside h rest r (suc i) e = absurd cc
    at_side deeper before h none r i e = absurd cc
    at_side deeper before h (some j) r zero e = absurd cc
    at_side deeper before h (some j) r (suc i) e = deeper i cc
    at_side deeper behind h none r i e = absurd cc
    at_side deeper behind h (some j) r zero e = absurd cc
    at_side deeper behind h (some j) r (suc i) e = deeper i cc

linear-missing :
    (f : LineInfo → Side) (xs : List LineInfo) → linear f xs ≡ none → Each (λ x. f x ≢ inside) xs
unfolding linear step next_of
linear-missing f [] e = none_left
linear-missing f (x ∷ xs) e = at_side (λ r. linear-missing f xs r) (f x) refl (linear f xs) refl e
  where
    at_side :
        (linear f xs ≡ none → Each (λ x. f x ≢ inside) xs)
        → (side : Side) → f x ≡ side
        → (rest : Option ℕ) → linear f xs ≡ rest
        → step side rest ≡ none
        → Each (λ x. f x ≢ inside) (x ∷ xs)
    at_side deeper inside h rest r e = absurd cc
    at_side deeper before h none r e =
        one_of _ _ (λ i. let c : before ≡ inside = sym h ∙ i in absurd cc) (deeper r)
    at_side deeper before h (some j) r e = absurd cc
    at_side deeper behind h none r e =
        one_of _ _ (λ i. let c : behind ≡ inside = sym h ∙ i in absurd cc) (deeper r)
    at_side deeper behind h (some j) r e = absurd cc

linear-IsSearch : IsSearch linear
unfolding Found
linear-IsSearch = record { found = linear-Found; missing = λ f xs parts e. linear-missing f xs e }

abbrev row : ℕ → LineInfo
row a = record { address = a; address_span = 0 }

abbrev three_rows : List LineInfo
three_rows = row 4096 ∷ row 4100 ∷ row 4112 ∷ []

three_rows-Sorted : Sorted three_rows
three_rows-Sorted =
    sorted_more _ _ _ (omega arith) (omega arith) (omega arith) (
      sorted_more _ _ _ (omega arith) (omega arith) (omega arith) (sorted_one _ refl (omega arith)))

abbrev table_of : List LineInfo
table_of = elim (set_spans three_rows) [ none ↦ [] | some table ↦ table ]

lookup_line_info_lem_example : Answered linear 4105 table_of
unfolding set_spans
lookup_line_info_lem_example =
    lookup_line_info_lem linear linear-IsSearch 4105 three_rows table_of three_rows-Sorted refl
