-- ===== src/Sim/Ring.antt =====
-- instcode/Simulation.cpp, `CacheLevel::MarkUsed`: what the writes do to the links of the lines.
pub mod Age
pub mod Lru
pub mod Single
pub mod Recency
use pebil.Common.{
  bind-some, ℕ, ◌<◌, ◌≡◌, refl, ap, sym, ◌∙◌, ◌≢◌, Option, some, List, ◌==◌, if◌then◌else◌,
  get_elem?, get_or, set, length, length-set, get_or-set, get_elem?-get_or, ◌>>=◌, arith,
  Bool-cases, inl, inr, true, false,
}
use pebil.Sim.Level.{History, set_prev, set_next, move_to_end}

abbrev pub blank : History
blank = record { prev = 0; next = 0 }

unfoldable pub next_of : List History → ℕ → ℕ
next_of h i = (get_or h i blank).next

unfoldable pub prev_of : List History → ℕ → ℕ
prev_of h i = (get_or h i blank).prev

put_next : List History → ℕ → ℕ → List History
put_next h i v = set h i (record (get_or h i blank) { next = v })

put_prev : List History → ℕ → ℕ → List History
put_prev h i v = set h i (record (get_or h i blank) { prev = v })

module _ (h : List History) (i v : ℕ) where
  length-put_next : length (put_next h i v) ≡ length h
  unfolding put_next
  length-put_next = length-set h i _

  length-put_prev : length (put_prev h i v) ≡ length h
  unfolding put_prev
  length-put_prev = length-set h i _

module _ (h : List History) (i v : ℕ) (inside : i < length h) where
  set_next_lem : set_next h i v ≡ some (put_next h i v)
  unfolding set_next put_next
  set_next_lem = rw (get_elem?-get_or h i blank inside) refl

  set_prev_lem : set_prev h i v ≡ some (put_prev h i v)
  unfolding set_prev put_prev
  set_prev_lem = rw (get_elem?-get_or h i blank inside) refl

  next_of-put_next : (j : ℕ) → next_of (put_next h i v) j ≡ (if i == j then v else next_of h j)
  unfolding next_of put_next
  next_of-put_next j =
      ap (λ (e : History). e.next)
        (get_or-set h i j (record (get_or h i blank) { next = v }) blank inside)
      ∙ ground arith

  prev_of-put_next : (j : ℕ) → prev_of (put_next h i v) j ≡ prev_of h j
  unfolding prev_of put_next
  prev_of-put_next j =
      ap (λ (e : History). e.prev)
        (get_or-set h i j (record (get_or h i blank) { next = v }) blank inside)
      ∙ ground arith

  prev_of-put_prev : (j : ℕ) → prev_of (put_prev h i v) j ≡ (if i == j then v else prev_of h j)
  unfolding prev_of put_prev
  prev_of-put_prev j =
      ap (λ (e : History). e.prev)
        (get_or-set h i j (record (get_or h i blank) { prev = v }) blank inside)
      ∙ ground arith

  next_of-put_prev : (j : ℕ) → next_of (put_prev h i v) j ≡ next_of h j
  unfolding next_of put_prev
  next_of-put_prev j =
      ap (λ (e : History). e.next)
        (get_or-set h i j (record (get_or h i blank) { prev = v }) blank inside)
      ∙ ground arith

-- The writes of move_to_end, in their order, for a line that is not the oldest and is not linked to
-- itself.
module _ (h : List History) (line oldest : ℕ) where
  taken_prev : List History
  taken_prev = put_prev h (next_of h line) (prev_of h line)

  taken : List History
  unfolding taken_prev
  taken = put_next taken_prev (prev_of taken_prev line) (next_of taken_prev line)

  placed_prev : List History
  unfolding taken
  placed_prev = put_prev (put_prev taken line (prev_of taken oldest)) oldest line

  placed : List History
  unfolding placed_prev
  placed = put_next placed_prev line oldest

  pub moved : List History
  unfolding placed
  moved = put_next placed (prev_of placed line) line

pub record Apart (h : List History) (line oldest : ℕ) : Type 0 where
  pub inside : line < length h
  pub oldest_inside : oldest < length h
  pub next_inside : next_of h line < length h
  pub prev_inside : prev_of h line < length h
  pub last_inside : prev_of h oldest < length h
  pub other : line ≢ oldest
  pub next_other : next_of h line ≢ line
  pub prev_other : prev_of h line ≢ line

-- The newest line once the line is taken out.
abbrev pub newest : List History → ℕ → ℕ → ℕ
newest h line oldest = if next_of h line == oldest then prev_of h line else prev_of h oldest

module _ {h : List History} {line oldest : ℕ} (a : Apart h line oldest) where
  length-taken_prev : length (taken_prev h line oldest) ≡ length h
  unfolding taken_prev
  length-taken_prev = length-put_prev h _ _

  length-taken : length (taken h line oldest) ≡ length h
  unfolding taken
  length-taken = length-put_next (taken_prev h line oldest) _ _ ∙ length-taken_prev

  length-placed_prev : length (placed_prev h line oldest) ≡ length h
  unfolding placed_prev
  length-placed_prev = length-put_prev _ _ _ ∙ length-put_prev _ _ _ ∙ length-taken

  length-placed : length (placed h line oldest) ≡ length h
  unfolding placed
  length-placed = length-put_next _ _ _ ∙ length-placed_prev

  prev_of-taken_prev :
      (k : ℕ)
      → prev_of (taken_prev h line oldest) k
        ≡ (if next_of h line == k then prev_of h line else prev_of h k)
  unfolding taken_prev
  prev_of-taken_prev k = prev_of-put_prev h (next_of h line) (prev_of h line) a.next_inside k

  next_of-taken_prev : (k : ℕ) → next_of (taken_prev h line oldest) k ≡ next_of h k
  unfolding taken_prev
  next_of-taken_prev k = next_of-put_prev h (next_of h line) (prev_of h line) a.next_inside k

  before_line : prev_of (taken_prev h line oldest) line ≡ prev_of h line
  before_line = ground (arith, prev_of-taken_prev line, a.next_other)

  prev_of-taken :
      (k : ℕ)
      → prev_of (taken h line oldest) k
        ≡ (if next_of h line == k then prev_of h line else prev_of h k)
  unfolding taken
  prev_of-taken k =
      prev_of-put_next (taken_prev h line oldest) _ _
        (omega (arith, length-taken_prev, before_line, a.prev_inside)) k
      ∙ prev_of-taken_prev k

  next_of-taken :
      (k : ℕ)
      → next_of (taken h line oldest) k
        ≡ (if prev_of h line == k then next_of h line else next_of h k)
  unfolding taken
  next_of-taken k =
      next_of-put_next (taken_prev h line oldest) _ _
        (omega (arith, length-taken_prev, before_line, a.prev_inside)) k
      ∙ rw (before_line, next_of-taken_prev line, next_of-taken_prev k) refl

  prev_of-placed_prev :
      (k : ℕ)
      → prev_of (placed_prev h line oldest) k ≡ (
          if oldest == k
          then line
          else if line == k
          then newest h line oldest
          else if next_of h line == k
          then prev_of h line
          else prev_of h k)
  unfolding placed_prev
  prev_of-placed_prev k =
      prev_of-put_prev _ oldest line
        (omega (
          arith,
          length-put_prev (taken h line oldest) line (prev_of (taken h line oldest) oldest),
          length-taken,
          a.oldest_inside,
        ))
        k
      ∙ rw
          (
            prev_of-put_prev (taken h line oldest) line (prev_of (taken h line oldest) oldest)
                (omega (arith, length-taken, a.inside)) k,
            prev_of-taken oldest,
            prev_of-taken k,
          )
          refl

  next_of-placed_prev :
      (k : ℕ)
      → next_of (placed_prev h line oldest) k
        ≡ (if prev_of h line == k then next_of h line else next_of h k)
  unfolding placed_prev
  next_of-placed_prev k =
      next_of-put_prev _ oldest line
        (omega (
          arith,
          length-put_prev (taken h line oldest) line (prev_of (taken h line oldest) oldest),
          length-taken,
          a.oldest_inside,
        ))
        k
      ∙ next_of-put_prev (taken h line oldest) line _ (omega (arith, length-taken, a.inside)) k
      ∙ next_of-taken k

  before_moved : prev_of (placed h line oldest) line ≡ newest h line oldest
  unfolding placed
  before_moved =
      prev_of-put_next (placed_prev h line oldest) line oldest
        (omega (arith, length-placed_prev, a.inside)) line
      ∙ prev_of-placed_prev line
      ∙ ground (arith, a.other)

  newest_inside : newest h line oldest < length h
  newest_inside = ground (arith, a.prev_inside, a.last_inside)

  -- The links after the writes.
  pub prev_of-moved :
      (k : ℕ)
      → prev_of (moved h line oldest) k ≡ (
          if oldest == k
          then line
          else if line == k
          then newest h line oldest
          else if next_of h line == k
          then prev_of h line
          else prev_of h k)
  unfolding moved placed
  prev_of-moved k =
      prev_of-put_next (placed h line oldest) _ line
        (omega (arith, length-placed, before_moved, newest_inside)) k
      ∙ prev_of-put_next (placed_prev h line oldest) line oldest
          (omega (arith, length-placed_prev, a.inside)) k
      ∙ prev_of-placed_prev k

  pub next_of-moved :
      (k : ℕ)
      → next_of (moved h line oldest) k ≡ (
          if newest h line oldest == k
          then line
          else if line == k
          then oldest
          else if prev_of h line == k
          then next_of h line
          else next_of h k)
  unfolding moved placed
  next_of-moved k =
      next_of-put_next (placed h line oldest) _ line
        (omega (arith, length-placed, before_moved, newest_inside)) k
      ∙ rw
          (
            before_moved,
            next_of-put_next (placed_prev h line oldest) line oldest
                (omega (arith, length-placed_prev, a.inside)) k,
            next_of-placed_prev k,
          )
          refl

  pub length-moved : length (moved h line oldest) ≡ length h
  unfolding moved
  length-moved = length-put_next (placed h line oldest) _ _ ∙ length-placed

  pub move_to_end_lem : move_to_end h line oldest ≡ some (moved h line oldest)
  unfolding move_to_end next_of prev_of taken_prev taken placed_prev placed moved
  move_to_end_lem = bind-some _ (get_elem?-get_or h line blank a.inside) (
      bind-some _ (set_prev_lem h _ _ a.next_inside) (
        bind-some _
          (get_elem?-get_or (taken_prev h line oldest) line blank
            (omega (arith, length-taken_prev, a.inside)))
          (bind-some _
            (set_next_lem (taken_prev h line oldest) _ _
              (omega (arith, length-taken_prev, before_line, a.prev_inside)))
            (bind-some _
              (get_elem?-get_or (taken h line oldest) oldest blank
                (omega (arith, length-taken, a.oldest_inside)))
              (bind-some _
                (set_prev_lem (taken h line oldest) line _ (omega (arith, length-taken, a.inside)))
                (bind-some _
                  (set_prev_lem _ oldest line (
                    omega (
                      arith,
                      length-put_prev (taken h line oldest) line
                          (prev_of (taken h line oldest) oldest),
                      length-taken,
                      a.oldest_inside,
                    )))
                  (bind-some _
                    (set_next_lem (placed_prev h line oldest) line oldest
                      (omega (arith, length-placed_prev, a.inside)))
                    (bind-some _
                      (get_elem?-get_or (placed h line oldest) line blank
                        (omega (arith, length-placed, a.inside)))
                      (set_next_lem (placed h line oldest) _ line
                        (omega (arith, length-placed, before_moved, newest_inside)))))))))))
