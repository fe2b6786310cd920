-- ===== src/Sim/Level.antt =====
-- instcode/Simulation.hpp and Simulation.cpp, `CacheLevel`: the geometry of a level, the search in a
-- set, the choice of a line and the marks of use. The arrays contents, recentlyUsed and historyUsed,
-- which have an element for each set, are one list of sets here; `none` is an access outside of an
-- array, a division by zero or an ASSERT. What rand() returns is an argument.
pub mod Access
pub mod Safe
use pebil.Common.{
  ℕ, zero, suc, ◌+◌, ◌-◌, ◌*◌, ◌/◌, ◌%◌, ◌^◌, Bool, true, false, not, Option, none, some, List, [],
  ◌∷◌, ◌==◌, ltb, if◌then◌else◌, get_elem?, set, length, replicate, ◌>>=◌, ◌>>◌, ensure,
}

pub record History : Type 0 where
  pub prev : ℕ
  pub next : ℕ

pub record CacheSet : Type 0 where
  pub contents : List ℕ
  pub recently_used : ℕ
  pub history_used : List History

pub data ReplacementPolicy : Type 0 where
  undefined trulru nmru random direct : ReplacementPolicy

pub record CacheLevel : Type 0 where
  pub level : ℕ
  pub size : ℕ
  pub associativity : ℕ
  pub linesize : ℕ
  pub replpolicy : ReplacementPolicy
  pub countsets : ℕ
  pub linesize_bits : ℕ
  pub sets : List CacheSet

-- Init: historyUsed[s][a]. The first has next 1, also if it is the only one.
unfoldable pub history_entry : ℕ → ℕ → History
history_entry assoc a = record {
  prev = if a == 0 then assoc - 1 else a - 1;
  next = if a == 0 then 1 else (a + 1) % assoc;
}

unfoldable pub history_from : ℕ → ℕ → ℕ → List History
history_from assoc a zero = []
history_from assoc a (suc left) = history_entry assoc a ∷ history_from assoc (suc a) left

unfoldable pub initial_history : ReplacementPolicy → ℕ → List History
unfolding history_from
initial_history trulru assoc = history_from assoc 0 assoc
initial_history _ assoc = []

-- The loop over lineSz. It ends with the fuel 33, since a uint32_t is 0 after 32 shifts.
unfoldable pub bits_loop : ℕ → ℕ → ℕ → Option ℕ
bits_loop zero line_sz bits = none
bits_loop (suc fuel) line_sz bits =
    let rest = bits_loop fuel (line_sz / 2) (bits + 1) in if ltb 0 line_sz then rest else some bits

unfoldable pub init : ℕ → ℕ → ℕ → ℕ → ReplacementPolicy → Option CacheLevel
unfolding bits_loop initial_history
init lvl size_in_bytes assoc line_sz pol = do
  let line_bytes = (line_sz * assoc) % 2 ^ 32
  ensure (ltb 0 line_bytes)
  bits ← bits_loop 33 line_sz 0
  let count = size_in_bytes / line_bytes
  some record {
    level = lvl;
    size = size_in_bytes;
    associativity = assoc;
    linesize = line_sz;
    replpolicy = pol;
    countsets = count;
    linesize_bits = (bits + 2 ^ 32 - 1) % 2 ^ 32;
    sets = replicate count record {
      contents = replicate assoc 0;
      recently_used = 0;
      history_used = initial_history pol assoc;
    };
  }

unfoldable pub get_storage : CacheLevel → ℕ → ℕ
get_storage c addr = addr / 2 ^ c.linesize_bits

unfoldable pub get_set : CacheLevel → ℕ → Option ℕ
get_set c store = ensure (ltb 0 c.countsets) >> some (store % c.countsets)

unfoldable pub line_to_replace : ReplacementPolicy → ℕ → ℕ → CacheSet → Option ℕ
line_to_replace nmru assoc rand s =
    ensure (ltb 0 assoc) >> some ((s.recently_used + 1) % 2 ^ 32 % assoc)
line_to_replace trulru assoc rand s = some s.recently_used
line_to_replace random assoc rand s = ensure (ltb 0 assoc) >> some (rand % assoc)
line_to_replace direct assoc rand s = some 0
line_to_replace undefined assoc rand s = none

unfoldable pub set_prev : List History → ℕ → ℕ → Option (List History)
set_prev h i v = get_elem? h i >>= λ e. some (set h i (record e { prev = v }))

unfoldable pub set_next : List History → ℕ → ℕ → Option (List History)
set_next h i v = get_elem? h i >>= λ e. some (set h i (record e { next = v }))

-- The else branch of MarkUsed: the line is taken out of the ring and put before the oldest one.
unfoldable pub move_to_end : List History → ℕ → ℕ → Option (List History)
move_to_end h line oldest = do
  e ← get_elem? h line
  h ← set_prev h e.next e.prev
  e ← get_elem? h line
  h ← set_next h e.prev e.next
  o ← get_elem? h oldest
  h ← set_prev h line o.prev
  h ← set_prev h oldest line
  h ← set_next h line oldest
  e ← get_elem? h line
  set_next h e.prev line

unfoldable pub mark_used : ReplacementPolicy → CacheSet → ℕ → Option CacheSet
mark_used nmru s line = some (record s { recently_used = line })
mark_used trulru s line =
    if s.recently_used == line
    then (get_elem? s.history_used line >>= λ e. some (record s { recently_used = e.next }))
    else (move_to_end s.history_used line s.recently_used >>= λ h.
        some (record s { history_used = h }))
mark_used _ s line = some s

-- The loop of Search, from the line `i` on, and the lines that are left.
unfoldable pub search_from : ℕ → ℕ → ℕ → List ℕ → Option (Option ℕ)
search_from store i zero xs = some none
search_from store i (suc left) [] = none
search_from store i (suc left) (x ∷ xs) =
    let rest = search_from store (suc i) left xs in if x == store then some (some i) else rest

unfoldable pub search : ℕ → CacheSet → ℕ → Option (Option ℕ)
unfolding search_from
search assoc s store = search_from store 0 assoc s.contents

unfoldable pub replace : ReplacementPolicy → CacheSet → ℕ → ℕ → Option (ℕ × CacheSet)
replace pol s store line = do
  prev ← get_elem? s.contents line
  s' ← mark_used pol (record s { contents = set s.contents line store }) line
  some (prev, s')

-- What Process does to the set of the address: whether it is a hit, and the set after it.
unfoldable pub access : ReplacementPolicy → ℕ → ℕ → CacheSet → ℕ → Option (Bool × CacheSet)
access pol assoc rand s store = search assoc s store >>= λ found. elim found [
  | some line ↦ mark_used pol s line >>= λ s'. some (true, s')
  | none ↦ line_to_replace pol assoc rand s >>= λ line.
      replace pol s store line >>= λ r. some (false, r.1)
]
