-- ===== src/Sim/Level/Safe.antt =====
-- instcode/Simulation.cpp, `CacheLevel`: no access to a set leaves its arrays, for each policy.
use pebil.Common.{
  ℕ, ◌+◌, ◌%◌, ◌^◌, ◌<◌, ◌≡◌, refl, ap, ◌∙◌, Option, none, some, List, length, set, get_or,
  get_elem?-get_or, length-set, bind-some, lt→ltb, arith, Bool, true, false,
}
use native.Mathlib.Nat.{mod-lt}
use pebil.Sim.Level.{
  ReplacementPolicy, undefined, trulru, nmru, random, direct, CacheSet, mark_used, search,
  line_to_replace, replace, access,
}
use pebil.Sim.Level.Access.{access-hit, access-miss}
use pebil.Sim.Ring.Age.{Ring, used}
use pebil.Sim.Ring.Lru.{mark_used-Ring}
use pebil.Sim.Ring.Recency.{shift-zero, Finds, search_from-Finds}

-- The lines of a set, and its order of use where the policy keeps one.
abbrev pub Ordered : ReplacementPolicy → ℕ → CacheSet → Type 0
Ordered undefined n s = ⊥
Ordered trulru n s = (age : ℕ → ℕ) × Ring n s.history_used s.recently_used age
Ordered nmru n s = Unit
Ordered random n s = Unit
Ordered direct n s = Unit

pub record SetOk (pol : ReplacementPolicy) (n : ℕ) (s : CacheSet) : Type 0 where
  pub some_line : 0 < n
  pub lines : length s.contents ≡ n
  pub ordered : Ordered pol n s

Ordered-contents :
    (pol : ReplacementPolicy) (n : ℕ) (s : CacheSet) (xs : List ℕ)
    → Ordered pol n s
    → Ordered pol n (record s { contents = xs })
Ordered-contents undefined n s xs o = o
Ordered-contents trulru n s xs o = o
Ordered-contents nmru n s xs o = o
Ordered-contents random n s xs o = o
Ordered-contents direct n s xs o = o

pub mark_used-SetOk :
    (pol : ReplacementPolicy) (n : ℕ) (s : CacheSet) (line : ℕ)
    → line < n
    → SetOk pol n s
    → (s' : CacheSet) × (mark_used pol s line ≡ some s')
      × SetOk pol n s'
      × (s'.contents ≡ s.contents)
unfolding mark_used
mark_used-SetOk undefined n s line h ok = absurd ok.ordered
mark_used-SetOk trulru n s line h ok =
    let (age, ring) = ok.ordered in
    let (s', marks) = mark_used-Ring n age s line h ring in
    (
      s',
      marks.0,
      record {
        some_line = ok.some_line;
        lines = ap length marks.1 ∙ ok.lines;
        ordered = (used n age line, marks.2);
      },
      marks.1,
    )
mark_used-SetOk nmru n s line h ok = (
  record s { recently_used = line },
  refl,
  record { some_line = ok.some_line; lines = ok.lines; ordered = tt },
  refl,
)
mark_used-SetOk random n s line h ok = (s, refl, ok, refl)
mark_used-SetOk direct n s line h ok = (s, refl, ok, refl)

pub line_to_replace-in :
    (pol : ReplacementPolicy) (n : ℕ) (s : CacheSet) (rand : ℕ)
    → SetOk pol n s
    → (line : ℕ) × (line_to_replace pol n rand s ≡ some line) × (line < n)
unfolding line_to_replace
line_to_replace-in undefined n s rand ok = absurd ok.ordered
line_to_replace-in trulru n s rand ok = (s.recently_used, refl, ok.ordered.1.oldest_in)
line_to_replace-in nmru n s rand ok =
    ((s.recently_used + 1) % 2 ^ 32 % n, rw (lt→ltb 0 n ok.some_line) refl, mod-lt _ ok.some_line)
line_to_replace-in random n s rand ok =
    (rand % n, rw (lt→ltb 0 n ok.some_line) refl, mod-lt _ ok.some_line)
line_to_replace-in direct n s rand ok = (0, refl, ok.some_line)

module _ (pol : ReplacementPolicy) (n : ℕ) where
  pub written-SetOk :
      (s : CacheSet) (store line : ℕ)
      → SetOk pol n s
      → SetOk pol n (record s { contents = set s.contents line store })
  written-SetOk s store line ok = record {
    some_line = ok.some_line;
    lines = length-set s.contents line store ∙ ok.lines;
    ordered = Ordered-contents pol n s _ ok.ordered;
  }

  pub replace-SetOk :
      (s : CacheSet) (store line : ℕ)
      → line < n
      → SetOk pol n s
      → (r : ℕ × CacheSet) × (replace pol s store line ≡ some r) × SetOk pol n r.1
  unfolding replace
  replace-SetOk s store line h ok =
      let (s', did, good, same) = mark_used-SetOk pol n _ line h (written-SetOk s store line ok) in
      (
        (get_or s.contents line 0, s'),
        bind-some _ (get_elem?-get_or s.contents line 0 (omega (arith, ok.lines)))
            (bind-some _ did refl),
        good,
      )

  pub search-in :
      (s : CacheSet) (store : ℕ)
      → SetOk pol n s
      → (r : Option ℕ) × (search n s store ≡ some r) × Finds store n s.contents r
  unfolding search
  search-in s store ok =
      let (r, found, finds) = search_from-Finds store 0 n s.contents (omega (arith, ok.lines)) in
      (r, found ∙ ap some (shift-zero r), finds)

  pub access-SetOk :
      (s : CacheSet) (rand store : ℕ)
      → SetOk pol n s
      → (r : Bool × CacheSet) × (access pol n rand s store ≡ some r) × SetOk pol n r.1
  access-SetOk s rand store ok =
      let (r, found, finds) = search-in s store ok in by_search r found finds
    where
      by_search :
          (r : Option ℕ)
          → search n s store ≡ some r
          → Finds store n s.contents r
          → (r : Bool × CacheSet) × (access pol n rand s store ≡ some r) × SetOk pol n r.1
      by_search (some line) found finds =
          let (s', did, good, same) = mark_used-SetOk pol n s line finds.0 ok in
          ((true, s'), access-hit pol n rand store s found did, good)
      by_search none found finds =
          let (line, chosen, inside) = line_to_replace-in pol n s rand ok in
          let (r, did, good) = replace-SetOk s store line inside ok in
          ((false, r.1), access-miss pol n rand store s found chosen did, good)
