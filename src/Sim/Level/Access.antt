-- ===== src/Sim/Level/Access.antt =====
-- instcode/Simulation.cpp, the part of `CacheLevel::Process` that is about one set: its two ways.
use pebil.Common.{ℕ, ◌≡◌, refl, true, false, none, some}
use pebil.Sim.Level.{
  ReplacementPolicy, CacheSet, search, mark_used, line_to_replace, replace, access,
}

module _ (pol : ReplacementPolicy) (assoc rand store : ℕ) (s : CacheSet) where
  pub access-hit :
      {line : ℕ} {s' : CacheSet}
      → search assoc s store ≡ some (some line)
      → mark_used pol s line ≡ some s'
      → access pol assoc rand s store ≡ some (true, s')
  unfolding access
  access-hit found marked = rw found (rw marked refl)

  pub access-miss :
      {line : ℕ} {r : ℕ × CacheSet}
      → search assoc s store ≡ some none
      → line_to_replace pol assoc rand s ≡ some line
      → replace pol s store line ≡ some r
      → access pol assoc rand s store ≡ some (false, r.1)
  unfolding access
  access-miss found chosen replaced = rw found (rw chosen (rw replaced refl))
