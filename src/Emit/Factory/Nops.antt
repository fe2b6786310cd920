-- ===== src/Emit/Factory/Nops.antt =====
-- src/X86InstructionFactory.C: `emitNopSeries`, a run of nops of a total length.
use pebil.Common.{
  ℕ, zero, suc, ◌+◌, ◌-◌, ◌++◌, Option, some, none, List, [], ◌∷◌, ltb, ◌==◌, ◌>>=◌, ◌>>◌, ensure,
  true, false,
}
use pebil.Emit.Factory.Simple.{emit_nop}

-- The inner `while (len > i)`, on fuel: the series so far and the length left.
unfoldable pub nop_while : ℕ → ℕ → ℕ → List (List ℕ) → Option (ℕ × List (List ℕ))
nop_while zero i len series = none
nop_while (suc fuel) i len series = elim (ltb i len) [
  | true ↦ emit_nop (i + 1) >>= λ n. nop_while fuel i (len - (i + 1)) (series ++ n ∷ [])
  | false ↦ some (len, series)
]

-- The outer loop over i = k - 1 … 0. The fuel of an inner loop exceeds the length left.
unfoldable pub nop_for : ℕ → ℕ → List (List ℕ) → Option (ℕ × List (List ℕ))
unfolding nop_while
nop_for zero len series = some (len, series)
nop_for (suc i) len series = nop_while (suc len) i len series >>= λ r. nop_for i r.0 r.1

unfoldable pub emit_nop_series : ℕ → Option (List (List ℕ))
unfolding nop_for emit_nop
emit_nop_series len = nop_for 8 len [] >>= λ r. ensure (r.0 == 0) >> some r.1
