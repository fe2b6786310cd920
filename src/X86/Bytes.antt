-- ===== src/X86/Bytes.antt =====
-- Little-endian values as byte lists.
use pebil.Common.{ℕ, zero, suc, ◌+◌, ◌*◌, ◌/◌, ◌%◌, ◌^◌, ◌≡◌, List, [], ◌∷◌, arith}

-- The low `n` bytes of a value.
unfoldable pub le_bytes : ℕ → ℕ → List ℕ
le_bytes zero v = []
le_bytes (suc n) v = (v % 256) ∷ le_bytes n (v / 256)

unfoldable pub le_value : List ℕ → ℕ
le_value [] = 0
le_value (b ∷ []) = b
le_value (b ∷ c ∷ bs) = b + 256 * le_value (c ∷ bs)

pub le_value-bytes_two : (v : ℕ) → le_value (le_bytes 2 v) ≡ v % 2 ^ 16
unfolding le_value le_bytes
le_value-bytes_two v = omega arith

pub le_value-bytes_four : (v : ℕ) → le_value (le_bytes 4 v) ≡ v % 2 ^ 32
unfolding le_value le_bytes
le_value-bytes_four v = omega arith

pub le_value-bytes_eight : (v : ℕ) → le_value (le_bytes 8 v) ≡ v % 2 ^ 64
unfolding le_value le_bytes
le_value-bytes_eight v = omega arith
