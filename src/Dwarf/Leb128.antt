-- ===== src/Dwarf/Leb128.antt =====
-- include/CStructuresDwarf.h: `dwarf4_get_leb128_unsigned` and `dwarf4_get_leb128_signed`.
pub mod Laws
use Prim.Native.Nat.{bit_or}
use pebil.Common.{
  ℕ, zero, suc, ◌+◌, ◌-◌, ◌*◌, ◌%◌, ◌^◌, Bool, true, false, ◌&&◌, Option, none, some, List, [], ◌∷◌,
  ltb, leb, if◌then◌else◌, ensure, ◌>>=◌, ◌>>◌,
}

-- `(byte & 0x7f) << shift` on int. `none` where C++ does not define it: a shift of 32 bits or more, or
-- a result that is no int.
unfoldable pub shift_int : ℕ → ℕ → Option ℕ
shift_int low shift =
    ensure (ltb shift 32 && ltb (low * 2 ^ shift) (2 ^ 31)) >> some (low * 2 ^ shift)

-- What the two loops compute: the bits, the shift behind the last byte, that byte, and `*len`. The list
-- is the memory at `ptr`; reading behind it is `none`.
pub record Groups : Type 0 where
  pub bits : ℕ
  pub shift : ℕ
  pub last : ℕ
  pub len : ℕ

unfoldable pub get_groups : List ℕ → ℕ → ℕ → ℕ → Option Groups
unfolding shift_int
get_groups [] ret shift len = none
get_groups (byte ∷ ptr) ret shift len = do
  shifted ← shift_int (byte % 128) shift
  let ret' = bit_or ret shifted
  if leb 128 byte
      then get_groups ptr ret' (shift + 7) (len + 1)
      else some (record { bits = ret'; shift = shift + 7; last = byte; len = len + 1 })

-- The value and `*len`.
unfoldable pub get_leb128_unsigned : List ℕ → Option (ℕ × ℕ)
unfolding get_groups
get_leb128_unsigned ptr = get_groups ptr 0 0 0 >>= λ g. some (g.bits, g.len)

-- An int64_t is its 64 bits. `-(1 << shift)` sets the bits from `shift` on.
unfoldable pub get_leb128_signed : List ℕ → Option (ℕ × ℕ)
unfolding get_groups
get_leb128_signed ptr = do
  g ← get_groups ptr 0 0 0
  let ret =
      if ltb g.shift 32 && leb 64 (g.last % 128)
      then bit_or g.bits (2 ^ 64 - 2 ^ g.shift)
      else g.bits
  some (ret, g.len)
