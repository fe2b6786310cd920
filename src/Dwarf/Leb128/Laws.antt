-- ===== src/Dwarf/Leb128/Laws.antt =====
-- LEB128 numbers are read back.
use Prim.Native.Nat.{bit_or, bit_or-bitwise, digits}
use Prim.Native.Nat.{max}
use native.Mathlib.Nat.{pow-suc, pow-zero, pow-le-pow_right, add-mul, mul_assoc, mul-le-mul_right}
use pebil.Common.{
  ℕ, zero, suc, ◌+◌, ◌-◌, ◌*◌, ◌/◌, ◌%◌, ◌^◌, ◌≤◌, ◌<◌, ◌≡◌, refl, ap, ◌∙◌, sym, true, false,
  Option, some, List, [], ◌∷◌, ◌++◌, arith, ltb, leb, ◌&&◌, tabulate, tabulate_ext, lt→ltb,
}
use pebil.Dwarf.Leb128.{Groups, shift_int, get_groups, get_leb128_unsigned, get_leb128_signed}

pub pow_pos : (k : ℕ) → 0 < 2 ^ k
pow_pos zero = omega (arith, pow-zero 2)
pow_pos (suc k) = omega (arith, pow-suc 2 k, pow_pos k)

max_zero : (n : ℕ) → max n 0 ≡ n
max_zero n = omega arith

-- The bits of `a` and those of a multiple of a greater power of two do not meet.
digits_disjoint :
    (s n a d : ℕ) → a ≤ n → a < 2 ^ s → digits (λ b. b) max n a (d * 2 ^ s) ≡ a + d * 2 ^ s
digits_disjoint s zero zero d h k = omega arith
digits_disjoint s zero (suc a) d h k = absurd (omega arith)
digits_disjoint s (suc n) zero d h k = omega arith
digits_disjoint zero (suc n) (suc a) d h k = absurd (omega (arith, pow-zero 2))
digits_disjoint (suc s) (suc n) (suc a) d h k =
    let twice : d * 2 ^ suc s ≡ d * 2 ^ s * 2 =
      ap (λ m. d * m) (pow-suc 2 s) ∙ sym (mul_assoc d (2 ^ s) 2) in
    let half : d * 2 ^ suc s / 2 ≡ d * 2 ^ s = omega (arith, twice) in
    let low : d * 2 ^ suc s % 2 ≡ 0 = omega (arith, twice) in
    let rest = digits_disjoint s n (suc a / 2) d (omega arith) (omega (arith, pow-suc 2 s)) in
    rw (half, low, rest, max_zero (suc a % 2)) (omega (arith, twice))

pub or_disjoint : (s a d : ℕ) → a < 2 ^ s → bit_or a (d * 2 ^ s) ≡ a + d * 2 ^ s
or_disjoint s a d h = bit_or-bitwise a (d * 2 ^ s) ∙ digits_disjoint s a a d (omega arith) h

-- `n` in groups of seven bits, `k` of them with the bit that says that more follow.
unfoldable pub leb_bytes : ℕ → ℕ → List ℕ
leb_bytes zero n = (n % 128) ∷ []
leb_bytes (suc k) n = (n % 128 + 128) ∷ leb_bytes k (n / 128)

-- The byte of the last group.
unfoldable pub last_byte : ℕ → ℕ → ℕ
last_byte zero n = n % 128
last_byte (suc k) n = last_byte k (n / 128)

pow_seven : (s : ℕ) → s < 29 → 2 ^ (s + 7) ≡ 128 * 2 ^ s
unfolding tabulate
pow_seven = tabulate_ext 29 (λ s. 2 ^ (s + 7)) (λ s. 128 * 2 ^ s) refl

-- A group and those above it.
split_groups : (n s : ℕ) → s < 29 → n % 128 * 2 ^ s + n / 128 * 2 ^ (s + 7) ≡ n * 2 ^ s
split_groups n s h =
    let above : n / 128 * 2 ^ (s + 7) ≡ n / 128 * 128 * 2 ^ s =
      ap (λ m. n / 128 * m) (pow_seven s h) ∙ sym (mul_assoc (n / 128) 128 (2 ^ s)) in
    let parts : n / 128 * 128 + n % 128 ≡ n = omega arith in
    omega (arith, above, add-mul (n / 128 * 128) (n % 128) (2 ^ s), ap (λ m. m * 2 ^ s) parts)

module _ (d ret shift len : ℕ) (ptr : List ℕ) (h : shift ≤ 28) (group : d < 128)
    (low : ret < 2 ^ shift) (no_overflow : d * 2 ^ shift < 2 ^ 31) where
  shifts : shift_int d shift ≡ some (d * 2 ^ shift)
  unfolding shift_int
  shifts = rw (lt→ltb shift 32 (omega arith), lt→ltb (d * 2 ^ shift) (2 ^ 31) no_overflow) refl

  one_more :
      get_groups ((d + 128) ∷ ptr) ret shift len
      ≡ get_groups ptr (ret + d * 2 ^ shift) (shift + 7) (len + 1)
  unfolding get_groups
  one_more =
      let seven : (d + 128) % 128 ≡ d = omega arith in
      let flag : leb 128 (d + 128) ≡ true = ground arith in
      rw (seven, shifts, or_disjoint shift ret d low, flag) refl

  the_last :
      get_groups (d ∷ ptr) ret shift len
      ≡ some (record { bits = ret + d * 2 ^ shift; shift = shift + 7; last = d; len = len + 1 })
  unfolding get_groups
  the_last =
      let seven : d % 128 ≡ d = omega arith in
      let flag : leb 128 d ≡ false = ground arith in
      rw (seven, shifts, or_disjoint shift ret d low, flag) refl

groups_ext :
    {b c l m : ℕ} {s t last : ℕ}
    → b ≡ c
    → s ≡ t
    → l ≡ m
    → ◌≡◌ {A = Option Groups}
        (some (record { bits = b; shift = s; last = last; len = l }))
        (some (record { bits = c; shift = t; last = last; len = m }))
groups_ext e f g = rw (e, f, g) refl

get_groups-leb_bytes :
    (k n ret shift len : ℕ) (rest : List ℕ)
    → shift + 7 * k ≤ 28
    → n < 128 ^ suc k
    → ret < 2 ^ shift
    → n * 2 ^ shift < 2 ^ 31
    → get_groups (leb_bytes k n ++ rest) ret shift len
      ≡ some (record {
        bits = ret + n * 2 ^ shift;
        shift = shift + 7 * k + 7;
        last = last_byte k n;
        len = len + k + 1;
      })
unfolding leb_bytes last_byte
get_groups-leb_bytes zero n ret shift len rest h small low no_overflow =
    let same : n % 128 ≡ n = omega arith in
    rw same (
      the_last n ret shift len rest (omega arith) (omega arith) low no_overflow
      ∙ groups_ext refl (omega arith) (omega arith))
get_groups-leb_bytes (suc k) n ret shift len rest h small low no_overflow =
    let parts = split_groups n shift (omega arith) in
    let seven : n % 128 ≤ 127 = omega arith in
    let group : n % 128 * 2 ^ shift ≤ 127 * 2 ^ shift = mul-le-mul_right (2 ^ shift) seven in
    one_more (n % 128) ret shift len (leb_bytes k (n / 128) ++ rest) (omega arith) (omega arith) low
      (omega (arith, parts))
    ∙ get_groups-leb_bytes k (n / 128) (ret + n % 128 * 2 ^ shift) (shift + 7) (len + 1) rest
        (omega arith) (omega (arith, pow-suc 128 (suc k)))
        (omega (arith, pow_seven shift (omega arith), group)) (omega (arith, parts))
    ∙ groups_ext (omega (arith, parts)) (omega arith) (omega arith)

-- The group's highest bit is the sign.
last_byte-low : (k n : ℕ) → n < 64 * 128 ^ k → last_byte k n < 64
unfolding last_byte
last_byte-low zero n h = omega (arith, pow-zero 128)
last_byte-low (suc k) n h = last_byte-low k (n / 128) (omega (arith, pow-suc 128 k))

last_byte-high :
    (k n : ℕ) → 64 * 128 ^ k ≤ n → n < 128 ^ suc k → (64 ≤ last_byte k n) × (last_byte k n < 128)
unfolding last_byte
last_byte-high zero n h l = omega (arith, pow-zero 128)
last_byte-high (suc k) n h l =
    last_byte-high k (n / 128) (omega (arith, pow-suc 128 k)) (omega (arith, pow-suc 128 (suc k)))

module _ (k n : ℕ) (rest : List ℕ) (few : k ≤ 4) (no_overflow : n < 2 ^ 31) where
  groups :
      n < 128 ^ suc k
      → get_groups (leb_bytes k n ++ rest) 0 0 0
        ≡ some (record { bits = n; shift = 7 * k + 7; last = last_byte k n; len = k + 1 })
  groups small =
      get_groups-leb_bytes k n 0 0 0 rest (omega arith) small (omega arith) (omega arith)
      ∙ groups_ext (omega arith) (omega arith) (omega arith)

  -- A number below 2 ^ 31 in one to five groups, padded or not, is read back, with its length.
  pub get_leb128_unsigned-leb_bytes :
      n < 128 ^ suc k → get_leb128_unsigned (leb_bytes k n ++ rest) ≡ some (n, k + 1)
  unfolding get_leb128_unsigned
  get_leb128_unsigned-leb_bytes small = rw (groups small) refl

  pub get_leb128_signed-forward :
      n < 64 * 128 ^ k → get_leb128_signed (leb_bytes k n ++ rest) ≡ some (n, k + 1)
  unfolding get_leb128_signed
  get_leb128_signed-forward small =
      let last = last_byte-low k n small in
      let same : last_byte k n % 128 ≡ last_byte k n = omega arith in
      let plus : (ltb (7 * k + 7) 32 && leb 64 (last_byte k n)) ≡ false = ground arith in
      rw (groups (omega (arith, pow-suc 128 k)), same, plus) refl

group_power : (k : ℕ) → k < 4 → 2 ^ (7 * k + 7) ≡ 128 ^ suc k
unfolding tabulate
group_power = tabulate_ext 4 (λ k. 2 ^ (7 * k + 7)) (λ k. 128 ^ suc k) refl

sign_bits :
    (k : ℕ) → k < 4 → 2 ^ 64 - 2 ^ (7 * k + 7) ≡ (2 ^ (64 - (7 * k + 7)) - 1) * 2 ^ (7 * k + 7)
unfolding tabulate
sign_bits =
    tabulate_ext 4 (λ k. 2 ^ 64 - 2 ^ (7 * k + 7))
      (λ k. (2 ^ (64 - (7 * k + 7)) - 1) * 2 ^ (7 * k + 7)) refl

pub get_leb128_signed-backward :
    (k n : ℕ) (rest : List ℕ)
    → k < 4
    → 0 < n
    → n ≤ 64 * 128 ^ k
    → get_leb128_signed (leb_bytes k (128 ^ suc k - n) ++ rest) ≡ some (2 ^ 64 - n, k + 1)
unfolding get_leb128_signed
get_leb128_signed-backward k n rest few pos small =
    let m = 128 ^ suc k - n in
    let power = group_power k few in
    let bound : 128 ^ suc k ≤ 2 ^ 28 =
      pow-le-pow_right (omega arith) {i = suc k} {j = 4} (omega arith) in
    let (lo, hi) = last_byte-high k m (omega (arith, pow-suc 128 k)) (omega arith) in
    let same : last_byte k m % 128 ≡ last_byte k m = omega arith in
    let minus : (ltb (7 * k + 7) 32 && leb 64 (last_byte k m)) ≡ true = ground arith in
    let or = or_disjoint (7 * k + 7) m (2 ^ (64 - (7 * k + 7)) - 1) (omega (arith, power)) in
    rw (groups k m rest (omega arith) (omega arith) (omega arith), same, minus, sign_bits k few, or)
      (ap (λ v. some (v, k + 1)) (omega (arith, power, sign_bits k few)))

-- In one to four groups, each number from 0 on and each negative number that the groups can hold is
-- read back, as the 64 bits of an int64_t, with its length.
pub get_leb128_signed-leb_bytes :
    (k n : ℕ) (rest : List ℕ)
    → k < 4
    → n < 64 * 128 ^ k
    → (get_leb128_signed (leb_bytes k n ++ rest) ≡ some (n, k + 1))
      × (get_leb128_signed (leb_bytes k (128 ^ suc k - (n + 1)) ++ rest)
          ≡ some (2 ^ 64 - (n + 1), k + 1))
get_leb128_signed-leb_bytes k n rest few small =
    let bound : 128 ^ k ≤ 128 ^ 3 = pow-le-pow_right (omega arith) {i = k} {j = 3} (omega arith) in
    (
      get_leb128_signed-forward k n rest (omega arith) (omega arith) small,
      get_leb128_signed-backward k (n + 1) rest few (omega arith) (omega arith),
    )
