-- ===== src/Numeric/HashCode/Laws.antt =====
-- HashCode: what was packed comes back, by field and by value.
use pebil.Common.{ℕ, ◌+◌, ◌<◌, ◌%◌, ◌/◌, ◌==◌, ◌^◌, ◌≡◌, refl, true, false, lt→ltb, arith, ◌-◌}
use pebil.Numeric.HashCode.{
  HashCode, get_value, of_value, of_section, of_function, of_block, of_instruction, is_section,
  is_function, is_block, is_instruction, is_valid, part, valid_section,
}

-- Each field within its width.
pub record Fits (h : HashCode) : Type 0 where
  pub instruction : h.instruction < 2 ^ 16
  pub block : h.block < 2 ^ 16
  pub function : h.function < 2 ^ 16
  pub section : h.section < 2 ^ 8
  pub res : h.res < 2 ^ 8

-- A code whose fields fit is recovered from its value, and the value is below 2 ^ 64.
of_value-get_value : (h : HashCode) → Fits h → (of_value (get_value h) ≡ h) × (get_value h < 2 ^ 64)
unfolding of_value get_value
of_value-get_value h fits = (rw (low, second, third, fourth, fifth) refl, omega arith)
  where
    low : get_value h % 2 ^ 16 ≡ h.instruction
    low = omega (arith, fits.instruction)

    second : get_value h / 2 ^ 16 % 2 ^ 16 ≡ h.block
    second = omega (arith, fits.instruction, fits.block)

    third : get_value h / 2 ^ 32 % 2 ^ 16 ≡ h.function
    third = omega (arith, fits.instruction, fits.block, fits.function)

    fourth : get_value h / 2 ^ 48 % 2 ^ 8 ≡ h.section
    fourth = omega (arith, fits.instruction, fits.block, fits.function, fits.section)

    fifth : get_value h / 2 ^ 56 % 2 ^ 8 ≡ h.res
    fifth = omega (arith, fits.instruction, fits.block, fits.function, fits.section, fits.res)

part_next : (n : ℕ) → n < 2 ^ 16 - 1 → part ((n + 1) % 2 ^ 16) ≡ n
unfolding part
part_next n h = ground arith

section_next : (s : ℕ) → s < 2 ^ 8 - 1 → part ((s + 1) % 2 ^ 8) ≡ s
unfolding part
section_next s h = ground arith

next_not_zero : (n : ℕ) → n < 2 ^ 16 - 1 → ((n + 1) % 2 ^ 16 == 0) ≡ false
next_not_zero n h = ground arith

section_not_zero : (s : ℕ) → s < 2 ^ 8 - 1 → ((s + 1) % 2 ^ 8 == 0) ≡ false
section_not_zero s h = ground arith

part_zero : part 0 ≡ 0
unfolding part
part_zero = refl

four :
    {a b c d e f g h : ℕ}
    → a ≡ e
    → b ≡ f
    → c ≡ g
    → d ≡ h
    → ◌≡◌ {A = ℕ × ℕ × ℕ × ℕ} (a, b, c, d) (e, f, g, h)
four p q r s = rw (p, q, r, s) refl

-- The four numbers that the getters give.
unfoldable pub getters : HashCode → ℕ × ℕ × ℕ × ℕ
getters h = (part h.section, part h.function, part h.block, part h.instruction)

-- For a section below 255 and other numbers below 65535, the four constructors make codes of their
-- four kinds, and of each the getters give the numbers back, and 0 for a number that was not given.
pub constructors :
    (s f b m : ℕ)
    → s < 2 ^ 8 - 1
    → f < 2 ^ 16 - 1
    → b < 2 ^ 16 - 1
    → m < 2 ^ 16 - 1
    → (is_section (of_section s) ≡ true)
      × (is_function (of_function s f) ≡ true)
      × (is_block (of_block s f b) ≡ true)
      × (is_instruction (of_instruction s f b m) ≡ true)
      × (getters (of_section s) ≡ (s, 0, 0, 0))
      × (getters (of_function s f) ≡ (s, f, 0, 0))
      × (getters (of_block s f b) ≡ (s, f, b, 0))
      × (getters (of_instruction s f b m) ≡ (s, f, b, m))
unfolding of_section of_function of_block of_instruction is_section is_function is_block
    is_instruction getters
constructors s f b m hs hf hb hm =
    rw
      (
        lt→ltb s (2 ^ 8) (omega arith),
        lt→ltb f (2 ^ 16 - 1) hf,
        lt→ltb b (2 ^ 16 - 1) hb,
        lt→ltb m (2 ^ 16 - 1) hm,
        section_not_zero s hs,
        next_not_zero f hf,
        next_not_zero b hb,
        next_not_zero m hm,
      )
      (
        refl,
        refl,
        refl,
        refl,
        four (section_next s hs) part_zero part_zero part_zero,
        four (section_next s hs) (part_next f hf) part_zero part_zero,
        four (section_next s hs) (part_next f hf) (part_next b hb) part_zero,
        four (section_next s hs) (part_next f hf) (part_next b hb) (part_next m hm),
      )

-- For section 255, which the constructor accepts, its code is not valid: the field has wrapped to 0.
pub last_section : (valid_section 255 ≡ true) × (is_valid (of_section 255) ≡ false)
unfolding valid_section is_valid of_section
last_section = (refl, refl)
