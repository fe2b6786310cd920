-- ===== src/Common/Table.antt =====
-- Equations over a small range of numbers, proved by computing both sides at each number. Other
-- variables may stand in the equation.
use Prim.Native.Nat.{ℕ, zero, suc, ◌<◌}
use mathlib.Core.Path.{◌≡◌, ap, sym, subst}
use mathlib.Core.Logic.{◌⊎◌, inl, inr}
use mathlib.Core.List.{List, [], ◌∷◌}
use native.Mathlib.Omega.{arith}

lt-suc-cases : (x n : ℕ) → x < suc n → (x ≡ n) ⊎ (x < n)
lt-suc-cases x n h = ground arith

module _ {ℓ} {A : Type ℓ} where
  unfoldable pub tabulate : ℕ → (ℕ → A) → List A
  tabulate zero f = []
  tabulate (suc n) f = f n ∷ tabulate n f

  head_or : A → List A → A
  head_or d [] = d
  head_or d (x ∷ xs) = x

  tail_of : List A → List A
  tail_of [] = []
  tail_of (x ∷ xs) = xs

  -- Equal tables have equal entries.
  pub tabulate_ext :
      (n : ℕ) (f g : ℕ → A) → tabulate n f ≡ tabulate n g → (x : ℕ) → x < n → f x ≡ g x
  unfolding tabulate head_or tail_of
  tabulate_ext zero f g e x h = absurd (omega arith)
  tabulate_ext (suc n) f g e x h = elim (lt-suc-cases x n h) [
    | inl same ↦ subst (λ k. f k ≡ g k) (sym same) (ap (head_or (f n)) e)
    | inr below ↦ tabulate_ext n f g (ap tail_of e) x below
  ]

module _ {ℓ} {A : Type ℓ} where
  pub tabulate_ext₂ :
      (n m : ℕ) (f g : ℕ → ℕ → A)
      → tabulate n (λ x. tabulate m (f x)) ≡ tabulate n (λ x. tabulate m (g x))
      → (x y : ℕ) → x < n
      → y < m
      → f x y ≡ g x y
  tabulate_ext₂ n m f g e x y hx hy =
      tabulate_ext m (f x) (g x)
        (tabulate_ext n (λ x. tabulate m (f x)) (λ x. tabulate m (g x)) e x hx) y hy

module _ {ℓ} {A : Type ℓ} where
  pub tabulate_ext₃ :
      (n m k : ℕ) (f g : ℕ → ℕ → ℕ → A)
      → tabulate n (λ x. tabulate m (λ y. tabulate k (f x y)))
        ≡ tabulate n (λ x. tabulate m (λ y. tabulate k (g x y)))
      → (x y z : ℕ) → x < n
      → y < m
      → z < k
      → f x y z ≡ g x y z
  tabulate_ext₃ n m k f g e x y z hx hy hz =
      tabulate_ext k (f x y) (g x y)
        (tabulate_ext₂ n m (λ x y. tabulate k (f x y)) (λ x y. tabulate k (g x y)) e x y hx hy) z hz
