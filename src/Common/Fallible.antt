-- ===== src/Common/Fallible.antt =====
-- Code that may abort: `none` is a failed ASSERT, a PRINT_ERROR or a fault.
use mathlib.Core.Bool.{Bool, true, false}
use mathlib.Core.Option.{Option, none, some}
use mathlib.Core.Path.{◌≡◌, refl}
use pebil.Common.Tests.{if◌then◌else◌}

infixl 5 ◌>>=◌ ◌>>◌
abbrev pub ◌>>=◌ {ℓ κ} : {A : Type ℓ} {B : Type κ} → Option A → (A → Option B) → Option B
none >>= f = none
some a >>= f = f a

abbrev pub ◌>>◌ {ℓ} : {B : Type ℓ} → Option (Unit {0}) → Option B → Option B
m >> k = m >>= λ _. k

-- ASSERT(b)
abbrev pub ensure : Bool → Option (Unit {0})
ensure true = some tt
ensure false = none

-- What holds of a result, if there is one.
pub data Allows {ℓ} {A : Type ℓ} (P : A → Type 0) : Option A → Type ℓ where
  fails : Allows P none
  gives : (a : A) → P a → Allows P (some a)

pub Allows-some {ℓ} : {A : Type ℓ} {P : A → Type 0} {a : A} → Allows P (some a) → P a
Allows-some (gives a p) = p

pub Allows-bind {ℓ κ} :
    {A : Type ℓ} {B : Type κ} {P : B → Type 0} (x : Option A) {f : A → Option B}
    → ((a : A) → Allows P (f a))
    → Allows P (x >>= f)
Allows-bind none h = fails
Allows-bind (some a) h = h a

pub Allows-mono {ℓ} :
    {A : Type ℓ} {P Q : A → Type 0} {x : Option A} → Allows P x → ((a : A) → P a → Q a) → Allows Q x
Allows-mono fails h = fails
Allows-mono (gives a p) h = gives a (h a p)

pub Allows-map {ℓ κ} :
    {A : Type ℓ} {B : Type κ} {P : A → Type 0} {Q : B → Type 0} {x : Option A} (f : A → B)
    → Allows P x
    → ((a : A) → P a → Q (f a))
    → Allows Q (x >>= λ a. some (f a))
Allows-map f fails h = fails
Allows-map f (gives a p) h = gives _ (h a p)

pub Allows-if {ℓ} :
    {A : Type ℓ} {P : A → Type 0} {x y : Option A} (b : Bool)
    → Allows P x
    → Allows P y
    → Allows P (if b then x else y)
Allows-if true h k = h
Allows-if false h k = k

-- Where the value or the test is known to be good.
pub Allows-then {ℓ κ} :
    {A : Type ℓ} {B : Type κ} {P : A → Type 0} {Q : B → Type 0} {x : Option A} {f : A → Option B}
    → Allows P x
    → ((a : A) → P a → Allows Q (f a))
    → Allows Q (x >>= f)
Allows-then fails h = fails
Allows-then (gives a p) h = h a p

pub Allows-ensure {ℓ} :
    {A : Type ℓ} {P : A → Type 0} {x : Option A} (b : Bool)
    → (b ≡ true → Allows P x)
    → Allows P (ensure b >> x)
Allows-ensure true h = h refl
Allows-ensure false h = fails

-- A step that is known to succeed.
pub bind-some {ℓ κ} :
    {A : Type ℓ} {B : Type κ} {x : Option A} {a : A} {r : Option B} (f : A → Option B)
    → x ≡ some a
    → f a ≡ r
    → (x >>= f) ≡ r
bind-some f e k = rw e k
