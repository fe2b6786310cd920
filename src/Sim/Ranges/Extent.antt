-- ===== src/Sim/Ranges/Extent.antt =====
-- instcode/Simulation.cpp, `RangeStats`: the ranges after a buffer of accesses.
use pebil.Common.{
  ℕ, suc, zero, ◌+◌, ◌%◌, ◌^◌, ◌<◌, ◌≤◌, ◌≡◌, refl, sym, ap, subst, ◌∙◌, some, List, [], ◌∷◌,
  length, set, ◌==◌, if◌then◌else◌, ltb, ◌⊎◌, get_elem?, get_or, get_elem?-get_or, get_or-set,
  length-set, arith, Bool, Bool-cases, inl, inr, true, false, lt→ltb, replicate,
}
use pebil.Sim.Ranges.{
  AddressRange, RangeStats, max_64bit_value, new_ranges, widen, update, get_minimum, get_maximum,
  process_ranges,
}

-- The addresses of an instruction in a buffer.
pub addresses_of : ℕ → List (ℕ × ℕ) → List ℕ
addresses_of m [] = []
addresses_of m ((memseq, address) ∷ rest) =
    let later = addresses_of m rest in if memseq == m then address ∷ later else later

pub data OneOf (x : ℕ) : List ℕ → Type 0 where
  here : {xs : List ℕ} → OneOf x (x ∷ xs)
  there : {y : ℕ} {xs : List ℕ} → OneOf x xs → OneOf x (y ∷ xs)

-- The instructions are known and the addresses are those of a 64-bit machine.
pub data Known (capacity : ℕ) : List (ℕ × ℕ) → Type 0 where
  known_none : Known capacity []
  known_more :
      (memseq address : ℕ) (rest : List (ℕ × ℕ))
      → memseq < capacity
      → address ≤ max_64bit_value
      → Known capacity rest
      → Known capacity ((memseq, address) ∷ rest)

abbrev pub empty_range : AddressRange
empty_range = record { minimum = max_64bit_value; maximum = 0 }

abbrev range_at : RangeStats → ℕ → AddressRange
range_at s m = get_or s.ranges m empty_range

pub record Sized (capacity : ℕ) (s : RangeStats) : Type 0 where
  pub capacity_lem : s.capacity ≡ capacity
  pub ranges : length s.ranges ≡ capacity
  pub counts : length s.counts ≡ capacity

module _ {capacity : ℕ} (few : capacity < 2 ^ 32) where
  update-Sized :
      (s : RangeStats) (memseq address : ℕ)
      → memseq < capacity
      → Sized capacity s
      → (s' : RangeStats) × (update s (memseq % 2 ^ 32) address 1 ≡ some s')
        × Sized capacity s'
        × ((m : ℕ)
            → range_at s' m
              ≡ (if memseq == m then widen (range_at s memseq) address else range_at s m))
        × ((m : ℕ)
            → get_or s'.counts m 0 ≡ (
                if memseq == m
                then (get_or s.counts memseq 0 + 1) % 2 ^ 64
                else get_or s.counts m 0))
  unfolding update
  update-Sized s memseq address h z =
      let same : memseq % 2 ^ 32 ≡ memseq = omega arith in
      (
        record s {
          ranges = set s.ranges memseq (widen (range_at s memseq) address);
          counts = set s.counts memseq ((get_or s.counts memseq 0 + 1) % 2 ^ 64);
        },
        rw same (
            rw (get_elem?-get_or s.ranges memseq empty_range (omega (arith, z.ranges)))
              (rw (get_elem?-get_or s.counts memseq 0 (omega (arith, z.counts))) refl)),
        record {
          capacity_lem = z.capacity_lem;
          ranges = length-set s.ranges memseq _ ∙ z.ranges;
          counts = length-set s.counts memseq _ ∙ z.counts;
        },
        λ m. get_or-set s.ranges memseq m _ empty_range (omega (arith, z.ranges)),
        λ m. get_or-set s.counts memseq m _ 0 (omega (arith, z.counts)),
      )

widen_all : AddressRange → List ℕ → AddressRange
widen_all r [] = r
widen_all r (x ∷ xs) = widen_all (widen r x) xs

module _ {capacity : ℕ} (few : capacity < 2 ^ 32) where
  -- Each instruction's range is that of its own addresses.
  process_ranges-widen_all :
      (accesses : List (ℕ × ℕ)) (s : RangeStats)
      → Known capacity accesses
      → Sized capacity s
      → (s' : RangeStats) × (process_ranges s accesses ≡ some s')
        × Sized capacity s'
        × ((m : ℕ) → range_at s' m ≡ widen_all (range_at s m) (addresses_of m accesses))
        × ((m : ℕ)
            → get_or s'.counts m 0 % 2 ^ 64
              ≡ (get_or s.counts m 0 + length (addresses_of m accesses)) % 2 ^ 64)
  unfolding process_ranges widen_all addresses_of
  process_ranges-widen_all [] s known z = (s, refl, z, λ m. refl, λ m. omega arith)
  process_ranges-widen_all ((memseq, address) ∷ rest) s (known_more _ _ _ h _ known) z =
      let (s₁, did, z₁, ranges₁, counts₁) = update-Sized few s memseq address h z in
      let (s₂, later, z₂, ranges₂, counts₂) = process_ranges-widen_all rest s₁ known z₁ in
      (
        s₂,
        rw did later,
        z₂,
        λ m. range_of m s₁ s₂ (ranges₁ m) (ranges₂ m),
        λ m. count_of m s₁ s₂ (counts₁ m) (counts₂ m),
      )
    where
      range_of :
          (m : ℕ) (s₁ s₂ : RangeStats)
          → range_at s₁ m
            ≡ (if memseq == m then widen (range_at s memseq) address else range_at s m)
          → range_at s₂ m ≡ widen_all (range_at s₁ m) (addresses_of m rest)
          → range_at s₂ m
            ≡ widen_all
                (range_at s m)
                (if memseq == m then address ∷ addresses_of m rest else addresses_of m rest)
      range_of m s₁ s₂ e f = elim (Bool-cases (memseq == m)) [
        | inl t ↦
            let same : memseq ≡ m = ground arith in
            let one : range_at s₁ m ≡ widen (range_at s m) address =
              e ∙ rw t (ap (λ k. widen (range_at s k) address) same) in
            f ∙ ap (λ r. widen_all r (addresses_of m rest)) one ∙ rw t refl
        | inr t ↦
            let kept : range_at s₁ m ≡ range_at s m = e ∙ rw t refl in
            f ∙ ap (λ r. widen_all r (addresses_of m rest)) kept ∙ rw t refl
      ]

      count_of :
          (m : ℕ) (s₁ s₂ : RangeStats)
          → get_or s₁.counts m 0
            ≡ (if memseq == m then (get_or s.counts memseq 0 + 1) % 2 ^ 64 else get_or s.counts m 0)
          → get_or s₂.counts m 0 % 2 ^ 64
            ≡ (get_or s₁.counts m 0 + length (addresses_of m rest)) % 2 ^ 64
          → get_or s₂.counts m 0 % 2 ^ 64
            ≡ (get_or s.counts m 0
                + length
                    (if memseq == m then address ∷ addresses_of m rest else addresses_of m rest))
              % 2 ^ 64
      count_of m s₁ s₂ e f = elim (Bool-cases (memseq == m)) [
        | inl t ↦
            let same : get_or s.counts memseq 0 ≡ get_or s.counts m 0 =
              ap (λ k. get_or s.counts k 0) (ground arith) in
            let one : get_or s₁.counts m 0 ≡ (get_or s.counts memseq 0 + 1) % 2 ^ 64 =
              e ∙ rw t refl in
            f ∙ rw t (omega (arith, one, same))
        | inr t ↦
            let kept : get_or s₁.counts m 0 ≡ get_or s.counts m 0 = e ∙ rw t refl in
            f ∙ rw t (omega (arith, kept))
      ]

-- What the least and the greatest say of the addresses.
pub data Extent (xs : List ℕ) (low high : ℕ) : Type 0 where
  idle : xs ≡ [] → low ≡ max_64bit_value → high ≡ 0 → Extent xs low high
  reaches :
      OneOf low xs
      → OneOf high xs
      → ((x : ℕ) → OneOf x xs → (low ≤ x) × (x ≤ high))
      → Extent xs low high

module _ (r : AddressRange) (x : ℕ) where
  widen-minimum : (widen r x).minimum ≡ (if ltb x r.minimum then x else r.minimum)
  unfolding widen
  widen-minimum = ground arith

  widen-maximum : (widen r x).maximum ≡ (if ltb r.maximum x then x else r.maximum)
  unfolding widen
  widen-maximum = ground arith

  low_of : ((widen r x).minimum ≡ r.minimum) ⊎ ((widen r x).minimum ≡ x)
  low_of = elim (Bool-cases (ltb x r.minimum)) [
    | inl t ↦ inr (widen-minimum ∙ rw t refl)
    | inr t ↦ inl (widen-minimum ∙ rw t refl)
  ]

  high_of : ((widen r x).maximum ≡ r.maximum) ⊎ ((widen r x).maximum ≡ x)
  high_of = elim (Bool-cases (ltb r.maximum x)) [
    | inl t ↦ inr (widen-maximum ∙ rw t refl)
    | inr t ↦ inl (widen-maximum ∙ rw t refl)
  ]

-- The start is inside, and the ends are the start's or addresses.
record Covers (r : AddressRange) (xs : List ℕ) (w : AddressRange) : Type 0 where
  low_le : w.minimum ≤ r.minimum
  high_le : r.maximum ≤ w.maximum
  each : (x : ℕ) → OneOf x xs → (w.minimum ≤ x) × (x ≤ w.maximum)
  low_in : (w.minimum ≡ r.minimum) ⊎ OneOf w.minimum xs
  high_in : (w.maximum ≡ r.maximum) ⊎ OneOf w.maximum xs

first_or_later :
    {y x : ℕ} {xs : List ℕ} (P : ℕ → Type 0)
    → P x
    → ((z : ℕ) → OneOf z xs → P z)
    → OneOf y (x ∷ xs)
    → P y
first_or_later P h k here = h
first_or_later P h k (there o) = k _ o

later_in :
    (v start x : ℕ) (xs : List ℕ) {next : ℕ}
    → (next ≡ start) ⊎ (next ≡ x)
    → (v ≡ next) ⊎ OneOf v xs
    → (v ≡ start) ⊎ OneOf v (x ∷ xs)
later_in v start x xs n (inr o) = inr (there o)
later_in v start x xs (inl e) (inl f) = inl (f ∙ e)
later_in v start x xs (inr e) (inl f) = inr (subst (λ k. OneOf k (x ∷ xs)) (sym (f ∙ e)) here)

widen_all-Covers : (xs : List ℕ) (r : AddressRange) → Covers r xs (widen_all r xs)
unfolding widen_all
widen_all-Covers [] r = record {
  low_le = omega arith;
  high_le = omega arith;
  each = λ x o. elim o [ ];
  low_in = inl refl;
  high_in = inl refl;
}
widen_all-Covers (x ∷ xs) r =
    let c = widen_all-Covers xs (widen r x) in
    let w : AddressRange = widen_all (widen r x) xs in
    record {
      low_le = ground (arith, c.low_le, widen-minimum r x);
      high_le = ground (arith, c.high_le, widen-maximum r x);
      each = λ y o.
          first_or_later (λ z. (w.minimum ≤ z) × (z ≤ w.maximum))
            (
              ground (arith, c.low_le, widen-minimum r x),
              ground (arith, c.high_le, widen-maximum r x),
            )
            c.each o;
      low_in = later_in w.minimum r.minimum x xs (low_of r x) c.low_in;
      high_in = later_in w.maximum r.maximum x xs (high_of r x) c.high_in;
    }

unstarted : {v d : ℕ} → (v ≡ d) ⊎ OneOf v [] → v ≡ d
unstarted (inl e) = e
unstarted (inr o) = elim o [ ]

-- The end that the start would have is an address all the same, where there is one.
started :
    {v d x : ℕ} {xs : List ℕ} → (v ≡ d) ⊎ OneOf v (x ∷ xs) → (v ≡ d → x ≡ v) → OneOf v (x ∷ xs)
started {x} {xs} (inl e) h = subst (λ k. OneOf k (x ∷ xs)) (h e) here
started (inr o) h = o

-- Where it starts empty.
Covers-Extent :
    (xs : List ℕ) (w : AddressRange)
    → ((x : ℕ) → OneOf x xs → x ≤ max_64bit_value)
    → Covers empty_range xs w
    → Extent xs w.minimum w.maximum
Covers-Extent [] w small c = idle refl (unstarted c.low_in) (unstarted c.high_in)
Covers-Extent (x ∷ xs) w small c =
    reaches (started c.low_in (λ e. omega (arith, small x here, (c.each x here).0)))
      (started c.high_in (λ e. omega (arith, (c.each x here).1))) c.each

addresses_small :
    {capacity : ℕ} (m : ℕ) (accesses : List (ℕ × ℕ))
    → Known capacity accesses
    → (x : ℕ) → OneOf x (addresses_of m accesses)
    → x ≤ max_64bit_value
unfolding addresses_of
addresses_small m [] known = λ x o. elim o [ ]
addresses_small m ((memseq, address) ∷ rest) (known_more _ _ _ _ small known) =
    in_either (memseq == m) (addresses_small m rest known)
  where
    in_either :
        (b : Bool)
        → ((x : ℕ) → OneOf x (addresses_of m rest) → x ≤ max_64bit_value)
        → (x : ℕ) → OneOf x (if b then address ∷ addresses_of m rest else addresses_of m rest)
        → x ≤ max_64bit_value
    in_either true later x o = first_or_later (λ z. z ≤ max_64bit_value) small later o
    in_either false later x o = later x o

get_or-repeat {ℓ} : {A : Type ℓ} (n i : ℕ) (a : A) → get_or (replicate n a) i a ≡ a
get_or-repeat zero i a = refl
get_or-repeat (suc n) zero a = refl
get_or-repeat (suc n) (suc i) a = get_or-repeat n i a

length-repeat {ℓ} : {A : Type ℓ} (n : ℕ) (a : A) → length (replicate n a) ≡ n
length-repeat zero a = refl
length-repeat (suc n) a = ap suc (length-repeat n a)

-- What the counters say of one instruction.
abbrev pub Reports : RangeStats → ℕ → List ℕ → Type 0
Reports s m xs =
    (low high count : ℕ) × (get_minimum s m ≡ some low)
    × (get_maximum s m ≡ some high)
    × (get_elem? s.counts m ≡ some count)
    × Extent xs low high
    × (count % 2 ^ 64 ≡ length xs % 2 ^ 64)

reported :
    {capacity : ℕ} (s : RangeStats) (m : ℕ) (xs : List ℕ)
    → m < capacity
    → Sized capacity s
    → Extent xs (range_at s m).minimum (range_at s m).maximum
    → get_or s.counts m 0 % 2 ^ 64 ≡ length xs % 2 ^ 64
    → Reports s m xs
unfolding get_minimum get_maximum
reported s m xs h z extent count =
    let known : ltb m s.capacity ≡ true = lt→ltb m s.capacity (omega (arith, z.capacity_lem)) in
    let range : get_elem? s.ranges m ≡ some (range_at s m) =
      get_elem?-get_or s.ranges m empty_range (omega (arith, z.ranges)) in
    (
      (range_at s m).minimum,
      (range_at s m).maximum,
      get_or s.counts m 0,
      rw known (rw range refl),
      rw known (rw range refl),
      get_elem?-get_or s.counts m 0 (omega (arith, z.counts)),
      extent,
      count,
    )

-- For a buffer of known instructions and 64-bit addresses: it is processed, and then GetMinimum and
-- GetMaximum give, for each known instruction, addresses of its own between which all of its own
-- addresses are, or the empty range if it has none; its count is the number of its accesses.
pub process_ranges-Extent :
    (capacity : ℕ) (accesses : List (ℕ × ℕ))
    → capacity < 2 ^ 32
    → Known capacity accesses
    → (s : RangeStats) × (process_ranges (new_ranges capacity) accesses ≡ some s)
      × ((m : ℕ) → m < capacity → Reports s m (addresses_of m accesses))
unfolding new_ranges
process_ranges-Extent capacity accesses few known =
    let start : RangeStats = new_ranges capacity in
    let sized : Sized capacity start = record {
      capacity_lem = refl;
      ranges = length-repeat capacity empty_range;
      counts = length-repeat capacity 0;
    } in
    let (s, did, z, ranges, counts) = process_ranges-widen_all few accesses start known sized in
    (
      s,
      did,
      λ m h.
          let range : range_at s m ≡ widen_all empty_range (addresses_of m accesses) =
            ranges m
            ∙ ap (λ r. widen_all r (addresses_of m accesses))
                (get_or-repeat capacity m empty_range) in
          reported s m (addresses_of m accesses) h z
            (subst (λ r. Extent (addresses_of m accesses) r.minimum r.maximum) (sym range)
              (Covers-Extent (addresses_of m accesses) _ (addresses_small m accesses known)
                (widen_all-Covers (addresses_of m accesses) empty_range)))
            (counts m
              ∙ ap (λ c. (c + length (addresses_of m accesses)) % 2 ^ 64)
                  (get_or-repeat capacity m 0)
              ∙ omega arith),
    )
