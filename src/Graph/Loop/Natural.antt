-- ===== src/Graph/Loop/Natural.antt =====
-- The natural loop of a back edge: the blocks that reach its tail without passing its head.
use pebil.Common.{
  ℕ, zero, suc, ◌+◌, ◌<◌, ◌≡◌, ◌↔◌, refl, sym, ◌∙◌, subst, ◌⊎◌, inl, inr, true, false, ◌||◌, some,
  List, [], ◌∷◌, ◌==◌, length, arith, Bool-cases,
}
use pebil.Containers.BitSet.{BitSet, contains, insert, clear}
use pebil.Containers.BitSet.Laws.{
  IsValid, contains-insert, insert-contains, cardinality-insert, insert-maximum, contains-clear,
  clear-maximum, clear-IsValid, members-le,
}
use pebil.Graph.Loop.{Graph, sources, loop_body, natural_loop}
use pebil.Graph.Loop.Visit.{elem, or_true, Visited, visit_sources-Visited}

-- Both ends of the back edge, and each source of a block of the loop but its head.
pub data InLoop (g : Graph) (from to : ℕ) : ℕ → Type 0 where
  head : InLoop g from to to
  tail : InLoop g from to from
  before :
      (b p : ℕ)
      → InLoop g from to b
      → (b == to) ≡ false
      → elem p (sources g b) ≡ true
      → InLoop g from to p

-- Each source is a block of the graph.
pub record IsGraph (g : Graph) : Type 0 where
  pub inside : (b p : ℕ) → elem p (sources g b) ≡ true → p < length g

module _ (g : Graph) (from to : ℕ) where
  record Inv (s : BitSet) (stack : List ℕ) : Type 0 where
    valid : IsValid s
    maximum : s.maximum ≡ length g
    sound : (v : ℕ) → contains s v ≡ true → InLoop g from to v
    stacked : (v : ℕ) → elem v stack ≡ true → (contains s v ≡ true) × ((v == to) ≡ false)
    closed :
        (b : ℕ)
        → contains s b ≡ true
        → (b == to) ≡ false
        → (elem b stack ≡ true) ⊎ ((p : ℕ) → elem p (sources g b) ≡ true → contains s p ≡ true)
    has_to : contains s to ≡ true
    has_from : contains s from ≡ true

  module _ (s : BitSet) (top : ℕ) (stack : List ℕ) (inv : Inv s (top ∷ stack)) {t : BitSet}
      {left : List ℕ} (r : Visited (sources g top) s stack t left) where
    stays : (v : ℕ) → contains s v ≡ true → contains t v ≡ true
    stays v h = r.has v ∙ (rw h (or_true (elem v (sources g top))))

    comes : (v : ℕ) → elem v (sources g top) ≡ true → contains t v ≡ true
    comes v h = r.has v ∙ (rw h refl)

    top_is : (contains s top ≡ true) × ((top == to) ≡ false)
    unfolding elem
    top_is = inv.stacked top (let self : (top == top) ≡ true = ground arith in rw self refl)

    is_sound : (v : ℕ) → contains t v ≡ true → InLoop g from to v
    is_sound v h = elim (Bool-cases (elem v (sources g top))) [
      | inl source ↦ before top v (inv.sound top top_is.0) top_is.1 source
      | inr no_source ↦ let e = sym (r.has v) ∙ h in let old = rw no_source at e in inv.sound v old
    ]

    is_stacked : (v : ℕ) → elem v left ≡ true → (contains t v ≡ true) × ((v == to) ≡ false)
    unfolding elem
    is_stacked v h = elim (r.pushed v h) [
      | inl old ↦
          let (there, not_to) = inv.stacked v (rw old (or_true (top == v))) in
          (stays v there, not_to)
      | inr (new, source) ↦ (
        comes v source,
        (elim (Bool-cases (v == to)) [
          | inl same ↦
              let is_to : contains s v ≡ true =
                subst (λ k. contains s k ≡ true) (let e : to ≡ v = ground arith in e) inv.has_to in
              absurd cc
          | inr other ↦ other
        ]),
      )
    ]

    is_closed :
        (b : ℕ)
        → contains t b ≡ true
        → (b == to) ≡ false
        → (elem b left ≡ true) ⊎ ((p : ℕ) → elem p (sources g b) ≡ true → contains t p ≡ true)
    unfolding elem
    is_closed b h ne = elim (Bool-cases (contains s b)) [
      | inl there ↦ elim (inv.closed b there ne) [
        | inl waits ↦ elim (Bool-cases (top == b)) [
          | inl same ↦ inr (λ p source. comes p (
              subst (λ k. elem p (sources g k) ≡ true) (let e : b ≡ top = ground arith in e)
                source))
          | inr other ↦ inl (r.kept b (let w = rw other at waits in w))
        ]
        | inr covers ↦ inr (λ p source. stays p (covers p source))
      ]
      | inr new ↦
          let e = sym (r.has b) ∙ h in
          inl (
            r.waits b new (elim (Bool-cases (elem b (sources g top))) [
              | inl source ↦ source
              | inr no_source ↦ let e' = rw (no_source, new) at e in absurd cc
            ]))
    ]

    Inv-step : Inv t left
    Inv-step = record {
      valid = r.valid;
      maximum = r.maximum ∙ inv.maximum;
      sound = is_sound;
      stacked = is_stacked;
      closed = is_closed;
      has_to = stays to inv.has_to;
      has_from = stays from inv.has_from;
    }

  loop_body-Inv :
      (fuel : ℕ) (s : BitSet) (stack : List ℕ)
      → IsGraph g
      → Inv s stack
      → length stack + length g < fuel + s.cardinality
      → (t : BitSet) × (loop_body fuel g stack s ≡ some t) × Inv t []
  unfolding loop_body
  loop_body-Inv fuel s [] ok inv enough = (s, refl, inv)
  loop_body-Inv zero s (top ∷ stack) ok inv enough =
      absurd (omega (arith, inv.valid.counted, inv.maximum, members-le (contains s) s.maximum))
  loop_body-Inv (suc fuel) s (top ∷ stack) ok inv enough =
      let r =
        visit_sources-Visited (sources g top) s stack inv.valid
          (λ v h. omega (arith, ok.inside top v h, inv.maximum)) in
      loop_body-Inv fuel _ _ ok (Inv-step s top stack inv r) (omega (arith, r.balance))

  -- Where nothing waits any more, all of the loop is in the set.
  complete : (t : BitSet) → Inv t [] → (v : ℕ) → InLoop g from to v → contains t v ≡ true
  unfolding elem
  complete t inv v head = inv.has_to
  complete t inv v tail = inv.has_from
  complete t inv v (before b p l ne source) = elim (inv.closed b (complete t inv b l) ne) [
    | inl waits ↦ absurd cc
    | inr covers ↦ covers p source
  ]

module _ (g : Graph) (set : BitSet) (from to : ℕ) (width : set.maximum ≡ length g)
    (from_in : from < length g) (to_in : to < length g) where
  abbrev first : BitSet
  first = insert to (clear set)

  room : to < (clear set).maximum
  room = omega (arith, clear-maximum set)

  first-IsValid : IsValid first
  first-IsValid = (insert-contains to (clear set) (clear-IsValid set)).0

  contains-first : (v : ℕ) → contains first v ≡ ((to == v) || contains (clear set) v)
  contains-first = contains-insert to (clear set) (clear-IsValid set) room

  first_only : (v : ℕ) → contains first v ≡ true → v ≡ to
  first_only v h =
      let e = sym (contains-first v) ∙ h in let e' = rw (contains-clear set v) at e in ground arith

  first_to : contains first to ≡ true
  first_to = let self : (to == to) ≡ true = ground arith in contains-first to ∙ (rw self refl)

  first-maximum : first.maximum ≡ length g
  first-maximum = insert-maximum to (clear set) ∙ clear-maximum set ∙ width

  -- An edge from a block to itself.
  Inv-self : contains first from ≡ true → Inv g from to first []
  unfolding elem
  Inv-self same = record {
    valid = first-IsValid;
    maximum = first-maximum;
    sound = λ v h. subst (InLoop g from to) (sym (first_only v h)) head;
    stacked = λ v h. absurd cc;
    closed = λ b h ne. let e = first_only b h in absurd (ground arith);
    has_to = first_to;
    has_from = same;
  }

  abbrev second : BitSet
  second = insert from first

  inside : from < first.maximum
  inside = omega (arith, first-maximum)

  contains-second : (v : ℕ) → contains second v ≡ ((from == v) || contains first v)
  contains-second = contains-insert from first first-IsValid inside

  second_from : contains second from ≡ true
  second_from =
      let self : (from == from) ≡ true = ground arith in contains-second from ∙ (rw self refl)

  from_not_to : contains first from ≡ false → (from == to) ≡ false
  from_not_to other = elim (Bool-cases (from == to)) [
    | inl same ↦
        let there : contains first from ≡ true =
          subst (λ k. contains first k ≡ true) (let e : to ≡ from = ground arith in e) first_to in
        absurd cc
    | inr ne ↦ ne
  ]

  Inv-edge : contains first from ≡ false → Inv g from to second (from ∷ [])
  unfolding elem
  Inv-edge other = record {
    valid = (insert-contains from first first-IsValid).0;
    maximum = insert-maximum from first ∙ first-maximum;
    sound = λ v h. elim (Bool-cases (from == v)) [
      | inl same ↦ subst (InLoop g from to) (let e : from ≡ v = ground arith in e) tail
      | inr ne ↦
          let e = sym (contains-second v) ∙ h in
          let e' = rw ne at e in subst (InLoop g from to) (sym (first_only v e')) head
    ];
    stacked = λ v h.
        let e : from ≡ v = ground arith in
        subst (λ k. (contains second k ≡ true) × ((k == to) ≡ false)) e
          (second_from, from_not_to other);
    closed = λ b h ne. elim (Bool-cases (from == b)) [
      | inl same ↦ inl (rw same refl)
      | inr else' ↦
          let e = sym (contains-second b) ∙ h in
          let e' = rw else' at e in let is_to = first_only b e' in absurd (ground arith)
    ];
    has_to = contains-second to ∙ (rw first_to (or_true (from == to)));
    has_from = second_from;
  }

-- For a back edge of a graph whose sources are its blocks, the `while` over loopStack ends, and the set
-- inLoop then holds exactly the natural loop of the edge: its ends and each block that is a source of
-- one in the loop other than the head.
pub natural_loop-InLoop :
    (g : Graph) (set : BitSet) (from to : ℕ)
    → IsGraph g
    → set.maximum ≡ length g
    → from < length g
    → to < length g
    → (t : BitSet) × (natural_loop g set from to ≡ some t)
      × IsValid t
      × ((v : ℕ) → (contains t v ≡ true) ↔ InLoop g from to v)
unfolding natural_loop
natural_loop-InLoop g set from to ok width from_in to_in =
    elim (Bool-cases (contains (insert to (clear set)) from)) [
      | inl same ↦
          let inv = Inv-self g set from to width from_in to_in same in
          let (t, run, i) = loop_body-Inv g from to (suc (length g)) _ [] ok inv (omega arith) in
          (t, rw same run, i.valid, λ v. (i.sound v, complete g from to t i v))
      | inr other ↦
          let inv = Inv-edge g set from to width from_in to_in other in
          let more : (insert from (insert to (clear set))).cardinality
              ≡ (insert to (clear set)).cardinality + 1 =
            cardinality-insert from (insert to (clear set))
              (first-IsValid g set from to width from_in to_in)
              (inside g set from to width from_in to_in)
            ∙ (rw other refl) in
          let (t, run, i) =
            loop_body-Inv g from to (suc (length g)) _ (from ∷ []) ok inv (omega (arith, more)) in
          (t, rw other run, i.valid, λ v. (i.sound v, complete g from to t i v))
    ]
