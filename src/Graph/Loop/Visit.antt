-- ===== src/Graph/Loop/Visit.antt =====
-- What looking at the sources of a block does to the set and to the stack.
use pebil.Common.{
  ℕ, ◌+◌, ◌<◌, ◌≡◌, refl, sym, ap, ◌∙◌, subst, ◌⊎◌, inl, inr, Bool, true, false, ◌||◌, List, [],
  ◌∷◌, ◌==◌, length, arith, Bool-cases,
}
use pebil.Containers.BitSet.{BitSet, contains, insert}
use pebil.Containers.BitSet.Laws.{
  IsValid, insert-contains, contains-insert, cardinality-insert, insert-maximum,
}
use pebil.Graph.Loop.{visit_sources}

unfoldable pub elem : ℕ → List ℕ → Bool
elem v [] = false
elem v (x ∷ xs) = (x == v) || elem v xs

pub or_true : (b : Bool) → (b || true) ≡ true
or_true true = refl
or_true false = refl

or_swap : (a b c : Bool) → (a || (b || c)) ≡ ((b || a) || c)
or_swap true true c = refl
or_swap true false c = refl
or_swap false true c = refl
or_swap false false c = refl

pub record Visited (preds : List ℕ) (s : BitSet) (stack : List ℕ) (t : BitSet) (left : List ℕ)
    : Type 0 where
  pub valid : IsValid t
  pub maximum : t.maximum ≡ s.maximum
  pub has : (v : ℕ) → contains t v ≡ (elem v preds || contains s v)
  pub pushed :
      (v : ℕ)
      → elem v left ≡ true
      → (elem v stack ≡ true) ⊎ ((contains s v ≡ false) × (elem v preds ≡ true))
  pub kept : (v : ℕ) → elem v stack ≡ true → elem v left ≡ true
  pub waits : (v : ℕ) → contains s v ≡ false → elem v preds ≡ true → elem v left ≡ true
  pub balance : length left + s.cardinality ≡ length stack + t.cardinality

module _ (pred : ℕ) (preds : List ℕ) (s : BitSet) (stack : List ℕ) {t : BitSet}
    {left : List ℕ} where
  Visited-skip :
      contains s pred ≡ true → Visited preds s stack t left → Visited (pred ∷ preds) s stack t left
  unfolding elem
  Visited-skip there r = record {
    valid = r.valid;
    maximum = r.maximum;
    has = λ v. elim (Bool-cases (pred == v)) [
      | inl same ↦
          let here : contains s v ≡ true =
            subst (λ k. contains s k ≡ true) (let e : pred ≡ v = ground arith in e) there in
          r.has v ∙ (rw (here, same) (or_true (elem v preds)))
      | inr other ↦ rw other (r.has v)
    ];
    pushed = λ v h. elim (r.pushed v h) [
      | inl old ↦ inl old
      | inr (new, among) ↦ inr (new, rw among (or_true (pred == v)))
    ];
    kept = r.kept;
    waits = λ v new among. elim (Bool-cases (pred == v)) [
      | inl same ↦
          let here : contains s v ≡ true =
            subst (λ k. contains s k ≡ true) (let e : pred ≡ v = ground arith in e) there in
          absurd cc
      | inr other ↦ r.waits v new (let a = rw other at among in a)
    ];
    balance = r.balance;
  }

  Visited-push :
      IsValid s
      → contains s pred ≡ false
      → pred < s.maximum
      → Visited preds (insert pred s) (pred ∷ stack) t left
      → Visited (pred ∷ preds) s stack t left
  unfolding elem
  Visited-push ok missing less r =
      let has' = contains-insert pred s ok less in
      let card : (insert pred s).cardinality ≡ s.cardinality + 1 =
        cardinality-insert pred s ok less ∙ (rw missing refl) in
      record {
        valid = r.valid;
        maximum = r.maximum ∙ insert-maximum pred s;
        has = λ v.
            r.has v
            ∙ ap (λ b. elem v preds || b) (has' v)
            ∙ or_swap (elem v preds) (pred == v) (contains s v);
        pushed = λ v h. elim (Bool-cases (pred == v)) [
          | inl same ↦ inr (
            subst (λ k. contains s k ≡ false) (let e : pred ≡ v = ground arith in e) missing,
            rw same refl,
          )
          | inr other ↦ elim (r.pushed v h) [
            | inl old ↦ inl (let o = rw other at old in o)
            | inr (new, among) ↦
                inr ((let n = sym (has' v) ∙ new in let n' = rw other at n in n'), rw other among)
          ]
        ];
        kept = λ v h. r.kept v (rw h (or_true (pred == v)));
        waits = λ v new among. elim (Bool-cases (pred == v)) [
          | inl same ↦ r.kept v (rw same refl)
          | inr other ↦ r.waits v (has' v ∙ (rw (other, new) refl)) (let a = rw other at among in a)
        ];
        balance = omega (arith, r.balance, card);
      }

module _ (pred : ℕ) (preds : List ℕ) (s : BitSet) (stack : List ℕ) where
  visit_there :
      contains s pred ≡ true → visit_sources (pred ∷ preds) s stack ≡ visit_sources preds s stack
  unfolding visit_sources
  visit_there there = rw (there, visit_sources) refl

  visit_missing :
      contains s pred ≡ false
      → visit_sources (pred ∷ preds) s stack ≡ visit_sources preds (insert pred s) (pred ∷ stack)
  unfolding visit_sources
  visit_missing missing = rw (missing, visit_sources) refl

pub visit_sources-Visited :
    (preds : List ℕ) (s : BitSet) (stack : List ℕ)
    → IsValid s
    → ((v : ℕ) → elem v preds ≡ true → v < s.maximum)
    → Visited preds s stack (visit_sources preds s stack).0 (visit_sources preds s stack).1
unfolding visit_sources elem
visit_sources-Visited [] s stack ok inside = record {
  valid = ok;
  maximum = refl;
  has = λ v. refl;
  pushed = λ v h. inl h;
  kept = λ v h. h;
  waits = λ v a b. absurd cc;
  balance = refl;
}
visit_sources-Visited (pred ∷ preds) s stack ok inside = elim (Bool-cases (contains s pred)) [
  | inl there ↦
      let r =
        visit_sources-Visited preds s stack ok (λ v h. inside v (rw h (or_true (pred == v)))) in
      subst (λ x. Visited (pred ∷ preds) s stack x.0 x.1)
        (sym (visit_there pred preds s stack there)) (Visited-skip pred preds s stack there r)
  | inr missing ↦
      let self : (pred == pred) ≡ true = ground arith in
      let less : pred < s.maximum = inside pred (rw self refl) in
      let (ok', has') = insert-contains pred s ok in
      let r =
        visit_sources-Visited preds (insert pred s) (pred ∷ stack) ok'
          (λ v h. omega (arith, insert-maximum pred s, inside v (rw h (or_true (pred == v))))) in
      subst (λ x. Visited (pred ∷ preds) s stack x.0 x.1)
        (sym (visit_missing pred preds s stack missing))
        (Visited-push pred preds s stack ok missing less r)
]
