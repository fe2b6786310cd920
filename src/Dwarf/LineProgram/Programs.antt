-- ===== src/Dwarf/LineProgram/Programs.antt =====
-- Whole line number programs: the loop of `LineInfoTable::read`.
use mathlib.Core.List.{append_assoc}
use pebil.Common.{
  Allows, fails, gives, Allows-some, Allows-bind, Allows-mono, ℕ, zero, suc, ◌+◌, ◌-◌, ◌<◌, ◌≤◌,
  ◌≡◌, refl, subst, ◌⊎◌, inl, inr, true, false, Option, none, some, List, [], ◌∷◌, ◌++◌, ◌==◌,
  length, length-append, drop, drop-append, leb, ensure, ◌>>◌, arith, Bool-cases,
}
use pebil.Dwarf.LineProgram.{
  Header, FileName, Machine, execute_instruction, run, run_program, defaults,
}
use pebil.Dwarf.LineProgram.Instructions.{Instruction, encode, IsEncodable, IsHandled, step}
use pebil.Dwarf.LineProgram.Refines.{execute_instruction-encode}
use pebil.Dwarf.LineProgram.Progress.{
  Extends, Extends-trans, unchanged, execute_instruction-Goes, Goes,
}

Option-cases {ℓ} : {A : Type ℓ} (x : Option A) → (x ≡ none) ⊎ ((a : A) × (x ≡ some a))
Option-cases none = inl refl
Option-cases (some a) = inr (a, refl)

-- The rounds of the loop.
module _ (fuel : ℕ) (h : Header) (left : ℕ) (ptr : List ℕ) (m : Machine) where
  round_ends : (left == 0) ≡ true → run (suc fuel) h left ptr m ≡ some m
  unfolding run
  round_ends e = rw (e, run) refl

  round_fails :
      (left == 0) ≡ false → execute_instruction h ptr m ≡ none → run (suc fuel) h left ptr m ≡ none
  unfolding run
  round_fails e f = rw (e, f, run) refl

  round_goes :
      (n : ℕ) (m' : Machine)
      → (left == 0) ≡ false
      → execute_instruction h ptr m ≡ some (n, m')
      → run (suc fuel) h left ptr m ≡ (ensure (leb n left) >> run fuel h (left - n) (drop n ptr) m')
  unfolding run
  round_goes n m' e f = rw (e, f, run) refl

-- How the loop ends from a place, and with what: it has read all, or an instruction fails, or it does not
-- fit in what is left, or an instruction is executed and the loop ends from behind it.
pub data Ends (h : Header) : ℕ → List ℕ → Machine → Option Machine → Type 0 where
  at_end : (ptr : List ℕ) (m : Machine) → Ends h 0 ptr m (some m)
  refused :
      (left : ℕ) (ptr : List ℕ) (m : Machine)
      → 0 < left
      → execute_instruction h ptr m ≡ none
      → Ends h left ptr m none
  overrun :
      (left : ℕ) (ptr : List ℕ) (m : Machine) (n : ℕ) (m' : Machine)
      → execute_instruction h ptr m ≡ some (n, m')
      → left < n
      → 0 < left
      → Ends h left ptr m none
  executed :
      (left : ℕ) (ptr : List ℕ) (m : Machine) (n : ℕ) (m' : Machine) (r : Option Machine)
      → 0 < left
      → execute_instruction h ptr m ≡ some (n, m')
      → n ≤ left
      → Ends h (left - n) (drop n ptr) m' r
      → Ends h left ptr m r

run-Ends :
    (fuel : ℕ) (h : Header) (left : ℕ) (ptr : List ℕ) (m : Machine)
    → left < fuel
    → Ends h left ptr m (run fuel h left ptr m)
run-Ends zero h left ptr m enough = absurd (omega arith)
run-Ends (suc fuel) h zero ptr m enough = rw (round_ends fuel h 0 ptr m refl) (at_end ptr m)
run-Ends (suc fuel) h (suc k) ptr m enough =
    let left = suc k in
    let more : (left == 0) ≡ false = ground arith in
    elim (Option-cases (execute_instruction h ptr m)) [
      | inl failed ↦
          rw (round_fails fuel h left ptr m more failed) (refused left ptr m (omega arith) failed)
      | inr ((n, m'), ran) ↦
          let (pos, kept) =
            Allows-some (subst (Allows (Goes m)) ran (execute_instruction-Goes h m ptr)) in
          elim (Bool-cases (leb n left)) [
            | inl fits ↦
                rw (round_goes fuel h left ptr m n m' more ran, fits)
                  (executed left ptr m n m' _ (omega arith) ran (ground arith)
                    (run-Ends fuel h (left - n) (drop n ptr) m' (omega arith)))
            | inr beyond ↦
                rw (round_goes fuel h left ptr m n m' more ran, beyond)
                  (overrun left ptr m n m' ran (ground arith) (omega arith))
          ]
    ]

run-Extends :
    (fuel : ℕ) (h : Header) (left : ℕ) (ptr : List ℕ) (m : Machine)
    → Allows (Extends m) (run fuel h left ptr m)
unfolding run
run-Extends zero h left ptr m = fails
run-Extends (suc fuel) h left ptr m = elim (Bool-cases (left == 0)) [
  | inl done ↦ rw (round_ends fuel h left ptr m done) (gives m (unchanged refl refl))
  | inr more ↦ elim (Option-cases (execute_instruction h ptr m)) [
    | inl failed ↦ rw (round_fails fuel h left ptr m more failed) fails
    | inr ((n, m'), ran) ↦
        let (pos, kept) =
          Allows-some (subst (Allows (Goes m)) ran (execute_instruction-Goes h m ptr)) in
        rw (round_goes fuel h left ptr m n m' more ran) (
          Allows-bind (ensure (leb n left)) (λ _.
            Allows-mono (run-Extends fuel h (left - n) (drop n ptr) m')
              (λ r e. Extends-trans kept e)))
  ]
]

-- The bytes of a program, and what it says.
unfoldable pub encode_all : Header → List Instruction → List ℕ
encode_all h [] = []
encode_all h (i ∷ is) = encode h i ++ encode_all h is

unfoldable pub steps : Header → List Instruction → Machine → Machine
steps h [] m = m
steps h (i ∷ is) m = steps h is (step h i m)

pub data AllEncodable (h : Header) : List Instruction → Type 0 where
  no_more : AllEncodable h []
  one_more :
      (i : Instruction) (is : List Instruction)
      → IsEncodable h i
      → AllEncodable h is
      → AllEncodable h (i ∷ is)

pub data AllHandled (h : Header) : List Instruction → Type 0 where
  none_handled : AllHandled h []
  more_handled :
      (i : Instruction) (is : List Instruction)
      → IsHandled h i
      → AllHandled h is
      → AllHandled h (i ∷ is)

run-encode_all :
    (fuel : ℕ) (h : Header) (is : List Instruction) (rest : List ℕ) (m : Machine)
    → AllEncodable h is
    → AllHandled h is
    → length (encode_all h is) < fuel
    → run fuel h (length (encode_all h is)) (encode_all h is ++ rest) m ≡ some (steps h is m)
unfolding encode_all steps
run-encode_all zero h is rest m ok d small = absurd (omega arith)
run-encode_all (suc fuel) h [] rest m ok d small = round_ends fuel h 0 rest m refl
run-encode_all (suc fuel) h (i ∷ is) rest m (one_more _ _ e ok) (more_handled _ _ d ds) small =
    let n = length (encode h i) in
    let left = length (encode h i ++ encode_all h is) in
    let sum = length-append (encode h i) (encode_all h is) in
    let ran = execute_instruction-encode h i (encode_all h is ++ rest) m e d in
    let (pos, kept) = Allows-some (subst (Allows (Goes m)) ran (execute_instruction-Goes h m _)) in
    let more : (left == 0) ≡ false = ground arith in
    let fits : leb n left ≡ true = ground arith in
    let others : left - n ≡ length (encode_all h is) = omega (arith, sum) in
    rw
      (
        append_assoc (encode h i) (encode_all h is) rest,
        round_goes fuel h left (encode h i ++ (encode_all h is ++ rest)) m n (step h i m) more ran,
        fits,
        others,
        drop-append (encode h i) (encode_all h is ++ rest),
      )
      (run-encode_all fuel h is rest (step h i m) ok ds (omega (arith, sum)))

abbrev pub start : Header → List FileName → Machine
start h names = record { registers = defaults h; rows = []; file_names = names }

-- A program of instructions that DWARF allows under its header, none of which has the last opcode before
-- opcode_base (such a one the machine takes for a special instruction), and whose numbers the machine can
-- hold, is run to its end, whatever stands behind it in the section, and the machine then holds the rows
-- and file names that the instructions say.
pub run_program-encode_all :
    (h : Header) (names : List FileName) (is : List Instruction) (rest : List ℕ)
    → AllEncodable h is
    → AllHandled h is
    → run_program h names (length (encode_all h is)) (encode_all h is ++ rest)
      ≡ some (steps h is (start h names))
unfolding run_program
run_program-encode_all h names is rest ok handled =
    run-encode_all (length (encode_all h is) + 1) h is rest (start h names) ok handled (omega arith)

-- The loop of `read` ends on any bytes, well formed or not, in finitely many rounds: its result is that of
-- a chain of executed instructions, which ends where nothing is left, or with a failure where an
-- instruction fails or does not fit in what is left.
pub run_program-Ends :
    (h : Header) (names : List FileName) (left : ℕ) (ptr : List ℕ)
    → Ends h left ptr (start h names) (run_program h names left ptr)
unfolding run_program
run_program-Ends h names left ptr = run-Ends (left + 1) h left ptr (start h names) (omega arith)

-- On any bytes, well formed or not, a run of the loop that gives a table takes back none of the rows and
-- file names that it started with: they stand first in the table, in their order.
pub run_keeps :
    (fuel : ℕ) (h : Header) (left : ℕ) (ptr : List ℕ) (m n : Machine)
    → run fuel h left ptr m ≡ some n
    → Extends m n
run_keeps fuel h left ptr m n e =
    Allows-some (subst (Allows (Extends m)) e (run-Extends fuel h left ptr m))
