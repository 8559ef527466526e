-- ===== src/Sweep/Counts.antt =====
-- How many tests of a kind a list of calls has.
use microrev.Common.{
  ℕ, zero, suc, ◌+◌, ◌*◌, ◌≡◌, arith, List, [], ◌∷◌, ◌++◌, length, ◌==◌, if◌then◌else◌,
}
use microrev.Bench.{
  MesiType, producer_consumer, flush, store_on_modified, store_on_exclusive,
  store_on_shared_or_forward, store_on_invalid, load_from_modified, load_from_exclusive,
  load_from_shared_or_forward, load_from_invalid,
}
use microrev.Sweep.{Call, set_up, test, for_each, repeat}

abbrev number : MesiType → ℕ
number producer_consumer = 0
number flush = 1
number store_on_modified = 2
number store_on_exclusive = 3
number store_on_shared_or_forward = 4
number store_on_invalid = 5
number load_from_modified = 6
number load_from_exclusive = 7
number load_from_shared_or_forward = 8
number load_from_invalid = 9

-- The number of the tests of a kind.
abbrev pub tests_of : MesiType → List Call → ℕ
tests_of t [] = 0
tests_of t (set_up size ∷ calls) = tests_of t calls
tests_of t (test u ∷ calls) = (if number t == number u.kind then 1 else 0) + tests_of t calls

append-tests_of :
    (t : MesiType) (xs ys : List Call) → tests_of t (xs ++ ys) ≡ tests_of t xs + tests_of t ys
append-tests_of t [] ys = omega arith
append-tests_of t (set_up size ∷ xs) ys = append-tests_of t xs ys
append-tests_of t (test u ∷ xs) ys = omega (arith, append-tests_of t xs ys)

pub for_each-tests_of :
    {A : Type 0} (t : MesiType) (n : ℕ) (xs : List A) (calls : A → List Call)
    → ((x : A) → tests_of t (calls x) ≡ n)
    → tests_of t (for_each xs calls) ≡ length xs * n
unfolding for_each
for_each-tests_of t n [] calls each = omega arith
for_each-tests_of t n (x ∷ xs) calls each =
    rw (append-tests_of, each, for_each-tests_of t n xs calls each) (grind arith)

pub repeat-tests_of :
    (t : MesiType) (n k : ℕ) (calls : List Call)
    → tests_of t calls ≡ n
    → tests_of t (repeat k calls) ≡ k * n
unfolding repeat
repeat-tests_of t n zero calls once = omega arith
repeat-tests_of t n (suc k) calls once =
    rw (append-tests_of, once, repeat-tests_of t n k calls once) (grind arith)

pub append-tests_none : (t : MesiType) (xs : List Call) → tests_of t (xs ++ []) ≡ tests_of t xs
append-tests_none t xs = omega (arith, append-tests_of t xs [])
