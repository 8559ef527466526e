-- ===== src/Shuffle/Order.antt =====
-- Lists of distinct indices, as the candidates of `shuffle_array` are, and what an erasure does.
use mathlib.Core.List.{Perm}
use mathlib.Core.List.Perm
use mathlib.Core.Path.{subst}
use microrev.Common.{
  ℕ, zero, suc, ◌+◌, ◌≤◌, ◌<◌, ◌≡◌, refl, arith, Bool, true, false, ◌||◌, List, [], ◌∷◌, some, ◌==◌,
  Bool-cases, inl, inr, length, get_elem?, ==_iff,
}
use microrev.Shuffle.{erase_all, candidates_from}

abbrev pub has : ℕ → List ℕ → Bool
has j [] = false
has j (x ∷ xs) = (x == j) || has j xs

abbrev pub Distinct : List ℕ → Type 0
Distinct [] = Unit
Distinct (x ∷ xs) = (has x xs ≡ false) × Distinct xs

abbrev pub Below : ℕ → List ℕ → Type 0
Below n [] = Unit
Below n (x ∷ xs) = (x < n) × Below n xs

erase_all_absent : (x : ℕ) (xs : List ℕ) → has x xs ≡ false → erase_all x xs ≡ xs
unfolding erase_all
erase_all_absent x [] h = refl
erase_all_absent x (y ∷ ys) h = ground (arith, erase_all_absent x ys)

pub has-erase_all : (j x : ℕ) (xs : List ℕ) → has j xs ≡ false → has j (erase_all x xs) ≡ false
unfolding erase_all
has-erase_all j x [] h = refl
has-erase_all j x (y ∷ ys) h = ground (arith, has-erase_all j x ys)

pub has-erase_all_self : (x : ℕ) (xs : List ℕ) → has x (erase_all x xs) ≡ false
unfolding erase_all
has-erase_all_self x [] = refl
has-erase_all_self x (y ∷ ys) = ground (arith, has-erase_all_self x ys)

pub erase_all-Distinct : (x : ℕ) (xs : List ℕ) → Distinct xs → Distinct (erase_all x xs)
unfolding erase_all
erase_all-Distinct x [] d = tt
erase_all-Distinct x (y ∷ ys) d =
    ground (arith, erase_all-Distinct x ys d.1, has-erase_all y x ys d.0)

pub erase_all-Below : (n x : ℕ) (xs : List ℕ) → Below n xs → Below n (erase_all x xs)
unfolding erase_all
erase_all-Below n x [] d = tt
erase_all-Below n x (y ∷ ys) d = ground (arith, erase_all-Below n x ys d.1)

pub length-erase_all :
    (x : ℕ) (xs : List ℕ)
    → has x xs ≡ true
    → Distinct xs
    → suc (length (erase_all x xs)) ≡ length xs
unfolding erase_all
length-erase_all x [] h d = ground arith
length-erase_all x (y ∷ ys) h d =
    ground (arith, length-erase_all x ys, erase_all_absent x ys, ==_iff y x)

pub perm-erase_all :
    (x : ℕ) (xs : List ℕ) → has x xs ≡ true → Distinct xs → Perm (x ∷ erase_all x xs) xs
unfolding erase_all
perm-erase_all x [] h d = ground arith
perm-erase_all x (y ∷ ys) h d = elim (Bool-cases (y == x)) [
  | inl e ↦
      let same : y ≡ x = (==_iff y x).0 e in
      let kept : erase_all x ys ≡ ys = erase_all_absent x ys (ground arith) in
      let whole : y ∷ ys ≡ x ∷ erase_all x ys = cc in
      rw e (subst (λ l. Perm l (y ∷ ys)) whole (Perm.refl (y ∷ ys)))
  | inr ne ↦ rw ne (
      Perm.trans (Perm.swap y x (erase_all x ys))
        (Perm.cons y (perm-erase_all x ys (ground arith) d.1)))
]

pub has-get_elem? : (i x : ℕ) (xs : List ℕ) → get_elem? xs i ≡ some x → has x xs ≡ true
has-get_elem? i x [] h = ground arith
has-get_elem? zero x (y ∷ ys) h = ground arith
has-get_elem? (suc i) x (y ∷ ys) h = ground (arith, has-get_elem? i x ys h)

pub Below-has : (n x : ℕ) (xs : List ℕ) → Below n xs → has x xs ≡ true → x < n
Below-has n x [] b h = ground arith
Below-has n x (y ∷ ys) b h = ground (arith, Below-has n x ys b.1)

pub has-candidates_from : (j i count : ℕ) → j < i → has j (candidates_from i count) ≡ false
has-candidates_from j i zero h = refl
has-candidates_from j i (suc count) h =
    ground (arith, has-candidates_from j (suc i) count (omega arith))

pub candidates_from-Distinct : (i count : ℕ) → Distinct (candidates_from i count)
candidates_from-Distinct i zero = tt
candidates_from-Distinct i (suc count) =
    (has-candidates_from i (suc i) count (omega arith), candidates_from-Distinct (suc i) count)

pub candidates_from-Below : (n i count : ℕ) → i + count ≤ n → Below n (candidates_from i count)
candidates_from-Below n i zero h = tt
candidates_from-Below n i (suc count) h =
    (omega arith, candidates_from-Below n (suc i) count (omega arith))

pub length-candidates_from : (i count : ℕ) → length (candidates_from i count) ≡ count
length-candidates_from i zero = refl
length-candidates_from i (suc count) = omega (arith, length-candidates_from (suc i) count)
