-- ===== src/Chain/Link.antt =====
-- The second loop stores the shuffled addresses, one in each line, and nothing else.
use native.Mathlib.Nat.{mod-eq_of_lt, div-eq_of_eq-mul_left}
use microrev.Common.{
  ℕ, zero, suc, ◌+◌, ◌*◌, ◌/◌, ◌^◌, ◌≤◌, ◌<◌, ◌≡◌, ◌≢◌, refl, ap, ◌∙◌, subst, arith, ◌⊎◌, inl, List,
  Option, some, lt→ltb, le→ltb_false, length, get_elem?, get_elem?-lt, ℕ_discrete,
}
use microrev.Chain.{Memory, write, Built, link_loop}

pub write_same : (m : Memory) (p v : ℕ) → write m p v p ≡ v
unfolding write
write_same m p v = ground arith

pub write_other : (m : Memory) (p v a : ℕ) → p ≢ a → write m p v a ≡ m a
unfolding write
write_other m p v a ne = ground arith

-- From line `k` up to line `stop`, each line holds its entry of `r`; the rest is as in `m`.
pub record Linked (arr stride k stop : ℕ) (r : List ℕ) (m : Memory) (outcome : Option Built)
    : Type 0 where
  pub memory : Memory
  pub returned : outcome ≡ some (record { memory = memory; iter = arr + stop * stride })
  pub words : (j p : ℕ) → k ≤ j → j < stop → get_elem? r j ≡ some p → memory (arr + j * stride) ≡ p
  pub untouched : (a : ℕ) → (a < arr + k * stride) ⊎ (arr + stop * stride ≤ a) → memory a ≡ m a

module _ (arr size stride stop : ℕ) (r : List ℕ) (some_stride : 0 < stride)
    (aligned : stride / 8 * 8 ≡ stride) (fits : size + stride < 2 ^ 64)
    (whole : size ≡ stop * stride) (entries : length r ≡ stop) where
  Linked-next :
      (k p : ℕ) (m : Memory) (outcome : Option Built)
      → k < stop
      → get_elem? r k ≡ some p
      → Linked arr stride (suc k) stop r (write m (arr + k * stride) p) outcome
      → Linked arr stride k stop r m outcome
  Linked-next k p m outcome lt entry rest = record {
    memory = rest.memory;
    returned = rest.returned;
    words = λ j q low high e. elim (ℕ_discrete k j) [
      | yes same ↦
          let value : p ≡ q = cc in
          subst (λ (t : ℕ). rest.memory (arr + t * stride) ≡ q) same
            (rest.untouched (arr + k * stride) (inl (omega arith))
              ∙ write_same m (arr + k * stride) p
              ∙ value)
      | no apart ↦ rest.words j q (omega arith) high e
    ];
    untouched = λ a out.
        let next : suc k * stride ≤ stop * stride = grind arith in
        rest.untouched a (omega arith) ∙ write_other m (arr + k * stride) p a (omega arith);
  }

  pub link_loop-Linked :
      (fuel k n i iter : ℕ) (m : Memory)
      → i ≡ k * stride
      → iter ≡ arr + k * stride
      → k + n ≡ stop
      → n < fuel
      → Linked arr stride k stop r m (link_loop fuel size stride r i iter m)
  unfolding link_loop
  link_loop-Linked zero k n i iter m e f split enough = elim enough [ ]
  link_loop-Linked (suc fuel) k zero i iter m e f split enough =
      let same : k * stride ≡ stop * stride = ap (λ (t : ℕ). t * stride) (omega arith) in
      rw (le→ltb_false i size (omega arith), link_loop)
        (record {
          memory = m;
          returned = ap (λ (t : ℕ). some (record { memory = m; iter = t })) (omega arith);
          words = λ j p low high e. absurd (omega arith);
          untouched = λ a out. refl;
        })
  link_loop-Linked (suc fuel) k (suc n) i iter m e f split enough =
      let (p, entry) = get_elem?-lt r k (omega arith) in
      let at : i / stride ≡ k = div-eq_of_eq-mul_left some_stride e in
      let next : suc k * stride ≤ stop * stride = grind arith in
      let small : i + stride < 2 ^ 64 = omega arith in
      rw (lt→ltb i size (omega arith), link_loop, at, entry, mod-eq_of_lt small, aligned, f)
        (Linked-next k p m _ (omega arith) entry (
          link_loop-Linked fuel (suc k) n (i + stride) (arr + k * stride + stride)
            (write m (arr + k * stride) p) (omega arith) (omega arith) (omega arith) (omega arith)))
