-- ===== src/Cacheline/Laws.antt =====
-- `init_stride` makes a ring of the lines and of the word behind the array, and where the walk stands.
use native.Mathlib.Nat.{mod-eq_of_lt}
use microrev.Common.{
  ℕ, zero, suc, ◌+◌, ◌*◌, ◌/◌, ◌%◌, ◌^◌, ◌≤◌, ◌<◌, ◌≡◌, refl, sym, ap, subst, ◌∙◌, arith, ◌⊎◌, inl,
  Option, some, lt→ltb, le→ltb_false, ℕ_discrete,
}
use microrev.Chain.{Memory, write, Built}
use microrev.Chain.Link.{write_same, write_other}
use microrev.Chain.Follow.{follow, follow_same, follow_add, follow-ring}
use microrev.Cacheline.{stride_loop, init_stride, hundred, chase}

-- From line `k` up to line `n`, each line leads to the next; the rest is as in `m`.
record Linked (arr stride k n : ℕ) (m : Memory) (outcome : Option Built) : Type 0 where
  memory : Memory
  returned : outcome ≡ some (record { memory = memory; iter = arr + n * stride })
  next : (j : ℕ) → k ≤ j → j < n → memory (arr + j * stride) ≡ arr + suc j * stride
  untouched : (a : ℕ) → (a < arr + k * stride) ⊎ (arr + n * stride ≤ a) → memory a ≡ m a

module _ (arr size stride n : ℕ) (some_stride : 0 < stride) (aligned : stride / 8 * 8 ≡ stride)
    (fits : size + stride < 2 ^ 64) (whole : size ≡ n * stride) where
  Linked-next :
      (k : ℕ) (m : Memory) (outcome : Option Built)
      → k < n
      → Linked arr stride (suc k) n (write m (arr + k * stride) (arr + suc k * stride)) outcome
      → Linked arr stride k n m outcome
  Linked-next k m outcome lt rest = record {
    memory = rest.memory;
    returned = rest.returned;
    next = λ j low high. elim (ℕ_discrete k j) [
      | yes same ↦
          subst (λ (t : ℕ). rest.memory (arr + t * stride) ≡ arr + suc t * stride) same
            (rest.untouched (arr + k * stride) (inl (omega arith))
              ∙ write_same m (arr + k * stride) (arr + suc k * stride))
      | no apart ↦ rest.next j (omega arith) high
    ];
    untouched = λ a out.
        let later : suc k * stride ≤ n * stride = grind arith in
        rest.untouched a (omega arith)
        ∙ write_other m (arr + k * stride) (arr + suc k * stride) a (omega arith);
  }

  stride_loop-Linked :
      (fuel k left i iter : ℕ) (m : Memory)
      → i ≡ k * stride
      → iter ≡ arr + k * stride
      → k + left ≡ n
      → left < fuel
      → Linked arr stride k n m (stride_loop fuel arr size stride i iter m)
  unfolding stride_loop
  stride_loop-Linked zero k left i iter m e f split enough = elim enough [ ]
  stride_loop-Linked (suc fuel) k zero i iter m e f split enough =
      let same : k * stride ≡ n * stride = ap (λ (t : ℕ). t * stride) (omega arith) in
      rw (le→ltb_false i size (omega arith), stride_loop)
        (record {
          memory = m;
          returned = ap (λ (t : ℕ). some (record { memory = m; iter = t })) (omega arith);
          next = λ j low high. absurd (omega arith);
          untouched = λ a out. refl;
        })
  stride_loop-Linked (suc fuel) k (suc left) i iter m e f split enough =
      let later : suc k * stride ≤ n * stride = grind arith in
      let small : i + stride < 2 ^ 64 = omega arith in
      let value : arr + (i + stride) ≡ arr + suc k * stride = omega arith in
      rw (lt→ltb i size (omega arith), stride_loop, mod-eq_of_lt small, aligned, f, value)
        (Linked-next k m _ (omega arith) (
          stride_loop-Linked fuel (suc k) left (i + stride) (arr + k * stride + stride)
            (write m (arr + k * stride) (arr + suc k * stride)) (omega arith) (omega arith)
            (omega arith) (omega arith)))

-- The lines and the word behind the array form one ring, in order; the iterator is at that word.
pub record IsRing (arr stride n : ℕ) (m : Memory) (outcome : Option Built) : Type 0 where
  pub memory : Memory
  pub returned : outcome ≡ some (record { memory = memory; iter = arr + n * stride })
  pub next : (j : ℕ) → j < n → memory (arr + j * stride) ≡ arr + suc j * stride
  pub past_end : memory (arr + n * stride) ≡ arr
  pub untouched : (a : ℕ) → (a < arr) ⊎ (arr + n * stride < a) → memory a ≡ m a

hundred-follow : (m : Memory) (iter : ℕ) → hundred (λ p. m p) iter ≡ follow 100 m iter
unfolding hundred
hundred-follow m iter = refl

chase-follow :
    (accesses : ℕ) (m : Memory) (iter : ℕ) → chase accesses m iter ≡ follow (accesses * 100) m iter
unfolding chase
chase-follow zero m iter = refl
chase-follow (suc accesses) m iter =
    chase-follow accesses m (hundred (λ p. m p) iter)
    ∙ ap (follow (accesses * 100) m) (hundred-follow m iter)
    ∙ sym (follow_add 100 (accesses * 100) m iter)
    ∙ follow_same (100 + accesses * 100) (suc accesses * 100) m iter (omega arith)

-- For a stride that is a multiple of 8, and no overflow of the loop counter, `init_stride` of `n`
-- lines returns the address behind the array, where it has stored the array's address; each line leads
-- to the next, the last to the word behind the array, and nothing else outside the array has changed.
-- A walk of `time_rd_latency` from there goes round these n + 1 words, 100 for each access.
pub init_stride-IsRing :
    (arr size stride n : ℕ) (m : Memory)
    → 0 < stride
    → stride / 8 * 8 ≡ stride
    → size + stride < 2 ^ 64
    → size ≡ n * stride
    → (built : IsRing arr stride n m (init_stride arr size stride m)) × ((accesses : ℕ)
        → chase accesses built.memory (arr + n * stride)
          ≡ arr + (n + accesses * 100) % suc n * stride)
unfolding init_stride
init_stride-IsRing arr size stride n m some_stride aligned fits whole =
    let few : n ≤ size = grind arith in
    let linked =
      stride_loop-Linked arr size stride n some_stride aligned fits whole (suc size) 0 n 0 arr m
        (omega arith) (omega arith) (omega arith) (omega arith) in
    let end = arr + n * stride in
    let closed = write linked.memory end arr in
    let next : (j : ℕ) → j < n → closed (arr + j * stride) ≡ arr + suc j * stride = λ j lt.
      let later : suc j * stride ≤ n * stride = grind arith in
      write_other linked.memory end arr (arr + j * stride) (omega arith)
      ∙ linked.next j (omega arith) lt in
    let back : closed end ≡ arr = write_same linked.memory end arr in
    (
      record {
        memory = closed;
        returned = rw linked.returned refl;
        next = next;
        past_end = back;
        untouched = λ a out.
            write_other linked.memory end arr a (omega arith) ∙ linked.untouched a (omega arith);
      },
      λ accesses.
          chase-follow accesses closed end
          ∙ follow-ring arr stride n closed next back (accesses * 100) n (omega arith),
    )
