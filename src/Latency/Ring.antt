-- ===== src/Latency/Ring.antt =====
-- `allocateRandomArray` links the `n + 1` lines of its array into a ring.
use microrev.Common.{
  ℕ, zero, suc, ◌+◌, ◌-◌, ◌*◌, ◌≤◌, ◌<◌, ◌≡◌, ◌≢◌, refl, arith, some, dec_lt, lt→ltb, le→ltb_false,
}
use microrev.Chain.{Memory, write}
use microrev.Latency.{Linking, link_lines, allocate_random_array}

-- The lines `k` to `n - 1` lead to the next one, and nothing else has changed.
record Linked (array n k : ℕ) (s t : Linking) : Type 0 where
  at_end : t.index ≡ suc n * 64
  leads : (j : ℕ) → k ≤ j → j < n → t.memory (array + j * 64) ≡ array + suc j * 64
  kept : (a : ℕ) → ((j : ℕ) → k ≤ j → j < n → a ≢ array + j * 64) → t.memory a ≡ s.memory a

link_lines-Linked :
    (fuel array n k : ℕ) (s : Linking)
    → s.index ≡ suc k * 64
    → k ≤ n
    → n - k < fuel
    → (t : Linking) × (link_lines fuel array (suc n * 64) 64 s ≡ some t) × Linked array n k s t
unfolding link_lines write
link_lines-Linked zero array n k s at le enough = absurd (omega arith)
link_lines-Linked (suc fuel) array n k s at le enough = elim (dec_lt k n) [
  | yes lt ↦
      let s' : Linking = record {
        memory = write s.memory (array + (s.index - 64)) (array + s.index);
        index = s.index + 64;
      } in
      let (t, returned, linked) =
        link_lines-Linked fuel array n (suc k) s' (omega (arith, at)) lt (omega arith) in
      (
        t,
        rw (lt→ltb s.index (suc n * 64) (omega (arith, at)), link_lines) returned,
        record {
          at_end = linked.at_end;
          leads = λ j from below. elim (dec_lt k j) [
            | yes later ↦ linked.leads j later below
            | no now ↦
                ground (arith, linked.kept (array + j * 64) (λ i after last h. omega arith), at)
          ];
          kept = λ a away. ground (
            arith,
            linked.kept a (λ j after last. away j (omega arith) last),
            away k (omega arith) lt,
            at,
          );
        },
      )
  | no all ↦ (
    s,
    rw (le→ltb_false s.index (suc n * 64) (omega (arith, at)), link_lines) refl,
    record {
      at_end = omega (arith, at);
      leads = λ j from below. absurd (omega arith);
      kept = λ a away. refl;
    },
  )
]

-- Each line leads to the next, and the last to the first; no other word has changed.
pub record IsRing (array n : ℕ) (m m' : Memory) : Type 0 where
  pub next : (j : ℕ) → j < n → m' (array + j * 64) ≡ array + suc j * 64
  pub back : m' (array + n * 64) ≡ array
  pub kept : (a : ℕ) → ((j : ℕ) → j ≤ n → a ≢ array + j * 64) → m' a ≡ m a

-- The same, with the index at its end.
pub linked_lines-IsRing :
    (array n : ℕ) (m : Memory)
    → (t : Linking) × (link_lines
          (suc (suc n * 64))
          array
          (suc n * 64)
          64
          (record { memory = m; index = 64 })
        ≡ some t)
      × (t.index ≡ suc n * 64)
      × IsRing array n m (write t.memory (array + (t.index - 64)) array)
unfolding write
linked_lines-IsRing array n m =
    let (t, returned, linked) =
      link_lines-Linked (suc (suc n * 64)) array n 0 (record { memory = m; index = 64 })
        (omega arith) (omega arith) (omega arith) in
    (
      t,
      returned,
      linked.at_end,
      record {
        next = λ j below. ground (arith, linked.leads j (omega arith) below, linked.at_end);
        back = ground (arith, linked.at_end);
        kept = λ a away. ground (
          arith,
          linked.kept a (λ j from below. away j (omega arith)),
          away n (omega arith),
          linked.at_end,
        );
      },
    )

-- `allocateRandomArray` of a whole number of lines, one or more, returns with a ring through all of
-- them, and stores to no other address.
pub allocate_random_array-IsRing :
    (array n : ℕ) (m : Memory)
    → (m' : Memory) × (allocate_random_array array (suc n * 64) m ≡ some m') × IsRing array n m m'
unfolding allocate_random_array
allocate_random_array-IsRing array n m =
    let (t, returned, at_end, ring) = linked_lines-IsRing array n m in
    (write t.memory (array + (t.index - 64)) array, rw returned refl, ring)
