-- ===== src/RdLatency/Laws.antt =====
-- What `init_stride` of rd_latency.cpp builds.
use microrev.Common.{
  ltb, lt→ltb, true, ◌-◌, ℕ, zero, suc, ◌+◌, ◌*◌, ◌^◌, ◌/◌, ◌≤◌, ◌<◌, ◌≡◌, ◌∙◌, ◌⊎◌, refl, sym, ap,
  arith, some, List, [], ◌∷◌, length, map, length-map,
}
use microrev.Constants.{kb128}
use microrev.Chain.{Memory, write}
use microrev.Chain.Build.{Leads, address, set_shuffled_linked_list-IsRing}
use microrev.Chain.Follow.{follow, follow_same, follow_add}
use microrev.Latency.Ring.{linked_lines-IsRing}
use microrev.Setup.{zero_fill}
use microrev.RdLatency.{init_stride, produce_blocks, Produced}
use mathlib.Core.List.{Perm}
use microrev.Shuffle.{candidates_from}

-- As many loads as a ring has words lead back to its first word.
follow-Leads :
    (m : Memory) (p : ℕ) (stops : List ℕ) (back : ℕ)
    → Leads m p stops back
    → follow (suc (length stops)) m p ≡ back
follow-Leads m p [] back word = word
follow-Leads m p (q ∷ stops) back (word, leads) =
    ap (follow (suc (length stops)) m) word ∙ follow-Leads m q stops back leads

produce_blocks-follow :
    (blocks line_cnt : ℕ) (m : Memory) (iter : ℕ)
    → produce_blocks blocks line_cnt m iter ≡ follow (blocks * line_cnt) m iter
produce_blocks-follow zero line_cnt m iter = follow_same 0 (0 * line_cnt) m iter (omega arith)
produce_blocks-follow (suc blocks) line_cnt m iter =
    produce_blocks-follow blocks line_cnt m (follow line_cnt m iter)
    ∙ sym (follow_add line_cnt (blocks * line_cnt) m iter)
    ∙ follow_same (line_cnt + blocks * line_cnt) (suc blocks * line_cnt) m iter (grind arith)

-- The two rings, of `n + 1` lines each, and the walk.
pub record TwoRings (arr local_arr n : ℕ) (v : Produced) : Type 0 where
  pub next : (j : ℕ) → j < n → v.memory (arr + j * 64) ≡ arr + suc j * 64
  pub back : v.memory (arr + n * 64) ≡ arr
  pub order : List ℕ
  pub all : Perm (0 ∷ order) (candidates_from 0 (suc n))
  pub ring : Leads v.memory local_arr (map (address local_arr 64) order) local_arr
  pub home : v.local_iter ≡ local_arr

module _ (dist : ℕ → ℕ → ℕ) (in_range : (round bound : ℕ) → dist round bound ≤ bound)
    (arr local_arr blocks n : ℕ) (m : Memory) (whole : suc n ≡ blocks * 2048)
    (small : suc n * 64 < 2 ^ 31)
    (apart : (arr + suc n * 64 ≤ local_arr) ⊎ (local_arr + suc n * 64 < arr)) where
  -- The words of the array are not those of the block, nor the one behind it.
  kept-word :
      (m1 m2 : Memory)
      → ((a : ℕ)
          → (a < local_arr) ⊎ (local_arr + suc n * 64 < a)
          → m2 a ≡ zero_fill local_arr (suc n * 64) m1 a)
      → (j : ℕ) → j ≤ n
      → m2 (arr + j * 64) ≡ m1 (arr + j * 64)
  unfolding zero_fill
  kept-word m1 m2 untouched j le = ground (arith, untouched (arr + j * 64), apart)

  -- For a size of whole blocks of 128 KB below 2 GB, and an array and a block that do not overlap, the word behind
  -- the block included, `init_stride` returns. The lines of the array lead on in order and back to the
  -- first, those of the block form a ring, and the walk over it, a load for each line, ends where it
  -- began.
  pub init_stride-TwoRings :
      (v : Produced) × (init_stride dist arr local_arr (suc n * 64) 64 m ≡ some v)
      × TwoRings arr local_arr n v
  unfolding init_stride
  init_stride-TwoRings =
      let (t, linked, at_end, ring) = linked_lines-IsRing arr n m in
      let m1 : Memory = write t.memory (arr + (t.index - 64)) arr in
      let kept_int : ltb t.index (2 ^ 31) ≡ true =
        lt→ltb t.index (2 ^ 31) (omega (arith, at_end, small)) in
      let cleared : Memory = zero_fill local_arr (suc n * 64) m1 in
      let shuffled =
        set_shuffled_linked_list-IsRing dist in_range local_arr (suc n * 64) 64 n cleared
          (omega arith) refl (omega arith) (omega arith) refl in
      let kept = kept-word m1 shuffled.memory shuffled.untouched in
      let stops : List ℕ = map (address local_arr 64) shuffled.order in
      let rounds : suc n * 64 / kb128 * 2048 ≡ suc (length stops) =
        omega (arith, shuffled.count, length-map (address local_arr 64) shuffled.order) in
      (
        record {
          memory = shuffled.memory;
          local_iter = produce_blocks (suc n * 64 / kb128) 2048 shuffled.memory local_arr;
        },
        rw (linked, kept_int, shuffled.returned) refl,
        record {
          next = λ j lt. kept j (omega arith) ∙ ring.next j lt;
          back = kept n (omega arith) ∙ ring.back;
          order = shuffled.order;
          all = shuffled.all;
          ring = shuffled.ring;
          home =
              produce_blocks-follow (suc n * 64 / kb128) 2048 shuffled.memory local_arr
              ∙ follow_same (suc n * 64 / kb128 * 2048) (suc (length stops)) shuffled.memory
                  local_arr rounds
              ∙ follow-Leads shuffled.memory local_arr stops local_arr shuffled.ring;
        },
      )
