-- ===== src/Setup/Laws.antt =====
-- `setup` and `pr_co_setup` leave a ring of lines, with `shared_iter` behind the block.
use mathlib.Core.List.{Perm}
use native.Mathlib.Nat.{div-eq_of_eq-mul_left}
use microrev.Common.{
  ℕ, suc, ◌+◌, ◌*◌, ◌/◌, ◌^◌, ◌≤◌, ◌<◌, ◌≡◌, refl, ◌⊎◌, List, ◌∷◌, Option, some, map, length, ap,
  ◌∙◌, arith, replicate,
}
use microrev.Shuffle.{candidates_from}
use microrev.Chain.{Built}
use microrev.Chain.Build.{Leads, address, IsRing, set_shuffled_linked_list-IsRing}
use microrev.Common.Int.{pos}
use microrev.Chain.{Memory}
use microrev.Setup.{Shared, install, setup, pr_co_setup, zero_fill}

-- The state after a set-up of `n` lines in a new block, from the state `s`.
pub record IsReady (block stride n : ℕ) (s t : Shared) : Type 0 where
  pub order : List ℕ
  pub all : Perm (0 ∷ order) (candidates_from 0 n)
  pub count : suc (length order) ≡ n
  pub ring : Leads t.memory block (map (address block stride) order) block
  pub past_end : t.memory (block + n * stride) ≡ block
  pub iter : t.shared_iter ≡ block + n * stride
  pub base : t.shared_data ≡ block
  pub size : t.shared_data_size ≡ s.shared_data_size
  pub untouched : (a : ℕ) → (a < block) ⊎ (block + n * stride < a) → t.memory a ≡ s.memory a

install-IsReady :
    (block stride n : ℕ) (s : Shared) (outcome : Option Built)
    → IsRing block stride n s.memory outcome
    → (t : Shared) × (install s block outcome ≡ some t)
      × IsReady block stride n s t
      × (t.wrflag ≡ s.wrflag)
install-IsReady block stride n s outcome ring = (
  record s { shared_data = block; shared_iter = block + n * stride; memory = ring.memory },
  rw ring.returned refl,
  record {
    order = ring.order;
    all = ring.all;
    count = ring.count;
    ring = ring.ring;
    past_end = ring.past_end;
    iter = refl;
    base = refl;
    size = refl;
    untouched = ring.untouched;
  },
  refl,
)

module _ (dist : ℕ → ℕ → ℕ) (in_range : (round bound : ℕ) → dist round bound ≤ bound)
    (block size stride n : ℕ) (s : Shared) (some_stride : 0 < stride)
    (aligned : stride / 8 * 8 ≡ stride) (fits : size + stride < 2 ^ 64) (few_lines : suc n < 2 ^ 31)
    (whole : size ≡ suc n * stride) where
  -- `setup` of a block of one line or more, with an aligned stride, returns. Its ring leads from the
  -- first line through every other line once and back; `shared_iter` points behind the block, at a
  -- word that `setup` has overwritten. Nothing else outside the block changes.
  pub setup-IsReady :
      (t : Shared) × (setup dist block size stride s ≡ some t)
      × IsReady block stride (suc n) s t
      × (t.wrflag ≡ s.wrflag)
  unfolding setup
  setup-IsReady = install-IsReady block stride (suc n) s _ (
      set_shuffled_linked_list-IsRing dist in_range block size stride n s.memory some_stride aligned
        fits few_lines whole)

  -- The block that `pr_co_setup` clears is inside the one that it links.
  cleared-IsReady :
      (s' t : Shared)
      → s'.memory ≡ zero_fill block size s.memory
      → s'.shared_data_size ≡ s.shared_data_size
      → IsReady block stride (suc n) s' t
      → IsReady block stride (suc n) s t
  unfolding zero_fill
  cleared-IsReady s' t cleared same ready = record {
    order = ready.order;
    all = ready.all;
    count = ready.count;
    ring = ready.ring;
    past_end = ready.past_end;
    iter = ready.iter;
    base = ready.base;
    size = ready.size ∙ same;
    untouched = λ a out.
        let here : s'.memory a ≡ zero_fill block size s.memory a =
          ap (λ (m : Memory). m a) cleared in
        ready.untouched a out ∙ ground (arith, here, out, whole);
  }

  -- `pr_co_setup` under the same conditions returns, with the same ring, and with one flag for each
  -- line, all of them 1.
  pub pr_co_setup-IsReady :
      (t : Shared) × (pr_co_setup dist block size stride s ≡ some t)
      × IsReady block stride (suc n) s t
      × (t.wrflag ≡ replicate (suc n) (pos 1))
  unfolding pr_co_setup
  pr_co_setup-IsReady =
      let s' : Shared = record s {
        wrflag = replicate (size / stride) (pos 1);
        memory = zero_fill block size s.memory;
      } in
      let (t, returned, ready, flags) = install-IsReady block stride (suc n) s' _ (
        set_shuffled_linked_list-IsRing dist in_range block size stride n s'.memory some_stride
          aligned fits few_lines whole) in
      let lines : size / stride ≡ suc n = div-eq_of_eq-mul_left some_stride whole in
      (
        t,
        returned,
        cleared-IsReady s' t refl refl ready,
        flags ∙ ap (λ lines. replicate lines (pos 1)) lines,
      )
