-- ===== src/Sweep/SetUps.antt =====
-- The calls of `setup` and `pr_co_setup` among those of protocols.cpp and producer_consumer.cpp.
use microrev.Common.{
  ℕ, zero, suc, ◌-◌, ◌*◌, ◌/◌, ltb, leb, ◌==◌, ◌&&◌, ◌≤◌, ◌≡◌, refl, sym, subst, arith, true, some,
  List, [], ◌∷◌, ◌++◌, replicate, ℕ_discrete,
}
use microrev.Constants.{mb2}
use microrev.Common.Int.{pos}
use microrev.Shuffle.Order.{has}
use microrev.Bench.{MesiType, CorePlacement}
use microrev.Setup.{Shared, setup, pr_co_setup}
use microrev.Setup.Laws.{IsReady, setup-IsReady, pr_co_setup-IsReady}
use microrev.Sweep.{Call, set_up, test, for_each, repeat, placements, call_of}
use microrev.Sweep.Programs.{
  protocols, pr_co, protocols_at, pr_co_at, protocols_sizes, pr_co_sizes, protocols_with, hundred,
  protocols_kinds, pr_co_kinds, protocols_events, pr_co_events,
}
use Prim.Native.String.{String}

-- The sizes of the blocks that the calls allocate.
abbrev pub set_up_sizes : List Call → List ℕ
set_up_sizes [] = []
set_up_sizes (set_up size ∷ calls) = size ∷ set_up_sizes calls
set_up_sizes (test t ∷ calls) = set_up_sizes calls

-- One line of 64 bytes or more.
abbrev IsWhole : ℕ → Type 0
IsWhole size = (ltb 0 size && size / 64 * 64 == size && leb size mb2) ≡ true

abbrev AllWhole : List ℕ → Type 0
AllWhole [] = Unit
AllWhole (size ∷ sizes) = IsWhole size × AllWhole sizes

AllWhole-has : (sizes : List ℕ) (size : ℕ) → AllWhole sizes → has size sizes ≡ true → IsWhole size
AllWhole-has [] size all here = absurd (ground arith)
AllWhole-has (s ∷ sizes) size (now, all) here = elim (ℕ_discrete size s) [
  | yes same ↦ subst IsWhole (sym same) now
  | no other ↦ AllWhole-has sizes size all (ground arith)
]

set_up_sizes-append :
    (calls more : List Call)
    → AllWhole (set_up_sizes calls)
    → AllWhole (set_up_sizes more)
    → AllWhole (set_up_sizes (calls ++ more))
set_up_sizes-append [] more all all' = all'
set_up_sizes-append (set_up s ∷ calls) more (now, all) all' =
    (now, set_up_sizes-append calls more all all')
set_up_sizes-append (test t ∷ calls) more all all' = set_up_sizes-append calls more all all'

-- A loop over sizes that allocates a block of each, and one that allocates none.
for_each-AllWhole :
    (sizes : List ℕ) (calls : ℕ → List Call)
    → ((s : ℕ) → IsWhole s → AllWhole (set_up_sizes (calls s)))
    → AllWhole sizes
    → AllWhole (set_up_sizes (for_each sizes calls))
unfolding for_each
for_each-AllWhole [] calls each all = tt
for_each-AllWhole (s ∷ sizes) calls each (now, all) =
    set_up_sizes-append (calls s) (for_each sizes calls) (each s now)
      (for_each-AllWhole sizes calls each all)

for_each-tests :
    {A : Type 0} (xs : List A) (calls : A → List Call)
    → ((x : A) → AllWhole (set_up_sizes (calls x)))
    → AllWhole (set_up_sizes (for_each xs calls))
unfolding for_each
for_each-tests [] calls each = tt
for_each-tests (x ∷ xs) calls each =
    set_up_sizes-append (calls x) (for_each xs calls) (each x) (for_each-tests xs calls each)

repeat-tests :
    (n : ℕ) (calls : List Call)
    → AllWhole (set_up_sizes calls)
    → AllWhole (set_up_sizes (repeat n calls))
unfolding repeat
repeat-tests zero calls all = tt
repeat-tests (suc n) calls all =
    set_up_sizes-append calls (repeat n calls) all (repeat-tests n calls all)

hundred-tests :
    (kinds : List MesiType) (s : ℕ) (c : List String) (j : CorePlacement)
    → AllWhole (set_up_sizes (hundred kinds s c j))
hundred-tests kinds s c j =
    repeat-tests 100 (for_each kinds (call_of s j c))
      (for_each-tests kinds (call_of s j c) (λ t. tt))

protocols_at-whole : (s : ℕ) → IsWhole s → AllWhole (set_up_sizes (protocols_at s))
unfolding for_each
protocols_at-whole s now = (
  now,
  set_up_sizes-append (protocols_with s protocols_events) []
      (for_each-tests placements (hundred protocols_kinds s protocols_events)
        (hundred-tests protocols_kinds s protocols_events))
      tt,
)

pr_co_at-whole : (s : ℕ) → IsWhole s → AllWhole (set_up_sizes (pr_co_at s))
pr_co_at-whole s now = (
  now,
  for_each-tests placements (hundred pr_co_kinds s pr_co_events)
      (hundred-tests pr_co_kinds s pr_co_events),
)

programs-AllWhole : AllWhole (set_up_sizes (protocols ++ pr_co))
unfolding protocols pr_co
programs-AllWhole =
    set_up_sizes-append protocols pr_co
      (for_each-AllWhole protocols_sizes protocols_at protocols_at-whole (ground arith))
      (for_each-AllWhole pr_co_sizes pr_co_at pr_co_at-whole (ground arith))

module _ (dist : ℕ → ℕ → ℕ) (in_range : (round bound : ℕ) → dist round bound ≤ bound)
    (block size : ℕ) (s : Shared) where
  -- What both leave, of `lines` lines of 64 bytes.
  abbrev pub BothReady : ℕ → Type 0
  BothReady lines =
      ((t : Shared) × (setup dist block size 64 s ≡ some t)
        × IsReady block 64 lines s t
        × (t.wrflag ≡ s.wrflag))
      × ((t : Shared) × (pr_co_setup dist block size 64 s ≡ some t)
          × IsReady block 64 lines s t
          × (t.wrflag ≡ replicate lines (pos 1)))

  -- Each size for which protocols.cpp or producer_consumer.cpp allocates a block is one that both
  -- `setup` and `pr_co_setup`, with their default stride of 64, turn into a ring of `size / 64` lines,
  -- whatever the tests before have left behind; `pr_co_setup` makes a flag of 1 for each line. The
  -- numbers that the shuffle draws are in range.
  pub programs-BothReady :
      has size (set_up_sizes (protocols ++ pr_co)) ≡ true → BothReady (size / 64)
  programs-BothReady here =
      let now : IsWhole size =
        AllWhole-has (set_up_sizes (protocols ++ pr_co)) size programs-AllWhole here in
      let n : ℕ = size / 64 - 1 in
      let whole : size ≡ suc n * 64 = ground arith in
      subst BothReady (ground arith) (
        setup-IsReady dist in_range block size 64 n s (omega arith) refl (ground arith)
            (ground arith) whole,
        pr_co_setup-IsReady dist in_range block size 64 n s (omega arith) refl (ground arith)
            (ground arith) whole,
      )
