-- ===== src/Flush.antt =====
-- benchmarks/src/flush.cpp: the two tests that it compares, a load after a flush on one socket and a
-- load after a flush on both, as schedules of `Bench`, and what they keep of the counters.
pub mod Program
pub mod Averages
mod Tests
use microrev.Common.{
  ℕ, true, false, Option, none, some, List, [], ◌∷◌, ◌++◌, map, ◌>>=◌, ltb, length, if◌then◌else◌,
  get_elem?,
}
use microrev.Bench.{flusher, reader, Sched, sched, s_state, init_state, Cores}
use microrev.Average.{to_u64}
use microrev.Counter.{PapillCounter}
use Prim.Native.String.{String}

-- The schedule of `flusher_test`: `core_b` is `core_global0`, and `core_c` is `core_global1`.
unfoldable pub flusher_test : Cores → List String → List Sched
flusher_test k counters =
    let a = k.core_src in
    let b = k.core_global0 in
    let c = k.core_global1 in
    init_state (sched a flusher [] ∷ sched b flusher [] ∷ sched c flusher [] ∷ []) s_state a b []
    ++ sched a flusher [] ∷ sched c reader counters ∷ []

-- The schedule of `read_from_invalid_test`: `core_b` is `core_global1`.
unfoldable pub read_from_invalid_test : Cores → List String → List Sched
read_from_invalid_test k counters =
    let a = k.core_src in
    let b = k.core_global1 in sched a flusher [] ∷ sched b flusher [] ∷ sched b reader counters ∷ []

-- `if( m.cset.size() != 0 ) results.push_back( m.vec_cycles_measured[0] )`, for each counter; an
-- empty `vec_cycles_measured` is out of bounds.
pub push_results : List PapillCounter → List ℕ → Option (List ℕ)
push_results [] results = some results
push_results (m ∷ measured) results = elim (ltb 0 (length m.cset)) [
  | true ↦ elim (get_elem? m.vec_cycles_measured 0) [
    | none ↦ none
    | some cycles ↦ push_results measured (results ++ to_u64 cycles ∷ [])
  ]
  | false ↦ push_results measured results
]
