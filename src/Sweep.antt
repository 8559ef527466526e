-- ===== src/Sweep.antt =====
-- src/benchmarks/src/protocols.cpp and producer_consumer.cpp: what `main` does after `parse_cfg`, as
-- a list of calls, and the run of such a list over dump.dat. `setup` and `pr_co_setup` are in `Setup`;
-- here they are what they do to the machine. Blocks are never freed but the last one of protocols.cpp.
mod Counts
pub mod Laws
pub mod Programs
pub mod SetUps
mod Tests
use microrev.Common.{ℕ, zero, suc, Option, none, some, List, [], ◌∷◌, ◌++◌, ◌>>=◌}
use microrev.Bench.{
  Body, MesiType, producer_consumer, store_on_modified, store_on_exclusive,
  store_on_shared_or_forward, store_on_invalid, load_from_modified, load_from_exclusive,
  load_from_shared_or_forward, load_from_invalid, flush, CorePlacement, local, socket, global,
  Cores,
}
use microrev.Counter.{Papi}
use microrev.Counter.Output.{Line}
use microrev.Gather.{Gathered}
use microrev.Dump.{run_test}
use Prim.Native.String.{String}

-- A call of `run_test`, and the size of the shared block at that time.
pub record Test : Type 0 where
  pub size : ℕ
  pub kind : MesiType
  pub placement : CorePlacement
  pub events : List String

pub data Call : Type 0 where
  set_up : ℕ → Call
  test : Test → Call

-- `for( auto x: xs ) …`, where the body is a list of calls.
unfoldable pub for_each {ℓ} : {A : Type ℓ} → List A → (A → List Call) → List Call
for_each [] calls = []
for_each (x ∷ xs) calls = calls x ++ for_each xs calls

-- `for( int i = 0; i < n; i++ ) …`, where the body does not use `i`.
unfoldable pub repeat : ℕ → List Call → List Call
repeat zero calls = []
repeat (suc n) calls = calls ++ repeat n calls

-- The three values that `(core_placement_t)j` has.
abbrev pub placements : List CorePlacement
placements = local ∷ socket ∷ global ∷ []

abbrev pub call_of : ℕ → CorePlacement → List String → MesiType → List Call
call_of size c events t =
    test (record { size = size; kind = t; placement = c; events = events }) ∷ []

module _ (P : Papi) (walk : Body → P.World → P.World) (prepare : ℕ → P.World → P.World)
    (k : Cores) where
  -- `order i t` is the order in which the workers of the test `t`, the call number `i`, end.
  unfoldable pub run_calls :
      (ℕ → Test → List ℕ) → ℕ → List Call → List Line → P.World → Option (List Line × P.World)
  unfolding run_test
  run_calls order i [] dump w = some (dump, w)
  run_calls order i (set_up size ∷ calls) dump w =
      run_calls order (suc i) calls dump (prepare size w)
  run_calls order i (test t ∷ calls) dump w = do
    (dump', g) ← run_test P walk k (order i t) t.size t.kind t.placement t.events dump w
    run_calls order (suc i) calls dump' g.world
