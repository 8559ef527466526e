-- ===== src/Icache.antt =====
-- src/profiling/src/icache_linear.cpp: one counter around straight code of growing length. The macros
-- R5 to R65536 repeat a piece of code; here they count the copies of INST_BODY. `execute` is what so
-- many copies do to the machine.
pub mod Laws
mod Tests
use microrev.Common.{ℕ, ◌+◌, Option, none, some, List, [], ◌∷◌, ◌>>=◌}
use microrev.Counter.{Papi, Run, set_world, add, start, read, reset, end}
use microrev.Counter.Init.{papill_counter}
use microrev.Counter.Output.{Line, stats}
use Prim.Native.String.{String}

abbrev r5 : ℕ → ℕ
r5 a = a + a + a + a + a

abbrev r20 : ℕ → ℕ
r20 a = r5 a + r5 a + r5 a + r5 a

abbrev r25 : ℕ → ℕ
r25 a = r20 a + r5 a

abbrev r100 : ℕ → ℕ
r100 a = r25 a + r25 a + r25 a + r25 a

r500 : ℕ → ℕ
r500 a = r100 a + r100 a + r100 a + r100 a + r100 a

r1024 : ℕ → ℕ
unfolding r500
r1024 a = r500 a + r500 a + r20 a + a

r2048 : ℕ → ℕ
unfolding r1024
r2048 a = r1024 a + r1024 a

unfoldable pub r4096 : ℕ → ℕ
unfolding r2048
r4096 a = r2048 a + r2048 a

unfoldable pub r8192 : ℕ → ℕ
unfolding r4096
r8192 a = r4096 a + r4096 a

unfoldable pub r16384 : ℕ → ℕ
unfolding r8192
r16384 a = r8192 a + r8192 a

unfoldable pub r32768 : ℕ → ℕ
unfolding r16384
r32768 a = r16384 a + r16384 a

unfoldable pub r65536 : ℕ → ℕ
unfolding r32768
r65536 a = r32768 a + r32768 a

-- The copies of INST_BODY in `benchmark4096` to `benchmark65536`.
unfoldable pub copies : List ℕ
unfolding r4096 r8192 r16384 r32768 r65536
copies = r4096 1 ∷ r8192 1 ∷ r16384 1 ∷ r32768 1 ∷ r65536 1 ∷ []

abbrev pub events : List String
events = "PAPI_L1_ICM" ∷ []

module _ (P : Papi) (execute : ℕ → P.World → P.World) where
  -- `pc.reset(); pc.start(); benchmark(); pc.read(); pc.print_stats();`
  unfoldable pub measure : ℕ → List Line → Run P → Option (List Line × Run P)
  unfolding reset start read
  measure n out s = do
    cleared ← reset s
    started ← start cleared
    counted ← read (set_world started (execute n started.world))
    (out', counter) ← stats out counted
    some (out', record counted { counter = counter })

  unfoldable pub measure_all : List ℕ → List Line → Run P → Option (List Line × Run P)
  unfolding measure
  measure_all [] out s = some (out, s)
  measure_all (n ∷ ns) out s = do (out', s') ← measure n out s; measure_all ns out' s'

  -- `main`, with what it has written to the standard output.
  unfoldable pub linear : P.World → Option (List Line × P.World)
  unfolding add measure_all copies end
  linear w = do
    s ← papill_counter {P = P} [] w
    added ← add events s
    (out, measured) ← measure_all copies [] added
    ended ← end measured
    some (out, ended.world)
