-- ===== src/Cacheline/Program.antt =====
-- The eight tests of `main` in src/benchmarks/src/cacheline.cpp, as what they do to memory: the
-- scheduler runs each of them three times to warm up and once more, one after the other, and each run
-- allocates an array of its own (`malloc k` for the run number `k`). Its counters are in `Main`.
use microrev.Common.{
  ℕ, suc, ◌+◌, ◌*◌, ◌/◌, ◌%◌, ◌≡◌, refl, arith, true, Option, some, List, [], ◌∷◌, ◌++◌, ◌>>=◌,
  replicate, ltb, leb, ◌==◌, ◌&&◌,
}
use microrev.Constants.{b8, b16, b32, b64, b128, b256, b512, kb1, kb32}
use microrev.Chain.{Memory}
use microrev.Cacheline.{init_stride, chase}
use microrev.Cacheline.Laws.{init_stride-IsRing}

-- `test8` to `test1024`, by their strides.
abbrev pub tests : List ℕ
tests = b8 ∷ b16 ∷ b32 ∷ b64 ∷ b128 ∷ b256 ∷ b512 ∷ kb1 ∷ []

-- `3 /* warmup */`, and the run that is measured.
abbrev pub with_warmup : List ℕ → List ℕ
with_warmup [] = []
with_warmup (stride ∷ strides) = replicate (3 + 1) stride ++ with_warmup strides

module _ (malloc : ℕ → ℕ) (accesses : ℕ) where
  -- Where the walks of `time_rd_latency` end.
  unfoldable pub walks : ℕ → List ℕ → Memory → Option (List ℕ)
  walks k [] m = some []
  walks k (stride ∷ strides) m = do
    built ← init_stride (malloc k) kb32 stride m
    rest ← walks (suc k) strides built.memory
    some (chase accesses built.memory built.iter ∷ rest)

  unfoldable pub cacheline : Memory → Option (List ℕ)
  unfolding walks
  cacheline m = walks 0 (with_warmup tests) m

  -- The word of the ring of `kb32 / stride + 1` words at which `100 * accesses` loads from its last
  -- word end.
  abbrev pub stops : ℕ → List ℕ → List ℕ
  stops k [] = []
  stops k (stride ∷ strides) =
      (malloc k + (kb32 / stride + accesses * 100) % suc (kb32 / stride) * stride)
      ∷ stops (suc k) strides

  abbrev Divides : ℕ → Type 0
  Divides stride =
      (ltb 0 stride && stride / 8 * 8 == stride && kb32 / stride * stride == kb32 && leb stride kb1)
      ≡ true

  abbrev AllDivide : List ℕ → Type 0
  AllDivide [] = Unit
  AllDivide (stride ∷ strides) = Divides stride × AllDivide strides

  walks-stops :
      (k : ℕ) (strides : List ℕ) (m : Memory)
      → AllDivide strides
      → walks k strides m ≡ some (stops k strides)
  unfolding walks
  walks-stops k [] m all = refl
  walks-stops k (stride ∷ strides) m (now, all) =
      let (ring, chased) =
        init_stride-IsRing (malloc k) kb32 stride (kb32 / stride) m (ground arith) (ground arith)
          (ground arith) (ground arith) in
      let rest = walks-stops (suc k) strides ring.memory all in
      rw (ring.returned, rest, chased accesses) refl

  -- cacheline.cpp builds a ring of its own for each of the four runs of its eight tests, and all
  -- walks return: in a ring of 32 KB / stride words and the one behind the array, each walk goes round
  -- from the latter, 100 loads for each access.
  cacheline-stops : (m : Memory) → cacheline m ≡ some (stops 0 (with_warmup tests))
  unfolding cacheline
  cacheline-stops m = walks-stops 0 (with_warmup tests) m (ground arith)
