-- ===== src/Counter.antt =====
-- src/library/lib/counter.cpp and src/library/include/counter.h: `PAPILLCounter`, the counter of the
-- PAPI build, and `counter_thread_fn` of src/library/include/thread_utils.h, which drives it.
-- PAPI and the clock are a parameter: a record of calls over a state of the machine, `none` where a
-- call does not return PAPI_OK. The program exits then, so that `none` is also its exit here.
pub mod Laws
pub mod Rounds
pub mod Steps
pub mod Frames
pub mod Thread
pub mod Output
pub mod Init
pub mod Machine
mod Tests
use microrev.Common.{
  ℕ, zero, suc, ◌+◌, ◌-◌, ◌%◌, ◌^◌, Bool, Option, none, some, List, [], ◌∷◌, ◌++◌, map, ltb,
  if◌then◌else◌, length, ◌>>=◌,
}
use microrev.Common.Int.{ℤ, pos}
use microrev.Average.{from_u64}
use Prim.Native.String.{String}

pub record Papi : Type 1 where
  pub World : Type 0
  -- Whether PAPI_library_init returns the version that it is given.
  pub library_init : World → Option World
  pub num_counters : World → ℕ
  pub thread_init : World → Option World
  pub register_thread : World → Option World
  pub unregister_thread : World → Option World
  -- The new event set, beside the state.
  pub create_eventset : World → Option (ℕ × World)
  pub event_name_to_code : String → World → Option ℤ
  pub event_code_to_name : ℤ → World → String
  pub add_events : ℕ → List ℤ → World → Option World
  pub start : ℕ → World → Option World
  -- The counts that the call writes to its array.
  pub stop : ℕ → World → Option (List ℤ × World)
  pub reset : ℕ → World → Option World
  pub cleanup_eventset : ℕ → World → Option World
  pub destroy_eventset : ℕ → World → Option World
  -- The name of a destroyed event set, PAPI_NULL.
  pub null : ℕ
  pub rdtsc : World → ℕ × World

-- A `double` that the code computes: the operations that give it, each with its rounding.
pub data Double : Type 0 where
  nought : Double
  of_u64 : ℕ → Double
  plus_quotient : Double → ℤ → ℕ → Double  -- d + (double)c / n

-- `collect` is never used.
pub record PapillCounter : Type 0 where
  pub measured : List ℤ
  pub cset : List ℤ
  pub cycles_measured : Double
  pub vec_cycles_measured : List ℤ
  pub core_id : ℕ
  pub event_set : ℕ
  pub max_hw_cntrs : ℕ
  pub label : String

-- `std::vector::resize`
abbrev pub resize : ℕ → List ℤ → List ℤ
resize zero xs = []
resize (suc n) [] = pos 0 ∷ resize n []
resize (suc n) (x ∷ xs) = x ∷ resize n xs

-- A callee writes the values to the array; more values than places are out of bounds.
abbrev pub fill : List ℤ → List ℤ → Option (List ℤ)
fill buffer [] = some buffer
fill [] (v ∷ values) = none
fill (b ∷ buffer) (v ∷ values) = do rest ← fill buffer values; some (v ∷ rest)

-- A counter and the machine that its calls act on.
pub record Run (P : Papi) : Type 0 where
  pub counter : PapillCounter
  pub open counter use *
  pub world : P.World

-- The loop of `add` over the names.
abbrev pub to_codes : (P : Papi) → P.World → List String → Option (List ℤ)
to_codes P w [] = some []
to_codes P w (e ∷ events) = do
  code ← P.event_name_to_code e w
  codes ← to_codes P w events
  some (code ∷ codes)

-- `end - start`, kept as an int64_t.
abbrev pub elapsed : ℕ → ℕ → ℤ
elapsed begin finish = from_u64 ((finish + 2 ^ 64 - begin) % 2 ^ 64)

module _ {P : Papi} where
  -- `cset.size() > 0`
  abbrev pub has_events : Run P → Bool
  has_events s = ltb 0 (length s.cset)

  abbrev pub set_world : Run P → P.World → Run P
  set_world s w = record s { world = w }

  -- The block of `add` under `events.size() > 0`.
  abbrev pub add_codes : List String → Run P → Option (Run P)
  add_codes [] s = some s
  add_codes (e ∷ events) s = do
    codes ← to_codes P s.world (e ∷ events)
    w ← P.add_events s.event_set codes s.world
    some (record s { counter = record s.counter { cset = s.cset ++ codes }; world = w })

  unfoldable pub add : List String → Run P → Option (Run P)
  add events s = if ltb s.max_hw_cntrs (length events) then none else (do
    w ← P.register_thread s.world
    created ← P.create_eventset w
    add_codes events
        (record s { counter = record s.counter { event_set = created.0 }; world = created.1 }))

  unfoldable pub start : Run P → Option (Run P)
  start s =
      if has_events s then (do w ← P.start s.event_set s.world; some (set_world s w)) else some s

  unfoldable pub read : Run P → Option (Run P)
  read s =
      if has_events s
      then (do
        stopped ← P.stop s.event_set s.world
        counts ← fill (resize (length s.cset) s.measured) stopped.0
        some (record s { counter = record s.counter { measured = counts }; world = stopped.1 }))
      else some s

  -- Without events nothing is cleared.
  unfoldable pub reset : Run P → Option (Run P)
  reset s =
      if has_events s
      then (do
        w ← P.reset s.event_set s.world
        some (record s {
          counter = record s.counter {
            measured = resize (length s.cset) [];
            vec_cycles_measured = [];
          };
          world = w;
        }))
      else some s

  unfoldable pub end : Run P → Option (Run P)
  end s = do
    cleaned ← P.cleanup_eventset s.event_set s.world
    destroyed ← P.destroy_eventset s.event_set cleaned
    left ← P.unregister_thread destroyed
    some (record s { counter = record s.counter { event_set = P.null }; world = left })

  -- `pc.vec_cycles_measured.push_back( cycles )`
  abbrev pub keep_time : ℤ → Run P → Run P
  keep_time cycles s = record s {
    counter = record s.counter { vec_cycles_measured = s.vec_cycles_measured ++ cycles ∷ [] };
  }

  -- `start`, then what a body does between, which gives a value and the next state of the machine;
  -- `read`.
  unfoldable pub bracketed : {A : Type 0} → (P.World → A × P.World) → Run P → Option (A × Run P)
  unfolding start read
  bracketed between s = do
    started ← start s
    let (a, w) = between started.world
    stopped ← read (set_world started w)
    some (a, stopped)

  -- The value is a time, which is kept.
  unfoldable pub framed : (P.World → ℤ × P.World) → Run P → Option (Run P)
  unfolding bracketed
  framed between s = do (cycles, stopped) ← bracketed between s; some (keep_time cycles stopped)

  -- The frame of `reader_` and `writer_` around their loop, which is `walk`.
  unfoldable pub timed : (P.World → P.World) → Run P → Option (Run P)
  unfolding framed
  timed walk = framed λ w.
      let (begin, w1) = P.rdtsc w in
      let (finish, w2) = P.rdtsc (walk w1) in (elapsed begin finish, w2)

  -- `for( int i = 0; i < warmup; ++i ) benchmark( counter );`
  unfoldable pub warm_up : (Run P → Option (Run P)) → ℕ → Run P → Option (Run P)
  warm_up benchmark zero s = some s
  warm_up benchmark (suc rounds) s = benchmark s >>= warm_up benchmark rounds

  -- What a worker does with its counter between `cv.wait` and `ready = true`.
  unfoldable pub counter_thread_fn :
      List String → ℕ → (Run P → Option (Run P)) → ℕ → Run P → Option (Run P)
  unfolding add warm_up reset end
  counter_thread_fn events core_id benchmark warmup s = do
    added ← add events (record s { counter = record s.counter { core_id = core_id } })
    warm ← warm_up benchmark warmup added
    cleared ← reset warm
    measured ← benchmark cleared
    end measured
