-- ===== src/Sweep/Laws.antt =====
-- A list of calls leaves the records of its tests in dump.dat, in order.
use mathlib.Core.List.{append_assoc, append-nil}
use microrev.Gather.Laws.{body_timing, round_of}
use microrev.Common.{
  ℕ, zero, suc, ◌≤◌, ◌<◌, ◌≡◌, refl, Bool, true, false, some, List, [], ◌∷◌, ◌++◌, map, length, ltb,
  ◌∙◌,
}
use microrev.Shuffle.Order.{has, Distinct}
use microrev.Bench.{Body, MesiType, producer_consumer, CorePlacement, Cores, test_schedule}
use microrev.Counter.{Papi, PapillCounter}
use microrev.Counter.Laws.{outside, Works, Known}
use microrev.Counter.Output.{Line, printed}
use microrev.Gather.{Gathered}
use microrev.Gather.Runs.{AllDone}
use microrev.Gather.Reports.{Reports}
use microrev.Dump.{header, is_producer_consumer, schedule, run_test}
use microrev.Dump.Laws.{AllUnprinted, counters_of, stats_of, run_test-Shows}
use microrev.Dump.Twice.{run_test-Twice}
use microrev.Sweep.{Test, Call, set_up, test, for_each, repeat, run_calls}
use Prim.Native.String.{String}

module _ (P : Papi) (walk : Body → P.World → P.World) (k : Cores) where
  -- What follows the header of a test: of a producer and a consumer the reports of both, twice; of
  -- any other test the reports of the entries that have events, on the counters of their runs.
  abbrev pub Written : Bool → Test → List Line → Type 0
  Written true t lines =
      (first : List Line) × (again : List Line) × (cs : List PapillCounter) × (lines
        ≡ first ++ again)
      × AllDone P (round_of P walk) 0 (schedule k producer_consumer t.placement t.events) cs
      × Reports P 0 (schedule k producer_consumer t.placement t.events) cs first
      × Reports P 0 (schedule k producer_consumer t.placement t.events) (map printed cs) again
  Written false t lines =
      (cs : List PapillCounter) × AllDone P (round_of P walk) 0
        (schedule k t.kind t.placement t.events) cs
      × AllUnprinted cs
      × Reports P 0 (stats_of k t.events t.kind t.placement)
          (counters_of (schedule k t.kind t.placement t.events) cs) lines

  abbrev pub Records : List Call → List Line → Type 0
  Records [] lines = lines ≡ []
  Records (set_up size ∷ calls) lines = Records calls lines
  Records (test t ∷ calls) lines =
      (own : List Line) × (rest : List Line) × (lines
        ≡ header t.size t.kind t.placement k ++ (own ++ rest))
      × Written (is_producer_consumer t.kind) t own
      × Records calls rest

module _ (k : Cores) where
  -- In each test each worker ends once, as `measured_once` and `in_order_complete` have it.
  abbrev pub Complete : (ℕ → Test → List ℕ) → Type 0
  Complete order =
      (i : ℕ) (t : Test)
      → ((j : ℕ) → has j (order i t) ≡ ltb j (length (schedule k t.kind t.placement t.events)))
        × Distinct (order i t)

-- Each test has events, which are known and fit the machine.
abbrev pub Fits : (P : Papi) → Works P → List Call → Type 0
Fits P works [] = Unit
Fits P works (set_up size ∷ calls) = Fits P works calls
Fits P works (test t ∷ calls) =
    (Known works t.events × (0 < length t.events) × (length t.events ≤ suc works.counters))
    × Fits P works calls

module _ (P : Papi) (works : Works P) where
  pub Fits-append :
      (xs ys : List Call) → Fits P works xs → Fits P works ys → Fits P works (xs ++ ys)
  Fits-append [] ys fits others = others
  Fits-append (set_up size ∷ xs) ys fits others = Fits-append xs ys fits others
  Fits-append (test t ∷ xs) ys (now, fits) others = (now, Fits-append xs ys fits others)

  pub for_each-Fits :
      {A : Type 0} (xs : List A) (calls : A → List Call)
      → ((x : A) → Fits P works (calls x))
      → Fits P works (for_each xs calls)
  unfolding for_each
  for_each-Fits [] calls each = tt
  for_each-Fits (x ∷ xs) calls each =
      Fits-append (calls x) (for_each xs calls) (each x) (for_each-Fits xs calls each)

  pub repeat-Fits : (n : ℕ) (calls : List Call) → Fits P works calls → Fits P works (repeat n calls)
  unfolding repeat
  repeat-Fits zero calls fits = tt
  repeat-Fits (suc n) calls fits =
      Fits-append calls (repeat n calls) fits (repeat-Fits n calls fits)

module _ (P : Papi) (works : Works P) (walk : Body → P.World → P.World)
    (walk_keeps : (b : Body) (w : P.World) → works.phase (walk b w) ≡ works.phase w)
    (prepare : ℕ → P.World → P.World)
    (prepare_keeps : (size : ℕ) (w : P.World) → works.phase (prepare size w) ≡ works.phase w)
    (k : Cores) where
  run_test-Written :
      (log : List ℕ) (size : ℕ) (t : MesiType) (c : CorePlacement) (events : List String)
      (dump : List Line) (w : P.World)
      → Known works events × (0 < length events) × (length events ≤ suc works.counters)
      → ((j : ℕ) → has j log ≡ ltb j (length (schedule k t c events)))
      → Distinct log
      → works.phase w ≡ outside
      → (own : List Line) × (g : Gathered P) × (run_test P walk k log size t c events dump w
          ≡ some ((dump ++ header size t c k) ++ own, g))
        × Written P walk k
            (is_producer_consumer t)
            (record { size = size; kind = t; placement = c; events = events })
            own
        × (works.phase g.world ≡ outside)
  unfolding test_schedule
  run_test-Written log size producer_consumer c events dump w (known, filled, room) all apart at =
      let (first, again, g, cs, returned, done, reports, reports_again, still) =
        run_test-Twice P works walk walk_keeps events known filled room k log size c dump w all
          apart at in
      (first ++ again, g, returned, (first, again, cs, refl, done, reports, reports_again), still)
  run_test-Written log size t c events dump w (known, filled, room) all apart at =
      let (lines, g, cs, returned, done, unprinted, reports, still) =
        run_test-Shows P works walk walk_keeps events known room k log size t c dump w refl all
          apart at in
      (lines, g, returned, (cs, done, unprinted, reports), still)

  -- The calls return, and dump.dat has the records of the tests, in order, behind what it had.
  pub run_calls-Records :
      (order : ℕ → Test → List ℕ) (i : ℕ) (calls : List Call) (dump : List Line) (w : P.World)
      → Complete k order
      → Fits P works calls
      → works.phase w ≡ outside
      → (lines : List Line) × (w' : P.World) × (run_calls P walk prepare k order i calls dump w
          ≡ some (dump ++ lines, w'))
        × Records P walk k calls lines
  unfolding run_calls
  run_calls-Records order i [] dump w complete fits at = ([], w, rw append-nil refl, refl)
  run_calls-Records order i (set_up size ∷ calls) dump w complete fits at =
      run_calls-Records order (suc i) calls dump (prepare size w) complete fits
        (prepare_keeps size w ∙ at)
  run_calls-Records order i (test t ∷ calls) dump w complete (now, fits) at =
      let (all, apart) = complete i t in
      let head = header t.size t.kind t.placement k in
      let (own, g, returned, written, still) =
        run_test-Written (order i t) t.size t.kind t.placement t.events dump w now all apart at in
      let (rest, w', later, records) =
        run_calls-Records order (suc i) calls ((dump ++ head) ++ own) g.world complete fits still in
      let joined : ((dump ++ head) ++ own) ++ rest ≡ dump ++ (head ++ (own ++ rest)) =
        append_assoc (dump ++ head) own rest ∙ append_assoc dump head (own ++ rest) in
      (
        head ++ (own ++ rest),
        w',
        rw (returned, later, joined) refl,
        (own, rest, refl, written, records),
      )
