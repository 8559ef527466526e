-- ===== src/Counter/Thread.antt =====
-- `counter_thread_fn` with a body that keeps to the order of calls.
use microrev.Common.{
  ℕ, zero, suc, ◌+◌, ◌*◌, ◌≤◌, ◌<◌, ◌≡◌, refl, arith, List, length, subst, sym, ap, ◌∙◌, map,
  Option,
}
use microrev.Counter.{Double, Papi, PapillCounter, Run, timed, warm_up, counter_thread_fn}
use microrev.Counter.Laws.{outside, Works, Known}
use microrev.Counter.Steps.{
  Tag, Tagged, Total, steady, before, Totals, Standing, Standing-before, Fresh, Returns,
  kept_after_reset, add-Standing, reset-Standing, end-Outside,
}
use microrev.Counter.Rounds.{Frame, Rounds, Clears, Worked, clocked_around}
use microrev.Counter.Frames.{Benchmark, framed-Standing}
use Prim.Native.String.{String}

-- How many times a worker keeps, of a body that keeps `times` in a run.
abbrev pub kept_in_all : ℕ → List String → ℕ → ℕ
kept_in_all times events warmup = times + kept_after_reset (length events) (warmup * times)

-- What a worker leaves of its counter.
pub record Done (events : List String) (core : Tag) (kept : ℕ) (c : PapillCounter) : Type 0 where
  pub pinned : Tagged core c
  pub codes : length c.cset ≡ length events
  pub counts : length c.measured ≡ length events
  pub times : length c.vec_cycles_measured ≡ kept

-- The same, of a counter in a machine that its thread has left.
pub record Measured {P : Papi} (works : Works P) (events : List String) (core kept : ℕ) (s : Run P)
    : Type 0 where
  pub phase : works.phase s.world ≡ outside
  pub pinned : s.core_id ≡ core
  pub codes : length s.cset ≡ length events
  pub counts : 0 < length events → length s.measured ≡ length events
  pub times : length s.vec_cycles_measured ≡ kept

no_more : (k : ℕ) → k + 0 ≡ k
no_more k = omega arith

once_each : (k : ℕ) → k * 1 ≡ k
once_each k = omega arith

one_more : (k : ℕ) → 1 + k ≡ suc k
one_more k = omega arith

none_yet : (times k : ℕ) → k ≡ 0 * times + k
none_yet times k = omega arith

more : (times rounds k : ℕ) → rounds * times + (times + k) ≡ suc rounds * times + k
more times rounds k = grind arith

Clears-codes : {P : Papi} (n : ℕ) (s s' : Run P) → Clears n s s' → s'.cset ≡ s.cset
Clears-codes zero s s' clears = ap (λ t. t.cset) clears
Clears-codes (suc n) s s' (call, times, codes) = codes

module _ {P : Papi} (works : Works P) where
  module _ (total : Total) (times : ℕ) (round : ℕ → Run P → Run P → Type 0)
      (benchmark : Run P → Option (Run P))
      (lawful : Benchmark works total times round benchmark) where
    warm_up-Standing :
        (core : ℕ) (label : String) (n rounds k : ℕ) (s : Run P)
        → Standing works (core, label, before total) n k s
        → Returns (warm_up benchmark rounds s) (λ s'.
          Standing works (core, label, before total) n (rounds * times + k) s'
          × Rounds (round n) rounds s s'
          × (s'.cset ≡ s.cset))
    unfolding warm_up
    warm_up-Standing core label n zero k s st = (
      s,
      refl,
      (
        subst (λ j. Standing works (core, label, before total) n j s) (none_yet times k) st,
        refl,
        refl,
      ),
    )
    warm_up-Standing core label n (suc rounds) k s st =
        let (s', once, (st', counted, now, codes)) = lawful.run core label n k s st in
        let (s'', rest, (st'', rounds_left, codes')) =
          warm_up-Standing core label n rounds (times + k) s'
            (Standing-before works core label total n (times + k) s' st') in
        (
          s'',
          rw (once, rest) refl,
          (
            subst (λ j. Standing works (core, label, before total) n j s'') (more times rounds k)
                st'',
            (s', now, rounds_left),
            codes' ∙ codes,
          ),
        )

    pub counter_thread_fn-Done :
        (events : List String) (core warmup : ℕ) (s : Run P)
        → Totals (before total) s.cycles_measured
        → Known works events
        → Fresh works s
        → length events ≤ s.max_hw_cntrs
        → Returns (counter_thread_fn events core benchmark warmup s) (λ s'.
          (works.phase s'.world ≡ outside)
          × Done events (core, s.label, total) (kept_in_all times events warmup) s'.counter
          × Worked round events warmup s'.counter)
    unfolding counter_thread_fn
    counter_thread_fn-Done events core warmup s so_far known fresh fits =
        let n = length events in
        let as_new : Tag = (core, s.label, before total) in
        let as_core : Tag = (core, s.label, total) in
        let s' : Run P = record s { counter = record s.counter { core_id = core } } in
        let (s0, added, (st0, named, no_times)) =
          add-Standing works events as_new s' (refl, refl, so_far) known
            (record {
              phase = fresh.phase;
              cset = fresh.cset;
              cycles = fresh.cycles;
              measured = fresh.measured;
            })
            fits in
        let (s1, warm, (st1, warms, codes1)) = warm_up-Standing core s.label n warmup 0 s0 st0 in
        let (s2, cleared, (st2, full, clears)) =
          reset-Standing works as_new n (warmup * times + 0) s1 st1 in
        let (s3, last, (st3, kept, measures, codes3)) =
          lawful.run core s.label n (kept_after_reset n (warmup * times + 0)) s2 st2 in
        let (s4, ended, (at_outside, same)) =
          end-Outside works as_core n (times + kept_after_reset n (warmup * times + 0)) s3 st3 in
        (
          s4,
          rw (added, warm, cleared, last, ended) refl,
          (
            at_outside,
            record {
              pinned = subst (Tagged as_core) (sym same) st3.pinned;
              codes = ap (λ c. length c.cset) same ∙ st3.events;
              counts = ap (λ c. length c.measured) same ∙ kept full;
              times =
                  ap (λ c. length c.vec_cycles_measured) same
                  ∙ st3.cycles
                  ∙ ap (λ j. times + kept_after_reset n j) (no_more (warmup * times));
            },
            record {
              at_first = s0;
              warm = s1;
              cleared = s2;
              left = s3;
              no_times = no_times;
              warms = warms;
              clears = clears;
              last = measures;
              counts = ap (λ c. c.measured) same;
              times = ap (λ c. c.vec_cycles_measured) same;
              total = ap (λ c. c.cycles_measured) same;
              named = λ w.
                  ap (λ codes. map (λ code. P.event_code_to_name code w) codes)
                    (ap (λ c. c.cset) same ∙ codes3 ∙ Clears-codes n s1 s2 clears ∙ codes1)
                  ∙ named w;
            },
          ),
        )

  module _ (walk : P.World → P.World)
      (walk_keeps : (w : P.World) → works.phase (walk w) ≡ works.phase w) where
    in_phase : (w : P.World) → works.phase (P.rdtsc (walk (P.rdtsc w).1)).1 ≡ works.phase w
    in_phase w = works.rdtsc (walk (P.rdtsc w).1) ∙ walk_keeps (P.rdtsc w).1 ∙ works.rdtsc w

    pub timed-Benchmark :
        (d : Double) → Benchmark works (steady d) 1 (Frame (clocked_around P walk)) (timed walk)
    unfolding timed
    timed-Benchmark d = record {
      run = λ core label n k s st.
          let (s', returned, (st', counted, frame)) =
            framed-Standing works (clocked_around P walk) in_phase (core, label, steady d) n k s
              st in
          (
            s',
            returned,
            (
              subst (λ j. Standing works (core, label, steady d) n j s') (sym (one_more k)) st',
              (λ full. counted),
              frame,
              frame.codes,
            ),
          );
    }

    -- A worker with a new counter leaves the machine as it found it. Its counts are those that the stop of
    -- its last run gives, one for each event, and each time is the clock behind the walk less the clock
    -- before it. It
    -- keeps the time of its last round alone, if it has an event; without events it keeps those of its
    -- warm-up rounds as well. This holds for events that are known and fit the machine.
    pub counter_thread_fn-Measured :
        (events : List String) (core warmup : ℕ) (s : Run P)
        → Known works events
        → Fresh works s
        → length events ≤ s.max_hw_cntrs
        → Returns (counter_thread_fn events core (timed walk) warmup s) (λ s'.
          Measured works events core (suc (kept_after_reset (length events) warmup)) s'
          × Worked (Frame {P = P} (clocked_around P walk)) events warmup s'.counter)
    counter_thread_fn-Measured events core warmup s known fresh fits =
        let (s', returned, (at_outside, done, worked)) =
          counter_thread_fn-Done (steady s.cycles_measured) 1 (Frame (clocked_around P walk))
            (timed walk) (timed-Benchmark s.cycles_measured) events core warmup s refl known fresh
            fits in
        (
          s',
          returned,
          (
            record {
              phase = at_outside;
              pinned = done.pinned.0;
              codes = done.codes;
              counts = λ some_event. done.counts;
              times =
                  done.times
                  ∙ ap (λ j. 1 + kept_after_reset (length events) j) (once_each warmup)
                  ∙ one_more (kept_after_reset (length events) warmup);
            },
            worked,
          ),
        )
