-- ===== src/Icache/Laws.antt =====
-- The program prints one report for each of its five pieces of code.
use mathlib.Core.List.{append_assoc, append-nil}
use microrev.Common.{
  nil_of_length, ℕ, ◌*◌, ◌≡◌, refl, ap, subst, ◌∙◌, arith, some, List, [], ◌∷◌, ◌++◌, length, map,
}
use microrev.Common.Int.{ℤ}
use microrev.Counter.{Double, nought, Papi, Run}
use microrev.Counter.Rounds.{Clears}
use microrev.Counter.Laws.{outside, Works, Known}
use microrev.Counter.Steps.{
  Named, steady, Tag, Standing, Fresh, add-Standing, reset-Standing, end-Outside,
}
use microrev.Counter.Frames.{start-Counting, read-Standing}
use microrev.Counter.Init.{papill_counter-New}
use microrev.Counter.Output.{Line, Report, printed, add_times, total, stats_to_stream-Report}
use microrev.Icache.{
  copies, events, measure, measure_all, linear, r4096, r8192, r16384, r32768, r65536,
}
use Prim.Native.String.{String}

-- The reports of pieces of code, each of one event and without a time: the counters are cleared and
-- set going, the code is executed, and the counts are those that the stop gives.
abbrev pub Printed : (P : Papi) → (ℕ → P.World → P.World) → List ℕ → Run P → List Line → Type 0
Printed P execute [] s lines = lines ≡ []
Printed P execute (n ∷ ns) s lines =
    (cleared : Run P) × (w : P.World) × (next : Run P) × (own : List Line) × (rest : List Line)
    × (lines ≡ own ++ rest)
    × Clears {P = P} 1 s cleared
    × (P.start cleared.event_set cleared.world ≡ some w)
    × (P.stop cleared.event_set (execute n w) ≡ some (next.measured, next.world))
    × Report events "" next.measured nought [] own
    × Printed P execute ns next rest

abbrev of_main : Tag
of_main = (0, "", steady nought)

module _ (P : Papi) (works : Works P) (execute : ℕ → P.World → P.World)
    (execute_keeps : (n : ℕ) (w : P.World) → works.phase (execute n w) ≡ works.phase w) where
  measure_all-Printed :
      (ns : List ℕ) (out : List Line) (s : Run P)
      → Standing works of_main 1 0 s
      → Named {P = P} events s
      → (lines : List Line) × (s' : Run P) × (measure_all P execute ns out s
          ≡ some (out ++ lines, s'))
        × Printed P execute ns s lines
        × Standing works of_main 1 0 s'
  unfolding measure_all measure
  measure_all-Printed [] out s st named = ([], s, rw append-nil refl, refl, st)
  measure_all-Printed (n ∷ ns) out s st named =
      let (s1, cleared, (st1, full, clears)) = reset-Standing works of_main 1 0 s st in
      let (w, started, at_counting, begun) = start-Counting works of_main 0 0 s1 st1 in
      let (s2, counted, (st2, one_each, stopped, codes, times)) =
        read-Standing works of_main 0 0 s1 (execute n w) st1 (execute_keeps n w ∙ at_counting) in
      let named2 : Named {P = P} events s2 =
        λ v. ap (map (λ code. P.event_code_to_name code v)) (codes ∙ clears.2) ∙ named v in
      let (own, wrote, report) =
        stats_to_stream-Report {P = P} events of_main 0 s2 (omega arith)
          (record {
            pinned = st2.pinned;
            codes = st2.events;
            counts = one_each;
            times = st2.cycles;
          })
          (named2 s2.world) in
      let untimed = nil_of_length s2.vec_cycles_measured st2.cycles in
      let (core, label, before) = st2.pinned in
      let after : total s2.counter ≡ nought =
        ap (λ ts. add_times s2.cycles_measured ts (length ts)) untimed ∙ before in
      let next : Run P = record s2 { counter = printed s2.counter } in
      let (rest, s'', later, reports, st'') =
        measure_all-Printed ns (out ++ own) next
          (record {
            phase = st2.phase;
            events = st2.events;
            cycles = st2.cycles;
            pinned = (core, label, after);
            room = st2.room;
          })
          named2 in
      (
        own ++ rest,
        s'',
        rw (cleared, started, counted, wrote, later, append_assoc out own rest) refl,
        (
          s1,
          w,
          next,
          own,
          rest,
          refl,
          clears,
          begun,
          stopped,
          subst (λ (x : String × Double × List ℤ). Report events x.0 s2.measured x.1 x.2 own)
              (λ i. (label i, before i, untimed i)) report,
          reports,
        ),
        st'',
      )

  -- The program returns, unregisters its thread, and prints five reports, each of one event and
  -- without a time. Before each the counters are cleared and set going, the code is executed, and the
  -- count beside the name of the event is the one that PAPI's stop then gives. The code is executed
  -- 1021 * 4 times before the first report, where the name of the macro says 4096, and so on up to
  -- 1021 * 64 = 65344. This holds where the calls of PAPI keep to its order and the machine knows the
  -- event and can count it.
  pub linear-Printed :
      (w : P.World)
      → Known works events
      → works.phase w ≡ outside
      → (begun : Run P) × (out : List Line) × (w' : P.World) × (linear P execute w ≡ some (out, w'))
        × Printed P execute (1021 * 4 ∷ 1021 * 8 ∷ 1021 * 16 ∷ 1021 * 32 ∷ 1021 * 64 ∷ []) begun out
        × (works.phase w' ≡ outside)
  unfolding linear copies r4096 r8192 r16384 r32768 r65536
  linear-Printed w known at_outside =
      let (s, made, (new, same)) = papill_counter-New works w in
      let fresh : Fresh works s = record {
        phase = same ∙ at_outside;
        cset = new.cset;
        cycles = new.cycles;
        measured = new.measured;
      } in
      let (s1, added, (st1, named, no_times)) =
        add-Standing works events of_main s (new.core, new.label, new.total) known fresh
          (rw new.room (omega arith)) in
      let (out, s2, returned, printed_five, st2) = measure_all-Printed copies [] s1 st1 named in
      let (s3, ended, (still, others)) = end-Outside works of_main 1 0 s2 st2 in
      (s1, out, s3.world, rw (made, added, returned, ended) refl, printed_five, still)
