-- ===== src/Gather/Reports.antt =====
-- What a schedule prints: the reports of its counters, in the order of the schedule.
use mathlib.Core.List.{append_assoc, append-nil}
use microrev.Counter.Frames.{Benchmark}
use microrev.Common.{
  Option, ◌+◌, arith, ◌⊎◌, inl, inr, false, true, ℕ, ◌<◌, ◌≡◌, refl, some, List, [], ◌∷◌, ◌++◌, map,
  length, ltb, subst,
}
use microrev.Shuffle.Order.{has, Distinct}
use microrev.Threads.{System, Reach, ended}
use microrev.Threads.Safety.{measured_once}
use microrev.Counter.Steps.{tag}
use microrev.Bench.{Schedule, is_nil}
use microrev.Counter.{Papi, PapillCounter, Run}
use microrev.Counter.Laws.{outside, Works}
use microrev.Counter.Rounds.{Rounding}
use microrev.Counter.Thread.{kept_in_all}
use microrev.Counter.Output.{Line, stats, event_name, Report, printed, stats_to_stream-Report}
use microrev.Gather.{stats_all, counters_with_schedule}
use Prim.Native.String.{String}
use microrev.Gather.Laws.{Timing, times_of, total_of, Runnable}
use microrev.Gather.Runs.{AllDone, gathered-AllDone}

-- An entry has no events, or some.
pub is_nil-cases :
    (events : List String)
    → ((is_nil events ≡ true) × (length events ≡ 0))
      ⊎ ((is_nil events ≡ false) × (0 < length events))
is_nil-cases [] = inl (refl, refl)
is_nil-cases (x ∷ xs) = inr (refl, omega arith)

-- The counter of an entry that has run, and has perhaps been printed.
pub record Kept (P : Papi) {B : Type 0} ⦃t : Timing B⦄ (warmup : ℕ) (e : Schedule B)
    (c : PapillCounter) : Type 0 where
  pub core : c.core_id ≡ e.core_id
  pub label : c.label ≡ e.label
  pub codes : length c.cset ≡ length e.events
  pub counts : length c.measured ≡ length e.events
  pub times : length c.vec_cycles_measured ≡ kept_in_all (times_of e.benchmark) e.events warmup
  pub named : (w : P.World) → map (event_name P w) c.cset ≡ e.events

abbrev pub AllKept :
    (P : Papi) {B : Type 0} ⦃t : Timing B⦄ → ℕ → List (Schedule B) → List PapillCounter → Type 0
AllKept P warmup [] [] = Unit
AllKept P warmup [] (c ∷ cs) = ⊥
AllKept P warmup (e ∷ svec) [] = ⊥
AllKept P warmup (e ∷ svec) (c ∷ cs) = Kept P warmup e c × AllKept P warmup svec cs

-- Every entry has an event.
abbrev pub Measuring : {B : Type 0} → List (Schedule B) → Type 0
Measuring [] = Unit
Measuring (e ∷ svec) = (0 < length e.events) × Measuring svec

-- Every entry has an event, or keeps a time, so that its counter prints something.
abbrev pub Printing : {B : Type 0} ⦃t : Timing B⦄ → ℕ → List (Schedule B) → Type 0
Printing warmup [] = Unit
Printing warmup (e ∷ svec) =
    (0 < length e.events + kept_in_all (times_of e.benchmark) e.events warmup)
    × Printing warmup svec

pub Measuring-Printing :
    {B : Type 0} ⦃t : Timing B⦄ (warmup : ℕ) (svec : List (Schedule B))
    → Measuring svec
    → Printing warmup svec
Measuring-Printing warmup [] measuring = tt
Measuring-Printing warmup (e ∷ svec) (some_event, measuring) =
    (omega arith, Measuring-Printing warmup svec measuring)

-- The lines are the reports of these counters, each of an entry, in order.
abbrev pub Reports :
    (P : Papi) {B : Type 0} ⦃t : Timing B⦄
    → ℕ
    → List (Schedule B)
    → List PapillCounter
    → List Line
    → Type 0
Reports P warmup [] [] lines = lines ≡ []
Reports P warmup [] (c ∷ cs) lines = ⊥
Reports P warmup (e ∷ svec) [] lines = ⊥
Reports P warmup (e ∷ svec) (c ∷ cs) lines =
    (own : List Line) × (rest : List Line) × (lines ≡ own ++ rest)
    × Report e.events e.label c.measured c.cycles_measured c.vec_cycles_measured own
    × Kept P warmup e c
    × Reports P warmup svec cs rest

pub AllDone-Kept :
    (P : Papi) {B : Type 0} ⦃t : Timing B⦄ (round : Rounding P B) (warmup : ℕ)
    (svec : List (Schedule B)) (cs : List PapillCounter)
    → AllDone P round warmup svec cs
    → AllKept P warmup svec cs
AllDone-Kept P round warmup [] [] done = tt
AllDone-Kept P round warmup [] (c ∷ cs) done = elim done [ ]
AllDone-Kept P round warmup (e ∷ svec) [] done = elim done [ ]
AllDone-Kept P round warmup (e ∷ svec) (c ∷ cs) ((done, worked), rest) = (
  record {
    core = done.pinned.0;
    label = done.pinned.1;
    codes = done.codes;
    counts = done.counts;
    times = done.times;
    named = worked.named;
  },
  AllDone-Kept P round warmup svec cs rest,
)

-- How many times the entries of a schedule keep, in order.
pub AllKept-times :
    (P : Papi) {B : Type 0} ⦃t : Timing B⦄ (warmup : ℕ) (svec : List (Schedule B))
    (cs : List PapillCounter)
    → AllKept P warmup svec cs
    → map (λ c. length c.vec_cycles_measured) cs
      ≡ map (λ e. kept_in_all (times_of e.benchmark) e.events warmup) svec
AllKept-times P warmup [] [] kept = refl
AllKept-times P warmup [] (c ∷ cs) kept = elim kept [ ]
AllKept-times P warmup (e ∷ svec) [] kept = elim kept [ ]
AllKept-times P warmup (e ∷ svec) (c ∷ cs) (now, kept) =
    rw (now.times, AllKept-times P warmup svec cs kept) refl

pub AllKept-printed :
    (P : Papi) {B : Type 0} ⦃t : Timing B⦄ (warmup : ℕ) (svec : List (Schedule B))
    (cs : List PapillCounter)
    → AllKept P warmup svec cs
    → AllKept P warmup svec (map printed cs)
AllKept-printed P warmup [] [] kept = tt
AllKept-printed P warmup [] (c ∷ cs) kept = elim kept [ ]
AllKept-printed P warmup (e ∷ svec) [] kept = elim kept [ ]
AllKept-printed P warmup (e ∷ svec) (c ∷ cs) (now, kept) = (
  record {
    core = now.core;
    label = now.label;
    codes = now.codes;
    counts = now.counts;
    times = now.times;
    named = now.named;
  },
  AllKept-printed P warmup svec cs kept,
)

module _ (P : Papi) {B : Type 0} ⦃t : Timing B⦄ where
  pub stats-Report :
      (w : P.World) (warmup : ℕ) (e : Schedule B) (c : PapillCounter) (dump : List Line)
      → 0 < length e.events + kept_in_all (times_of e.benchmark) e.events warmup
      → Kept P warmup e c
      → (own : List Line) × (stats {P = P} dump (record { counter = c; world = w })
          ≡ some (dump ++ own, printed c))
        × Report e.events e.label c.measured c.cycles_measured c.vec_cycles_measured own
  stats-Report w warmup e c dump some_event now =
      let s : Run P = record { counter = c; world = w } in
      let (own, wrote, report) =
        stats_to_stream-Report {P = P} e.events (tag c) (length c.vec_cycles_measured) s
          (omega (arith, now.times))
          (record {
            pinned = (refl, refl, refl);
            codes = now.codes;
            counts = now.counts;
            times = refl;
          })
          (now.named w) in
      (
        own,
        rw wrote refl,
        subst (λ l. Report e.events l c.measured c.cycles_measured c.vec_cycles_measured own)
            now.label report,
      )

  pub stats_all-Reports :
      (w : P.World) (warmup : ℕ) (svec : List (Schedule B)) (cs : List PapillCounter)
      (dump : List Line)
      → Printing warmup svec
      → AllKept P warmup svec cs
      → (lines : List Line) × (stats_all P w dump cs ≡ some (dump ++ lines, map printed cs))
        × Reports P warmup svec cs lines
  unfolding stats_all
  stats_all-Reports w warmup [] [] dump measuring kept = ([], rw append-nil refl, refl)
  stats_all-Reports w warmup [] (c ∷ cs) dump measuring kept = elim kept [ ]
  stats_all-Reports w warmup (e ∷ svec) [] dump measuring kept = elim kept [ ]
  stats_all-Reports w warmup (e ∷ svec) (c ∷ cs) dump (some_event, measuring) (now, kept) =
      let (own, wrote, report) = stats-Report w warmup e c dump some_event now in
      let (rest, later, reports) =
        stats_all-Reports w warmup svec cs (dump ++ own) measuring kept in
      (own ++ rest, rw (wrote, later, append_assoc) refl, (own, rest, refl, report, now, reports))

module _ (P : Papi) (works : Works P) {B : Type 0} ⦃t : Timing B⦄
    (body : B → Run P → Option (Run P)) (round : Rounding P B)
    (measures : (b : B) → Benchmark works (total_of b) (times_of b) (round b) (body b))
    (svec : List (Schedule B)) (fits : Runnable P works svec) (measuring : Measuring svec) where
  pub counters_with_schedule-Reports :
      (log : List ℕ) (warmup : ℕ) (dump : List Line) (w : P.World)
      → ((i : ℕ) → has i log ≡ ltb i (length svec))
      → Distinct log
      → works.phase w ≡ outside
      → (cs : List PapillCounter) × (lines : List Line) × (w' : P.World) × (counters_with_schedule P
            body log svec warmup dump w
          ≡ some (dump ++ lines, record { counters = map printed cs; world = w' }))
        × AllDone P round warmup svec cs
        × Reports P warmup svec cs lines
        × (works.phase w' ≡ outside)
  unfolding counters_with_schedule
  counters_with_schedule-Reports log warmup dump w all apart at_outside =
      let (cs, w', g, made, returned, done, at_end) =
        gathered-AllDone P works body round measures svec fits warmup log w all apart at_outside in
      let (lines, printed_now, reports) =
        stats_all-Reports P g.world warmup svec g.counters dump
          (Measuring-Printing warmup svec measuring)
          (AllDone-Kept P round warmup svec g.counters done) in
      (g.counters, lines, g.world, rw (made, returned, printed_now) refl, done, reports, at_end)

  pub counters_with_schedule-in_order :
      {s : System} (warmup : ℕ) (dump : List Line) (w : P.World)
      → Reach (length svec) s
      → s.stage ≡ ended
      → works.phase w ≡ outside
      → (cs : List PapillCounter) × (lines : List Line) × (w' : P.World) × (counters_with_schedule P
            body s.log svec warmup dump w
          ≡ some (dump ++ lines, record { counters = map printed cs; world = w' }))
        × AllDone P round warmup svec cs
        × Reports P warmup svec cs lines
  counters_with_schedule-in_order {s} warmup dump w reach at_end at_outside =
      let (all, apart) = measured_once reach at_end in
      let (cs, lines, w', returned, done, reports, still_outside) =
        counters_with_schedule-Reports s.log warmup dump w all apart at_outside in
      (cs, lines, w', returned, done, reports)
