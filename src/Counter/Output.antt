-- ===== src/Counter/Output.antt =====
-- `stats_to_stream`, `stats` and `print_stats` of `PAPILLCounter`, in src/library/lib/counter.cpp.
-- A file, or the standard output, is a list of lines; the numbers in them are not yet text.
use microrev.Common.{
  ℕ, ◌+◌, ◌≡◌, ◌<◌, refl, arith, Bool, true, false, ◌&&◌, Option, none, some, List, [], ◌∷◌, ◌++◌,
  map, ◌==◌, if◌then◌else◌, length, ◌>>=◌, ap, ==_iff,
}
use microrev.Common.Int.{ℤ}
use microrev.Counter.{Double, plus_quotient, Papi, PapillCounter, Run}
use microrev.Counter.Steps.{Tag}
use microrev.Counter.Thread.{Done}
use Prim.Native.String.{String}

-- The lines of a counter, and those that `run_test` puts before them.
pub data Line : Type 0 where
  label_line : String → Line
  count_line : String → ℤ → Line
  cycles_line : Double → Line
  blank : Line
  test_run : Line
  working_set : ℕ → Line
  test_name : String → Line
  core_setting : String → ℕ → ℕ → ℕ → Line

-- `std::string::empty`
abbrev pub is_empty : String → Bool
is_empty String.[] = true
is_empty (String.◌∷◌ c s) = false

abbrev pub label_lines : String → List Line
label_lines label = if is_empty label then [] else label_line label ∷ []

-- The loop over the events. The assertion makes the two vectors equally long.
abbrev pub count_lines : (ℤ → String) → List ℤ → List ℤ → List Line
count_lines name [] counts = []
count_lines name (code ∷ codes) [] = []
count_lines name (code ∷ codes) (count ∷ counts) =
    count_line (name code) count ∷ count_lines name codes counts

-- `cycles_measured += ( (double)c ) / vec_cycles_measured.size()`, for each time.
abbrev pub add_times : Double → List ℤ → ℕ → Double
add_times total [] size = total
add_times total (c ∷ times) size = add_times (plus_quotient total c size) times size

-- `cycles_measured` after the second loop.
abbrev pub total : PapillCounter → Double
total c = add_times c.cycles_measured c.vec_cycles_measured (length c.vec_cycles_measured)

abbrev pub lines_of : (ℤ → String) → PapillCounter → List Line
lines_of name c =
    label_lines c.label
    ++ (count_lines name c.cset c.measured ++ cycles_line (total c) ∷ blank ∷ [])

-- PAPI_event_code_to_name
abbrev pub event_name : (P : Papi) → P.World → ℤ → String
event_name P w code = P.event_code_to_name code w

module _ {P : Papi} where
  -- `none` is the assertion that fails.
  unfoldable pub stats_to_stream : Run P → Option (List Line × PapillCounter)
  stats_to_stream s =
      if length s.cset == length s.measured
      then (if length s.cset == 0 && length s.vec_cycles_measured == 0
          then some ([], s.counter)
          else some (
            lines_of (event_name P s.world) s.counter,
            record s.counter { cycles_measured = total s.counter },
          ))
      else none

  -- `stats`, over the lines of dump.dat, and `print_stats`, over those of the standard output.
  abbrev pub stats : List Line → Run P → Option (List Line × PapillCounter)
  stats dump s = do written ← stats_to_stream s; some (dump ++ written.0, written.1)

-- The counter after it has printed.
abbrev pub printed : PapillCounter → PapillCounter
printed c = record c { cycles_measured = total c }

-- A line for each event, with its name and its count.
abbrev pub rows : List String → List ℤ → List Line
rows [] counts = []
rows (e ∷ events) [] = []
rows (e ∷ events) (count ∷ counts) = count_line e count ∷ rows events counts

-- What a counter prints: its label, a line for each event, and the average of its times, added to
-- what it has printed before.
abbrev pub Report : List String → String → List ℤ → Double → List ℤ → List Line → Type 0
Report events label counts before times lines =
    lines
    ≡ label_lines label
      ++ (rows events counts ++ cycles_line (add_times before times (length times)) ∷ blank ∷ [])

count_lines-rows :
    (name : ℤ → String) (codes counts : List ℤ)
    → count_lines name codes counts ≡ rows (map name codes) counts
count_lines-rows name [] counts = refl
count_lines-rows name (code ∷ codes) [] = refl
count_lines-rows name (code ∷ codes) (count ∷ counts) =
    ap (λ l. count_line (name code) count ∷ l) (count_lines-rows name codes counts)

module _ {P : Papi} where
  -- A counter that its worker has left, with an event or a time, prints its report.
  pub stats_to_stream-Report :
      (events : List String) (core : Tag) (kept : ℕ) (s : Run P)
      → 0 < length events + kept
      → Done events core kept s.counter
      → map (event_name P s.world) s.cset ≡ events
      → (lines : List Line) × (stats_to_stream s ≡ some (lines, printed s.counter))
        × Report events s.label s.measured s.cycles_measured s.vec_cycles_measured lines
  unfolding stats_to_stream
  stats_to_stream-Report events core kept s some_event done known_by =
      let same : (length s.cset == length s.measured) ≡ true =
        (==_iff (length s.cset) (length s.measured)).1 (omega (arith, done.codes, done.counts)) in
      let busy : (length s.cset == 0 && length s.vec_cycles_measured == 0) ≡ false =
        ground (arith, done.codes, done.times) in
      let name = event_name P s.world in
      (lines_of name s.counter, rw (same, busy) refl, rw (count_lines-rows, known_by) refl)
