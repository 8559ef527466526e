-- ===== src/Counter/Steps.antt =====
-- Each operation of the counter returns where PAPI's order of calls is kept.
use microrev.Common.{
  ℕ, zero, suc, ◌≤◌, ◌≡◌, refl, arith, true, false, Option, some, List, [], ◌∷◌, ◌++◌, map, length,
  le→ltb_false, lt→ltb, ap, ◌∙◌,
}
use microrev.Counter.{Papi, has_events, Run, resize, add, reset, end, Double, of_u64, PapillCounter}
use microrev.Counter.Laws.{
  outside, holding, Works, Known, to_codes-Codes, names-Codes, length-Codes, length-resize,
}
use microrev.Counter.Rounds.{Clears}
use Prim.Native.String.{String}

-- What is known of `cycles_measured`: that it has kept its value, nothing, or that it is a number of
-- cycles that a benchmark has written there.
pub data Total : Type 0 where
  steady : Double → Total
  any : Total
  clocked : Total

abbrev pub Totals : Total → Double → Type 0
Totals (steady d) now = now ≡ d
Totals any now = Unit
Totals clocked now = (cycles : ℕ) × (now ≡ of_u64 cycles)

-- What is known before the benchmark has run.
abbrev pub before : Total → Total
before (steady d) = steady d
before any = any
before clocked = any

Totals-before : (total : Total) (now : Double) → Totals total now → Totals (before total) now
Totals-before (steady d) now known = known
Totals-before any now known = tt
Totals-before clocked now known = tt

-- What a worker's operations leave alone: the core and the label, and what is known of the total.
abbrev pub Tag : Type 0
Tag = ℕ × String × Total

abbrev pub tag : PapillCounter → Tag
tag c = (c.core_id, c.label, steady c.cycles_measured)

abbrev pub Tagged : Tag → PapillCounter → Type 0
Tagged core c = (c.core_id ≡ core.0) × (c.label ≡ core.1) × Totals core.2 c.cycles_measured

-- A counter with `n` events and `k` times kept, whose event set is stopped.
pub record Standing {P : Papi} (works : Works P) (core : Tag) (n k : ℕ) (s : Run P) : Type 0 where
  pub phase : works.phase s.world ≡ holding s.event_set n
  pub events : length s.cset ≡ n
  pub cycles : length s.vec_cycles_measured ≡ k
  pub pinned : Tagged core s.counter
  pub room : length s.measured ≤ n

pub Standing-before :
    {P : Papi} (works : Works P) (core : ℕ) (label : String) (total : Total) (n k : ℕ) (s : Run P)
    → Standing works (core, label, total) n k s
    → Standing works (core, label, before total) n k s
Standing-before works core label total n k s st = record {
  phase = st.phase;
  events = st.events;
  cycles = st.cycles;
  pinned = (st.pinned.0, st.pinned.1, Totals-before total s.cycles_measured st.pinned.2);
  room = st.room;
}

-- A counter that has just been made.
pub record Fresh {P : Papi} (works : Works P) (s : Run P) : Type 0 where
  pub phase : works.phase s.world ≡ outside
  pub cset : s.cset ≡ []
  pub cycles : s.vec_cycles_measured ≡ []
  pub measured : s.measured ≡ []

-- The codes have these names.
abbrev pub Named : {P : Papi} → List String → Run P → Type 0
Named {P} events s = (w : P.World) → map (λ code. P.event_code_to_name code w) s.cset ≡ events

-- The outcome of an operation that returns, with what holds then.
abbrev pub Returns : {P : Papi} → Option (Run P) → (Run P → Type 0) → Type 0
Returns {P} outcome Then = (s' : Run P) × (outcome ≡ some s') × Then s'

-- With events, only the times since the reset are kept; without, all of them.
abbrev pub kept_after_reset : ℕ → ℕ → ℕ
kept_after_reset zero k = k
kept_after_reset (suc n) k = 0

module _ {P : Papi} (works : Works P) where
  pub add-Standing :
      (events : List String) (core : Tag) (s : Run P)
      → Tagged core s.counter
      → Known works events
      → Fresh works s
      → length events ≤ s.max_hw_cntrs
      → Returns (add events s) (λ s'.
        Standing works core (length events) 0 s' × Named events s' × (s'.vec_cycles_measured ≡ []))
  unfolding add
  add-Standing [] core s tagged known fresh fits =
      let (w, registered, at_inside) = works.register_thread s.world fresh.phase in
      let (h, w', created, at_holding) = works.create_eventset w at_inside in
      (
        record s { counter = record s.counter { event_set = h }; world = w' },
        rw (le→ltb_false s.max_hw_cntrs 0 fits, registered, created) refl,
        (
          record {
            phase = at_holding;
            events = ap length fresh.cset;
            cycles = ap length fresh.cycles;
            pinned = tagged;
            room = omega (arith, ap length fresh.measured);
          },
          (λ w'. rw fresh.cset refl),
          fresh.cycles,
        ),
      )
  add-Standing (e ∷ events) core s tagged known fresh fits =
      let (w, registered, at_inside) = works.register_thread s.world fresh.phase in
      let (h, w', created, at_holding) = works.create_eventset w at_inside in
      let codes = known.codes in
      let found = to_codes-Codes P w' (e ∷ events) codes known.matched in
      let same = length-Codes P (e ∷ events) codes known.matched in
      let (w'', added, at_added) = works.add_events w' h codes at_holding known.fit in
      (
        record s {
          counter = record s.counter { event_set = h; cset = s.cset ++ codes };
          world = w'';
        },
        rw
            (
              le→ltb_false s.max_hw_cntrs (length (e ∷ events)) fits,
              registered,
              created,
              found,
              added,
            )
            refl,
        (
          record {
            phase = at_added ∙ ap (holding h) same;
            events = rw fresh.cset same;
            cycles = ap length fresh.cycles;
            pinned = tagged;
            room = omega (arith, ap length fresh.measured);
          },
          (λ v. rw fresh.cset (names-Codes P v (e ∷ events) codes known.matched)),
          fresh.cycles,
        ),
      )

  pub has_events-none :
      (core : Tag) (k : ℕ) (s : Run P) → Standing works core 0 k s → has_events s ≡ false
  has_events-none core k s st = le→ltb_false 0 (length s.cset) (omega (arith, st.events))

  pub has_events-some :
      (core : Tag) (n k : ℕ) (s : Run P) → Standing works core (suc n) k s → has_events s ≡ true
  has_events-some core n k s st = lt→ltb 0 (length s.cset) (omega (arith, st.events))

  pub reset-Standing :
      (core : Tag) (n k : ℕ) (s : Run P)
      → Standing works core n k s
      → Returns (reset s) (λ s'.
        Standing works core n (kept_after_reset n k) s' × (length s'.measured ≡ n) × Clears n s s')
  unfolding reset
  reset-Standing core zero k s st =
      (s, rw (has_events-none core k s st) refl, (st, omega (arith, st.room), refl))
  reset-Standing core (suc n) k s st =
      let (w, done, at_holding) = works.reset s.world s.event_set n st.phase in
      (
        record {
          counter = record s.counter {
            measured = resize (length s.cset) [];
            vec_cycles_measured = [];
          };
          world = w;
        },
        rw (has_events-some core n k s st, done) refl,
        (
          record {
            phase = at_holding;
            events = st.events;
            cycles = refl;
            pinned = st.pinned;
            room = omega (arith, length-resize (length s.cset) [], st.events);
          },
          length-resize (length s.cset) [] ∙ st.events,
          (done, refl, refl),
        ),
      )

  pub end-Outside :
      (core : Tag) (n k : ℕ) (s : Run P)
      → Standing works core n k s
      → Returns (end s) (λ s'.
        (works.phase s'.world ≡ outside) × (s'.counter ≡ record s.counter { event_set = P.null }))
  unfolding end
  end-Outside core n k s st =
      let (w, cleaned, at_empty) = works.cleanup_eventset s.world s.event_set n st.phase in
      let (w', destroyed, at_inside) = works.destroy_eventset w s.event_set at_empty in
      let (w'', left, at_outside) = works.unregister_thread w' at_inside in
      (
        record s { counter = record s.counter { event_set = P.null }; world = w'' },
        rw (cleaned, destroyed, left) refl,
        (at_outside, refl),
      )
