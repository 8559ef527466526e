-- ===== src/Counter/Frames.antt =====
-- The frames around what is measured: `start`, then something, then `read`.
use microrev.Common.{
  ℕ, ◌+◌, zero, suc, ◌≡◌, refl, arith, true, false, Option, some, List, [], ◌∷◌, length,
  length-append, sym, ◌∙◌, ◌++◌, ap,
}
use microrev.Common.Int.{ℤ}
use Prim.Native.String.{String}
use microrev.Counter.{
  Papi, has_events, Run, resize, start, read, bracketed, framed, set_world, keep_time,
}
use microrev.Counter.Laws.{counting, Works, length-resize, fill-exact}
use microrev.Counter.Rounds.{Bracket, Frame, Ends}
use microrev.Counter.Steps.{Tag, Total, before, Standing, Returns, has_events-none, has_events-some}

module _ {P : Papi} (works : Works P) where
  read-idle : (s : Run P) → has_events s ≡ false → read s ≡ some s
  unfolding read
  read-idle s none_there = rw none_there refl

  start-idle : (s : Run P) → has_events s ≡ false → start s ≡ some s
  unfolding start
  start-idle s none_there = rw none_there refl

  start-busy :
      (s : Run P) (w : P.World)
      → has_events s ≡ true
      → P.start s.event_set s.world ≡ some w
      → start s ≡ some (set_world s w)
  unfolding start
  start-busy s w some_there started = rw (some_there, started) refl

  read-busy :
      (s : Run P) (counts : List ℤ) (w : P.World)
      → has_events s ≡ true
      → P.stop s.event_set s.world ≡ some (counts, w)
      → length counts ≡ length s.cset
      → read s ≡ some (record s { counter = record s.counter { measured = counts }; world = w })
  unfolding read
  read-busy s counts w some_there stopped one_each =
      let filled =
        fill-exact (resize (length s.cset) s.measured) counts
          (one_each ∙ sym (length-resize (length s.cset) s.measured)) in
      rw (some_there, stopped, filled) refl

  -- With events, `start` sets the counters going, and `read` stops them, whatever happens between.
  pub start-Counting :
      (core : Tag) (n k : ℕ) (s : Run P)
      → Standing works core (suc n) k s
      → (w : P.World) × (start s ≡ some (set_world s w))
        × (works.phase w ≡ counting s.event_set (suc n))
        × (P.start s.event_set s.world ≡ some w)
  start-Counting core n k s st =
      let (w, started, at_counting) = works.start s.world s.event_set n st.phase in
      (w, start-busy s w (has_events-some works core n k s st) started, at_counting, started)

  pub read-Standing :
      (core : Tag) (n k : ℕ) (s : Run P) (w : P.World)
      → Standing works core (suc n) k s
      → works.phase w ≡ counting s.event_set (suc n)
      → Returns (read (set_world s w)) (λ s'.
        Standing works core (suc n) k s'
        × (length s'.measured ≡ suc n)
        × (P.stop s.event_set w ≡ some (s'.measured, s'.world))
        × (s'.cset ≡ s.cset)
        × (s'.vec_cycles_measured ≡ s.vec_cycles_measured))
  read-Standing core n k s w st at_counting =
      let (counts, w', stopped, one_each, at_holding) = works.stop w s.event_set n at_counting in
      (
        record s { counter = record s.counter { measured = counts }; world = w' },
        read-busy (set_world s w) counts w' (has_events-some works core n k s st) stopped
            (one_each ∙ sym st.events),
        (
          record {
            phase = at_holding;
            events = st.events;
            cycles = st.cycles;
            pinned = st.pinned;
            room = omega (arith, one_each);
          },
          one_each,
          stopped,
          refl,
          refl,
        ),
      )

  keep_time-Ends :
      (between : P.World → ℤ × P.World) (n : ℕ) (cycles : ℤ) (s s' : Run P)
      → (b : Bracket between n cycles s s') → Ends n s (between b.w).1 (keep_time cycles s')
  keep_time-Ends between zero cycles s s' bracket = bracket.ends
  keep_time-Ends between (suc n) cycles s s' bracket = bracket.ends

  pub bracketed-Standing :
      {A : Type 0} (between : P.World → A × P.World)
      → ((w : P.World) → works.phase (between w).1 ≡ works.phase w)
      → (core : Tag) (n k : ℕ) (s : Run P) → Standing works core n k s
      → (a : A) × (s' : Run P) × (bracketed between s ≡ some (a, s'))
        × Standing works core n k s'
        × (length s'.measured ≡ n)
        × Bracket between n a s s'
  unfolding bracketed
  bracketed-Standing between between_keeps core zero k s st = (
    (between s.world).0,
    set_world s (between s.world).1,
    rw (start-idle s (has_events-none works core k s st))
        (rw (read-idle (set_world s (between s.world).1) (has_events-none works core k s st)) refl),
    record {
      phase = between_keeps s.world ∙ st.phase;
      events = st.events;
      cycles = st.cycles;
      pinned = st.pinned;
      room = st.room;
    },
    omega (arith, st.room),
    record {
      w = s.world;
      begins = refl;
      ends = (refl, refl);
      value = refl;
      codes = refl;
      times = refl;
    },
  )
  bracketed-Standing between between_keeps core (suc n) k s st =
      let (w, started, some_there, begun) = start-Counting core n k s st in
      let (stopped, read_it, (st', one_each, call, codes, times)) =
        read-Standing core n k s (between w).1 st (between_keeps w ∙ some_there) in
      (
        (between w).0,
        stopped,
        rw (started, read_it) refl,
        st',
        one_each,
        record { w = w; begins = begun; ends = call; value = refl; codes = codes; times = times },
      )

  framed-Frame :
      (between : P.World → ℤ × P.World) (n : ℕ) (cycles : ℤ) (s s' : Run P)
      → Bracket between n cycles s s'
      → Frame between n s (keep_time cycles s')
  framed-Frame between n cycles s s' bracket = record {
    w = bracket.w;
    begins = bracket.begins;
    ends = keep_time-Ends between n cycles s s' bracket;
    codes = bracket.codes;
    times =
        ap (λ (ts : List ℤ). ts ++ cycles ∷ []) bracket.times
        ∙ ap (λ c. s.vec_cycles_measured ++ c ∷ []) bracket.value;
  }

  pub framed-Standing :
      (between : P.World → ℤ × P.World)
      → ((w : P.World) → works.phase (between w).1 ≡ works.phase w)
      → (core : Tag) (n k : ℕ) (s : Run P) → Standing works core n k s
      → Returns
          (framed between s)
          (λ s'. Standing works core n (suc k) s' × (length s'.measured ≡ n) × Frame between n s s')
  unfolding framed
  framed-Standing between between_keeps core n k s st =
      let (cycles, s', done, st', one_each, bracket) =
        bracketed-Standing between between_keeps core n k s st in
      (
        keep_time cycles s',
        rw done refl,
        (
          record {
            phase = st'.phase;
            events = st'.events;
            cycles = omega (arith, st'.cycles, length-append s'.vec_cycles_measured (cycles ∷ []));
            pinned = st'.pinned;
            room = st'.room;
          },
          one_each,
          framed-Frame between n cycles s s' bracket,
        ),
      )

-- A benchmark that keeps to the order of calls, and to what is known of the total, and keeps `times`
-- more times in a run; `round` describes what it does.
pub record Benchmark {P : Papi} (works : Works P) (total : Total) (times : ℕ)
    (round : ℕ → Run P → Run P → Type 0) (benchmark : Run P → Option (Run P)) : Type 0 where
  pub run :
      (core : ℕ) (label : String) (n k : ℕ) (s : Run P)
      → Standing works (core, label, before total) n k s
      → Returns (benchmark s) (λ s'.
        Standing works (core, label, total) n (times + k) s'
        × (length s.measured ≡ n → length s'.measured ≡ n)
        × round n s s'
        × (s'.cset ≡ s.cset))
