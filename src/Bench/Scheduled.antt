-- ===== src/Bench/Scheduled.antt =====
-- The schedules of `run_test` for the eight tests of a load or a store in a coherence state.
use microrev.Common.{ℕ, ◌≡◌, ◌≢◌, refl, true, false, List, [], ◌∷◌, ◌++◌}
use microrev.Coherence.{modified, exclusive, is_shared, Protocol, IsCoherent}
use microrev.Bench.{
  Body, reader, writer, Sched, sched, MesiType, store_on_modified, store_on_exclusive,
  store_on_shared_or_forward, store_on_invalid, load_from_modified, load_from_exclusive,
  load_from_shared_or_forward, load_from_invalid, test_schedule, measured_only, perform_all,
  flusher, m_state, e_state, s_state, i_state, init_state,
}
use microrev.Bench.States.{OwnedBy, Nowhere, init_state-Reaches}
use Prim.Native.String.{String}

-- The tests, by the body that they measure and the state that they name.
pub data Access : Type 0 where
  load store : Access

pub data Wanted : Type 0 where
  in_modified in_exclusive in_shared in_invalid : Wanted

abbrev pub body_of : Access → Body
body_of load = reader
body_of store = writer

abbrev pub test_of : Access → Wanted → MesiType
test_of store in_modified = store_on_modified
test_of store in_exclusive = store_on_exclusive
test_of store in_shared = store_on_shared_or_forward
test_of store in_invalid = store_on_invalid
test_of load in_modified = load_from_modified
test_of load in_exclusive = load_from_exclusive
test_of load in_shared = load_from_shared_or_forward
test_of load in_invalid = load_from_invalid

-- The line in that state: owned by the core `a`, shared by `a` and `b`, or in no cache.
abbrev pub Settled : (P : Protocol) → Wanted → ℕ → ℕ → P.Line → Type 0
Settled P in_modified a b l = OwnedBy P modified a l
Settled P in_exclusive a b l = OwnedBy P exclusive a l
Settled P in_shared a b l = (is_shared (P.view l a) ≡ true) × (is_shared (P.view l b) ≡ true)
Settled P in_invalid a b l = Nowhere P l

-- What becomes of the last line of the ring instead.
abbrev pub SettledLast : (P : Protocol) → Wanted → ℕ → P.Line → Type 0
SettledLast P in_modified a l = OwnedBy P modified a l
SettledLast P in_exclusive a l = Nowhere P l
SettledLast P in_shared a l = OwnedBy P modified a l
SettledLast P in_invalid a l = Nowhere P l

abbrev state_of : Wanted → ℕ
state_of in_modified = m_state
state_of in_exclusive = e_state
state_of in_shared = s_state
state_of in_invalid = i_state

-- What a test runs before the body that it measures.
abbrev before : ℕ → ℕ → ℕ → Wanted → List Sched
before a b c w =
    init_state (sched a flusher [] ∷ sched b flusher [] ∷ sched c flusher [] ∷ []) (state_of w) a b
      []

measured_only-before : (a b c : ℕ) (w : Wanted) → measured_only (before a b c w) ≡ []
unfolding init_state
measured_only-before a b c in_modified = refl
measured_only-before a b c in_exclusive = refl
measured_only-before a b c in_shared = refl
measured_only-before a b c in_invalid = refl

test_schedule-before :
    (a b c : ℕ) (cnt_vec : List String) (access : Access) (w : Wanted)
    → test_schedule (test_of access w) a b c cnt_vec
      ≡ before a b c w ++ sched c (body_of access) cnt_vec ∷ []
unfolding test_schedule
test_schedule-before a b c cnt_vec load in_modified = refl
test_schedule-before a b c cnt_vec load in_exclusive = refl
test_schedule-before a b c cnt_vec load in_shared = refl
test_schedule-before a b c cnt_vec load in_invalid = refl
test_schedule-before a b c cnt_vec store in_modified = refl
test_schedule-before a b c cnt_vec store in_exclusive = refl
test_schedule-before a b c cnt_vec store in_shared = refl
test_schedule-before a b c cnt_vec store in_invalid = refl

module _ (P : Protocol) (laws : IsCoherent P) where
  -- The line after the three flushes.
  abbrev flushed : P.Line → ℕ → ℕ → ℕ → P.Line
  flushed l a b c = P.flush c (P.flush b (P.flush a l))

  before-Settled :
      (l : P.Line) (a b c : ℕ) (w : Wanted)
      → a ≢ b
      → Settled P w a b (perform_all P false (before a b c w) l)
        × SettledLast P w a (perform_all P true (before a b c w) l)
  unfolding init_state
  before-Settled l a b c in_modified ne =
      let reaches = init_state-Reaches P laws (flushed l a b c) a b [] ne in
      (reaches.0.0, reaches.1.0)
  before-Settled l a b c in_exclusive ne =
      let reaches = init_state-Reaches P laws (flushed l a b c) a b [] ne in
      (reaches.0.1, reaches.1.1)
  before-Settled l a b c in_shared ne =
      let reaches = init_state-Reaches P laws (flushed l a b c) a b [] ne in
      ((reaches.0.2, reaches.0.3), reaches.1.2)
  before-Settled l a b c in_invalid ne =
      let reaches = init_state-Reaches P laws (flushed l a b c) a b [] ne in
      (reaches.0.4, reaches.1.3)

  -- A test of a load or a store measures nothing until its last entry, which runs the body that the
  -- test names on core `c` with the events. Before it, a line other than the last of the ring is in the
  -- state that the test names, if the cores `a` and `b` differ and the caches meet the laws. The last
  -- line is modified in `a` for the states M and S, and in no cache for E and I.
  pub test_schedule-Settled :
      (l : P.Line) (a b c : ℕ) (cnt_vec : List String) (access : Access) (w : Wanted)
      → a ≢ b
      → (prefix : List Sched) × (test_schedule (test_of access w) a b c cnt_vec
          ≡ prefix ++ sched c (body_of access) cnt_vec ∷ [])
        × (measured_only prefix ≡ [])
        × Settled P w a b (perform_all P false prefix l)
        × SettledLast P w a (perform_all P true prefix l)
  test_schedule-Settled l a b c cnt_vec access w ne = (
    before a b c w,
    test_schedule-before a b c cnt_vec access w,
    measured_only-before a b c w,
    (before-Settled l a b c w ne).0,
    (before-Settled l a b c w ne).1,
  )
