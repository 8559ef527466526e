-- ===== src/Counter/Init.antt =====
-- The constructors of `PAPILLCounter` and `init`, in src/library/lib/counter.cpp.
use microrev.Common.{
  ℕ, zero, suc, false, ◌≡◌, refl, arith, Option, none, some, List, [], ◌∷◌, ◌==◌, if◌then◌else◌,
  length, ◌>>=◌, ap, ◌∙◌,
}
use microrev.Common.Int.{ℤ}
use Prim.Native.String.{String}
use microrev.Counter.{nought, of_u64, Papi, PapillCounter, Run}
use microrev.Counter.Laws.{Works}
use microrev.Counter.Steps.{Returns}

-- The members that the constructors set, over an event set that is given or empty.
abbrev pub counter_of : List ℤ → PapillCounter
counter_of cset = record {
  measured = [];
  cset = cset;
  cycles_measured = nought;
  vec_cycles_measured = [];
  core_id = 0;
  event_set = 0;
  max_hw_cntrs = 0;
  label = "";
}

-- The two other constructors of `Counter`, with the members of `PAPILLCounter`.
abbrev pub default_counter : PapillCounter
default_counter = counter_of []

abbrev pub labelled_counter : String → PapillCounter
labelled_counter label = record default_counter { label = label }

-- `num_events` and `set_cycles_measured` of `Counter`
abbrev pub num_events : PapillCounter → ℕ
num_events c = length c.cset

abbrev pub set_cycles_measured : ℕ → PapillCounter → PapillCounter
set_cycles_measured cycles counter = record counter { cycles_measured = of_u64 cycles }

module _ {P : Papi} where
  unfoldable pub init : Run P → Option (Run P)
  init s = do
    w ← P.library_init s.world
    if P.num_counters w == 0 then none else (do
      w' ← P.thread_init w
      some
          (record s { counter = record s.counter { max_hw_cntrs = P.num_counters w }; world = w' }))

  -- `PAPILLCounter()` and `PAPILLCounter( cset )`
  abbrev pub papill_counter : List ℤ → P.World → Option (Run P)
  unfolding init
  papill_counter cset w = init (record { counter = counter_of cset; world = w })

-- `std::vector<CntTyp> counters{ n }`
unfoldable pub new_counters : (P : Papi) → ℕ → P.World → Option (List PapillCounter × P.World)
unfolding papill_counter
new_counters P zero w = some ([], w)
new_counters P (suc n) w = do
  first ← papill_counter {P = P} [] w
  rest ← new_counters P n first.world
  some (first.counter ∷ rest.0, rest.1)

-- A counter that no thread has used, with room for the events of the machine.
pub record New (max : ℕ) (c : PapillCounter) : Type 0 where
  pub measured : c.measured ≡ []
  pub cset : c.cset ≡ []
  pub cycles : c.vec_cycles_measured ≡ []
  pub total : c.cycles_measured ≡ nought
  pub label : c.label ≡ ""
  pub core : c.core_id ≡ 0
  pub room : c.max_hw_cntrs ≡ max

abbrev pub AllNew : ℕ → List PapillCounter → Type 0
AllNew max [] = Unit
AllNew max (c ∷ cs) = New max c × AllNew max cs

module _ {P : Papi} (works : Works P) where
  pub papill_counter-New :
      (w : P.World)
      → Returns
          (papill_counter {P = P} [] w)
          (λ s. New (suc works.counters) s.counter × (works.phase s.world ≡ works.phase w))
  unfolding papill_counter
  papill_counter-New w =
      let (w1, opened, same1) = works.library_init w in
      let some_there : (P.num_counters w1 == 0) ≡ false = ground (arith, works.num_counters w1) in
      let (w2, threaded, same2) = works.thread_init w1 in
      (
        record {
          counter = record (counter_of []) { max_hw_cntrs = P.num_counters w1 };
          world = w2;
        },
        rw (opened, some_there, threaded) refl,
        (
          record {
            measured = refl;
            cset = refl;
            cycles = refl;
            total = refl;
            label = refl;
            core = refl;
            room = works.num_counters w1;
          },
          same2 ∙ same1,
        ),
      )

  pub new_counters-New :
      (n : ℕ) (w : P.World)
      → (cs : List PapillCounter) × (w' : P.World) × (new_counters P n w ≡ some (cs, w'))
        × AllNew (suc works.counters) cs
        × (length cs ≡ n)
        × (works.phase w' ≡ works.phase w)
  unfolding new_counters
  new_counters-New zero w = ([], w, refl, tt, refl, refl)
  new_counters-New (suc n) w =
      let (s, made, (fresh, same)) = papill_counter-New w in
      let (cs, w', rest, all_fresh, count, same') = new_counters-New n s.world in
      (s.counter ∷ cs, w', rw (made, rest) refl, (fresh, all_fresh), ap suc count, same' ∙ same)
