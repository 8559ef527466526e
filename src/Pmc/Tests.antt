-- ===== src/Pmc/Tests.antt =====
-- A library whose calls all return; the count of an event is the length of its name and the reads so far.
use microrev.Common.{ℕ, suc, ◌+◌, ◌≡◌, refl, arith, some, ◌∷◌, [], ◌==◌, if◌then◌else◌}
use microrev.Pmc.{Pmc, start, read}
use microrev.Pmc.Laws.{Works}
use Prim.Native.String.{String}

-- The counter that is allocated next, and the events of those that are.
record Counters : Type 0 where
  next : ℕ
  reads : ℕ
  event : ℕ → String

abbrev given : (ℕ → String) → ℕ → String → ℕ → String
given event h e i = if h == i then e else event i

abbrev letters : String → ℕ
letters String.[] = 0
letters (String.◌∷◌ c s) = suc (letters s)

abbrev counters : Pmc
counters = record {
  World = Counters;
  init = λ w. some w;
  allocate =
      λ e core w. some (w.next, record w { next = suc w.next; event = given w.event w.next e });
  start = λ h w. some w;
  read = λ h w. some (letters (w.event h) + w.reads, record w { reads = w.reads + 1 });
  release = λ h w. w;
}

given_self : (event : ℕ → String) (h : ℕ) (e : String) → given event h e h ≡ e
given_self event h e = ground arith

abbrev lawful : Works counters
lawful = record {
  event = λ h w. w.event h;
  count = λ e w. letters e + w.reads;
  init = λ w. (w, refl);
  allocate = λ e core w. (
    w.next,
    record w { next = suc w.next; event = given w.event w.next e },
    refl,
    given_self w.event w.next e,
  );
  start = λ h w. (w, refl, refl);
  after = λ h w. record w { reads = w.reads + 1 };
  read = λ h w. refl;
  read_keeps = λ h g w. refl;
  count_on = λ h e w. omega arith;
}

abbrev none_allocated : Counters
none_allocated = record { next = 1; reads = 0; event = λ h. "" }

abbrev load : Counters → Counters
load w = w
