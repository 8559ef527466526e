-- ===== src/Coherence/Mesi.antt =====
-- A MESI protocol over any number of cores meets the laws of `IsCoherent`.
use microrev.Common.{ℕ, ◌≡◌, ◌≢◌, refl, arith, Bool, true, ◌==◌, ◌||◌, if◌then◌else◌}
use microrev.Coherence.Defs.{
  LineState, modified, exclusive, shared, invalid, is_shared, Protocol, IsCoherent,
}

-- No core has the line, one core alone has it, clean or dirty, or `first` and others share it.
pub data Mesi : Type 0 where
  nowhere : Mesi
  dirty clean : ℕ → Mesi
  sharing : ℕ → (ℕ → Bool) → Mesi

abbrev pub view : Mesi → ℕ → LineState
view nowhere d = invalid
view (dirty c) d = if c == d then modified else invalid
view (clean c) d = if c == d then exclusive else invalid
view (sharing first others) d = if first == d || others d then shared else invalid

abbrev pub read : ℕ → Mesi → Mesi
read c nowhere = clean c
read c (dirty d) = if c == d then dirty d else sharing d (λ e. e == c)
read c (clean d) = if c == d then clean d else sharing d (λ e. e == c)
read c (sharing first others) = sharing first (λ e. e == c || others e)

abbrev pub mesi : Protocol
mesi = record {
  Line = Mesi;
  view = view;
  write = λ c l. dirty c;
  read = read;
  flush = λ c l. nowhere;
}

read_miss :
    (l : Mesi) (c : ℕ)
    → ((d : ℕ) → view l d ≡ invalid)
    → (view (read c l) c ≡ exclusive) × ((d : ℕ) → c ≢ d → view (read c l) d ≡ invalid)
read_miss nowhere c none_has = (ground arith, λ d ne. ground arith)
read_miss (dirty e) c none_has = absurd (ground (arith, none_has e))
read_miss (clean e) c none_has = absurd (ground (arith, none_has e))
read_miss (sharing e others) c none_has = absurd (ground (arith, none_has e))

read_hit : (l : Mesi) (c d : ℕ) → view l c ≢ invalid → view (read c l) d ≡ view l d
read_hit nowhere c d has = absurd (has refl)
read_hit (dirty e) c d has = ground arith
read_hit (clean e) c d has = ground arith
read_hit (sharing e others) c d has = ground arith

read_other :
    (l : Mesi) (c d : ℕ)
    → view l c ≡ invalid
    → view l d ≢ invalid
    → (is_shared (view (read c l) c) ≡ true) × (is_shared (view (read c l) d) ≡ true)
read_other nowhere c d out has = absurd (has refl)
read_other (dirty e) c d out has = ground arith
read_other (clean e) c d out has = ground arith
read_other (sharing e others) c d out has = ground arith

pub mesi-IsCoherent : IsCoherent mesi
mesi-IsCoherent = record {
  write_own = λ l c. ground arith;
  write_other = λ l c d ne. ground arith;
  flush_all = λ l c d. refl;
  read_miss = read_miss;
  read_hit = read_hit;
  read_other = read_other;
}
