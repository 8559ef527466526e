-- ===== src/Bench/States.antt =====
-- What `init_state` does to a line, for caches that meet the laws of `Coherence`.
use microrev.Common.{ℕ, ◌≡◌, ◌≢◌, ◌∙◌, arith, true, false, List, []}
use microrev.Coherence.{LineState, modified, exclusive, invalid, is_shared, Protocol, IsCoherent}
use microrev.Bench.{m_state, e_state, s_state, i_state, f_state, init_state, perform_all, Sched}
use Prim.Native.String.{String}

-- The line in the state `st` in the cache of core `c` and in no other.
abbrev pub OwnedBy : (P : Protocol) → LineState → ℕ → P.Line → Type 0
OwnedBy P st c l = (P.view l c ≡ st) × ((d : ℕ) → c ≢ d → P.view l d ≡ invalid)

abbrev pub Nowhere : (P : Protocol) → P.Line → Type 0
Nowhere P l = (d : ℕ) → P.view l d ≡ invalid

pub modified-has : {st : LineState} → st ≡ modified → st ≢ invalid
modified-has eq out = ground (arith, eq, out)

module _ (P : Protocol) (laws : IsCoherent P) where
  -- A store, flush and load by one core.
  exclusive-own : (l : P.Line) (c d : ℕ) → OwnedBy P exclusive c (P.read c (P.flush d l))
  exclusive-own l c d = laws.read_miss (P.flush d l) c (laws.flush_all l d)

  -- A core's load of what it has stored changes nothing.
  load-own : (l : P.Line) (a d : ℕ) → P.view (P.read a (P.write a l)) d ≡ P.view (P.write a l) d
  load-own l a d = laws.read_hit (P.write a l) a d (modified-has (laws.write_own l a))

  -- A store by one core, its load, and a load by another.
  shared-both :
      (l : P.Line) (a b : ℕ)
      → a ≢ b
      → (is_shared (P.view (P.read b (P.read a (P.write a l))) b) ≡ true)
        × (is_shared (P.view (P.read b (P.read a (P.write a l))) a) ≡ true)
  shared-both l a b ne =
      laws.read_other (P.read a (P.write a l)) b a (load-own l a b ∙ laws.write_other l a b ne)
        (modified-has (load-own l a a ∙ laws.write_own l a))

  -- What the entries of `init_state` make of a line that all walks come to.
  abbrev pub Reached : (ℕ → List Sched) → ℕ → ℕ → P.Line → Type 0
  Reached entries a b l =
      OwnedBy P modified a (perform_all P false (entries m_state) l)
      × OwnedBy P exclusive a (perform_all P false (entries e_state) l)
      × (is_shared (P.view (perform_all P false (entries s_state) l) a) ≡ true)
      × (is_shared (P.view (perform_all P false (entries s_state) l) b) ≡ true)
      × Nowhere P (perform_all P false (entries i_state) l)
      × Nowhere P (perform_all P false (entries f_state) l)

  -- What they make of the last line of the ring.
  abbrev pub ReachedLast : (ℕ → List Sched) → ℕ → P.Line → Type 0
  ReachedLast entries a l =
      OwnedBy P modified a (perform_all P true (entries m_state) l)
      × Nowhere P (perform_all P true (entries e_state) l)
      × OwnedBy P modified a (perform_all P true (entries s_state) l)
      × Nowhere P (perform_all P true (entries i_state) l)
      × Nowhere P (perform_all P true (entries f_state) l)

  -- The entries of `init_state` leave a line, other than the last of the ring, modified or exclusive in
  -- core `a` alone, shared by the cores `a` and `b`, which differ, or in no cache, for M_STATE,
  -- E_STATE, S_STATE and I_STATE; for F_STATE they leave it in no cache too. The last line, which no
  -- load comes to, they leave modified in core `a` for M_STATE and for S_STATE, and in no cache for the
  -- others. The caches are coherent.
  pub init_state-Reaches :
      (l : P.Line) (a b : ℕ) (cnt_vec : List String)
      → a ≢ b
      → Reached (λ st. init_state [] st a b cnt_vec) a b l
        × ReachedLast (λ st. init_state [] st a b cnt_vec) a l
  unfolding init_state
  init_state-Reaches l a b cnt_vec ne = (
    (
      (laws.write_own l a, laws.write_other l a),
      exclusive-own (P.write a l) a a,
      (shared-both l a b ne).1,
      (shared-both l a b ne).0,
      laws.flush_all (P.write a l) a,
      laws.flush_all (P.read a (P.write b l)) b,
    ),
    (
      (laws.write_own l a, laws.write_other l a),
      laws.flush_all (P.write a l) a,
      (laws.write_own l a, laws.write_other l a),
      laws.flush_all (P.write a l) a,
      laws.flush_all (P.write b l) b,
    ),
  )
