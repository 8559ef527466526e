-- ===== src/InitState/Laws.antt =====
-- What the older `init_state` leaves of a line, and what its loops touch.
use native.Mathlib.Nat.{mod-eq_of_lt}
use microrev.Common.{
  ℕ, zero, suc, ◌+◌, ◌*◌, ◌%◌, ◌^◌, ◌<◌, ◌≡◌, ◌≢◌, ◌∙◌, refl, ap, sym, arith, true, false, some,
  List, [], ◌∷◌, length, lt→ltb, le→ltb_false,
}
use microrev.Coherence.{modified, exclusive, is_shared, Protocol, IsCoherent}
use microrev.Bench.{m_state, e_state, s_state, i_state, f_state, perform_all}
use microrev.Bench.States.{OwnedBy, Nowhere, modified-has}
use microrev.Chain.{Memory, write}
use microrev.Chain.Build.{Leads}
use microrev.Walk.{touch, reader_loop, writer_loop as walk_writer}
use microrev.InitState.{flusher_loop, flusher_, writer_loop, writer_, init_state}

module _ (P : Protocol) (laws : IsCoherent P) where
  -- A store by core `c` and a load by core `d`.
  handed_over :
      (l : P.Line) (c d : ℕ)
      → c ≢ d
      → (is_shared (P.view (P.read d (P.write c l)) d) ≡ true)
        × (is_shared (P.view (P.read d (P.write c l)) c) ≡ true)
  handed_over l c d ne =
      laws.read_other (P.write c l) d c (laws.write_other l c d ne)
        (modified-has (laws.write_own l c))

  -- For coherent caches the entries of the older `init_state` leave a line modified or exclusive in
  -- core 1 alone for M_STATE and E_STATE, shared by the cores 1 and 2 for S_STATE and for F_STATE,
  -- and in no cache for I_STATE. For F_STATE those of BENCHMARK_INIT leave it in no cache.
  init_state-older :
      (l : P.Line)
      → OwnedBy P modified 1 (perform_all P false (init_state m_state) l)
        × OwnedBy P exclusive 1 (perform_all P false (init_state e_state) l)
        × (is_shared (P.view (perform_all P false (init_state s_state) l) 1) ≡ true)
        × (is_shared (P.view (perform_all P false (init_state s_state) l) 2) ≡ true)
        × (is_shared (P.view (perform_all P false (init_state f_state) l) 1) ≡ true)
        × (is_shared (P.view (perform_all P false (init_state f_state) l) 2) ≡ true)
        × Nowhere P (perform_all P false (init_state i_state) l)
  unfolding init_state
  init_state-older l = (
    (laws.write_own l 1, laws.write_other l 1),
    laws.read_miss (P.flush 1 (P.write 1 l)) 1 (laws.flush_all (P.write 1 l) 1),
    (handed_over l 1 2 (λ e. omega (arith, e))).1,
    (handed_over l 1 2 (λ e. omega (arith, e))).0,
    (handed_over l 2 1 (λ e. omega (arith, e))).0,
    (handed_over l 2 1 (λ e. omega (arith, e))).1,
    laws.flush_all l 1,
  )

-- One round: the index is below the size, and the next one does not wrap.
module _ (size stride n k i : ℕ) (some_stride : 0 < stride) (fits : size + stride < 2 ^ 64)
    (at : i ≡ k * stride) (whole : size ≡ (k + suc n) * stride) where
  index-lt : i < size
  index-lt = grind arith

  index-next : (i + stride) % 2 ^ 64 ≡ suc k * stride
  index-next =
      let small : (i + stride) % 2 ^ 64 ≡ i + stride = mod-eq_of_lt (grind arith) in
      omega (arith, small)

flusher_loop-reader :
    (n fuel size stride k i : ℕ) (m : Memory) (iter : ℕ)
    → 0 < stride
    → size + stride < 2 ^ 64
    → i ≡ k * stride
    → size ≡ (k + n) * stride
    → n < fuel
    → flusher_loop fuel size stride i m iter ≡ some (reader_loop n m iter)
unfolding flusher_loop reader_loop
flusher_loop-reader n zero size stride k i m iter some_stride fits at whole enough =
    absurd (omega arith)
flusher_loop-reader zero (suc fuel) size stride k i m iter some_stride fits at whole enough =
    rw (le→ltb_false i size (omega arith), flusher_loop) refl
flusher_loop-reader (suc n) (suc fuel) size stride k i m iter some_stride fits at whole enough =
    let rest =
      flusher_loop-reader n fuel size stride (suc k) ((i + stride) % 2 ^ 64) m (m iter) some_stride
        fits (index-next size stride n k i some_stride fits at whole) (omega arith) (omega arith) in
    rw (lt→ltb i size (index-lt size stride n k i some_stride fits at whole), flusher_loop, rest)
      refl

writer_loop-walk :
    (n fuel size stride k i : ℕ) (m : Memory) (iter : ℕ)
    → 0 < stride
    → size + stride < 2 ^ 64
    → i ≡ k * stride
    → size ≡ (k + n) * stride
    → n < fuel
    → writer_loop fuel size stride i m iter ≡ some (walk_writer n m iter)
unfolding writer_loop walk_writer
writer_loop-walk n zero size stride k i m iter some_stride fits at whole enough =
    absurd (omega arith)
writer_loop-walk zero (suc fuel) size stride k i m iter some_stride fits at whole enough =
    rw (le→ltb_false i size (omega arith), writer_loop) refl
writer_loop-walk (suc n) (suc fuel) size stride k i m iter some_stride fits at whole enough =
    let rest =
      writer_loop-walk n fuel size stride (suc k) ((i + stride) % 2 ^ 64) (write m (m iter + 8) 1)
        (m iter) some_stride fits (index-next size stride n k i some_stride fits at whole)
        (omega arith) (omega arith) in
    rw (lt→ltb i size (index-lt size stride n k i some_stride fits at whole), writer_loop, rest)
      refl

reader_loop-ring :
    (m : Memory) (p : ℕ) (stops : List ℕ) (back : ℕ)
    → Leads m p stops back
    → reader_loop (suc (length stops)) m p ≡ record { memory = m; iter = back; touched = p ∷ stops }
unfolding reader_loop
reader_loop-ring m p [] back leads = rw leads refl
reader_loop-ring m p (q ∷ stops) back (word, leads) =
    rw word (ap (touch p) (reader_loop-ring m q stops back leads))

-- The loop of the older `flusher_` flushes what `reader_` of BENCHMARK_INIT loads, and the older
-- `writer_` does what that of BENCHMARK_INIT does, in as many rounds as the size has strides; if
-- `shared_iter` is on a ring of so many words, `flusher_` flushes each of them once, in ring order. The
-- stride is at least 1, and the index does not wrap.
flusher_-ring :
    (n stride size : ℕ) (m : Memory) (shared_iter : ℕ) (stops : List ℕ)
    → 0 < stride
    → size + stride < 2 ^ 64
    → size ≡ suc n * stride
    → length stops ≡ n
    → Leads m shared_iter stops shared_iter
    → (flusher_ size stride m shared_iter
        ≡ some (record { memory = m; iter = shared_iter; touched = shared_iter ∷ stops }))
      × (writer_ size stride m shared_iter ≡ some (walk_writer (suc n) m shared_iter))
unfolding flusher_ writer_
flusher_-ring n stride size m shared_iter stops some_stride fits whole count ring =
    let all : suc n * stride ≡ (0 + suc n) * stride = omega arith in
    let enough : suc n < suc size = grind arith in
    (
      flusher_loop-reader (suc n) (suc size) size stride 0 0 m shared_iter some_stride fits
            (omega arith) (whole ∙ all) enough
          ∙ ap (λ k. some (reader_loop (suc k) m shared_iter)) (sym count)
          ∙ ap some (reader_loop-ring m shared_iter stops shared_iter ring),
      writer_loop-walk (suc n) (suc size) size stride 0 0 m shared_iter some_stride fits
          (omega arith) (whole ∙ all) enough,
    )
