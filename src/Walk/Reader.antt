-- ===== src/Walk/Reader.antt =====
-- What `reader_` and `consumer_` touch.
use native.Mathlib.Nat.{div-eq_of_eq-mul_left}
use microrev.Common.{
  ℕ, suc, ◌+◌, ◌*◌, ◌/◌, ◌<◌, ◌≡◌, refl, ap, List, [], ◌∷◌, ◌++◌, map, length, length-map, arith,
  ◌≤◌, zero, some, get_elem?-lt, set, length-set,
}
use microrev.Common.Int.{ℤ, pos}
use microrev.Chain.{Memory}
use microrev.Chain.Build.{Leads, address}
use microrev.Setup.{Shared}
use microrev.Setup.Laws.{IsReady}
use microrev.Walk.{reader_loop, reader_, consumer_loop, consumer_, line_cnt}

-- As many rounds as there are stops load all of them but the last, where the iterator stands then.
reader_loop-Leads :
    (m : Memory) (p : ℕ) (stops : List ℕ) (back : ℕ)
    → Leads m p stops back
    → (reader_loop (length stops) m p).touched ++ (reader_loop (length stops) m p).iter ∷ []
      ≡ p ∷ stops
unfolding reader_loop
reader_loop-Leads m p [] back leads = refl
reader_loop-Leads m p (q ∷ stops) back (word, leads) =
    rw word (ap (λ l. p ∷ l) (reader_loop-Leads m q stops back leads))

pub line_cnt-eq : (size stride n : ℕ) → 0 < stride → size ≡ n * stride → size / stride ≡ n
line_cnt-eq size stride n some_stride e = div-eq_of_eq-mul_left some_stride e

-- After `setup`, with `shared_data_size` a block of one line or more, `reader_` loads the word
-- behind the block, and then the lines in ring order, except the last one: it stops there.
pub reader_-misses_last :
    (block stride n : ℕ) (s t : Shared)
    → 0 < stride
    → t.shared_data_size ≡ suc n * stride
    → (ready : IsReady block stride (suc n) s t)
    → (reader_ t stride).touched ++ (reader_ t stride).iter ∷ []
      ≡ (block + suc n * stride) ∷ block ∷ map (address block stride) ready.order
unfolding reader_
reader_-misses_last block stride n s t some_stride whole ready =
    let stops : List ℕ = block ∷ map (address block stride) ready.order in
    let rounds : t.shared_data_size / stride ≡ length stops = omega (
      arith,
      line_cnt-eq t.shared_data_size stride (suc n) some_stride whole,
      ready.count,
      length-map (address block stride) ready.order,
    ) in
    rw (rounds, ready.iter)
      (reader_loop-Leads t.memory (block + suc n * stride) stops block (ready.past_end, ready.ring))

consumer_loop-reader :
    (lines i : ℕ) (m : Memory) (iter : ℕ) (flags : List ℤ)
    → i + lines ≤ length flags
    → (flags' : List ℤ) × (consumer_loop lines i m iter flags
        ≡ some (reader_loop lines m iter, flags'))
unfolding consumer_loop reader_loop
consumer_loop-reader zero i m iter flags room = (flags, refl)
consumer_loop-reader (suc lines) i m iter flags room =
    let (old, at) = get_elem?-lt flags i (omega arith) in
    let (flags', returned) =
      consumer_loop-reader lines (suc i) m (m iter) (set flags i (pos 1))
        (omega (arith, length-set flags i (pos 1))) in
    (flags', rw (at, returned) refl)

-- With a flag for each line, as `pr_co_setup` leaves them, `consumer_` on its own returns and loads
-- what `reader_` loads.
consumer_-reader :
    (s : Shared) (stride : ℕ)
    → line_cnt s stride ≤ length s.wrflag
    → (flags : List ℤ) × (consumer_ s stride ≡ some (reader_ s stride, flags))
unfolding consumer_ reader_
consumer_-reader s stride room =
    consumer_loop-reader (line_cnt s stride) 0 s.memory s.shared_iter s.wrflag (omega arith)
