-- ===== src/Walk/Writer.antt =====
-- What `writer_` stores, and that the ring survives it.
use microrev.Common.{
  ℕ, suc, ◌+◌, ◌*◌, ◌/◌, ◌≤◌, ◌≡◌, ◌≢◌, refl, sym, ap, ◌∙◌, List, [], ◌∷◌, map, length, arith,
  dec_lt, ℕ_discrete, subst,
}
use microrev.Chain.{Memory, write}
use microrev.Chain.Link.{write_same, write_other}
use microrev.Chain.Build.{Leads, address}
use microrev.Setup.{Shared}
use microrev.Setup.Laws.{IsReady}
use microrev.Walk.{Visit, touch, writer_loop, writer_}
use microrev.Walk.Reader.{line_cnt-eq}

-- The second word of a line, `iter + 1` of a `char**`.
abbrev pub second_word : ℕ → ℕ → ℕ → ℕ
second_word arr stride line = address arr stride line + 8

-- `P` holds of every item.
abbrev pub All {ℓ} : (ℕ → Type ℓ) → List ℕ → Type ℓ
All P [] = Unit
All P (x ∷ xs) = P x × All P xs

module _ (arr stride : ℕ) (wide : 16 ≤ stride) where
  second_word-ne-address : (a b : ℕ) → second_word arr stride a ≢ address arr stride b
  second_word-ne-address a b e = elim (dec_lt a b) [
    | yes before ↦ let next : suc a * stride ≤ b * stride = grind arith in omega arith
    | no behind ↦ let next : b * stride ≤ a * stride = grind arith in omega arith
  ]

  -- The same words at the lines' beginnings lead the same way.
  pub Leads-kept :
      (m m' : Memory) (a : ℕ) (order : List ℕ) (back : ℕ)
      → ((b : ℕ) → m' (address arr stride b) ≡ m (address arr stride b))
      → Leads m (address arr stride a) (map (address arr stride) order) back
      → Leads m' (address arr stride a) (map (address arr stride) order) back
  Leads-kept m m' a [] back same word = same a ∙ word
  Leads-kept m m' a (b ∷ order) back same (word, leads) =
      (same a ∙ word, Leads-kept m m' b order back same leads)

  -- A walk of as many rounds as there are stops, over lines.
  record Writes (m : Memory) (order : List ℕ) (v : Visit) : Type 0 where
    touched : v.touched ≡ map (second_word arr stride) order
    kept : (b : ℕ) → v.memory (address arr stride b) ≡ m (address arr stride b)
    ones : (p : ℕ) → m p ≡ 1 → v.memory p ≡ 1
    written : All (λ b. v.memory (second_word arr stride b) ≡ 1) order

  pub stored-kept :
      (m : Memory) (q b : ℕ)
      → write m (second_word arr stride q) 1 (address arr stride b) ≡ m (address arr stride b)
  stored-kept m q b =
      write_other m (second_word arr stride q) 1 (address arr stride b) (second_word-ne-address q b)

  stored-one : (m : Memory) (x p : ℕ) → m p ≡ 1 → write m x 1 p ≡ 1
  stored-one m x p h = elim (ℕ_discrete x p) [
    | yes same ↦ subst (λ t. write m x 1 t ≡ 1) same (write_same m x 1)
    | no apart ↦ write_other m x 1 p apart ∙ h
  ]

  Writes-next :
      (m : Memory) (q : ℕ) (order : List ℕ) (v : Visit)
      → Writes (write m (second_word arr stride q) 1) order v
      → Writes m (q ∷ order) (touch (second_word arr stride q) v)
  Writes-next m q order v rest = record {
    touched = ap (λ l. second_word arr stride q ∷ l) rest.touched;
    kept = λ b. rest.kept b ∙ stored-kept m q b;
    ones = λ p h. rest.ones p (stored-one m (second_word arr stride q) p h);
    written = (
      rest.ones (second_word arr stride q) (write_same m (second_word arr stride q) 1),
      rest.written,
    );
  }

  writer_loop-Writes :
      (m : Memory) (a : ℕ) (order : List ℕ) (back : ℕ)
      → Leads m (address arr stride a) (map (address arr stride) order) back
      → Writes m order (writer_loop (length order) m (address arr stride a))
  unfolding writer_loop
  writer_loop-Writes m a [] back leads = record {
    touched = refl;
    kept = λ b. refl;
    ones = λ p h. h;
    written = tt;
  }
  writer_loop-Writes m a (q ∷ order) back (word, leads) =
      let stored : Memory = write m (second_word arr stride q) 1 in
      rw word (
        Writes-next m q order _ (
          writer_loop-Writes stored q order back
            (Leads-kept m stored q order back (stored-kept m q) leads)))

-- What `writer_` leaves of the block of `n` lines that `t` shares.
pub record Marks (block stride n : ℕ) (order : List ℕ) (v : Visit) : Type 0 where
  pub touched : v.touched ≡ map (second_word block stride) (0 ∷ order)
  pub written : All (λ line. v.memory (second_word block stride line) ≡ 1) (0 ∷ order)
  pub ring : Leads v.memory block (map (address block stride) order) block
  pub past_end : v.memory (block + n * stride) ≡ block

-- After `setup`, with lines of 16 bytes or more, `writer_` stores to the second word of every line
-- of the block, in ring order, each once, and 1 stands there then. It keeps the ring and the word
-- behind the block, so that a later body walks the same way.
pub writer_-Marks :
    (block stride n : ℕ) (s t : Shared)
    → 16 ≤ stride
    → t.shared_data_size ≡ suc n * stride
    → (ready : IsReady block stride (suc n) s t)
    → Marks block stride (suc n) ready.order (writer_ t stride)
unfolding writer_
writer_-Marks block stride n s t wide whole ready =
    let rounds : t.shared_data_size / stride ≡ length (0 ∷ ready.order) =
      omega
        (arith, line_cnt-eq t.shared_data_size stride (suc n) (omega arith) whole, ready.count) in
    let first : block ≡ address block stride 0 = omega arith in
    let leads =
      subst (λ p. Leads t.memory p (map (address block stride) ready.order) block) first
        ready.ring in
    let stored : Memory =
      (writer_loop (length (0 ∷ ready.order)) t.memory (block + suc n * stride)).memory in
    let w =
      writer_loop-Writes block stride wide t.memory (suc n) (0 ∷ ready.order) block
        (ready.past_end ∙ first, leads) in
    rw (rounds, ready.iter)
      (record {
        touched = w.touched;
        written = w.written;
        ring =
            subst (λ p. Leads stored p (map (address block stride) ready.order) block) (sym first)
              (Leads-kept block stride wide t.memory stored 0 ready.order block w.kept leads);
        past_end = w.kept (suc n) ∙ ready.past_end;
      })
