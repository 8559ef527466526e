-- ===== src/Walk/Producer.antt =====
-- What `producer_` stores to.
use microrev.Common.{
  ℕ, suc, ◌+◌, ◌*◌, ◌/◌, ◌≤◌, ◌≡◌, refl, ap, ◌∙◌, List, [], ◌∷◌, ◌++◌, map, length, arith, subst,
}
use microrev.Chain.{Memory, write}
use microrev.Chain.Build.{Leads, address}
use microrev.Setup.{Shared}
use microrev.Setup.Laws.{IsReady}
use microrev.Walk.{producer_loop, producer_}
use microrev.Walk.Reader.{line_cnt-eq}
use microrev.Walk.Writer.{second_word, stored-kept, Leads-kept}

module _ (arr stride : ℕ) (wide : 16 ≤ stride) where
  -- A walk of as many rounds as there are lines ahead; the line that it ends at is not stored to.
  producer_loop-touched :
      (m : Memory) (q : ℕ) (order : List ℕ) (back : ℕ)
      → Leads m (address arr stride q) (map (address arr stride) order) back
      → (producer_loop (length order) m (address arr stride q)).touched
          ++ ((producer_loop (length order) m (address arr stride q)).iter + 8) ∷ []
        ≡ map (second_word arr stride) (q ∷ order)
  unfolding producer_loop
  producer_loop-touched m q [] back leads = refl
  producer_loop-touched m q (b ∷ order) back (word, leads) =
      let stored : Memory = write m (second_word arr stride q) 1 in
      rw (stored-kept arr stride wide m q q ∙ word) (
        ap (λ l. second_word arr stride q ∷ l)
          (producer_loop-touched stored b order back (
            Leads-kept arr stride wide m stored b order back (stored-kept arr stride wide m q)
              leads)))

-- After `setup` or `pr_co_setup`, with lines of 16 bytes or more, the first store of `producer_` is 8
-- bytes past the word behind the block. The others are to the second words of the lines in ring
-- order, and the last line, where it stops, gets none.
pub producer_-misses_last :
    (block stride n : ℕ) (s t : Shared)
    → 16 ≤ stride
    → t.shared_data_size ≡ suc n * stride
    → (ready : IsReady block stride (suc n) s t)
    → (producer_ t stride).touched ++ ((producer_ t stride).iter + 8) ∷ []
      ≡ (block + suc n * stride + 8) ∷ map (second_word block stride) (0 ∷ ready.order)
unfolding producer_
producer_-misses_last block stride n s t wide whole ready =
    let rounds : t.shared_data_size / stride ≡ length (0 ∷ ready.order) =
      omega
        (arith, line_cnt-eq t.shared_data_size stride (suc n) (omega arith) whole, ready.count) in
    let first : block ≡ address block stride 0 = omega arith in
    let leads =
      subst (λ p. Leads t.memory p (map (address block stride) ready.order) block) first
        ready.ring in
    rw (rounds, ready.iter)
      (producer_loop-touched block stride wide t.memory (suc n) (0 ∷ ready.order) block
        (ready.past_end ∙ first, leads))
