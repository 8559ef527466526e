-- ===== src/Gather/Runs.antt =====
-- What the workers of a schedule leave in its counters, once they have all run.
use microrev.Common.{
  Option, ℕ, zero, suc, ◌<◌, ◌≡◌, ◌≢◌, refl, sym, subst, ◌∙◌, arith, Bool, true, false, Bool-cases,
  inl, inr, ◌==◌, ==_iff, some, List, [], ◌∷◌, get_elem?, get_elem?-lt, get_elem?-set_self,
  get_elem?-set_ne, lt_of_get_elem?, length, length-set, set, ltb, lt→ltb, ltb→lt,
}
use microrev.Shuffle.Order.{has, Distinct}
use microrev.Bench.{Schedule}
use microrev.Counter.{Papi, PapillCounter, Run}
use microrev.Counter.Frames.{Benchmark}
use microrev.Counter.Laws.{outside, Works}
use microrev.Counter.Rounds.{Rounding}
use microrev.Counter.Thread.{counter_thread_fn-Done}
use microrev.Counter.Init.{New, AllNew, new_counters, new_counters-New}
use microrev.Gather.{Gathered, worker, run_log}
use microrev.Gather.Laws.{
  Timing, times_of, total_of, total_of-Totals, DoneOf, Runnable, Runnable-get,
}

-- The counter of an entry, before and after its worker has run.
abbrev pub Stands :
    (P : Papi) {B : Type 0} ⦃t : Timing B⦄
    → Rounding P B
    → ℕ
    → ℕ
    → Schedule B
    → Bool
    → PapillCounter
    → Type 0
Stands P round max warmup e true c = DoneOf P round warmup e c
Stands P round max warmup e false c = New max c

AllNew-get :
    (max : ℕ) (cs : List PapillCounter) (i : ℕ) (c : PapillCounter)
    → AllNew max cs
    → get_elem? cs i ≡ some c
    → New max c
AllNew-get max [] i c fresh at = absurd (ground arith)
AllNew-get max (d ∷ cs) zero c (fresh, rest) at =
    let same : d ≡ c = ground arith in subst (New max) same fresh
AllNew-get max (d ∷ cs) (suc i) c (fresh, rest) at = AllNew-get max cs i c rest at

-- A list of counters, one for each entry, each of them what its worker leaves.
abbrev pub AllDone :
    (P : Papi) {B : Type 0} ⦃t : Timing B⦄
    → Rounding P B
    → ℕ
    → List (Schedule B)
    → List PapillCounter
    → Type 0
AllDone P round warmup [] [] = Unit
AllDone P round warmup [] (c ∷ cs) = ⊥
AllDone P round warmup (e ∷ svec) [] = ⊥
AllDone P round warmup (e ∷ svec) (c ∷ cs) =
    DoneOf P round warmup e c × AllDone P round warmup svec cs

AllDone-of :
    (P : Papi) {B : Type 0} ⦃t : Timing B⦄ (round : Rounding P B) (warmup : ℕ)
    (svec : List (Schedule B)) (cs : List PapillCounter)
    → length cs ≡ length svec
    → ((i : ℕ) (e : Schedule B) (c : PapillCounter)
        → get_elem? svec i ≡ some e
        → get_elem? cs i ≡ some c
        → DoneOf P round warmup e c)
    → AllDone P round warmup svec cs
AllDone-of P round warmup [] [] same each = tt
AllDone-of P round warmup [] (c ∷ cs) same each = absurd (ground arith)
AllDone-of P round warmup (e ∷ svec) [] same each = absurd (ground arith)
AllDone-of P round warmup (e ∷ svec) (c ∷ cs) same each =
    (each 0 e c refl refl, AllDone-of P round warmup svec cs (omega arith) (λ i. each (suc i)))

module _ (P : Papi) (works : Works P) {B : Type 0} ⦃t : Timing B⦄
    (body : B → Run P → Option (Run P)) (round : Rounding P B)
    (measures : (b : B) → Benchmark works (total_of b) (times_of b) (round b) (body b))
    (svec : List (Schedule B)) (fits : Runnable P works svec) (warmup : ℕ) where
  abbrev max : ℕ
  max = suc works.counters

  -- The workers in the log have run.
  record Ran (log : List ℕ) (g : Gathered P) : Type 0 where
    pub phase : works.phase g.world ≡ outside
    pub size : length g.counters ≡ length svec
    pub each :
        (i : ℕ) (e : Schedule B) (c : PapillCounter)
        → get_elem? svec i ≡ some e
        → get_elem? g.counters i ≡ some c
        → Stands P round max warmup e (has i log) c

  Ran-New :
      (log : List ℕ) (i : ℕ) (e : Schedule B) (g : Gathered P) (c : PapillCounter)
      → Ran log g
      → has i log ≡ false
      → get_elem? svec i ≡ some e
      → get_elem? g.counters i ≡ some c
      → New max c
  Ran-New log i e g c ran absent at_e at_c =
      subst (λ b. Stands P round max warmup e b c) absent (ran.each i e c at_e at_c)

  worker-each :
      (log : List ℕ) (i : ℕ) (d : Schedule B) (c : PapillCounter) (g : Gathered P)
      → i < length svec
      → get_elem? svec i ≡ some d
      → DoneOf P round warmup d c
      → Ran log g
      → (j : ℕ) (e : Schedule B) (b : PapillCounter) → get_elem? svec j ≡ some e
      → get_elem? (set g.counters i c) j ≡ some b
      → Stands P round max warmup e (has j (i ∷ log)) b
  worker-each log i d c g lt at_d done ran j e b at_e at_b = elim (Bool-cases (i == j)) [
    | inl same ↦
        let i_is_j : i ≡ j = (==_iff i j).0 same in
        let got : get_elem? (set g.counters i c) j ≡ some c =
          subst (λ k. get_elem? (set g.counters i c) k ≡ some c) i_is_j
            (get_elem?-set_self g.counters i c (omega (arith, ran.size))) in
        let is_c : c ≡ b = ground arith in
        let is_d : d ≡ e = ground arith in
        rw same
          (subst (DoneOf P round warmup e) is_c (subst (λ f. DoneOf P round warmup f c) is_d done))
    | inr other ↦
        let apart : i ≢ j = λ h. ground arith in
        rw other (ran.each j e b at_e (sym (get_elem?-set_ne g.counters i j c apart) ∙ at_b))
  ]

  worker-Ran :
      (log : List ℕ) (i : ℕ) (g : Gathered P)
      → i < length svec
      → has i log ≡ false
      → Ran log g
      → (g' : Gathered P) × (worker P body svec warmup i g ≡ some g') × Ran (i ∷ log) g'
  unfolding worker
  worker-Ran log i g lt absent ran =
      let (e, at_e) = get_elem?-lt svec i lt in
      let (c, at_c) = get_elem?-lt g.counters i (omega (arith, ran.size)) in
      let fresh = Ran-New log i e g c ran absent at_e at_c in
      let (known, room) = Runnable-get P works svec i e fits at_e in
      let (s, left, (at_outside, done, worked)) =
        counter_thread_fn-Done works (total_of e.benchmark) (times_of e.benchmark)
          (round e.benchmark) (body e.benchmark) (measures e.benchmark) e.events e.core_id warmup
          (record { counter = record c { label = e.label }; world = g.world })
          (total_of-Totals e.benchmark c.cycles_measured fresh.total) known
          (record {
            phase = ran.phase;
            cset = fresh.cset;
            cycles = fresh.cycles;
            measured = fresh.measured;
          })
          (rw fresh.room room) in
      (
        record { counters = set g.counters i s.counter; world = s.world },
        rw (at_e, at_c, left) refl,
        record {
          phase = at_outside;
          size = length-set g.counters i s.counter ∙ ran.size;
          each = worker-each log i e s.counter g lt at_e (done, worked) ran;
        },
      )

  run_log-Ran :
      (log : List ℕ) (g : Gathered P)
      → ((i : ℕ) → has i log ≡ true → i < length svec)
      → Distinct log
      → Ran [] g
      → (g' : Gathered P) × (run_log P body svec warmup log g ≡ some g') × Ran log g'
  unfolding run_log
  run_log-Ran [] g below apart ran = (g, refl, ran)
  run_log-Ran (i ∷ log) g below (absent, apart) ran =
      let (g', before, ran') = run_log-Ran log g (λ j h. below j (ground arith)) apart ran in
      let (g'', last, ran'') = worker-Ran log i g' (below i (ground arith)) absent ran' in
      (g'', rw (before, last) refl, ran'')

  -- A log that names each index of the schedule once.
  run_log-AllDone :
      (log : List ℕ) (g : Gathered P)
      → ((i : ℕ) → has i log ≡ ltb i (length svec))
      → Distinct log
      → Ran [] g
      → (g' : Gathered P) × (run_log P body svec warmup log g ≡ some g')
        × AllDone P round warmup svec g'.counters
        × (works.phase g'.world ≡ outside)
  run_log-AllDone log g all apart ran =
      let (g', returned, ran') =
        run_log-Ran log g (λ i h. ltb→lt i (length svec) (sym (all i) ∙ h)) apart ran in
      let done = AllDone-of P round warmup svec g'.counters ran'.size (λ i e c at_e at_c.
        subst (λ b. Stands P round max warmup e b c)
          (all i ∙ lt→ltb i (length svec) (lt_of_get_elem? svec i e at_e))
          (ran'.each i e c at_e at_c)) in
      (g', returned, done, ran'.phase)

  -- The counters are made, and then the workers run.
  pub gathered-AllDone :
      (log : List ℕ) (w : P.World)
      → ((i : ℕ) → has i log ≡ ltb i (length svec))
      → Distinct log
      → works.phase w ≡ outside
      → (cs : List PapillCounter) × (w' : P.World) × (g : Gathered P) × (new_counters P
            (length svec)
            w
          ≡ some (cs, w'))
        × (run_log P body svec warmup log (record { counters = cs; world = w' }) ≡ some g)
        × AllDone P round warmup svec g.counters
        × (works.phase g.world ≡ outside)
  gathered-AllDone log w all apart at_outside =
      let (cs, w', made, fresh, count, same) = new_counters-New works (length svec) w in
      let g : Gathered P = record { counters = cs; world = w' } in
      let ran : Ran [] g = record {
        phase = same ∙ at_outside;
        size = count;
        each = λ i e c at_e at_c. AllNew-get max cs i c fresh at_c;
      } in
      let (g', returned, done, at_end) = run_log-AllDone log g all apart ran in
      (cs, w', g', made, returned, done, at_end)
