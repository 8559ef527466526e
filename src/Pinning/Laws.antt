-- ===== src/Pinning/Laws.antt =====
-- Where the threads of a schedule run once the scheduler has created them.
use mathlib.Core.List.{append_assoc, append-nil}
use microrev.Common.{
  ℕ, suc, ◌<◌, ◌≡◌, ◌⊎◌, inl, inr, refl, ap, sym, ◌∙◌, arith, true, some, List, [], ◌∷◌, ◌++◌,
  get_elem?, length, length-append, subst, ℕ_discrete,
}
use microrev.Bench.{Sched}
use microrev.Pinning.{
  Affinity, Documented, Outcome, returned, exited, Pool, pin_to_core, push_thread, and_then,
  spawn_all, cpuset_of, counter_benchmark,
}

module _ (A : Affinity) (doc : Documented A) where
  open A use {World, Thread, CpuSet, cpu_zero, new_thread, pthread_setaffinity_np}
  open doc use {
    setsize, has_cpu, may_run, Live, zero_is_empty, set_adds, starts, is_new, stays, binds,
    leaves_others,
  }

  -- The thread runs on no other core.
  abbrev pub BoundTo : World → Thread → ℕ → Type 0
  BoundTo w t core = (c : ℕ) → may_run w t c ≡ true → c ≡ core

  -- The threads are alive, and each is bound to the core of its entry.
  abbrev pub AllBound : World → List Sched → List Thread → Type 0
  AllBound w [] [] = Unit
  AllBound w (e ∷ svec) (t ∷ ts) = Live w t × BoundTo w t e.core_id × AllBound w svec ts
  AllBound w svec ts = ⊥

  -- `CPU_SET` knows the cores of the entries.
  abbrev pub CoresFit : List Sched → Type 0
  CoresFit [] = Unit
  CoresFit (e ∷ svec) = (e.core_id < setsize) × CoresFit svec

  only_cpu : (core c : ℕ) → core < setsize → has_cpu c (cpuset_of A core) ≡ true → c ≡ core
  only_cpu core c lt has = elim (ℕ_discrete c core) [
    | yes same ↦ same
    | no other ↦ absurd (ground (arith, set_adds core c cpu_zero lt, zero_is_empty c))
  ]

  AllBound-carry :
      (w w' : World) (svec : List Sched) (ts : List Thread)
      → ((u : Thread) → Live w u → Live w' u × ((c : ℕ) → may_run w' u c ≡ may_run w u c))
      → AllBound w svec ts
      → AllBound w' svec ts
  AllBound-carry w w' [] [] keep all = tt
  AllBound-carry w w' (e ∷ svec) (t ∷ ts) keep (live, bound, all) =
      let (live', same) = keep t live in
      (live', λ c h. bound c (sym (same c) ∙ h), AllBound-carry w w' svec ts keep all)
  AllBound-carry w w' [] (t ∷ ts) keep all = all
  AllBound-carry w w' (e ∷ svec) [] keep all = all

  AllBound-snoc :
      (w : World) (svec : List Sched) (ts : List Thread) (e : Sched) (t : Thread)
      → AllBound w svec ts
      → Live w t
      → BoundTo w t e.core_id
      → AllBound w (svec ++ e ∷ []) (ts ++ t ∷ [])
  AllBound-snoc w [] [] e t all live bound = (live, bound, tt)
  AllBound-snoc w (d ∷ svec) (u ∷ ts) e t (live', bound', all) live bound =
      (live', bound', AllBound-snoc w svec ts e t all live bound)
  AllBound-snoc w [] (u ∷ ts) e t all live bound = elim all [ ]
  AllBound-snoc w (d ∷ svec) [] e t all live bound = elim all [ ]

  AllBound-length :
      (w : World) (svec : List Sched) (ts : List Thread)
      → AllBound w svec ts
      → length svec ≡ length ts
  AllBound-length w [] [] all = refl
  AllBound-length w (e ∷ svec) (t ∷ ts) (live, bound, all) = ap suc (AllBound-length w svec ts all)
  AllBound-length w [] (t ∷ ts) all = elim all [ ]
  AllBound-length w (e ∷ svec) [] all = elim all [ ]

  get_elem?-last : (ts : List Thread) (t : Thread) → get_elem? (ts ++ t ∷ []) (length ts) ≡ some t
  get_elem?-last [] t = refl
  get_elem?-last (u ∷ ts) t = get_elem?-last ts t

  -- `pthread_setaffinity_np` fails for the new thread of the pool and the core of the entry.
  abbrev pub Fails : Pool A → Sched → Type 0
  Fails b e =
      let (t, w) = new_thread b.world in
      ((pthread_setaffinity_np t (cpuset_of A e.core_id) w).0 ≡ 0) → ⊥

  -- One round of the loop on a pool that holds exactly the threads of the rounds before: the process
  -- exits, or the new thread is bound too.
  abbrev PushEnds : Pool A → List Sched → Sched → Outcome (Pool A) → Type 0
  PushEnds b old e out =
      ((b' : Pool A) × (out ≡ returned b')
        × AllBound b'.world (old ++ e ∷ []) b'.threads
        × (length b'.threads ≡ suc (length b.threads)))
      ⊎ ((out ≡ exited (length b.threads) e.core_id) × Fails b e)

  pin_to_core-Bound :
      (b : Pool A) (old : List Sched) (e : Sched)
      → e.core_id < setsize
      → AllBound b.world old b.threads
      → PushEnds b old e (pin_to_core A (length b.threads) e.core_id (push_thread A b))
  unfolding pin_to_core
  pin_to_core-Bound b old e lt all =
      let t : Thread = (new_thread b.world).0 in
      let w : World = (new_thread b.world).1 in
      let set : CpuSet = cpuset_of A e.core_id in
      let call : ℕ × World = pthread_setaffinity_np t set w in
      let same : get_elem? (b.threads ++ t ∷ []) (length b.threads) ≡ some t =
        get_elem?-last b.threads t in
      elim (ℕ_discrete call.0 0) [
        | yes good ↦ inl (
          record (push_thread A b) { world = call.1 },
          rw (same, good) refl,
          AllBound-snoc call.1 old b.threads e t
              (AllBound-carry b.world call.1 old b.threads
                (λ u live.
                  let (other, live', kept) = is_new b.world u live in
                  (stays w t u set live', λ c. leaves_others w t u set other c ∙ kept c))
                all)
              (stays w t t set (starts b.world))
              (λ c may. only_cpu e.core_id c lt (binds w t set (starts b.world) good c may)),
          omega (arith, length-append b.threads (t ∷ [])),
        )
        | no bad ↦ inr (ground (arith, same), bad)
      ]

  -- How the loop ends: all threads are bound, or the call fails for the thread of an entry, when those of
  -- the entries before are bound, and the process exits with the number of the thread and its core.
  abbrev pub SpawnEnds : List Sched → List Sched → Outcome (Pool A) → Type 0
  SpawnEnds old svec out =
      ((b : Pool A) × (out ≡ returned b) × AllBound b.world (old ++ svec) b.threads)
      ⊎ ((done : List Sched) × (e : Sched) × (rest : List Sched) × (b : Pool A) × (svec
            ≡ done ++ e ∷ rest)
          × AllBound b.world (old ++ done) b.threads
          × Fails b e
          × (out ≡ exited (length b.threads) e.core_id))

  -- `e` is behind the entries of the rounds before.
  spawn_one :
      (b : Pool A) (old : List Sched) (e : Sched) (svec : List Sched)
      → AllBound b.world old b.threads
      → ((b' : Pool A)
          → AllBound b'.world (old ++ e ∷ []) b'.threads
          → SpawnEnds (old ++ e ∷ []) svec (spawn_all A (suc (length old)) svec b'))
      → (out : Outcome (Pool A)) → PushEnds b old e out
      → SpawnEnds old (e ∷ svec) (and_then out (spawn_all A (suc (length old)) svec))
  spawn_one b old e svec bound go out (inr (exit, fails)) = inr (
    [],
    e,
    svec,
    b,
    refl,
    subst (λ l. AllBound b.world l b.threads) (sym (append-nil old)) bound,
    fails,
    rw exit refl,
  )
  spawn_one b old e svec bound go out (inl (b', good, all, count)) = elim (go b' all) [
    | inl (b'', finished, all') ↦ inl (
      b'',
      rw good finished,
      subst (λ l. AllBound b''.world l b''.threads) (append_assoc old (e ∷ []) svec) all',
    )
    | inr (done, d, rest, b'', split, bound', fails, exit) ↦ inr (
      e ∷ done,
      d,
      rest,
      b'',
      ap (λ l. e ∷ l) split,
      subst (λ l. AllBound b''.world l b''.threads) (append_assoc old (e ∷ []) done) bound',
      fails,
      rw good exit,
    )
  ]

  spawn_rest :
      (b : Pool A) (old svec : List Sched)
      → CoresFit svec
      → AllBound b.world old b.threads
      → SpawnEnds old svec (spawn_all A (length old) svec b)
  unfolding spawn_all
  spawn_rest b old [] fit all =
      inl (b, refl, subst (λ l. AllBound b.world l b.threads) (sym (append-nil old)) all)
  spawn_rest b old (e ∷ svec) (lt, fit) all =
      let same : length old ≡ length b.threads = AllBound-length b.world old b.threads all in
      spawn_one b old e svec all
        (λ b' all'.
          subst (λ i. SpawnEnds (old ++ e ∷ []) svec (spawn_all A i svec b'))
            (omega (arith, length-append old (e ∷ [])))
            (spawn_rest b' (old ++ e ∷ []) svec fit all'))
        (pin_to_core A (length old) e.core_id (push_thread A b))
        (rw same (pin_to_core-Bound b old e lt all))

  -- The first loop of the first call of `counters_with_schedule` for an object creates a thread for
  -- each entry, in order, and binds it to the core of the entry, whatever the calls for the other
  -- threads do; or `pthread_setaffinity_np` fails for an entry, with the threads of those before it
  -- bound, and the process exits with the message for it. It never reads past the end of `threads`. This holds where the
  -- core numbers fit `CPU_SET` and the calls do what their documentation says.
  pub spawn_all-Bound :
      (svec : List Sched) (w : World)
      → CoresFit svec
      → SpawnEnds [] svec (spawn_all A 0 svec (counter_benchmark A w))
  unfolding counter_benchmark
  spawn_all-Bound svec w fit = spawn_rest (counter_benchmark A w) [] svec fit tt
