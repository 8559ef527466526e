-- ===== src/Threads/Safety.antt =====
-- What `counters_with_schedule` guarantees, in every state that its threads reach.
use microrev.Common.{
  Inevitable, Inevitable-rank, ◌⊎◌, ℕ, true, ◌<◌, ◌≡◌, ◌≢◌, refl, ap, ◌∙◌, arith, Bool-cases, inl,
  inr, ltb, dec_lt,
}
use microrev.Shuffle.Order.{has, Distinct}
use microrev.Threads.{
  Owner, nobody, scheduler, worker, Place, absent, entering, testing, sleeping, waking, running,
  finishing, notifying, finished, Stage, spawning, pinning, opening, holding, broadcasting, joining,
  ended, System, lock, sleep, pass, relock, measure, unlock, Step, moves, notifies_none, spawn, pin,
  spawned, take, open_gate, broadcast, join, finish, Directed, Reach, later,
}
use microrev.Threads.Inv.{Inv, passed, opened}
use microrev.Threads.Stages.{Reach-Inv}
use microrev.Threads.Rank.{rank, lt_of_place, Step-rank}

-- Two workers never run their benchmarks at the same time: the mutex that `cv.wait` returns with is
-- held until the benchmark is over.
pub benchmarks_alone :
    {n : ℕ} {s : System} → Reach n s → (i j : ℕ) → s.place i ≡ running → s.place j ≡ running → i ≡ j
benchmarks_alone r i j run_i run_j = let inv = Reach-Inv r in ground (arith, inv.owns i, inv.owns j)

-- While a worker runs its benchmark, and ever after, every thread of the schedule has been created
-- and bound to its core.
pub starts_together :
    {n : ℕ} {s : System}
    → Reach n s
    → (i : ℕ) → passed (s.place i) ≡ true
    → (j : ℕ) → j < n
    → (s.place j ≢ absent) × (s.pinned j ≡ true)
starts_together {n} {s} r i run j lt =
    let inv = Reach-Inv r in
    let is_open : opened s.stage ≡ true = ground (arith, inv.open_first i, inv.gate) in
    (inv.exist j (ground arith), inv.pins j (ground arith))

-- When `counters_with_schedule` is past its joins, each of its threads has run its benchmark once,
-- and nothing else has run.
pub measured_once :
    {n : ℕ} {s : System}
    → Reach n s
    → s.stage ≡ ended
    → ((i : ℕ) → has i s.log ≡ ltb i n) × Distinct s.log
measured_once {n} {s} r e =
    let inv = Reach-Inv r in
    (
      λ i. elim (dec_lt i n) [
        | yes lt ↦ ground (arith, inv.logged i, inv.over i)
        | no beyond ↦ ground (arith, inv.logged i, inv.no_more i)
      ],
      inv.distinct,
    )

Stage-cases : (g : Stage) → (g ≡ ended) ⊎ (g ≢ ended)
Stage-cases ended = inl refl
Stage-cases g = inr (λ h. cc)

-- A step that somebody causes.
abbrev Progress : ℕ → System → Type 0
Progress n s = (t : System) × (st : Step n s t) × Directed st

module _ {n : ℕ} {s : System} (inv : Inv n s) where
  owner-Progress : (i : ℕ) → s.owner ≡ worker i → (p : Place) → s.place i ≡ p → Progress n s
  owner-Progress i own testing e = elim (Bool-cases s.pause) [
    | inl shut ↦ (_, moves i (lt_of_place inv i (λ h. ground arith)) e (sleep shut), tt)
    | inr open_now ↦ (_, moves i (lt_of_place inv i (λ h. ground arith)) e (pass open_now), tt)
  ]
  owner-Progress i own running e =
      (_, moves i (lt_of_place inv i (λ h. ground arith)) e measure, tt)
  owner-Progress i own finishing e =
      (_, moves i (lt_of_place inv i (λ h. ground arith)) e unlock, tt)
  owner-Progress i own p e = absurd (ground (arith, inv.owned i own))

  -- If the mutex is not with the scheduler, whoever waits for it gets it or its owner goes on.
  free-Progress :
      (s.owner ≡ nobody → Progress n s)
      → s.stage ≢ holding
      → (o : Owner) → s.owner ≡ o
      → Progress n s
  free-Progress now apart nobody e = now e
  free-Progress now apart scheduler e = absurd (apart (inv.holder e))
  free-Progress now apart (worker i) e = owner-Progress i e (s.place i) refl

  joining-Progress :
      (k : ℕ) → k < n → s.stage ≡ joining k → (p : Place) → s.place k ≡ p → Progress n s
  joining-Progress k lt at absent e = absurd (inv.exist k (ground arith) e)
  joining-Progress k lt at sleeping e = absurd (inv.awake (ground arith) k e)
  joining-Progress k lt at entering e =
      free-Progress (λ free. (_, moves k lt e (lock free), tt)) (λ h. ground arith) s.owner refl
  joining-Progress k lt at waking e =
      free-Progress (λ free. (_, moves k lt e (relock free), tt)) (λ h. ground arith) s.owner refl
  joining-Progress k lt at notifying e = (_, notifies_none k lt e, tt)
  joining-Progress k lt at finished e = (_, join k lt at e, tt)
  joining-Progress k lt at p e = owner-Progress k (inv.owns k (ground arith)) (s.place k) refl

  stage-Progress : s.stage ≢ ended → (g : Stage) → s.stage ≡ g → Progress n s
  stage-Progress on (spawning k) e = elim (dec_lt k n) [
    | yes lt ↦ (_, spawn k lt e, tt)
    | no all ↦ let same : k ≡ n = ground (arith, inv.few) in (_, spawned (e ∙ ap spawning same), tt)
  ]
  stage-Progress on (pinning k) e = (_, pin k e, tt)
  stage-Progress on opening e =
      free-Progress (λ free. (_, take e free, tt)) (λ h. ground arith) s.owner refl
  stage-Progress on holding e = (_, open_gate e, tt)
  stage-Progress on broadcasting e = (_, broadcast e, tt)
  stage-Progress on (joining k) e = elim (dec_lt k n) [
    | yes lt ↦ joining-Progress k lt e (s.place k) refl
    | no all ↦
        let same : k ≡ n = ground (arith, inv.few, inv.over n, inv.no_more n) in
        (_, finish (e ∙ ap joining same), tt)
  ]
  stage-Progress on ended e = absurd (on e)

-- Until the scheduler is past its joins there is always a step that somebody causes, without help
-- from spurious wake-ups.
never_stuck : {n : ℕ} {s : System} → Reach n s → s.stage ≢ ended → Progress n s
never_stuck {s} r on = stage-Progress (Reach-Inv r) on s.stage refl

-- A step, but a wake-up that nobody caused.
abbrev pub Next : ℕ → System → System → Type 0
Next n s t = (st : Step n s t) × Directed st

-- No deadlock, no lost wake-up and no endless run: whichever steps the threads take from any state
-- they reach, wake-ups that nobody caused left aside, these are finitely many and end with the
-- scheduler past its joins, and until then there is a step to take.
pub ends : {n : ℕ} {s : System} → Reach n s → Inevitable (Next n) (λ t. t.stage ≡ ended) s
ends {n} r =
    Inevitable-rank (rank n) (λ s t reach next. later reach next.0)
      (λ s t reach next. Step-rank (Reach-Inv reach) next.0 next.1)
      (λ t reach. elim (Stage-cases t.stage) [
        | inl over ↦ inl over
        | inr on ↦ let go = never_stuck reach on in inr (go.0, (go.1, go.2))
      ])
      r
