-- ===== src/Priority/Safety.antt =====
-- What `counters_with_priority_schedule` guarantees, in every state that its threads reach.
use microrev.Shuffle.Order.{has, Distinct}
use microrev.Common.{
  ℕ, Bool, zero, suc, ltb, Inevitable, Inevitable-rank, ◌⊎◌, ◌≡◌, ◌≢◌, refl, arith, Bool-cases, inl,
  inr, dec_lt,
}
use microrev.Threads.{
  Owner, nobody, scheduler, worker, Place, absent, entering, testing, sleeping, waking, running,
  finishing, notifying, finished, lock, sleep, pass, relock, measure, unlock,
}
use microrev.Priority.{
  Turn, spawning, pinning, opening, guarded, signalling, locking, checking, waiting, woken, joining,
  ended, System, Step, moves, notifies, notifies_none, spawn, pin, take, open_gate, signal, acquire,
  wait, see_ready, reacquire, join, finish, Reach, later, Directed,
}
use microrev.Priority.Rank.{rank, rank_drops}
use microrev.Priority.Inv.{Inv, Reach-Inv, down_from}

-- When `counters_with_priority_schedule` has ended, each of its `n` threads has run its benchmark
-- once, in the order of the schedule: the log, with the last benchmark first, is n - 1, …, 0.
pub in_order :
    {n : ℕ} {entry : Bool} {s : System} → Reach n entry s → s.turn ≡ ended → s.log ≡ down_from n
in_order r e = let inv = Reach-Inv r in ground (arith, inv.logged, inv.none_between, inv.all_done)

pub has-down_from : (n i : ℕ) → has i (down_from n) ≡ ltb i n
has-down_from zero i = ground arith
has-down_from (suc n) i = ground (arith, has-down_from n i)

pub down_from-Distinct : (n : ℕ) → Distinct (down_from n)
down_from-Distinct zero = tt
down_from-Distinct (suc n) = (ground (arith, has-down_from n n), down_from-Distinct n)

-- A priority schedule that has ended has run each of its entries once.
pub in_order_complete :
    {n : ℕ} {entry : Bool} {s : System}
    → Reach n entry s
    → s.turn ≡ ended
    → ((i : ℕ) → has i s.log ≡ ltb i n) × Distinct s.log
in_order_complete {n} reach at_end =
    rw (in_order reach at_end) (has-down_from n, down_from-Distinct n)

Turn-cases : (t : Turn) → (t ≡ ended) ⊎ (t ≢ ended)
Turn-cases ended = inl refl
Turn-cases t = inr (λ h. cc)

-- A step that somebody causes.
abbrev Progress : ℕ → System → Type 0
Progress n s = (t : System) × (st : Step n s t) × Directed st

module _ {n : ℕ} {s : System} (inv : Inv n s) where
  owner-Progress : s.owner ≡ worker s.round → (p : Place) → s.place ≡ p → Progress n s
  owner-Progress own testing e = elim (Bool-cases s.pause) [
    | inl shut ↦ (_, moves e (sleep shut), tt)
    | inr open_now ↦ (_, moves e (pass open_now), tt)
  ]
  owner-Progress own running e = (_, moves e measure, tt)
  owner-Progress own finishing e = (_, moves e unlock, tt)
  owner-Progress own p e = absurd (ground (arith, inv.owned s.round own))

  -- If the mutex is not with the scheduler, whoever waits for it gets it or its owner goes on.
  free-Progress :
      (s.owner ≡ nobody → Progress n s)
      → s.owner ≢ scheduler
      → (o : Owner) → s.owner ≡ o
      → Progress n s
  free-Progress now apart nobody e = now e
  free-Progress now apart scheduler e = absurd (apart e)
  free-Progress now apart (worker i) e = owner-Progress (inv.owns (inv.owned i e)) s.place refl

  notify-Progress : s.place ≡ notifying → (t : Turn) → s.turn ≡ t → Progress n s
  notify-Progress e waiting at = (_, notifies e at, tt)
  notify-Progress e t at = (_, notifies_none e (λ h. ground arith), tt)

  -- The worker goes on, where neither the scheduler has the mutex nor the worker is done.
  place-Progress :
      s.owner ≢ scheduler
      → s.place ≢ absent
      → s.place ≢ finished
      → s.place ≢ sleeping
      → (p : Place) → s.place ≡ p
      → Progress n s
  place-Progress apart here going awake absent e = absurd (here e)
  place-Progress apart here going awake finished e = absurd (going e)
  place-Progress apart here going awake sleeping e = absurd (awake e)
  place-Progress apart here going awake entering e =
      free-Progress (λ free. (_, moves e (lock free), tt)) apart s.owner refl
  place-Progress apart here going awake waking e =
      free-Progress (λ free. (_, moves e (relock free), tt)) apart s.owner refl
  place-Progress apart here going awake notifying e = notify-Progress e s.turn refl
  place-Progress apart here going awake p e = owner-Progress (inv.owns (ground arith)) s.place refl

  joining-Progress : s.turn ≡ joining → (p : Place) → s.place ≡ p → Progress n s
  joining-Progress at finished e = (_, join at e, tt)
  joining-Progress at p e =
      place-Progress (λ h. ground arith) (λ h. ground arith) (λ h. ground arith)
        (inv.awake (ground arith)) s.place refl

  turn-Progress : s.turn ≢ ended → (t : Turn) → s.turn ≡ t → Progress n s
  turn-Progress on spawning e = elim (dec_lt s.round n) [
    | yes lt ↦ (_, spawn e lt, tt)
    | no all ↦ (_, finish e (ground (arith, inv.rounds)), tt)
  ]
  turn-Progress on pinning e = (_, pin e, tt)
  turn-Progress on opening e =
      free-Progress (λ free. (_, take e free, tt)) (λ h. ground arith) s.owner refl
  turn-Progress on guarded e = (_, open_gate e, tt)
  turn-Progress on signalling e = (_, signal e, tt)
  turn-Progress on locking e =
      free-Progress (λ free. (_, acquire e free, tt)) (λ h. ground arith) s.owner refl
  turn-Progress on checking e = elim (Bool-cases s.ready) [
    | inl told ↦ (_, see_ready e told, tt)
    | inr not_yet ↦ (_, wait e not_yet, tt)
  ]
  turn-Progress on waiting e =
      place-Progress (λ h. ground arith) (λ h. ground arith) (inv.waited_for e)
        (inv.awake (ground arith)) s.place refl
  turn-Progress on woken e =
      free-Progress (λ free. (_, reacquire e free, tt)) (λ h. ground arith) s.owner refl
  turn-Progress on joining e = joining-Progress e s.place refl
  turn-Progress on ended e = absurd (on e)

-- Until the schedule has ended there is always a step that somebody causes, without help from
-- spurious wake-ups.
Reach-Progress :
    {n : ℕ} {entry : Bool} {s : System} → Reach n entry s → s.turn ≢ ended → Progress n s
Reach-Progress {s} r on = turn-Progress (Reach-Inv r) on s.turn refl

-- A step, but a wake-up that nobody caused.
abbrev pub Next : ℕ → System → System → Type 0
Next n s t = (st : Step n s t) × Directed st

-- No deadlock, no lost wake-up and no endless run: whichever steps the scheduler and the workers
-- take from any state they reach, wake-ups that nobody caused left aside, these are finitely many
-- and end with the end of the schedule, and until then there is a step to take.
pub priority_ends :
    {n : ℕ} {entry : Bool} {s : System}
    → Reach n entry s
    → Inevitable (Next n) (λ t. t.turn ≡ ended) s
priority_ends {n} {entry} r =
    Inevitable-rank (rank n) (λ s t reach next. later reach next.0)
      (λ s t reach next. rank_drops reach next.0 next.1)
      (λ t reach. elim (Turn-cases t.turn) [
        | inl over ↦ inl over
        | inr on ↦ let go = Reach-Progress reach on in inr (go.0, (go.1, go.2))
      ])
      r
