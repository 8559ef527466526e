-- ===== src/Priority/Pinned.antt =====
-- src/library/include/thread_utils.h: where `counters_with_priority_schedule` binds a thread to its
-- core (`pin_to_core`), against where the thread runs its benchmark.
use microrev.Common.{ℕ, zero, suc, ◌<◌, ◌≡◌, ◌⊎◌, ◌↔◌, inl, inr, refl, arith, Bool, true, false}
use microrev.Threads.{running, lock, sleep, pass, relock, measure, unlock, spurious}
use microrev.Priority.{
  Turn, spawning, pinning, opening, guarded, System, Step, moves, notifies, notifies_none, spawn,
  pin, take, open_gate, signal, acquire, wait, see_ready, wakes, reacquire, join, finish, Reach,
  start, later,
}
use microrev.Priority.Inv.{Reach-Inv}
use microrev.Priority.Runs.{head-Reach}

-- The scheduler has not yet set `pause = false` in this round.
abbrev before_open : Turn → Bool
before_open spawning = true
before_open pinning = true
before_open opening = true
before_open guarded = true
before_open _ = false

Step-shut :
    {n : ℕ} {s t : System}
    → Step n s t
    → (s.round ≡ 0 → before_open s.turn ≡ true → s.pause ≡ true)
    → t.round ≡ 0
    → before_open t.turn ≡ true
    → t.pause ≡ true
Step-shut (moves e (lock h)) was z b = ground arith
Step-shut (moves e (sleep h)) was z b = ground arith
Step-shut (moves e (pass h)) was z b = ground arith
Step-shut (moves e (relock h)) was z b = ground arith
Step-shut (moves e measure) was z b = ground arith
Step-shut (moves e unlock) was z b = ground arith
Step-shut (moves e spurious) was z b = ground arith
Step-shut (notifies e h) was z b = ground arith
Step-shut (notifies_none e h) was z b = ground arith
Step-shut (spawn e h) was z b = ground arith
Step-shut (pin e) was z b = ground arith
Step-shut (take e h) was z b = ground arith
Step-shut (open_gate e) was z b = ground arith
Step-shut (signal e) was z b = ground arith
Step-shut (acquire e h) was z b = ground arith
Step-shut (wait e h) was z b = ground arith
Step-shut (see_ready e h) was z b = ground arith
Step-shut (wakes e) was z b = ground arith
Step-shut (reacquire e h) was z b = ground arith
Step-shut (join e h) was z b = ground arith
Step-shut (finish e h) was z b = ground arith

-- In the first round of a call that finds `pause` set, it stays set until the scheduler opens.
shut_first :
    {n : ℕ} {s : System} → Reach n true s → s.round ≡ 0 → before_open s.turn ≡ true → s.pause ≡ true
shut_first start z b = refl
shut_first (later r st) z b = Step-shut st (shut_first r) z b

-- The thread of round `k`, running its benchmark, not bound to the core of its entry.
abbrev pub RunsUnpinned : ℕ → Bool → ℕ → Type 0
RunsUnpinned n entry k =
    (s : System) × Reach n entry s × (s.round ≡ k) × (s.place ≡ running) × (s.pinned ≡ false)

RunsUnpinned-later :
    (n : ℕ) (entry : Bool) (k : ℕ) → RunsUnpinned n entry k → (0 < k) ⊎ (entry ≡ false)
RunsUnpinned-later n false k unpinned = inr refl
RunsUnpinned-later n true zero (s, r, at, run, free) =
    let inv = Reach-Inv r in absurd (ground (arith, inv.bound, inv.open_first, shut_first r, inv))
RunsUnpinned-later n true (suc k) unpinned = inl (omega arith)

later-RunsUnpinned :
    (n : ℕ) (entry : Bool) (k : ℕ) → k < n → (0 < k) ⊎ (entry ≡ false) → RunsUnpinned n entry k
later-RunsUnpinned n entry k lt late =
    let at_head = head-Reach n k entry lt late in
    (
      _,
      later (later (later at_head.3 (spawn refl lt)) (moves refl (lock refl)))
          (moves refl (pass refl)),
      refl,
      refl,
      refl,
    )

-- A thread of a schedule of `n` entries can run its benchmark before `pin_to_core` has bound it to
-- the core of its entry exactly if it is not the first, or if `pause` was false when
-- `counters_with_priority_schedule` was called: no round sets `pause` back.
pub unpinned_iff :
    (n : ℕ) (entry : Bool) (k : ℕ) → k < n → RunsUnpinned n entry k ↔ ((0 < k) ⊎ (entry ≡ false))
unpinned_iff n entry k lt = (RunsUnpinned-later n entry k, later-RunsUnpinned n entry k lt)
