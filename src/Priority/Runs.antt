-- ===== src/Priority/Runs.antt =====
-- A run of `counters_with_priority_schedule` to its end, for any number of entries.
use microrev.Common.{
  ◌⊎◌, inl, inr, ◌≡◌, ℕ, zero, suc, ◌≤◌, ◌<◌, refl, arith, Bool, true, false, List, ◌∷◌, [],
}
use microrev.Threads.{nobody, absent, lock, pass, measure, unlock}
use microrev.Priority.{
  spawning, ended, System, moves, notifies_none, spawn, pin, take, open_gate, signal, acquire,
  see_ready, join, finish, Reach, start, later,
}
use microrev.Priority.Inv.{down_from}

-- At the head of the loop.
abbrev pub heading : Bool → Bool → Bool → List ℕ → ℕ → System
heading pinned pause ready log k = record {
  sync = record { owner = nobody; pause = pause; ready = ready; log = log };
  round = k;
  turn = spawning;
  place = absent;
  pinned = pinned;
}

-- One round: the scheduler opens the gate before the worker comes to it.
round-Reach :
    (n k : ℕ) (entry pinned pause ready : Bool) (log : List ℕ)
    → k < n
    → Reach n entry (heading pinned pause ready log k)
    → Reach n entry (heading true false true (k ∷ log) (suc k))
round-Reach n k entry pinned pause ready log lt r =
    let opened =
      later
        (later (later (later (later r (spawn refl lt)) (pin refl)) (take refl refl))
          (open_gate refl))
        (signal refl) in
    let measured =
      later (later (later opened (moves refl (lock refl))) (moves refl (pass refl)))
        (moves refl measure) in
    let over = later (later measured (moves refl unlock)) (notifies_none refl (λ h. cc)) in
    later (later (later over (acquire refl refl)) (see_ready refl refl)) (join refl refl)

rounds-Reach :
    (n k : ℕ) (entry : Bool)
    → suc k ≤ n
    → Reach n entry (heading true false true (down_from (suc k)) (suc k))
rounds-Reach n zero entry le = round-Reach n 0 entry false entry false [] le start
rounds-Reach n (suc k) entry le =
    round-Reach n (suc k) entry true false true (down_from (suc k)) le
      (rounds-Reach n k entry (omega arith))

-- The head of the loop with the gate open: of any round but the first, and of the first if the call
-- finds it so.
pub head-Reach :
    (n k : ℕ) (entry : Bool)
    → k < n
    → (0 < k) ⊎ (entry ≡ false)
    → (pinned ready : Bool) × (log : List ℕ) × Reach n entry (heading pinned false ready log k)
head-Reach n (suc k) entry lt late =
    (true, true, down_from (suc k), rounds-Reach n k entry (omega arith))
head-Reach n zero false lt late = (false, false, [], start)
head-Reach n zero true lt (inl h) = absurd (omega arith)
head-Reach n zero true lt (inr h) = absurd (ground arith)

-- The state in which a run of one entry or more ends.
abbrev pub last : ℕ → System
last n = record {
  sync = record { owner = nobody; pause = false; ready = false; log = down_from n };
  round = n;
  turn = ended;
  place = absent;
  pinned = true;
}

pub last-Reach : (n : ℕ) (entry : Bool) → Reach (suc n) entry (last (suc n))
last-Reach n entry = later (rounds-Reach (suc n) n entry (omega arith)) (finish refl refl)
