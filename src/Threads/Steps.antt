-- ===== src/Threads/Steps.antt =====
-- Every step keeps `Inv`, so it holds in every state that is reached.
use microrev.Common.{ℕ, suc, ◌<◌, ◌≡◌, arith}
use microrev.Threads.{
  entering, sleeping, waking, notifying, finished, spawning, pinning, pin_thread, opening, System,
  move_to, spurious,
}
use microrev.Threads.Inv.{Inv}
use microrev.Threads.Moves.{Move-Inv}

module _ {n : ℕ} {s : System} (inv : Inv n s) where
  open inv use {
    owns, owned, held, holder, gate, open_first, awake, few, exist, no_more, pins, logged, distinct,
    over,
  }

  pub notifies_none-Inv :
      (i : ℕ) → s.place i ≡ notifying → Inv n (record s { place = move_to s.place i finished })
  notifies_none-Inv i e = record {
    owns = λ j h. ground (arith, owns j);
    owned = λ j h. ground (arith, owned j);
    held = held;
    holder = holder;
    gate = gate;
    open_first = λ j h. ground (arith, open_first j, open_first i);
    awake = λ c j h. ground (arith, awake c j);
    few = few;
    exist = λ j lt h. ground (arith, exist j);
    no_more = λ j le. ground (arith, no_more j, no_more i);
    pins = pins;
    logged = λ j. ground (arith, logged j, logged i);
    distinct = distinct;
    over = λ j lt. ground (arith, over j);
  }

  pub notifies-Inv :
      (i j : ℕ)
      → s.place i ≡ notifying
      → s.place j ≡ sleeping
      → Inv n (record s { place = move_to (move_to s.place i finished) j waking })
  notifies-Inv i j e f = Move-Inv (notifies_none-Inv i e) j spurious (ground arith)

  pub spawn-Inv :
      (k : ℕ)
      → k < n
      → s.stage ≡ spawning k
      → Inv n (record s { stage = pinning k; place = move_to s.place k entering })
  spawn-Inv k lt e = record {
    owns = λ j h. ground (arith, owns j);
    owned = λ j h. ground (arith, owned j, no_more k);
    held = λ h. ground arith;
    holder = λ h. ground (arith, holder);
    gate = ground (arith, gate);
    open_first = λ j h. ground (arith, open_first j);
    awake = λ c j h. ground arith;
    few = lt;
    exist = λ j below h. ground (arith, exist j);
    no_more = λ j le. ground (arith, no_more j);
    pins = λ j below. ground (arith, pins j);
    logged = λ j. ground (arith, logged j, no_more k);
    distinct = distinct;
    over = λ j below. absurd (omega arith);
  }

  pub pin-Inv :
      (k : ℕ)
      → s.stage ≡ pinning k
      → Inv n (record s { stage = spawning (suc k); pinned = pin_thread s.pinned k })
  pin-Inv k e = record {
    owns = owns;
    owned = owned;
    held = λ h. ground arith;
    holder = λ h. ground (arith, holder);
    gate = ground (arith, gate);
    open_first = open_first;
    awake = λ c j h. ground arith;
    few = ground (arith, few);
    exist = λ j below. ground (arith, exist j);
    no_more = λ j le. ground (arith, no_more j);
    pins = λ j below. ground (arith, pins j);
    logged = logged;
    distinct = distinct;
    over = λ j below. absurd (omega arith);
  }

  -- The scheduler's other steps leave the workers where they are, but for `notify_all`.
  pub spawned-Inv : s.stage ≡ spawning n → Inv n (record s { stage = opening })
  spawned-Inv e = record {
    owns = owns;
    owned = owned;
    held = λ h. ground arith;
    holder = λ h. ground (arith, holder);
    gate = ground (arith, gate);
    open_first = open_first;
    awake = λ c j h. ground arith;
    few = omega arith;
    exist = λ j lt. ground (arith, exist j);
    no_more = λ j le. ground (arith, no_more j);
    pins = λ j below. ground (arith, pins j);
    logged = logged;
    distinct = distinct;
    over = λ j lt. absurd (omega arith);
  }
