-- ===== src/Threads/Stages.antt =====
-- The scheduler's steps behind the creation of the threads keep `Inv`, and so does every step.
use microrev.Common.{ℕ, suc, ◌<◌, ◌≡◌, ◌≢◌, refl, arith, false}
use microrev.Threads.{
  Place, sleeping, finished, opening, nobody, scheduler, holding, broadcasting, joining, ended,
  System, wake, Step, moves, notifies, notifies_none, spawn, pin, spawned, take, open_gate,
  broadcast, join, finish, init, Reach, start, later,
}
use microrev.Threads.Inv.{Inv, holds, passed, measured}
use microrev.Threads.Moves.{Move-Inv}
use microrev.Threads.Steps.{notifies_none-Inv, notifies-Inv, spawn-Inv, pin-Inv, spawned-Inv}

wake_lem :
    (p : Place)
    → (holds (wake p) ≡ holds p)
      × (passed (wake p) ≡ passed p)
      × (measured (wake p) ≡ measured p)
      × (wake p ≢ sleeping)
wake_lem p = ground arith

module _ {n : ℕ} {s : System} (inv : Inv n s) where
  open inv use {
    owns, owned, held, holder, gate, open_first, awake, few, exist, no_more, pins, logged, distinct,
    over,
  }

  take-Inv :
      s.stage ≡ opening
      → s.owner ≡ nobody
      → Inv n (record s { sync = record s.sync { owner = scheduler }; stage = holding })
  take-Inv e free = record {
    owns = λ j h. ground (arith, owns j);
    owned = λ j h. ground arith;
    held = λ h. refl;
    holder = λ h. refl;
    gate = ground (arith, gate);
    open_first = open_first;
    awake = λ c j h. ground arith;
    few = omega arith;
    exist = λ j lt. ground (arith, exist j);
    no_more = λ j le. ground (arith, no_more j);
    pins = λ j below. ground (arith, pins j);
    logged = logged;
    distinct = distinct;
    over = λ j lt. absurd (omega arith);
  }

  open_gate-Inv :
      s.stage ≡ holding
      → Inv n (record s {
        sync = record s.sync { owner = nobody; pause = false };
        stage = broadcasting;
      })
  open_gate-Inv e = record {
    owns = λ j h. ground (arith, owns j, held);
    owned = λ j h. ground arith;
    held = λ h. ground arith;
    holder = λ h. ground arith;
    gate = refl;
    open_first = λ j h. refl;
    awake = λ c j h. ground arith;
    few = omega arith;
    exist = λ j lt. ground (arith, exist j);
    no_more = λ j le. ground (arith, no_more j);
    pins = λ j below. ground (arith, pins j);
    logged = logged;
    distinct = distinct;
    over = λ j lt. absurd (omega arith);
  }

  broadcast-Inv :
      s.stage ≡ broadcasting → Inv n (record s { stage = joining 0; place = λ j. wake (s.place j) })
  broadcast-Inv e = record {
    owns = λ j h. ground (arith, owns j, wake_lem (s.place j));
    owned = λ j h. ground (arith, owned j, wake_lem (s.place j));
    held = λ h. ground arith;
    holder = λ h. ground (arith, holder);
    gate = ground (arith, gate);
    open_first = λ j h. ground (arith, open_first j, wake_lem (s.place j));
    awake = λ c j. (wake_lem (s.place j)).3;
    few = omega arith;
    exist = λ j lt h. ground (arith, exist j);
    no_more = λ j le. ground (arith, no_more j);
    pins = λ j below. ground (arith, pins j);
    logged = λ j. ground (arith, logged j, wake_lem (s.place j));
    distinct = distinct;
    over = λ j lt. absurd (omega arith);
  }

  join-Inv :
      (k : ℕ)
      → k < n
      → s.stage ≡ joining k
      → s.place k ≡ finished
      → Inv n (record s { stage = joining (suc k) })
  join-Inv k lt e done = record {
    owns = owns;
    owned = owned;
    held = λ h. ground arith;
    holder = λ h. ground (arith, holder);
    gate = ground (arith, gate);
    open_first = open_first;
    awake = λ c. awake (ground arith);
    few = omega arith;
    exist = λ j below. ground (arith, exist j);
    no_more = λ j le. ground (arith, no_more j);
    pins = λ j below. ground (arith, pins j);
    logged = logged;
    distinct = distinct;
    over = λ j below. ground (arith, over j);
  }

  finish-Inv :
      s.stage ≡ joining n
      → Inv n (record s { sync = record s.sync { ready = false; pause = false }; stage = ended })
  finish-Inv e = record {
    owns = owns;
    owned = owned;
    held = λ h. ground arith;
    holder = λ h. ground (arith, holder);
    gate = refl;
    open_first = λ j h. refl;
    awake = λ c. awake (ground arith);
    few = omega arith;
    exist = λ j below. ground (arith, exist j);
    no_more = λ j le. ground (arith, no_more j);
    pins = λ j below. ground (arith, pins j);
    logged = logged;
    distinct = distinct;
    over = λ j below. ground (arith, over j);
  }

Step-Inv : {n : ℕ} {s t : System} → Step n s t → Inv n s → Inv n t
Step-Inv (moves i lt e mv) inv = Move-Inv inv i mv e
Step-Inv (notifies i j lt e f) inv = notifies-Inv inv i j e f
Step-Inv (notifies_none i lt e) inv = notifies_none-Inv inv i e
Step-Inv (spawn k lt e) inv = spawn-Inv inv k lt e
Step-Inv (pin k e) inv = pin-Inv inv k e
Step-Inv (spawned e) inv = spawned-Inv inv e
Step-Inv (take e free) inv = take-Inv inv e free
Step-Inv (open_gate e) inv = open_gate-Inv inv e
Step-Inv (broadcast e) inv = broadcast-Inv inv e
Step-Inv (join k lt e done) inv = join-Inv inv k lt e done
Step-Inv (finish e) inv = finish-Inv inv e

init-Inv : (n : ℕ) → Inv n init
init-Inv n = record {
  owns = λ i h. cc;
  owned = λ i h. cc;
  held = λ h. cc;
  holder = λ h. cc;
  gate = refl;
  open_first = λ i h. cc;
  awake = λ c i h. cc;
  few = omega arith;
  exist = λ i lt. absurd (omega arith);
  no_more = λ i le. refl;
  pins = λ i lt. absurd (omega arith);
  logged = λ i. refl;
  distinct = tt;
  over = λ i lt. absurd (omega arith);
}

pub Reach-Inv : {n : ℕ} {s : System} → Reach n s → Inv n s
Reach-Inv {n} start = init-Inv n
Reach-Inv (later r st) = Step-Inv st (Reach-Inv r)
