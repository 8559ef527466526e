-- ===== src/Threads/Moves.antt =====
-- What a worker does by itself keeps each field of `Inv`.
use microrev.Common.{ℕ, ◌<◌, ◌≤◌, ◌≡◌, ◌≢◌, arith, true, false, not}
use microrev.Shuffle.Order.{has, Distinct}
use microrev.Threads.{
  nobody, scheduler, worker, Place, absent, sleeping, finished, holding, Sync, System, move_to,
  Move, lock, sleep, pass, relock, measure,
}
use microrev.Threads.Inv.{Inv, holds, passed, measured, opened, called, created, joined}

-- The premise of a move, for the catch-all clauses below.
abbrev Guard : {m m' : Sync} {i : ℕ} {p p' : Place} → Move m i p m' p' → Type 0
Guard {m} (lock _) = m.owner ≡ nobody
Guard {m} (sleep _) = m.pause ≡ true
Guard {m} (pass _) = m.pause ≡ false
Guard {m} (relock _) = m.owner ≡ nobody
Guard _ = Unit

guard : {m m' : Sync} {i : ℕ} {p p' : Place} (mv : Move m i p m' p') → Guard mv
guard (lock g) = g
guard (sleep g) = g
guard (pass g) = g
guard (relock g) = g
guard _ = tt

module _ {n : ℕ} {s : System} (inv : Inv n s) (i : ℕ) where
  open inv use {
    owns, owned, held, holder, gate, open_first, awake, few, exist, no_more, pins, logged, distinct,
    over,
  }

  Move-owns :
      {p p' : Place} {m : Sync}
      → Move s.sync i p m p'
      → s.place i ≡ p
      → (j : ℕ) → holds (move_to s.place i p' j) ≡ true
      → m.owner ≡ worker j
  Move-owns (lock g) e j h = ground (arith, owns j, owns i)
  Move-owns mv e j h = ground (arith, guard mv, owns j, owns i)

  Move-owned :
      {p p' : Place} {m : Sync}
      → Move s.sync i p m p'
      → s.place i ≡ p
      → (j : ℕ) → m.owner ≡ worker j
      → holds (move_to s.place i p' j) ≡ true
  Move-owned (lock g) e j h = ground (arith, owned j, owns i)
  Move-owned mv e j h = ground (arith, guard mv, owned j, owns i)

  Move-held :
      {p p' : Place} {m : Sync}
      → Move s.sync i p m p'
      → s.place i ≡ p
      → s.stage ≡ holding
      → m.owner ≡ scheduler
  Move-held (lock g) e h = ground (arith, owns i, held)
  Move-held mv e h = ground (arith, guard mv, owns i, held)

  Move-holder :
      {p p' : Place} {m : Sync}
      → Move s.sync i p m p'
      → s.place i ≡ p
      → m.owner ≡ scheduler
      → s.stage ≡ holding
  Move-holder (lock g) e h = ground (arith, holder)
  Move-holder mv e h = ground (arith, guard mv, holder)

  Move-gate : {p p' : Place} {m : Sync} → Move s.sync i p m p' → m.pause ≡ not (opened s.stage)
  Move-gate (lock g) = gate
  Move-gate mv = gate

  Move-open_first :
      {p p' : Place} {m : Sync}
      → Move s.sync i p m p'
      → s.place i ≡ p
      → (j : ℕ) → passed (move_to s.place i p' j) ≡ true
      → m.pause ≡ false
  Move-open_first (lock g) e j h = ground (arith, open_first j)
  Move-open_first mv e j h = ground (arith, guard mv, open_first j, open_first i)

  Move-awake :
      {p p' : Place} {m : Sync}
      → Move s.sync i p m p'
      → s.place i ≡ p
      → called s.stage ≡ true
      → (j : ℕ) → move_to s.place i p' j ≢ sleeping
  Move-awake (lock g) e c j h = ground (arith, awake c j)
  Move-awake mv e c j h = ground (arith, guard mv, gate, awake c j)

  Move-logged :
      {p p' : Place} {m : Sync}
      → Move s.sync i p m p'
      → s.place i ≡ p
      → (j : ℕ) → has j m.log ≡ measured (move_to s.place i p' j)
  Move-logged (lock g) e j = ground (arith, logged j, logged i)
  Move-logged mv e j = ground (arith, logged j, logged i)

  Move-Distinct : {p p' : Place} {m : Sync} → Move s.sync i p m p' → s.place i ≡ p → Distinct m.log
  Move-Distinct measure e = (ground (arith, logged i), distinct)
  Move-Distinct mv e = distinct

  Move-exist :
      {p p' : Place} {m : Sync}
      → Move s.sync i p m p'
      → s.place i ≡ p
      → (j : ℕ) → j < created n s.stage
      → move_to s.place i p' j ≢ absent
  Move-exist (lock g) e j lt h = ground (arith, exist j)
  Move-exist mv e j lt h = ground (arith, exist j)

  Move-no_more :
      {p p' : Place} {m : Sync}
      → Move s.sync i p m p'
      → s.place i ≡ p
      → (j : ℕ) → created n s.stage ≤ j
      → move_to s.place i p' j ≡ absent
  Move-no_more (lock g) e j le = ground (arith, no_more j, no_more i)
  Move-no_more mv e j le = ground (arith, no_more j, no_more i)

  Move-over :
      {p p' : Place} {m : Sync}
      → Move s.sync i p m p'
      → s.place i ≡ p
      → (j : ℕ) → j < joined n s.stage
      → move_to s.place i p' j ≡ finished
  Move-over (lock g) e j lt = ground (arith, over j)
  Move-over mv e j lt = ground (arith, over j)

  pub Move-Inv :
      {p p' : Place} {m : Sync}
      → Move s.sync i p m p'
      → s.place i ≡ p
      → Inv n (record s { sync = m; place = move_to s.place i p' })
  Move-Inv mv e = record {
    owns = Move-owns mv e;
    owned = Move-owned mv e;
    held = Move-held mv e;
    holder = Move-holder mv e;
    gate = Move-gate mv;
    open_first = Move-open_first mv e;
    awake = Move-awake mv e;
    few = few;
    exist = Move-exist mv e;
    no_more = Move-no_more mv e;
    pins = pins;
    logged = Move-logged mv e;
    distinct = Move-Distinct mv e;
    over = Move-over mv e;
  }
