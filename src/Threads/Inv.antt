-- ===== src/Threads/Inv.antt =====
-- What holds in every state that the threads reach.
use microrev.Common.{ℕ, suc, ◌<◌, ◌≤◌, ◌≡◌, ◌≢◌, Bool, true, false, not}
use microrev.Shuffle.Order.{has, Distinct}
use microrev.Threads.{
  scheduler, worker, Place, absent, testing, sleeping, running, finishing, notifying, finished,
  Stage, spawning, pinning, holding, broadcasting, joining, ended, System,
}

-- The worker owns the mutex.
abbrev pub holds : Place → Bool
holds testing = true
holds running = true
holds finishing = true
holds _ = false

-- The worker has seen `pause == false`.
abbrev pub passed : Place → Bool
passed running = true
passed finishing = true
passed notifying = true
passed finished = true
passed _ = false

-- The worker has run its benchmark.
abbrev pub measured : Place → Bool
measured finishing = true
measured notifying = true
measured finished = true
measured _ = false

-- The scheduler has set `pause = false`.
abbrev pub opened : Stage → Bool
opened broadcasting = true
opened (joining _) = true
opened ended = true
opened _ = false

-- The scheduler has called `notify_all`.
abbrev pub called : Stage → Bool
called (joining _) = true
called ended = true
called _ = false

-- How many threads the scheduler has created.
abbrev pub created : ℕ → Stage → ℕ
created n (spawning k) = k
created n (pinning k) = suc k
created n _ = n

-- How many threads it has bound to their cores.
abbrev pub bound : ℕ → Stage → ℕ
bound n (spawning k) = k
bound n (pinning k) = k
bound n _ = n

-- How many it has joined.
abbrev pub joined : ℕ → Stage → ℕ
joined n (joining k) = k
joined n ended = n
joined n _ = 0

pub record Inv (n : ℕ) (s : System) : Type 0 where
  pub owns : (i : ℕ) → holds (s.place i) ≡ true → s.owner ≡ worker i
  pub owned : (i : ℕ) → s.owner ≡ worker i → holds (s.place i) ≡ true
  pub held : s.stage ≡ holding → s.owner ≡ scheduler
  pub holder : s.owner ≡ scheduler → s.stage ≡ holding
  pub gate : s.pause ≡ not (opened s.stage)
  pub open_first : (i : ℕ) → passed (s.place i) ≡ true → s.pause ≡ false
  pub awake : called s.stage ≡ true → (i : ℕ) → s.place i ≢ sleeping
  pub few : created n s.stage ≤ n
  pub exist : (i : ℕ) → i < created n s.stage → s.place i ≢ absent
  pub no_more : (i : ℕ) → created n s.stage ≤ i → s.place i ≡ absent
  pub pins : (i : ℕ) → i < bound n s.stage → s.pinned i ≡ true
  pub logged : (i : ℕ) → has i s.log ≡ measured (s.place i)
  pub distinct : Distinct s.log
  pub over : (i : ℕ) → i < joined n s.stage → s.place i ≡ finished
