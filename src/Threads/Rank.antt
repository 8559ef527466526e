-- ===== src/Threads/Rank.antt =====
-- A rank of the states, which every directed step lowers.
use microrev.Common.{ℕ, zero, suc, ◌+◌, ◌-◌, ◌*◌, ◌≤◌, ◌<◌, ◌≡◌, ◌≢◌, refl, arith, dec_lt}
use microrev.Threads.{
  Place, absent, entering, testing, sleeping, waking, running, finishing, notifying, finished,
  Stage, spawning, pinning, opening, holding, broadcasting, joining, ended, Sync, System, move_to,
  wake, Move, lock, sleep, pass, relock, measure, unlock, spurious, Step, moves, notifies,
  notifies_none, spawn, pin, spawned, take, open_gate, broadcast, join, finish, Caused, Directed,
}
use microrev.Threads.Inv.{Inv}

-- What a worker has before it, with what its `notify_one` may hand to another.
abbrev weight : Place → ℕ
weight absent = 11
weight entering = 10
weight waking = 10
weight testing = 9
weight running = 8
weight finishing = 7
weight notifying = 6
weight sleeping = 5
weight finished = 0

abbrev stage_weight : ℕ → Stage → ℕ
stage_weight n (spawning k) = 8 * n + 6 - 2 * k
stage_weight n (pinning k) = 8 * n + 5 - 2 * k
stage_weight n opening = 6 * n + 5
stage_weight n holding = 6 * n + 4
stage_weight n broadcasting = 6 * n + 3
stage_weight n (joining k) = n + 2 - k
stage_weight n ended = 0

total : ℕ → (ℕ → Place) → ℕ
total zero f = 0
total (suc n) f = total n f + weight (f n)

pub rank : ℕ → System → ℕ
rank n s = total n s.place + stage_weight n s.stage

total-move_to_out :
    (n : ℕ) (f : ℕ → Place) (i : ℕ) (p : Place) → n ≤ i → total n (move_to f i p) ≡ total n f
unfolding total
total-move_to_out zero f i p h = refl
total-move_to_out (suc n) f i p h = ground (arith, total-move_to_out n f i p)

total-move_to :
    (n : ℕ) (f : ℕ → Place) (i : ℕ) (p : Place)
    → i < n
    → total n (move_to f i p) + weight (f i) ≡ total n f + weight p
unfolding total
total-move_to zero f i p h = absurd (omega arith)
total-move_to (suc n) f i p h = elim (dec_lt i n) [
  | yes below ↦ ground (arith, total-move_to n f i p below)
  | no last ↦ ground (arith, total-move_to_out n f i p)
]

total-wake : (n : ℕ) (f : ℕ → Place) → total n (λ j. wake (f j)) ≤ total n f + 5 * n
unfolding total
total-wake zero f = omega arith
total-wake (suc n) f = ground (arith, total-wake n f)

Move-weight :
    {m m' : Sync} {i : ℕ} {p p' : Place}
    → (mv : Move m i p m' p') → Caused mv
    → weight p' < weight p
Move-weight (lock g) c = omega arith
Move-weight (sleep g) c = omega arith
Move-weight (pass g) c = omega arith
Move-weight (relock g) c = omega arith
Move-weight measure c = omega arith
Move-weight unlock c = omega arith
Move-weight spurious c = elim c [ ]

-- A thread that is anywhere but `absent` is one of the `n`.
pub lt_of_place : {n : ℕ} {s : System} → Inv n s → (j : ℕ) → s.place j ≢ absent → j < n
lt_of_place {n} inv j there = elim (dec_lt j n) [
  | yes lt ↦ lt
  | no beyond ↦ absurd (there (inv.no_more j (omega (arith, inv.few))))
]

notifies-rank :
    (n : ℕ) (s : System) (i j : ℕ)
    → i < n
    → j < n
    → s.place i ≡ notifying
    → s.place j ≡ sleeping
    → total n (move_to (move_to s.place i finished) j waking) < total n s.place
notifies-rank n s i j lt lt' e f = ground (
  arith,
  total-move_to n s.place i finished lt,
  total-move_to n (move_to s.place i finished) j waking lt',
)

-- Every directed step lowers the rank.
pub Step-rank :
    {n : ℕ} {s t : System} → Inv n s → (st : Step n s t) → Directed st → rank n t < rank n s
unfolding rank
Step-rank {n} {s} inv (moves i {p} {p'} lt e mv) d =
    ground (arith, total-move_to n s.place i p' lt, Move-weight mv d)
Step-rank {n} {s} inv (notifies i j lt e f) d =
    omega (arith, notifies-rank n s i j lt (lt_of_place inv j (λ h. ground arith)) e f)
Step-rank {n} {s} inv (notifies_none i lt e) d =
    ground (arith, total-move_to n s.place i finished lt)
Step-rank {n} {s} inv (spawn k lt e) d =
    ground (arith, total-move_to n s.place k entering lt, inv.no_more k)
Step-rank inv (pin k e) d = ground (arith, inv.few)
Step-rank inv (spawned e) d = ground arith
Step-rank inv (take e free) d = ground arith
Step-rank inv (open_gate e) d = ground arith
Step-rank {n} {s} inv (broadcast e) d = ground (arith, total-wake n s.place)
Step-rank inv (join k lt e done) d = ground arith
Step-rank inv (finish e) d = ground arith
