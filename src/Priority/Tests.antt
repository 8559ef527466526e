-- ===== src/Priority/Tests.antt =====
-- Runs of `counters_with_priority_schedule` on one thread.
use microrev.Priority.Pinned.{RunsUnpinned, unpinned_iff}
use microrev.Common.{false, ◌↔◌, ◌⊎◌, true, Inevitable, ℕ, ◌≡◌, ◌<◌, refl, arith}
use microrev.Threads.{lock, sleep, pass, relock, measure, unlock}
use microrev.Priority.{
  System, moves, notifies, spawn, pin, take, open_gate, signal, acquire, wait, see_ready, reacquire,
  join, finish, ended, Reach, start, later,
}
use microrev.Priority.Inv.{down_from}
use microrev.Priority.Safety.{in_order, Next, priority_ends}

record Run (n : ℕ) : Type 0 where
  last : System
  reach : Reach n true last

-- The worker waits for the gate, the scheduler waits for the worker, and joins it.
abbrev joined : Run 1
joined = record {
  last = _;
  reach =
      later
        (later
          (later
            (later
              (later
                (later
                  (later
                    (later
                      (later
                        (later
                          (later
                            (later
                              (later
                                (later (later (later start (spawn refl (omega arith))) (pin refl))
                                  (moves refl (lock refl)))
                                (moves refl (sleep refl)))
                              (take refl refl))
                            (open_gate refl))
                          (signal refl))
                        (acquire refl refl))
                      (wait refl refl))
                    (moves refl (relock refl)))
                  (moves refl (pass refl)))
                (moves refl measure))
              (moves refl unlock))
            (notifies refl refl))
          (reacquire refl refl))
        (see_ready refl refl);
}

abbrev over : Run 1
over = record { last = _; reach = later (later joined.reach (join refl refl)) (finish refl refl) }

in_order_example : over.last.log ≡ down_from 1
in_order_example = in_order over.reach refl

priority_ends_example : Inevitable (Next 1) (λ t. t.turn ≡ ended) joined.last
priority_ends_example = priority_ends joined.reach

unpinned_iff_example : RunsUnpinned 2 true 1 ↔ ((0 < 1) ⊎ (true ≡ false))
unpinned_iff_example = unpinned_iff 2 true 1 (omega arith)
