-- ===== src/Lib.antt =====
-- A verification library for microrev, which measures the cache coherence protocol of a machine:
-- threads pinned to cores bring the lines of a shared block into a coherence state, and one more
-- body, a load or a store of those lines, is measured with hardware counters and the clock.
--
-- The parts of the program and the files that model them:
--   * library/lib/benchmark_helpers.cpp, `avg_no_overflow`: Average. Signed and unsigned conversions
--     of 64 bits are written out; the `long double` holds each integer that the loop adds to, as it
--     does with a mantissa of 64 bits; what it makes of the fraction that is added last is the
--     argument `quotient`, which rounds. The result of a conversion that C++ leaves undefined is
--     `none`.
--   * library/include/shuffle.h, `shuffle_array`: Shuffle. The engine and the distribution of the
--     standard library are one function `dist round bound`, known to return a number up to `bound`.
--     An access out of bounds is `none`, and so is a vector whose places an `int` cannot count.
--     `set_shuffled_linked_list`: Chain, over a flat memory of words of 8 bytes, one at each address
--     that the code uses; the addresses of the vector that is shuffled are its elements.
--   * library/include/benchmark_helpers.h, the macro BENCHMARK_INIT: Setup has its globals, `setup`
--     and `pr_co_setup`, which run the statements of Chain on the shared block; Walk has the loops of
--     the bodies `reader_`, `writer_`, `producer_`, `consumer_` and `flusher_`; Bench has `init_state` and
--     `run_test`, which choose the bodies and the cores. The caches are hardware: Coherence states
--     the laws of a MESI-like protocol as a record, with MESI itself as an instance.
--   * library/include/thread_utils.h, `counter_thread_fn` and `counters_with_schedule`: Threads, a
--     step relation for any number of workers and the scheduler. A step is one synchronising action,
--     so that every interleaving is a run; spurious wake-ups are steps as well. Priority is the same for
--     `counters_with_priority_schedule`, with the worker of Threads. In both `pin_to_core` is one step,
--     in which its call succeeds; Pinning has what it and `pin_self_to_core` of library/lib/thread_utils.cpp
--     do with the calls of sched.h and pthread.h, which are a record, and how a failure ends the program.
--   * library/lib/counter.cpp and library/include/counter.h, `PAPILLCounter`: Counter, which also has
--     the calls that `counter_thread_fn` makes of its counter. PAPI and the clock are a record of
--     calls over a state of the machine; `Works` in Counter/Laws states in which order PAPI allows them, and
--     Counter/Rounds what a run of a benchmark does, by its calls of PAPI and its readings of the clock.
--     Counter/Init has the constructors and Counter/Output what a counter prints, as a list of lines
--     in which numbers are not yet text. A double is kept as the operations that give it.
--   * The counters of a schedule: Gather, which runs the workers in the order that a run of Threads or
--     Priority has logged, over one state of the machine, since no two of them run at once. It takes
--     benchmarks of any kind; of those of BENCHMARK_INIT, what their loops do to the machine is an
--     argument, and the words that they touch are in Walk.
--     Dump is `run_test` as a whole, with the lines that it writes to dump.dat.
--   * benchmarks/src/protocols.cpp and benchmarks/src/producer_consumer.cpp: Sweep, what `main` does
--     with `run_test`. benchmarks/src/a_measurement.cpp: Measurement, a sweep over working sets with one
--     scheduler. In both, `setup` is what it does to the machine.
--   * benchmarks/src/cacheline.cpp: Cacheline, the list of lines and the walk over it, in the memory of
--     Chain, and Cacheline/Main, the program with its counters, for which building and walking the list
--     are two changes of the machine. benchmarks/src/rd_latency.cpp: RdLatency, its two lists in the
--     memory of Chain and Latency, and the program with its counter. benchmarks/src/cache.cpp: Cache, the
--     array that `doloops` fills and loads from, and the program with its counters.
--   * profiling/src/icache_linear.cpp: Icache. `PMCCounter` of counter.cpp: Pmc, over the calls of pmc(3).
--   * `producer_` and `consumer_` as two threads that share `wrflag`: Handshake.
--   * `parse_cfg` and INIT_ARCH_CFG, of benchmark_helpers.h too: Config.
--   * standalone/rd_latency.c: Latency, the list of lines and the walk over it, over the memory of Chain,
--     and the program as a whole, over the addresses that `malloc` returns and the readings of the clock.
--   * benchmarks/src/flush.cpp: Flush, the schedules of its two tests, what they keep, and its
--     sweeps over sizes, whose averages are those of Average.
--   * standalone/branch_predictor.c: BranchPredictor, its counting macros and the summary that it prints.
--   * library/lib/time_utils.cpp, `rdtsc`, and profiling/src/thread_v_pthread.cpp: Clock, over the two
--     instructions of the compiler.
--   * library/include/constants.h: Constants.
--   * library/include/init_state.h, an older form of the bodies and of `init_state`: InitState.
-- Common has the names and lemmas that these share.
--
-- Loops that count by a stride run on fuel: `collect` and `link_loop` of Chain, `link_lines` of
-- Latency, `stride_loop` of Cacheline and the loops of Cache take one round more than the size of the
-- block, and a stride is at least 1. `sweep` of Measurement takes one round more than its first n, which
-- each round halves. `count_loop` of BranchPredictor takes one round more than its limit, `rounds` of
-- Latency one more than its 19 sizes, and the loops of InitState one more than the size. The other
-- loops recurse on a list or on the number of rounds that is left.
--
-- Not modelled: thread_vs_pthread.cpp under standalone, which starts one thread; the programs under
-- library/test, which run the library on hardware; the scripts; the freeing of blocks.
pub mod Common
pub mod Average
pub mod Shuffle
pub mod Chain
pub mod RdLatency
pub mod Setup
pub mod Walk
pub mod Threads
pub mod Clock
pub mod Coherence
pub mod Bench
pub mod Counter
pub mod Handshake
pub mod Priority
pub mod InitState
pub mod Latency
pub mod Flush
pub mod Config
pub mod Constants
pub mod Gather
pub mod Dump
pub mod Sweep
pub mod Pinning
pub mod Pmc
pub mod Measurement
pub mod BranchPredictor
pub mod Cache
pub mod Cacheline
pub mod Icache
