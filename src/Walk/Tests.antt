-- ===== src/Walk/Tests.antt =====
-- `setup`, `pr_co_setup` and the bodies on a block of four lines of 64 bytes at address 4096.
use microrev.Common.{ℕ, ◌+◌, ◌≡◌, refl, arith, Option, some, none, [], ◌∷◌, ◌++◌, map, List}
use microrev.Shuffle.{shuffle_array}
use microrev.Chain.{write, set_shuffled_linked_list}
use microrev.Chain.Build.{IsRing, address, set_shuffled_linked_list-IsRing}
use microrev.Setup.{Shared, setup}
use microrev.Setup.Laws.{IsReady, setup-IsReady}
use microrev.Walk.{reader_, writer_, producer_}
use microrev.Walk.Producer.{producer_-misses_last}
use microrev.Walk.Reader.{reader_-misses_last}
use microrev.Walk.Writer.{Marks, second_word, writer_-Marks}

abbrev before : Shared
before = record {
  shared_data = 0;
  shared_iter = 0;
  wrflag = [];
  shared_data_size = 256;
  cache_line_size = 64;
  memory = λ _. 7;
}

abbrev draw_last : ℕ → ℕ → ℕ
draw_last round bound = bound

-- The ring goes through the lines 0, 3, 1 and 2; the reader starts behind the block.
abbrev addresses_read : Option Shared → List ℕ
addresses_read none = []
addresses_read (some t) = (reader_ t 64).touched

reader_runs : addresses_read (setup draw_last 4096 256 64 before) ≡ 4352 ∷ 4096 ∷ 4288 ∷ 4224 ∷ []
unfolding setup reader_ set_shuffled_linked_list shuffle_array write
reader_runs = refl

set_shuffled_linked_list-IsRing_example :
    IsRing 4096 64 4 before.memory (set_shuffled_linked_list draw_last 4096 256 64 before.memory)
set_shuffled_linked_list-IsRing_example =
    set_shuffled_linked_list-IsRing draw_last (λ k b. omega arith) 4096 256 64 3 before.memory
      (omega arith) refl (omega arith) (omega arith) refl

abbrev prepared :
    (t : Shared) × (setup draw_last 4096 256 64 before ≡ some t)
    × IsReady 4096 64 4 before t
    × (t.wrflag ≡ before.wrflag)
prepared =
    setup-IsReady draw_last (λ k b. omega arith) 4096 256 64 3 before (omega arith) refl
      (omega arith) (omega arith) refl

abbrev after : Shared
after = prepared.0

reader_-misses_last_example :
    (reader_ after 64).touched ++ (reader_ after 64).iter ∷ []
    ≡ 4352 ∷ 4096 ∷ map (address 4096 64) prepared.2.order
reader_-misses_last_example =
    reader_-misses_last 4096 64 3 before after (omega arith) prepared.2.size prepared.2

writer_-Marks_example : Marks 4096 64 4 prepared.2.order (writer_ after 64)
writer_-Marks_example =
    writer_-Marks 4096 64 3 before after (omega arith) prepared.2.size prepared.2

producer_-misses_last_example :
    (producer_ after 64).touched ++ ((producer_ after 64).iter + 8) ∷ []
    ≡ 4360 ∷ map (second_word 4096 64) (0 ∷ prepared.2.order)
producer_-misses_last_example =
    producer_-misses_last 4096 64 3 before after (omega arith) prepared.2.size prepared.2
