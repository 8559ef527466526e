-- ===== src/Handshake/Tests.antt =====
-- Two lines, of which the producer has done one before the consumer comes.
use microrev.Common.{ℕ, Inevitable, ◌≡◌, refl, arith, ◌⊎◌}
use microrev.Common.Int.{ℤ, pos, negsuc, ◌-ℤ◌}
use microrev.Handshake.{
  Flags, fresh, all_set, produce, consume, Turns, start, later, produces, consumes, Turn, Found,
  set_up, after,
}
use microrev.Handshake.Order.{handshake_ends, wrflag-in_range, consumer_first}

abbrev started : Flags
started = fresh all_set

abbrev one_produced : Turns 2 all_set (produce started)
one_produced = later start (produces (omega arith))

handshake_ends_example :
    Inevitable (Turn 2) (λ t. (t.produced ≡ 2) × (t.consumed ≡ 2)) (produce started)
handshake_ends_example = handshake_ends one_produced

-- The consumer first, and then the producer: a flag of 0 is left.
abbrev consumer_then_producer : Flags
consumer_then_producer = produce (consume started)

abbrev left : ℕ → ℤ
left = consumer_then_producer.wrflag

first_test : Turns 1 all_set consumer_then_producer
unfolding produce consume
first_test = later (later start (consumes (omega arith))) (produces (omega arith))

abbrev found : Found 1 left
found = after set_up first_test (unfold produce consume in refl) (unfold produce consume in refl)

-- The producer first, in the next test: -1.
second_test : Turns 1 left (produce (fresh left))
second_test = later start (produces (omega arith))

below_zero : (produce (fresh left)).wrflag 0 ≡ negsuc 0
unfolding produce consume ◌-ℤ◌
below_zero = refl

wrflag-in_range_example :
    (((produce (fresh left)).wrflag 0 ≡ negsuc 0)
      ⊎ (((produce (fresh left)).wrflag 0 ≡ pos 0) ⊎ ((produce (fresh left)).wrflag 0 ≡ pos 1)))
    × ((left 0 ≡ pos 0) ⊎ (left 0 ≡ pos 1))
wrflag-in_range_example = wrflag-in_range found second_test 0

consumer_first_example : (s : Flags) × Turns 5 all_set s × (s.produced ≡ 0) × (s.consumed ≡ 5)
consumer_first_example = consumer_first 5

-- The spin: the consumer finds 0, sets the flag, and passes at its second test.
spins : (consume (produce started)).consumed ≡ 0
unfolding produce consume
spins = refl

passes : (consume (consume (produce started))).consumed ≡ 1
unfolding produce consume
passes = refl
