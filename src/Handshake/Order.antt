-- ===== src/Handshake/Order.antt =====
-- What the handshake of producer and consumer does, and what it does not.
use microrev.Common.{
  Inevitable, Inevitable-rank, dec_lt, inl, ℕ, zero, suc, ◌+◌, ◌-◌, ◌*◌, ◌≤◌, ◌<◌, ◌≡◌, refl, ap,
  ◌∙◌, arith, ◌⊎◌, inr, if◌then◌else◌,
}
use microrev.Common.Int.{ℤ, pos, negsuc, ◌-ℤ◌}
use microrev.Handshake.{
  Flags, is_zero, produce, consume, Turn, produces, consumes, Turns, start, later, fresh, all_set,
  Found, set_up, after,
}

-- Both loops stay within the lines.
record InLines (line_cnt : ℕ) (s : Flags) : Type 0 where
  in_lines : (s.produced ≤ line_cnt) × (s.consumed ≤ line_cnt)

Turns-InLines : {line_cnt : ℕ} {f : ℕ → ℤ} {s : Flags} → Turns line_cnt f s → InLines line_cnt s
unfolding produce consume ◌-ℤ◌
Turns-InLines start = record { in_lines = ground arith }
Turns-InLines (later r (produces lt)) = record {
  in_lines = ground (arith, (Turns-InLines r).in_lines);
}
Turns-InLines (later r (consumes lt)) = record {
  in_lines = ground (arith, (Turns-InLines r).in_lines);
}

-- Flags that are 0 or 1.
abbrev Binary : (ℕ → ℤ) → Type 0
Binary f = (i : ℕ) → (f i ≡ pos 0) ⊎ (f i ≡ pos 1)

-- A flag is 0 or 1 until the producer comes, and 1 if the consumer has been there. It is -1, 0 or 1
-- when the producer has come, and not -1 any more when the consumer has.
record Inv (s : Flags) : Type 0 where
  ahead : (i : ℕ) → s.produced ≤ i → (s.wrflag i ≡ pos 0) ⊎ (s.wrflag i ≡ pos 1)
  passed : (i : ℕ) → s.produced ≤ i → i < s.consumed → s.wrflag i ≡ pos 1
  behind :
      (i : ℕ)
      → i < s.produced
      → (s.wrflag i ≡ negsuc 0) ⊎ ((s.wrflag i ≡ pos 0) ⊎ (s.wrflag i ≡ pos 1))
  settled : (i : ℕ) → i < s.produced → i < s.consumed → (s.wrflag i ≡ pos 0) ⊎ (s.wrflag i ≡ pos 1)

Turn-Inv : {line_cnt : ℕ} {s t : Flags} → Turn line_cnt s t → Inv s → Inv t
unfolding produce consume ◌-ℤ◌
Turn-Inv {line_cnt} {s} (produces lt) inv = record {
  ahead = λ i le. ground (arith, inv.ahead i);
  passed = λ i le used. ground (arith, inv.passed i);
  behind = λ i made. ground (arith, inv.behind i, inv.ahead s.produced);
  settled = λ i made used. ground (arith, inv.settled i, inv.passed s.produced);
}
Turn-Inv {line_cnt} {s} (consumes lt) inv = record {
  ahead = λ i le. ground (arith, inv.ahead i);
  passed = λ i le used. ground (arith, inv.passed i);
  behind = λ i made. ground (arith, inv.behind i);
  settled = λ i made used. ground (arith, inv.settled i);
}

Turns-Inv : {line_cnt : ℕ} {f : ℕ → ℤ} {s : Flags} → Binary f → Turns line_cnt f s → Inv s
Turns-Inv binary start = record {
  ahead = λ i le. binary i;
  passed = λ i le used. absurd (omega arith);
  behind = λ i made. absurd (omega arith);
  settled = λ i made used. absurd (omega arith);
}
Turns-Inv binary (later r turn) = Turn-Inv turn (Turns-Inv binary r)

any_flag :
    (s : Flags)
    → Inv s
    → (i : ℕ) → (s.wrflag i ≡ negsuc 0) ⊎ ((s.wrflag i ≡ pos 0) ⊎ (s.wrflag i ≡ pos 1))
any_flag s inv i = elim (dec_lt i s.produced) [
  | yes made ↦ inv.behind i made
  | no ahead ↦ inr (inv.ahead i (omega arith))
]

Found-Binary : {line_cnt : ℕ} {f : ℕ → ℤ} → Found line_cnt f → Binary f
Found-Binary set_up i = inr refl
Found-Binary {line_cnt} (after {f} {s} found r made used) i =
    let inv = Turns-Inv (Found-Binary found) r in
    elim (dec_lt i line_cnt) [
      | yes below ↦ inv.settled i (omega (arith, made)) (omega (arith, used))
      | no above ↦ inv.ahead i (omega (arith, made))
    ]

-- Rounds that are left, and a spin that the consumer has ahead of it.
abbrev work_left : ℕ → Flags → ℕ
work_left line_cnt s =
    2 * (line_cnt - s.produced)
    + 2 * (line_cnt - s.consumed)
    + (if is_zero (s.wrflag s.consumed) then 1 else 0)

-- Each turn of the producer or the consumer brings both loops nearer to their end: the work that is
-- left falls, whatever the interleaving, so the consumer does not spin for ever.
Turn-work_left :
    {line_cnt : ℕ} {f : ℕ → ℤ} {s t : Flags}
    → Turns line_cnt f s
    → Turn line_cnt s t
    → work_left line_cnt t < work_left line_cnt s
unfolding produce consume ◌-ℤ◌
Turn-work_left {line_cnt} {s} r (produces lt) = ground (arith, (Turns-InLines r).in_lines)
Turn-work_left {line_cnt} {s} r (consumes lt) = ground (arith, (Turns-InLines r).in_lines)

next_turn :
    {line_cnt : ℕ} {f : ℕ → ℤ} (s : Flags)
    → Turns line_cnt f s
    → ((s.produced ≡ line_cnt) × (s.consumed ≡ line_cnt)) ⊎ ((t : Flags) × Turn line_cnt s t)
next_turn {line_cnt} s r = elim (dec_lt s.produced line_cnt) [
  | yes lt ↦ inr (produce s, produces lt)
  | no made ↦ elim (dec_lt s.consumed line_cnt) [
    | yes lt ↦ inr (consume s, consumes lt)
    | no used ↦
        let inv = Turns-InLines r in inl (omega (arith, inv.in_lines), omega (arith, inv.in_lines))
  ]
]

-- Whatever the flags are at their start, and whatever turns the producer and the consumer take, there are finitely many, and both loops are
-- through all lines then; until then one of the two has a turn to take.
pub handshake_ends :
    {line_cnt : ℕ} {f : ℕ → ℤ} {s : Flags}
    → Turns line_cnt f s
    → Inevitable (Turn line_cnt) (λ t. (t.produced ≡ line_cnt) × (t.consumed ≡ line_cnt)) s
handshake_ends {line_cnt} r =
    Inevitable-rank (work_left line_cnt) (λ s t reach turn. later reach turn)
      (λ s t reach turn. Turn-work_left reach turn) next_turn r

-- In any test on the flags of one `pr_co_setup`, the first or a later one, and in every interleaving,
-- each flag is -1, 0 or 1, so that the atomic addition never leaves the range of an `int`; the flags
-- that a test finds are 0 or 1.
pub wrflag-in_range :
    {line_cnt : ℕ} {f : ℕ → ℤ} {s : Flags}
    → Found line_cnt f
    → Turns line_cnt f s
    → (i : ℕ)
    → ((s.wrflag i ≡ negsuc 0) ⊎ ((s.wrflag i ≡ pos 0) ⊎ (s.wrflag i ≡ pos 1)))
      × ((f i ≡ pos 0) ⊎ (f i ≡ pos 1))
wrflag-in_range {line_cnt} {f} {s} found r i =
    (any_flag s (Turns-Inv (Found-Binary found) r) i, Found-Binary found i)

-- The consumer passes every line after two tests at most, without a round of the producer.
consume-passes : (s : Flags) → s.consumed < (consume (consume s)).consumed
unfolding consume
consume-passes s = ground arith

consume-passes_set :
    (s : Flags)
    → s.wrflag s.consumed ≡ pos 1
    → ((consume s).consumed ≡ suc s.consumed) × ((consume s).produced ≡ s.produced)
unfolding consume
consume-passes_set s set = ground (arith, set)

abbrev Alone : ℕ → ℕ → Type 0
Alone line_cnt k =
    (s : Flags) × Turns line_cnt all_set s
    × ((i : ℕ) → s.wrflag i ≡ pos 1)
    × (s.produced ≡ 0)
    × (s.consumed ≡ k)

still_set : (s : Flags) → ((i : ℕ) → s.wrflag i ≡ pos 1) → (i : ℕ) → (consume s).wrflag i ≡ pos 1
unfolding consume
still_set s set i = ground (arith, set i)

alone : (line_cnt k : ℕ) → k ≤ line_cnt → Alone line_cnt k
alone line_cnt zero le = (fresh all_set, start, (λ i. refl), refl, refl)
alone line_cnt (suc k) le =
    let (s, r, set, none_yet, at) = alone line_cnt k (omega arith) in
    let next = consume-passes_set s (set s.consumed) in
    (
      consume s,
      later r (consumes (omega (arith, at))),
      still_set s set,
      next.1 ∙ none_yet,
      next.0 ∙ ap suc at,
    )

-- In the first test after `pr_co_setup` the consumer can be through all lines before the producer has
-- stored to one.
pub consumer_first :
    (line_cnt : ℕ)
    → (s : Flags) × Turns line_cnt all_set s × (s.produced ≡ 0) × (s.consumed ≡ line_cnt)
consumer_first line_cnt =
    let (s, r, set, none_yet, at) = alone line_cnt line_cnt (omega arith) in (s, r, none_yet, at)
