-- ===== src/Latency/Access.antt =====
-- `accessArray` walks that ring.
use microrev.Common.{ℕ, zero, suc, ◌+◌, ◌*◌, ◌%◌, ◌≡◌, refl, sym, ap, ◌∙◌, arith}
use microrev.Chain.{Memory}
use microrev.Chain.Follow.{follow, follow_same, follow_add, follow-ring}
use microrev.Latency.{hundo, access_array}
use microrev.Latency.Ring.{IsRing}

-- `HUNDO` stands for 60 loads.
hundo-follow : (m : Memory) (iterate : ℕ) → hundo m iterate ≡ follow 60 m iterate
unfolding hundo
hundo-follow m iterate = refl

access_array-follow :
    (rounds : ℕ) (m : Memory) (iterate : ℕ)
    → access_array rounds m iterate ≡ follow (rounds * 60) m iterate
unfolding access_array
access_array-follow zero m iterate = refl
access_array-follow (suc rounds) m iterate =
    access_array-follow rounds m (hundo m iterate)
    ∙ ap (follow (rounds * 60) m) (hundo-follow m iterate)
    ∙ sym (follow_add 60 (rounds * 60) m iterate)
    ∙ follow_same (60 + rounds * 60) (suc rounds * 60) m iterate (omega arith)

-- After `rounds` rounds of `HUNDO` from the head of the ring, `accessArray` stands at the line
-- 60 * rounds, modulo the number of lines: a round is 60 loads.
pub access_array-position :
    (array n : ℕ) (m m' : Memory)
    → IsRing array n m m'
    → (rounds : ℕ) → access_array rounds m' array ≡ array + (rounds * 60) % suc n * 64
access_array-position array n m m' ring rounds =
    access_array-follow rounds m' array
    ∙ ap (follow (rounds * 60) m') (omega arith)
    ∙ follow-ring array 64 n m' ring.next ring.back (rounds * 60) 0 (omega arith)
    ∙ ap (λ i. array + i % suc n * 64) (omega arith)
