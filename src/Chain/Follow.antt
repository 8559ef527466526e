-- ===== src/Chain/Follow.antt =====
-- The walk along a ring of words.
use native.Mathlib.Nat.{mod-eq_of_lt, add-mod_left}
use microrev.Common.{ℕ, zero, suc, ◌+◌, ◌*◌, ◌%◌, ◌≤◌, ◌<◌, ◌≡◌, sym, ap, ◌∙◌, arith, dec_lt}
use microrev.Chain.{Memory}

-- So many loads in a row.
abbrev pub follow : ℕ → Memory → ℕ → ℕ
follow zero m iter = iter
follow (suc loads) m iter = follow loads m (m iter)

pub follow_same :
    (loads loads' : ℕ) (m : Memory) (iter : ℕ)
    → loads ≡ loads'
    → follow loads m iter ≡ follow loads' m iter
follow_same loads loads' m iter same = ap (λ n. follow n m iter) same

pub follow_add :
    (loads more : ℕ) (m : Memory) (iter : ℕ)
    → follow (loads + more) m iter ≡ follow more m (follow loads m iter)
follow_add zero more m iter = follow_same (0 + more) more m iter (omega arith)
follow_add (suc loads) more m iter =
    follow_same (suc loads + more) (suc (loads + more)) m iter (omega arith)
    ∙ follow_add loads more m (m iter)

stays : (j n : ℕ) → j ≤ n → (j + 0) % suc n ≡ j
stays j n le =
    let small : (j + 0) % suc n ≡ j + 0 = mod-eq_of_lt (omega arith) in omega (arith, small)

-- Words `n + 1` in number, a stride apart, each of which leads to the next, and the last to the first:
-- the word after `loads` loads from word `j`.
module _ (arr stride n : ℕ) (m : Memory)
    (next : (j : ℕ) → j < n → m (arr + j * stride) ≡ arr + suc j * stride)
    (back : m (arr + n * stride) ≡ arr) where
  pub follow-ring :
      (loads j : ℕ) → j ≤ n → follow loads m (arr + j * stride) ≡ arr + (j + loads) % suc n * stride
  follow-ring zero j le = ap (λ i. arr + i * stride) (sym (stays j n le))
  follow-ring (suc loads) j le = elim (dec_lt j n) [
    | yes below ↦
        ap (follow loads m) (next j below)
        ∙ follow-ring loads (suc j) below
        ∙ ap (λ i. arr + i % suc n * stride) (omega arith)
    | no last ↦
        ap (follow loads m) (ap (λ i. m (arr + i * stride)) (omega arith) ∙ back ∙ omega arith)
        ∙ follow-ring loads 0 (omega arith)
        ∙ ap (λ i. arr + i * stride)
            (sym (add-mod_left (suc n) (0 + loads)) ∙ ap (λ i. i % suc n) (omega arith))
  ]
