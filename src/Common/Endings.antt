-- ===== src/Common/Endings.antt =====
-- States that every sequence of steps leads to.
use Prim.Native.Nat.{ℕ, zero, suc, ◌<◌}
use mathlib.Core.Logic.{◌⊎◌, inl, inr}
use native.Mathlib.Omega.{arith}

-- Whatever steps are taken, they end in a state of `Goal`, and until then there is a step to take.
pub data Inevitable {ℓ} {S : Type ℓ} (Next : S → S → Type ℓ) (Goal : S → Type ℓ) : S → Type ℓ where
  reached : {s : S} → Goal s → Inevitable Next Goal s
  onward :
      {s : S}
      → (t : S) × Next s t
      → ((t : S) → Next s t → Inevitable Next Goal t)
      → Inevitable Next Goal s

module _ {ℓ} {S : Type ℓ} {Next : S → S → Type ℓ} {Goal Good : S → Type ℓ} (rank : S → ℕ)
    (keeps : (s t : S) → Good s → Next s t → Good t)
    (falls : (s t : S) → Good s → Next s t → rank t < rank s)
    (goes : (s : S) → Good s → Goal s ⊎ ((t : S) × Next s t)) where
  Inevitable-below : (k : ℕ) {s : S} → rank s < k → Good s → Inevitable Next Goal s
  Inevitable-below zero lt good = absurd (omega arith)
  Inevitable-below (suc k) {s} lt good = elim (goes s good) [
    | inl there ↦ reached there
    | inr step ↦ onward step (λ t next.
        let lower : rank t < k = omega (arith, falls s t good next) in
        Inevitable-below k lower (keeps s t good next))
  ]

  -- A rank that every step lowers leads from every good state to the goal.
  pub Inevitable-rank : {s : S} → Good s → Inevitable Next Goal s
  Inevitable-rank {s} good = Inevitable-below (suc (rank s)) (omega arith) good
