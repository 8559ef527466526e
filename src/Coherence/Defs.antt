-- ===== src/Coherence/Defs.antt =====
-- The interface of the caches: states of a line, operations, and laws.
use microrev.Common.{ℕ, ◌≡◌, ◌≢◌, Bool, true, false}

pub data LineState : Type 0 where
  modified exclusive shared forward invalid : LineState

-- MESIF forwards from one of the sharers; the tests do not tell the two apart.
abbrev pub is_shared : LineState → Bool
is_shared shared = true
is_shared forward = true
is_shared _ = false

pub record Protocol : Type 1 where
  pub Line : Type 0
  pub view : Line → ℕ → LineState
  pub write : ℕ → Line → Line
  pub read : ℕ → Line → Line
  pub flush : ℕ → Line → Line

pub record IsCoherent (P : Protocol) : Type 0 where
  -- A store takes the line away from every other core.
  pub write_own : (l : P.Line) (c : ℕ) → P.view (P.write c l) c ≡ modified
  pub write_other : (l : P.Line) (c d : ℕ) → c ≢ d → P.view (P.write c l) d ≡ invalid
  -- `clflush` invalidates the line in the caches of all cores.
  pub flush_all : (l : P.Line) (c d : ℕ) → P.view (P.flush c l) d ≡ invalid
  -- A load of a line that no core has makes it exclusive; a load that hits changes nothing.
  pub read_miss :
      (l : P.Line) (c : ℕ)
      → ((d : ℕ) → P.view l d ≡ invalid)
      → (P.view (P.read c l) c ≡ exclusive) × ((d : ℕ) → c ≢ d → P.view (P.read c l) d ≡ invalid)
  pub read_hit : (l : P.Line) (c d : ℕ) → P.view l c ≢ invalid → P.view (P.read c l) d ≡ P.view l d
  -- A load of a line that another core has is shared with that core.
  pub read_other :
      (l : P.Line) (c d : ℕ)
      → P.view l c ≡ invalid
      → P.view l d ≢ invalid
      → (is_shared (P.view (P.read c l) c) ≡ true) × (is_shared (P.view (P.read c l) d) ≡ true)
