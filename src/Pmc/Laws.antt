-- ===== src/Pmc/Laws.antt =====
-- What the counters of a `PMCCounter` show after `start`, a load and `read`.
use microrev.Common.{ℕ, zero, suc, ◌≤◌, ◌≡◌, some, List, [], ◌∷◌}
use microrev.Pmc.{Pmc, start, read}
use Prim.Native.String.{String}

-- The library has what is asked of it: each call returns, an allocated counter counts the event that
-- it was allocated for, and a read gives the count of that event, which does not fall; `after` is the
-- machine after the read.
pub record Works (P : Pmc) : Type 0 where
  pub event : ℕ → P.World → String
  pub count : String → P.World → ℕ
  pub init : (w : P.World) → (w' : P.World) × (P.init w ≡ some w')
  pub allocate :
      (e : String) (core : ℕ) (w : P.World)
      → (h : ℕ) × (w' : P.World) × (P.allocate e core w ≡ some (h, w')) × (event h w' ≡ e)
  pub start :
      (h : ℕ) (w : P.World) → (w' : P.World) × (P.start h w ≡ some w') × (event h w' ≡ event h w)
  pub after : ℕ → P.World → P.World
  pub read : (h : ℕ) (w : P.World) → P.read h w ≡ some (count (event h w) w, after h w)
  pub read_keeps : (h g : ℕ) (w : P.World) → event g (after h w) ≡ event g w
  pub count_on : (h : ℕ) (e : String) (w : P.World) → count e w ≤ count e (after h w)

abbrev pub last_of : String → List String → String
last_of e [] = e
last_of e (f ∷ events) = last_of f events

module _ (P : Pmc) (works : Works P) where
  -- The counts of one event, read one after the other from the counter `h`.
  abbrev pub readings : String → ℕ → ℕ → P.World → List ℕ
  readings e h zero w = []
  readings e h (suc n) w = works.count e w ∷ readings e h n (works.after h w)

  -- The same beside the names of events.
  abbrev pub shown : String → ℕ → List String → P.World → List (String × ℕ)
  shown e h [] w = []
  shown e h (f ∷ events) w = (f, works.count e w) ∷ shown e h events (works.after h w)

  -- From a first one on.
  abbrev pub Rising : ℕ → List ℕ → Type 0
  Rising v [] = Unit
  Rising v (v' ∷ vs) = (v ≤ v') × Rising v' vs
