-- ===== src/Counter/Laws.antt =====
-- The documented order of PAPI's calls, as phases of the machine: what each call needs to succeed,
-- and what it leaves. Each operation of the counter keeps to that order.
use microrev.Common.{ℕ, zero, suc, ◌≡◌, refl, arith, Bool, true, some, List, [], ◌∷◌, map, length}
use microrev.Common.Int.{ℤ}
use microrev.Counter.{Papi, to_codes, resize, fill}
use Prim.Native.String.{String}

pub data Phase : Type 0 where
  outside : Phase  -- the thread is not registered
  inside : Phase  -- it is, without an event set
  holding : ℕ → ℕ → Phase  -- it has this event set, with so many events, stopped
  counting : ℕ → ℕ → Phase  -- the same, started

pub record Works (P : Papi) : Type 0 where
  pub phase : P.World → Phase
  pub library_init :
      (w : P.World) → (w' : P.World) × (P.library_init w ≡ some w') × (phase w' ≡ phase w)
  -- The machine has hardware counters, always as many.
  pub counters : ℕ
  pub num_counters : (w : P.World) → P.num_counters w ≡ suc counters
  pub thread_init :
      (w : P.World) → (w' : P.World) × (P.thread_init w ≡ some w') × (phase w' ≡ phase w)
  pub register_thread :
      (w : P.World)
      → phase w ≡ outside
      → (w' : P.World) × (P.register_thread w ≡ some w') × (phase w' ≡ inside)
  pub create_eventset :
      (w : P.World)
      → phase w ≡ inside
      → (h : ℕ) × (w' : P.World) × (P.create_eventset w ≡ some (h, w')) × (phase w' ≡ holding h 0)
  -- The events that the machine can count at the same time.
  pub together : List ℤ → Bool
  pub add_events :
      (w : P.World) (h : ℕ) (codes : List ℤ)
      → phase w ≡ holding h 0
      → together codes ≡ true
      → (w' : P.World) × (P.add_events h codes w ≡ some w') × (phase w' ≡ holding h (length codes))
  pub start :
      (w : P.World) (h n : ℕ)
      → phase w ≡ holding h (suc n)
      → (w' : P.World) × (P.start h w ≡ some w') × (phase w' ≡ counting h (suc n))
  -- One count for each event.
  pub stop :
      (w : P.World) (h n : ℕ)
      → phase w ≡ counting h (suc n)
      → (counts : List ℤ) × (w' : P.World) × (P.stop h w ≡ some (counts, w'))
        × (length counts ≡ suc n)
        × (phase w' ≡ holding h (suc n))
  pub reset :
      (w : P.World) (h n : ℕ)
      → phase w ≡ holding h (suc n)
      → (w' : P.World) × (P.reset h w ≡ some w') × (phase w' ≡ holding h (suc n))
  pub cleanup_eventset :
      (w : P.World) (h n : ℕ)
      → phase w ≡ holding h n
      → (w' : P.World) × (P.cleanup_eventset h w ≡ some w') × (phase w' ≡ holding h 0)
  pub destroy_eventset :
      (w : P.World) (h : ℕ)
      → phase w ≡ holding h 0
      → (w' : P.World) × (P.destroy_eventset h w ≡ some w') × (phase w' ≡ inside)
  pub unregister_thread :
      (w : P.World)
      → phase w ≡ inside
      → (w' : P.World) × (P.unregister_thread w ≡ some w') × (phase w' ≡ outside)
  pub rdtsc : (w : P.World) → phase (P.rdtsc w).1 ≡ phase w

-- In every state these are the codes of the names, and the names of the codes.
abbrev pub Codes : (P : Papi) → List String → List ℤ → Type 0
Codes P [] [] = Unit
Codes P [] (code ∷ codes) = ⊥
Codes P (e ∷ events) [] = ⊥
Codes P (e ∷ events) (code ∷ codes) =
    ((w : P.World) → (P.event_name_to_code e w ≡ some code) × (P.event_code_to_name code w ≡ e))
    × Codes P events codes

-- The machine knows the events, and can count them at the same time.
pub record Countable {P : Papi} (works : Works P) (events : List String) : Type 0 where
  pub codes : List ℤ
  pub matched : Codes P events codes
  pub fit : works.together codes ≡ true

-- No event asks for nothing.
abbrev pub Known : {P : Papi} → Works P → List String → Type 0
Known works [] = Unit
Known works (e ∷ events) = Countable works (e ∷ events)

pub to_codes-Codes :
    (P : Papi) (w : P.World) (events : List String) (codes : List ℤ)
    → Codes P events codes
    → to_codes P w events ≡ some codes
to_codes-Codes P w [] [] matched = refl
to_codes-Codes P w [] (code ∷ codes) matched = elim matched [ ]
to_codes-Codes P w (e ∷ events) [] matched = elim matched [ ]
to_codes-Codes P w (e ∷ events) (code ∷ codes) (now, matched) =
    rw ((now w).0, to_codes-Codes P w events codes matched) refl

pub names-Codes :
    (P : Papi) (w : P.World) (events : List String) (codes : List ℤ)
    → Codes P events codes
    → map (λ code. P.event_code_to_name code w) codes ≡ events
names-Codes P w [] [] matched = refl
names-Codes P w [] (code ∷ codes) matched = elim matched [ ]
names-Codes P w (e ∷ events) [] matched = elim matched [ ]
names-Codes P w (e ∷ events) (code ∷ codes) (now, matched) =
    rw ((now w).1, names-Codes P w events codes matched) refl

pub length-Codes :
    (P : Papi) (events : List String) (codes : List ℤ)
    → Codes P events codes
    → length codes ≡ length events
length-Codes P [] [] matched = refl
length-Codes P [] (code ∷ codes) matched = elim matched [ ]
length-Codes P (e ∷ events) [] matched = elim matched [ ]
length-Codes P (e ∷ events) (code ∷ codes) (now, matched) =
    omega (arith, length-Codes P events codes matched)

pub length-resize : (n : ℕ) (xs : List ℤ) → length (resize n xs) ≡ n
length-resize zero xs = refl
length-resize (suc n) [] = omega (arith, length-resize n [])
length-resize (suc n) (x ∷ xs) = omega (arith, length-resize n xs)

-- As many values as places fill the whole array.
pub fill-exact :
    (buffer values : List ℤ) → length values ≡ length buffer → fill buffer values ≡ some values
fill-exact [] [] same = refl
fill-exact [] (v ∷ values) same = absurd (ground arith)
fill-exact (b ∷ buffer) [] same = absurd (ground arith)
fill-exact (b ∷ buffer) (v ∷ values) same = rw (fill-exact buffer values (omega arith)) refl
