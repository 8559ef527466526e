-- ===== src/Pmc.antt =====
-- src/library/lib/counter.cpp: `PMCCounter`, the counter of the FreeBSD build. The library pmc(3) is a
-- record of calls over a state of the machine, `none` where a call fails; `err` ends the program then,
-- so that `none` is its exit here.
pub mod Laws
mod Tests
use microrev.Common.{
  ℕ, suc, ltb, Bool, Option, none, some, List, [], ◌∷◌, ◌++◌, ◌==◌, length, ◌>>=◌, if◌then◌else◌,
}
use Prim.Native.String.{String}

pub record Pmc : Type 1 where
  pub World : Type 0
  pub init : World → Option World
  -- An event on a core; the call gives the counter that it has allocated.
  pub allocate : String → ℕ → World → Option (ℕ × World)
  pub start : ℕ → World → Option World
  -- A running counter goes on.
  pub read : ℕ → World → Option (ℕ × World)
  pub release : ℕ → World → World

-- The members that are used; `mode` is always PMC_MODE_SC.
pub record PmcCounter : Type 0 where
  pub measured : List ℕ
  pub cset : List String
  pub core_id : ℕ
  pub pmcid : ℕ

abbrev pub max_pmc_num : ℕ
max_pmc_num = 4

-- `PMCCounter()` and `PMCCounter( cset )`
abbrev pub pmc_counter : List String → PmcCounter
pmc_counter cset = record { measured = []; cset = cset; core_id = 0; pmcid = 0 }

-- The overload that takes one name.
abbrev pub add_name : String → PmcCounter → PmcCounter
add_name counter_name c = record c { cset = c.cset ++ counter_name ∷ [] }

-- The overload that takes several.
abbrev pub add : List String → PmcCounter → PmcCounter
add names c = record c { cset = c.cset ++ names }

-- What `stats` prints, a line for each event. The assertion makes the two vectors equally long.
abbrev pub paired : List String → List ℕ → List (String × ℕ)
paired [] counts = []
paired (e ∷ events) [] = []
paired (e ∷ events) (n ∷ counts) = (e, n) ∷ paired events counts

unfoldable pub stats : PmcCounter → Option (List (String × ℕ))
stats c = if length c.cset == length c.measured then some (paired c.cset c.measured) else none

module _ (P : Pmc) where
  -- The loop of `start`: each event gets a counter, whose name replaces the one before.
  unfoldable pub allocate_all : List String → ℕ → ℕ → P.World → Option (ℕ × P.World)
  allocate_all [] core pmcid w = some (pmcid, w)
  allocate_all (e ∷ events) core pmcid w = do
    (pmcid', w') ← P.allocate e core w
    allocate_all events core pmcid' w'

  unfoldable pub start : PmcCounter → P.World → Option (PmcCounter × P.World)
  unfolding allocate_all
  start c w = do
    w1 ← P.init w
    if ltb max_pmc_num (length c.cset) then none else (do
      (pmcid, w2) ← allocate_all c.cset c.core_id c.pmcid w1
      w3 ← P.start pmcid w2
      some (record c { pmcid = pmcid }, w3))

  -- The loop of `read`.
  unfoldable pub read_each : List String → ℕ → P.World → List ℕ → Option (List ℕ × P.World)
  read_each [] pmcid w measured = some (measured, w)
  read_each (e ∷ events) pmcid w measured = do
    (v, w') ← P.read pmcid w
    read_each events pmcid w' (measured ++ v ∷ [])

  unfoldable pub read : PmcCounter → P.World → Option (PmcCounter × P.World)
  unfolding read_each
  read c w = do
    (measured, w') ← read_each c.cset c.pmcid w c.measured
    some (record c { measured = measured }, P.release c.pmcid w')
