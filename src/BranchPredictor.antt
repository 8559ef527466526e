-- ===== src/BranchPredictor.antt =====
-- src/standalone/branch_predictor.c with DEBUGPRED: the macros `likely` and `unlikely`, which count
-- how often a condition was as predicted, `predprint`, which prints the counts when the program ends,
-- and `main`. The linker puts the two words of each place where a macro stands (a site) one after the
-- other into the section predict_data; here they are a list. A read past the end of a section is `none`.
pub mod Laws
mod Rounds
mod Tests
use microrev.Common.{
  ℕ, zero, suc, ◌+◌, ◌*◌, ◌%◌, ◌^◌, Bool, true, false, Option, none, some, List, [], ◌∷◌, ◌==◌, ltb,
  ◌>>=◌, if◌then◌else◌, get_elem?, set,
}
use microrev.Common.Int.{ℤ, pos, ltb_ℤ}
use microrev.Average.{from_u64}
use Prim.Native.String.{String}

-- `addq $1`
abbrev pub add_one : List ℕ → ℕ → Option ℕ → List ℕ
add_one words i none = words
add_one words i (some x) = set words i ((x + 1) % 2 ^ 64)

abbrev pub truth : ℕ → ℕ
truth e = if e == 0 then 0 else 1

-- A value, and the sections after it has been computed.
pub record Counted : Type 0 where
  pub value : ℕ
  pub words : List ℕ

-- `debugpred__( e, E )` at the site number `site`
unfoldable pub debugpred : ℕ → ℕ → ℕ → List ℕ → Counted
debugpred site e expected words =
    let i : ℕ = 2 * site + (if truth e == expected then 1 else 0) in
    record { value = truth e; words = add_one words i (get_elem? words i) }

abbrev pub unlikely : ℕ → ℕ → List ℕ → Counted
unlikely site e words = debugpred site e 0 words

abbrev pub likely : ℕ → ℕ → List ℕ → Counted
likely site e words = debugpred site e 1 words

-- What `predprint` prints of a site.
pub record Summary : Type 0 where
  pub file : String
  pub line : ℕ
  pub incorrect : ℤ
  pub correct : ℤ
  pub warning : Bool

-- The words are read as `long int`.
abbrev pub summary : String → ℕ → ℕ → ℕ → Summary
summary sf sl s0 s1 = record {
  file = sf;
  line = sl;
  incorrect = from_u64 s0;
  correct = from_u64 s1;
  warning = ltb_ℤ (from_u64 s1) (from_u64 s0);
}

-- The loop of `predprint`, over the sections predict_data, predict_line and predict_file
unfoldable pub predprint : List ℕ → List ℕ → List String → Option (List Summary)
predprint [] sl sf = some []
predprint (s0 ∷ s1 ∷ s) (l ∷ sl) (f ∷ sf) = do
  rest ← predprint s sl sf
  some (summary f l s0 s1 ∷ rest)
predprint s sl sf = none

-- `while( likely( i++ < 1e6 ) ) {}`, the only site; `limit` is 1e6.
unfoldable pub count_loop : ℕ → ℕ → ℕ → List ℕ → Option (List ℕ)
unfolding debugpred
count_loop zero limit i words = none
count_loop (suc fuel) limit i words =
    let c : Counted = likely 0 (if ltb i limit then 1 else 0) words in
    let rest = count_loop fuel limit (i + 1) c.words in if c.value == 0 then some c.words else rest

-- `main`, and `predprint` when it has returned.
unfoldable pub run_main : ℕ → List ℕ → List String → Option (List Summary)
unfolding count_loop predprint
run_main limit lines files = do
  words ← count_loop (limit + 1) limit 0 (0 ∷ 0 ∷ [])
  predprint words lines files
