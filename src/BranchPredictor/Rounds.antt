-- ===== src/BranchPredictor/Rounds.antt =====
-- The loop of `main`: it ends, and what its one site shows then.
use microrev.Common.{
  ℕ, zero, suc, ◌+◌, ◌^◌, ◌<◌, ◌≡◌, ◌∙◌, ap, refl, arith, true, false, some, List, [], ◌∷◌, ltb,
  length,
}
use microrev.Common.Int.{pos}
use microrev.BranchPredictor.{debugpred, count_loop, run_main}
use Prim.Native.String.{String}
use microrev.BranchPredictor.Laws.{Evaluation, evaluate_all, times, predprint-evaluate_all}

-- The conditions of the loop of `main`: one for each round, and the last one.
loop_evaluations : ℕ → List Evaluation
loop_evaluations zero = record { site = 0; e = 0; expected = 1 } ∷ []
loop_evaluations (suc n) = record { site = 0; e = 1; expected = 1 } ∷ loop_evaluations n

count_loop-evaluate_all :
    (n fuel limit i : ℕ) (words : List ℕ)
    → i + n ≡ limit
    → n < fuel
    → count_loop fuel limit i words ≡ some (evaluate_all (loop_evaluations n) words)
unfolding count_loop loop_evaluations debugpred
count_loop-evaluate_all n zero limit i words at lt = absurd (omega arith)
count_loop-evaluate_all zero (suc fuel) limit i words at lt =
    let over : ltb i limit ≡ false = ground arith in rw over refl
count_loop-evaluate_all (suc n) (suc fuel) limit i words at lt =
    let on : ltb i limit ≡ true = ground arith in
    rw on (count_loop-evaluate_all n fuel limit (i + 1) _ (omega arith) (omega arith))

times-loop_evaluations :
    (n : ℕ)
    → (times 0 false (loop_evaluations n) ≡ 1)
      × (times 0 true (loop_evaluations n) ≡ n)
      × (length (loop_evaluations n) ≡ suc n)
unfolding loop_evaluations
times-loop_evaluations zero = (refl, refl, refl)
times-loop_evaluations (suc n) =
    let (wrong, right, count) = times-loop_evaluations n in (omega arith, omega arith, ap suc count)

-- The loop of `main` ends, and `predprint` then prints its one site: one condition was not as
-- expected, `limit` were, and there is no warning, if `limit` is 1 or more and an `int` can count past
-- it.
run_main-counts :
    (limit line : ℕ) (file : String)
    → 0 < limit
    → limit + 1 < 2 ^ 31
    → run_main limit (line ∷ []) (file ∷ [])
      ≡ some (
          record {
            file = file;
            line = line;
            incorrect = pos 1;
            correct = pos limit;
            warning = false;
          }
          ∷ [])
unfolding run_main
run_main-counts limit line file some_rounds small =
    let (wrong, right, count) = times-loop_evaluations limit in
    let looped =
      count_loop-evaluate_all limit (limit + 1) limit 0 (0 ∷ 0 ∷ []) (omega arith) (omega arith) in
    let printed =
      predprint-evaluate_all (loop_evaluations limit) (line ∷ []) (file ∷ []) refl (omega arith) in
    let quiet : ltb limit 1 ≡ false = ground arith in
    rw looped (printed ∙ rw (wrong, right, quiet) refl)
