-- ===== src/BranchPredictor/Tests.antt =====
-- Two sites, the second of them predicted badly.
use microrev.Common.{ℕ, ◌*◌, ◌≡◌, refl, arith, true, false, some, List, [], ◌∷◌, length, replicate}
use microrev.Common.Int.{pos}
use microrev.BranchPredictor.{predprint}
use microrev.BranchPredictor.Laws.{Evaluation, evaluate_all, counts, predprint-evaluate_all}
use Prim.Native.String.{String}

abbrev at : ℕ → ℕ → ℕ → Evaluation
at site e expected = record { site = site; e = e; expected = expected }

abbrev some_conditions : List Evaluation
some_conditions = at 0 7 1 ∷ at 1 3 0 ∷ at 1 0 0 ∷ at 0 0 1 ∷ at 1 1 0 ∷ []

abbrev lines : List ℕ
lines = 70 ∷ 75 ∷ []

abbrev files : List String
files = "branch_predictor.c" ∷ "branch_predictor.c" ∷ []

predprint-evaluate_all_example :
    predprint (evaluate_all some_conditions (replicate (2 * length lines) 0)) lines files
    ≡ some (counts 0 some_conditions lines files)
predprint-evaluate_all_example =
    predprint-evaluate_all some_conditions lines files refl (omega arith)

two_sites :
    counts 0 some_conditions lines files
    ≡ record {
      file = "branch_predictor.c";
      line = 70;
      incorrect = pos 1;
      correct = pos 1;
      warning = false;
    }
      ∷ record {
        file = "branch_predictor.c";
        line = 75;
        incorrect = pos 2;
        correct = pos 1;
        warning = true;
      }
      ∷ []
two_sites = refl
