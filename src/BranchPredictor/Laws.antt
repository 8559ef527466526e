-- ===== src/BranchPredictor/Laws.antt =====
-- The counts that `predprint` shows are those of the conditions that were computed.
use microrev.Common.{
  ℕ, zero, suc, ◌+◌, ◌-◌, ◌*◌, ◌%◌, ◌^◌, ◌<◌, ◌≤◌, ◌≡◌, ◌∙◌, subst, ap, refl, arith, Bool, true,
  false, Option, none, some, List, [], ◌∷◌, ◌==◌, ltb, if◌then◌else◌, get_elem?, length, length-set,
  length-replicate, replicate, get_elem?-set_self, get_elem?-set_ne, ℕ_discrete,
}
use microrev.Common.Int.{pos}
use microrev.BranchPredictor.{add_one, truth, debugpred, Summary, summary, predprint}
use Prim.Native.String.{String}

-- A condition that one of the macros has computed.
pub record Evaluation : Type 0 where
  pub site : ℕ
  pub e : ℕ
  pub expected : ℕ

-- The macros, one after the other.
abbrev pub evaluate_all : List Evaluation → List ℕ → List ℕ
evaluate_all [] words = words
evaluate_all (v ∷ vs) words = evaluate_all vs (debugpred v.site v.e v.expected words).words

abbrev bit : Bool → ℕ
bit hit = if hit then 1 else 0

-- Whether the condition was computed at the site, and was as expected (`hit`) or was not.
abbrev one_of : ℕ → Bool → ℕ → Bool → ℕ
one_of at b site hit = if at == site then (if b then bit hit else 1 - bit hit) else 0

-- How many evaluations at the site were as expected, or were not.
abbrev pub times : ℕ → Bool → List Evaluation → ℕ
times site hit [] = 0
times site hit (v ∷ vs) = one_of v.site (truth v.e == v.expected) site hit + times site hit vs

-- The summary of the sites from the number `site` on, by counting.
abbrev pub counts : ℕ → List Evaluation → List ℕ → List String → List Summary
counts site vs (l ∷ sl) (f ∷ sf) =
    record {
      file = f;
      line = l;
      incorrect = pos (times site false vs);
      correct = pos (times site true vs);
      warning = ltb (times site true vs) (times site false vs);
    }
    ∷ counts (suc site) vs sl sf
counts site vs sl sf = []

length-add_one : (words : List ℕ) (i : ℕ) (x : Option ℕ) → length (add_one words i x) ≡ length words
length-add_one words i none = refl
length-add_one words i (some x) = length-set words i ((x + 1) % 2 ^ 64)

add_one_self :
    (words : List ℕ) (i x : ℕ)
    → get_elem? words i ≡ some x
    → i < length words
    → get_elem? (add_one words i (get_elem? words i)) i ≡ some ((x + 1) % 2 ^ 64)
add_one_self words i x at lt = rw at (get_elem?-set_self words i ((x + 1) % 2 ^ 64) lt)

add_one_other :
    (words : List ℕ) (i j : ℕ) (x : Option ℕ)
    → (i ≡ j → ⊥)
    → get_elem? (add_one words i x) j ≡ get_elem? words j
add_one_other words i j none other = refl
add_one_other words i j (some x) other = get_elem?-set_ne words i j ((x + 1) % 2 ^ 64) other

add_one-word :
    (words : List ℕ) (at : ℕ) (b : Bool) (site : ℕ) (hit : Bool) (x : ℕ)
    → 2 * site + bit hit < length words
    → get_elem? words (2 * site + bit hit) ≡ some (x % 2 ^ 64)
    → get_elem?
        (add_one words (2 * at + bit b) (get_elem? words (2 * at + bit b)))
        (2 * site + bit hit)
      ≡ some ((x + one_of at b site hit) % 2 ^ 64)
add_one-word words at b site hit x lt e = elim (ℕ_discrete (2 * at + bit b) (2 * site + bit hit)) [
  | yes same ↦
      let one : one_of at b site hit ≡ 1 = ground arith in
      rw (same, one)
        (add_one_self words (2 * site + bit hit) (x % 2 ^ 64) e lt ∙ ap some (omega arith))
  | no other ↦
      let none_of : one_of at b site hit ≡ 0 = ground arith in
      add_one_other words (2 * at + bit b) (2 * site + bit hit) _ other
      ∙ e
      ∙ ap (λ k. some (k % 2 ^ 64)) (omega (arith, none_of))
]

evaluate_all-word :
    (vs : List Evaluation) (words : List ℕ) (site : ℕ) (hit : Bool) (x : ℕ)
    → 2 * site + bit hit < length words
    → get_elem? words (2 * site + bit hit) ≡ some (x % 2 ^ 64)
    → get_elem? (evaluate_all vs words) (2 * site + bit hit)
      ≡ some ((x + times site hit vs) % 2 ^ 64)
unfolding debugpred
evaluate_all-word [] words site hit x lt e = e ∙ ap (λ k. some (k % 2 ^ 64)) (omega arith)
evaluate_all-word (v ∷ vs) words site hit x lt e =
    let b : Bool = truth v.e == v.expected in
    let i : ℕ = 2 * v.site + bit b in
    let next : List ℕ = add_one words i (get_elem? words i) in
    evaluate_all-word vs next site hit (x + one_of v.site b site hit)
      (omega (arith, length-add_one words i (get_elem? words i)))
      (add_one-word words v.site b site hit x lt e)
    ∙ ap (λ k. some (k % 2 ^ 64)) (omega arith)

length-evaluate_all :
    (vs : List Evaluation) (words : List ℕ) → length (evaluate_all vs words) ≡ length words
unfolding debugpred
length-evaluate_all [] words = refl
length-evaluate_all (v ∷ vs) words =
    let i : ℕ = 2 * v.site + bit (truth v.e == v.expected) in
    length-evaluate_all vs (add_one words i (get_elem? words i))
    ∙ length-add_one words i (get_elem? words i)

times-le : (site : ℕ) (hit : Bool) (vs : List Evaluation) → times site hit vs ≤ length vs
times-le site hit [] = omega arith
times-le site hit (v ∷ vs) = ground (arith, times-le site hit vs)

get_elem?-replicate : (n i : ℕ) → i < n → get_elem? {A = ℕ} (replicate n 0) i ≡ some 0
get_elem?-replicate zero i lt = absurd (omega arith)
get_elem?-replicate (suc n) zero lt = refl
get_elem?-replicate (suc n) (suc i) lt = get_elem?-replicate n i (omega arith)

word_of :
    (a site : ℕ) (hit : Bool) (vs : List Evaluation)
    → some a ≡ some (times (site + 0) hit vs)
    → a ≡ times site hit vs
word_of a site hit vs e =
    let same : site + 0 ≡ site = omega arith in
    let now : some a ≡ some (times site hit vs) =
      subst (λ j. some a ≡ some (times j hit vs)) same e in
    ground arith

word_behind :
    (s0 s1 : ℕ) (s : List ℕ) (site k : ℕ) (hit : Bool) (vs : List Evaluation)
    → get_elem? (s0 ∷ s1 ∷ s) (2 * suc k + bit hit) ≡ some (times (site + suc k) hit vs)
    → get_elem? s (2 * k + bit hit) ≡ some (times (suc site + k) hit vs)
word_behind s0 s1 s site k hit vs e =
    let place : 2 * suc k + bit hit ≡ suc (suc (2 * k + bit hit)) = omega arith in
    let number : site + suc k ≡ suc site + k = omega arith in
    subst (λ i. get_elem? (s0 ∷ s1 ∷ s) i ≡ some (times (suc site + k) hit vs)) place
      (subst (λ j. get_elem? (s0 ∷ s1 ∷ s) (2 * suc k + bit hit) ≡ some (times j hit vs)) number e)

-- Counts below 2^63 are read as they are.
summary-small :
    (f : String) (l s0 s1 : ℕ)
    → s0 < 2 ^ 63
    → s1 < 2 ^ 63
    → summary f l s0 s1
      ≡ record { file = f; line = l; incorrect = pos s0; correct = pos s1; warning = ltb s1 s0 }
summary-small f l s0 s1 lt lt' = ground arith

-- `words` are those of the sites from the number `site` on.
predprint-counts :
    (site : ℕ) (vs : List Evaluation) (words sl : List ℕ) (sf : List String)
    → length words ≡ 2 * length sl
    → length sf ≡ length sl
    → ((k : ℕ) (hit : Bool)
        → k < length sl
        → get_elem? words (2 * k + bit hit) ≡ some (times (site + k) hit vs))
    → length vs < 2 ^ 63
    → predprint words sl sf ≡ some (counts site vs sl sf)
unfolding predprint
predprint-counts site vs [] [] [] len len' at few = refl
predprint-counts site vs (s0 ∷ s1 ∷ s) (l ∷ sl) (f ∷ sf) len len' at few =
    let rest : predprint s sl sf ≡ some (counts (suc site) vs sl sf) =
      predprint-counts (suc site) vs s sl sf (omega arith) (omega arith)
        (λ k hit lt. word_behind s0 s1 s site k hit vs (at (suc k) hit (omega arith))) few in
    let first : s0 ≡ times site false vs = word_of s0 site false vs (at 0 false (omega arith)) in
    let second : s1 ≡ times site true vs = word_of s1 site true vs (at 0 true (omega arith)) in
    rw (rest, first, second)
      (ap (λ r. some (r ∷ counts (suc site) vs sl sf))
        (summary-small f l (times site false vs) (times site true vs)
          (omega (arith, times-le site false vs)) (omega (arith, times-le site true vs))))
predprint-counts site vs words sl sf len len' at few = absurd (ground arith)

-- Whatever conditions the macros have computed, at however many sites, fewer than 2^63 of them:
-- `predprint` prints for each site its file, its line, how many of the conditions there were not as
-- expected and how many were, and the warning exactly if the former are more.
pub predprint-evaluate_all :
    (vs : List Evaluation) (sl : List ℕ) (sf : List String)
    → length sf ≡ length sl
    → length vs < 2 ^ 63
    → predprint (evaluate_all vs (replicate (2 * length sl) 0)) sl sf ≡ some (counts 0 vs sl sf)
predprint-evaluate_all vs sl sf same few =
    let start : List ℕ = replicate (2 * length sl) 0 in
    let size : length start ≡ 2 * length sl = length-replicate (2 * length sl) 0 in
    predprint-counts 0 vs (evaluate_all vs start) sl sf (length-evaluate_all vs start ∙ size) same
      (λ k hit lt.
        let inside : 2 * k + bit hit < 2 * length sl = ground arith in
        let number : 0 + k ≡ k = omega arith in
        let few_here : times k hit vs < 2 ^ 63 = omega (arith, times-le k hit vs) in
        evaluate_all-word vs start k hit 0 (omega arith)
          (get_elem?-replicate (2 * length sl) (2 * k + bit hit) inside)
        ∙ ap some (omega (arith, ap (λ j. times j hit vs) number)))
      few
