-- ===== src/Shuffle/Cycle.antt =====
-- The second loop of `shuffle_array` and the store behind it close one cycle through the candidates.
use mathlib.Core.List.{Perm}
use mathlib.Core.List.Perm
use microrev.Common.{
  ℕ, zero, suc, ◌-◌, ◌≤◌, ◌<◌, ◌≡◌, ◌≢◌, refl, sym, ◌∙◌, arith, true, false, List, [], ◌∷◌, Option,
  some, length, get_elem?, set, length-set, get_elem?-set_self, get_elem?-set_ne, get_elem?-lt,
}
use microrev.Shuffle.{erase_all, store, close_cycle, shuffle_loop}
use microrev.Shuffle.Order.{
  has, Distinct, Below, has-erase_all, has-erase_all_self, erase_all-Distinct, erase_all-Below,
  length-erase_all, perm-erase_all, has-get_elem?, Below-has,
}

module _ {ℓ} {A : Type ℓ} where
  -- In `r` the place `a` holds what `copied` has at the first index of `picks`, that place what it
  -- has at the second, and so on; the last place holds what `copied` has at `back`.
  abbrev pub Links : List A → List A → ℕ → List ℕ → ℕ → Type ℓ
  Links r copied a [] back = get_elem? r a ≡ get_elem? copied back
  Links r copied a (b ∷ picks) back =
      (get_elem? r a ≡ get_elem? copied b) × Links r copied b picks back

  -- What the loop and the last store leave, from place `curr` on with the candidates `cs`.
  pub record Closes (copied arr : List A) (curr : ℕ) (cs : List ℕ) (outcome : Option (List A))
      : Type ℓ where
    pub result : List A
    pub picks : List ℕ
    pub returned : outcome ≡ some result
    pub all : Perm picks cs
    pub count : length picks ≡ length cs
    pub links : Links result copied curr picks 0
    pub same_length : length result ≡ length arr
    pub untouched : (j : ℕ) → curr ≢ j → has j cs ≡ false → get_elem? result j ≡ get_elem? arr j

  store-set :
      (arr : List A) (i : ℕ) (v : A) → i < length arr → store arr i (some v) ≡ some (set arr i v)
  unfolding store
  store-set arr i v h = let (old, e) = get_elem?-lt arr i h in rw (e, store)

  -- A draw: the element at the drawn index is stored, and the loop continues from that index.
  Closes-next :
      (copied arr : List A) (curr : ℕ) (cs : List ℕ) (next : ℕ) (v : A) (outcome : Option (List A))
      → Distinct cs
      → has curr cs ≡ false
      → has next cs ≡ true
      → get_elem? copied next ≡ some v
      → curr < length arr
      → Closes copied (set arr curr v) next (erase_all next cs) outcome
      → Closes copied arr curr cs outcome
  Closes-next copied arr curr cs next v outcome d fresh mem val lt rest =
      let apart : next ≢ curr = λ e. ground arith in
      record {
        result = rest.result;
        picks = next ∷ rest.picks;
        returned = rest.returned;
        all = Perm.trans (Perm.cons next rest.all) (perm-erase_all next cs mem d);
        count = omega (arith, rest.count, length-erase_all next cs mem d);
        links = (
          rest.untouched curr apart (has-erase_all curr next cs fresh)
              ∙ get_elem?-set_self arr curr v lt
              ∙ sym val,
          rest.links,
        );
        same_length = rest.same_length ∙ length-set arr curr v;
        untouched = λ j ne out.
            rest.untouched j (λ (e : next ≡ j). ground arith) (has-erase_all j next cs out)
            ∙ get_elem?-set_ne arr curr j v ne;
      }

  module _ (dist : ℕ → ℕ → ℕ) (in_range : (round bound : ℕ) → dist round bound ≤ bound) where
    pub shuffle_loop-Closes :
        (count round : ℕ) (copied : List A) (cs : List ℕ) (curr : ℕ) (arr : List A)
        → length cs ≡ count
        → Distinct cs
        → Below (length copied) cs
        → has curr cs ≡ false
        → curr < length arr
        → length arr ≡ length copied
        → Closes copied arr curr cs
            (close_cycle copied (shuffle_loop dist count round copied cs curr arr))
    unfolding shuffle_loop
    shuffle_loop-Closes zero round copied [] curr arr e d b fresh lt len =
        let (v, head) = get_elem?-lt copied 0 (omega arith) in
        record {
          result = set arr curr v;
          picks = [];
          returned = rw head (store-set arr curr v lt);
          all = Perm.refl [];
          count = refl;
          links = rw head (get_elem?-set_self arr curr v lt);
          same_length = length-set arr curr v;
          untouched = λ j ne _. get_elem?-set_ne arr curr j v ne;
        }
    shuffle_loop-Closes zero round copied (x ∷ cs) curr arr e d b fresh lt len =
        absurd (omega arith)
    shuffle_loop-Closes (suc count) round copied cs curr arr e d b fresh lt len =
        let (next, pick) =
          get_elem?-lt cs (dist round (length cs - 1))
            (omega (arith, in_range round (length cs - 1))) in
        let mem = has-get_elem? (dist round (length cs - 1)) next cs pick in
        let (v, val) = get_elem?-lt copied next (Below-has (length copied) next cs b mem) in
        rw (pick, shuffle_loop, val, store-set arr curr v lt)
          (Closes-next copied arr curr cs next v _ d fresh mem val lt (
            shuffle_loop-Closes count (suc round) copied (erase_all next cs) next (set arr curr v)
              (omega (arith, length-erase_all next cs mem d)) (erase_all-Distinct next cs d)
              (erase_all-Below (length copied) next cs b) (has-erase_all_self next cs)
              (omega (arith, length-set arr curr v, Below-has (length copied) next cs b mem))
              (length-set arr curr v ∙ len)))
