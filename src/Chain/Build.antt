-- ===== src/Chain/Build.antt =====
-- `set_shuffled_linked_list` makes one ring of all lines of the block, and stores past its end.
use mathlib.Core.List.{Perm}
use mathlib.Core.List.Perm
use microrev.Common.{
  ℕ, suc, ◌+◌, ◌*◌, ◌/◌, ◌^◌, ◌≤◌, ◌<◌, ◌≡◌, refl, ap, subst, sym, ◌∙◌, arith, ◌⊎◌, List, [], ◌∷◌,
  map, Option, some, length, get_elem?, get_elem?-lt, lt_of_get_elem?,
}
use microrev.Shuffle.{candidates_from, shuffle_array}
use microrev.Shuffle.Order.{length-candidates_from}
use microrev.Shuffle.Cycle.{Links, Closes}
use microrev.Shuffle.Single.{shuffle_array-Closes}
use microrev.Chain.{Memory, write, Built, close, set_shuffled_linked_list}
use microrev.Chain.Lines.{lines, length-lines, get_elem?-lines, collect-lines}
use microrev.Chain.Link.{Linked, write_same, write_other, link_loop-Linked}

-- From address `p` the words lead through `stops`, in this order, to `back`.
abbrev pub Leads : Memory → ℕ → List ℕ → ℕ → Type 0
Leads m p [] back = m p ≡ back
Leads m p (q ∷ stops) back = (m p ≡ q) × Leads m q stops back

-- The address of a line.
abbrev pub address : ℕ → ℕ → ℕ → ℕ
address arr stride line = arr + line * stride

-- `n` lines from `arr` form one ring; the word behind the last one holds `arr` too.
pub record IsRing (arr stride n : ℕ) (m : Memory) (outcome : Option Built) : Type 0 where
  pub memory : Memory
  pub returned : outcome ≡ some (record { memory = memory; iter = arr + n * stride })
  pub order : List ℕ
  pub all : Perm (0 ∷ order) (candidates_from 0 n)
  pub count : suc (length order) ≡ n
  pub ring : Leads memory arr (map (address arr stride) order) arr
  pub past_end : memory (arr + n * stride) ≡ arr
  pub untouched : (a : ℕ) → (a < arr) ⊎ (arr + n * stride < a) → memory a ≡ m a

module _ (arr stride n : ℕ) (m : Memory) (r : List ℕ) (entries : length r ≡ n)
    (words : (j p : ℕ) → j < n → get_elem? r j ≡ some p → m (arr + j * stride) ≡ p) where
  link-word :
      (a b : ℕ)
      → a < n
      → get_elem? r a ≡ get_elem? (lines arr stride 0 n) b
      → (b < n) × (m (address arr stride a) ≡ address arr stride b)
  link-word a b lt link =
      let (p, entry) = get_elem?-lt r a (omega arith) in
      let in_lines = lt_of_get_elem? (lines arr stride 0 n) b p (sym link ∙ entry) in
      let b_lt : b < n = omega (arith, in_lines, length-lines arr stride 0 n) in
      let at = get_elem?-lines arr stride 0 n b b_lt in
      (
        b_lt,
        words a (address arr stride b) lt
            (link ∙ at ∙ ap (λ (t : ℕ). some (arr + t * stride)) (omega arith)),
      )

  Links-Leads :
      (a : ℕ) (order : List ℕ) (back : ℕ)
      → a < n
      → Links r (lines arr stride 0 n) a order back
      → Leads m (address arr stride a) (map (address arr stride) order) (address arr stride back)
  Links-Leads a [] back lt link = (link-word a back lt link).1
  Links-Leads a (b ∷ order) back lt (link, links) =
      let (b_lt, word) = link-word a b lt link in (word, Links-Leads b order back b_lt links)

-- The store behind the loop leaves the lines alone, and so closes the ring.
IsRing-close :
    (arr stride n : ℕ) (m : Memory) (shuffled : Option (List ℕ)) (outcome : Option Built)
    → 0 < stride
    → (c : Closes
        (lines arr stride 0 (suc n))
        (lines arr stride 0 (suc n))
        0
        (candidates_from 1 n)
        shuffled)
    → Linked arr stride 0 (suc n) c.result m outcome
    → IsRing arr stride (suc n) m (close arr outcome)
IsRing-close arr stride n m shuffled outcome some_stride c linked = record {
  memory = write linked.memory end arr;
  returned = rw linked.returned refl;
  order = c.picks;
  all = Perm.cons 0 c.all;
  count = omega (arith, c.count, length-candidates_from 1 n);
  ring =
      subst (λ t. Leads (write linked.memory end arr) t (map (address arr stride) c.picks) t) first
        (Links-Leads arr stride (suc n) (write linked.memory end arr) c.result entries words 0
          c.picks 0 (omega arith) c.links);
  past_end = write_same linked.memory end arr;
  untouched =
      λ a out. write_other linked.memory end arr a (omega arith) ∙ linked.untouched a (omega arith);
}
  where
    end : ℕ
    end = arr + suc n * stride

    first : address arr stride 0 ≡ arr
    first = omega arith

    entries : length c.result ≡ suc n
    entries = c.same_length ∙ length-lines arr stride 0 (suc n)

    words :
        (j p : ℕ)
        → j < suc n
        → get_elem? c.result j ≡ some p
        → write linked.memory end arr (arr + j * stride) ≡ p
    words j p lt entry =
        let next : suc j * stride ≤ suc n * stride = grind arith in
        write_other linked.memory end arr (arr + j * stride) (omega arith)
        ∙ linked.words j p (omega arith) lt entry

module _ (dist : ℕ → ℕ → ℕ) (in_range : (round bound : ℕ) → dist round bound ≤ bound) where
  lines-Closes :
      (arr stride n : ℕ)
      → suc n < 2 ^ 31
      → Closes
          (lines arr stride 0 (suc n))
          (lines arr stride 0 (suc n))
          0
          (candidates_from 1 n)
          (shuffle_array dist (lines arr stride 0 (suc n)))
  lines-Closes arr stride n few =
      subst
        (λ k.
          Closes (lines arr stride 0 (suc n)) (lines arr stride 0 (suc n)) 0 (candidates_from 1 k)
            (shuffle_array dist (lines arr stride 0 (suc n))))
        (length-lines arr stride 1 n)
        (shuffle_array-Closes dist in_range (arr + 0 * stride) (lines arr stride 1 n)
          (omega (arith, few, length-lines arr stride 1 n)))

  -- For a block of one line or more, and fewer than 2^31, with a stride that is a multiple of 8 and no
  -- overflow of the loop counter, `set_shuffled_linked_list` ends and stays within its vectors. It leaves a ring that
  -- goes from the block's first line through all others, each once, and back. It changes nothing
  -- outside the block, except the word that begins at the block's end, which it sets to the block's
  -- address; that is where its iterator stands.
  pub set_shuffled_linked_list-IsRing :
      (arr size stride n : ℕ) (m : Memory)
      → 0 < stride
      → stride / 8 * 8 ≡ stride
      → size + stride < 2 ^ 64
      → suc n < 2 ^ 31
      → size ≡ suc n * stride
      → IsRing arr stride (suc n) m (set_shuffled_linked_list dist arr size stride m)
  unfolding set_shuffled_linked_list
  set_shuffled_linked_list-IsRing arr size stride n m some_stride aligned fits few_lines whole =
      let few : suc n ≤ size = grind arith in
      let c = lines-Closes arr stride n few_lines in
      rw
        (
          collect-lines (suc size) arr size stride 0 (suc n) 0 some_stride fits (omega arith)
              (omega arith) (omega arith),
          c.returned,
        )
        (IsRing-close arr stride n m _ _ some_stride c (
          link_loop-Linked arr size stride (suc n) c.result some_stride aligned fits whole
            (c.same_length ∙ length-lines arr stride 0 (suc n)) (suc size) 0 (suc n) 0 arr m
            (omega arith) (omega arith) (omega arith) (omega arith)))
