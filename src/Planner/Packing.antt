-- ===== src/Planner/Packing.antt =====
-- The planner covers every response once, within the cells.
use tiny_dsv.Base.{
  ℕ, zero, suc, ◌+◌, ◌-◌, min, ◌≤◌, ◌<◌, ◌≡◌, refl, ap, sym, ◌∙◌, Bool, true, ◌&&◌, Option, none,
  some, List, [], ◌∷◌, ◌++◌, leb, all, any, All, length, arith, Bool-cases, inl, inr, range_from,
  subst,
}
use tiny_dsv.Base.{length-range_from}
use tiny_dsv.Planner.Plan.{
  Cell, Microbatch, length_at, first_of, rest_of, sorted, place, comes_before, covers, cell_ok,
  cells_ok, lengths_ok, pack, chunks, plan_learner_microbatches,
}
use tiny_dsv.Planner.Order.{
  occurrences, occurrences-sorted, length-sorted, first_of-rest_of, length-rest_of, length-first_of,
  count_of-room, count_of-tokens, choose-candidates, Supplied,
}

-- All indices of a plan, batch after batch.
abbrev pub indices_of : List Microbatch → List ℕ
indices_of [] = []
indices_of (b ∷ bs) = b.response_indices ++ indices_of bs

-- A batch names one of the cells that are supplied, is not empty and is within its cell.
abbrev pub Fits : List ℕ → List Cell → Microbatch → Type 0
Fits ns cells b =
    (c : Cell) × (b.qualified_shape_cell ≡ some c)
    × Supplied cells c
    × (1 ≤ length b.response_indices)
    × (length b.response_indices ≤ c.max_batch_size)
    × All (λ i. length_at ns i ≤ c.max_model_input_tokens) b.response_indices

-- Every response that is left fits some cell.
abbrev Covered : List ℕ → List Cell → List ℕ → Type 0
Covered ns cells = All (λ i. any (λ c. leb (length_at ns i) c.max_model_input_tokens) cells ≡ true)

All-rest_of : (P : ℕ → Type 0) (n : ℕ) (xs : List ℕ) → All P xs → All P (rest_of n xs)
All-rest_of P zero xs a = a
All-rest_of P (suc n) [] a = tt
All-rest_of P (suc n) (x ∷ xs) a = All-rest_of P n xs a.1

abbrev Packs : List ℕ → List Cell → List ℕ → Option (List Microbatch) → Type 0
Packs ns cells order o =
    (bs : List Microbatch) × (o ≡ some bs) × (indices_of bs ≡ order) × All (Fits ns cells) bs

pack-Packs :
    (ns : List ℕ) (cells : List Cell) (fuel : ℕ) (order : List ℕ)
    → all cell_ok cells ≡ true
    → length order ≤ fuel
    → Covered ns cells order
    → Packs ns cells order (pack ns cells fuel order)
unfolding pack
pack-Packs ns cells fuel [] h f a = ([], refl, refl, tt)
pack-Packs ns cells zero (i ∷ order) h f a = absurd (omega arith)
pack-Packs ns cells (suc fuel) (i ∷ order) h f a =
    let ((n, c), chosen, (same, some_n, supplied)) = choose-candidates ns i order cells h a.0 in
    let (room, most) = count_of-room ns c.max_batch_size c.max_model_input_tokens (i ∷ order) in
    let few : n ≤ length (i ∷ order) = omega (arith, same, most) in
    let (bs, rest, joined, fit) =
      pack-Packs ns cells fuel (rest_of n (i ∷ order)) h
        (omega (arith, length-rest_of n (i ∷ order) few))
        (All-rest_of (λ i. any (λ c. leb (length_at ns i) c.max_model_input_tokens) cells ≡ true) n
          (i ∷ order) a) in
    let long = length-first_of n (i ∷ order) few in
    (
      record { response_indices = first_of n (i ∷ order); qualified_shape_cell = some c } ∷ bs,
      rw (chosen, pack, rest) refl,
      ap (λ z. first_of n (i ∷ order) ++ z) joined ∙ first_of-rest_of n (i ∷ order),
      (
        (
          c,
          refl,
          supplied,
          omega (arith, long, some_n),
          omega (arith, long, same, room),
          subst (λ m. All (λ i. length_at ns i ≤ c.max_model_input_tokens) (first_of m (i ∷ order)))
              (sym same) (count_of-tokens ns c.max_batch_size c.max_model_input_tokens (i ∷ order)),
        ),
        fit,
      ),
    )

All-range_from : (P : ℕ → Type 0) (s n : ℕ) → ((i : ℕ) → i < s + n → P i) → All P (range_from s n)
All-range_from P s zero h = tt
All-range_from P s (suc n) h =
    (h s (omega arith), All-range_from P (suc s) n (λ i l. h i (omega arith)))

All-place-sorted :
    (P : ℕ → Type 0) (ns : List ℕ) (i : ℕ) (js : List ℕ) → P i → All P js → All P (place ns i js)
All-place-sorted P ns i [] h a = (h, tt)
All-place-sorted P ns i (j ∷ js) h a = elim (Bool-cases (comes_before ns i j)) [
  | inl e ↦ rw e (h, a)
  | inr e ↦ rw e (a.0, All-place-sorted P ns i js h a.1)
]

All-sorted : (P : ℕ → Type 0) (ns is : List ℕ) → All P is → All P (sorted ns is)
All-sorted P ns [] a = tt
All-sorted P ns (i ∷ is) a = All-place-sorted P ns i (sorted ns is) a.0 (All-sorted P ns is a.1)

all_at :
    (p : ℕ → Bool) (ns : List ℕ)
    → all p ns ≡ true
    → (i : ℕ) → i < length ns
    → p (length_at ns i) ≡ true
all_at p [] h i l = absurd (omega arith)
all_at p (n ∷ ns) h zero l = ground arith
all_at p (n ∷ ns) h (suc i) l = all_at p ns (ground arith) i (omega arith)

cells_ok-all : (cells : List Cell) → cells_ok cells ≡ true → all cell_ok cells ≡ true
cells_ok-all [] h = absurd (ground arith)
cells_ok-all (c ∷ cells) h = h

-- If the fixed size is from 1 to 32, the lengths and the cells are valid and the cells cover every
-- length, then there is a plan, each response is in it exactly once, and every microbatch names one
-- of the supplied cells, is not empty, has no more responses than the cell allows, and no response
-- longer than the cell allows.
pub plan_with_cells :
    (ns : List ℕ) (size : ℕ) (cells : List Cell)
    → 1 ≤ size
    → size ≤ 32
    → lengths_ok ns ≡ true
    → cells_ok cells ≡ true
    → covers ns cells ≡ true
    → (bs : List Microbatch) × (plan_learner_microbatches ns size (some cells) ≡ some bs)
      × ((k : ℕ) → occurrences k (indices_of bs) ≡ occurrences k (range_from 0 (length ns)))
      × All (Fits ns cells) bs
unfolding plan_learner_microbatches
plan_with_cells ns size cells low high lengths ok cover =
    let covered : Covered ns cells (sorted ns (range_from 0 (length ns))) =
      All-sorted (λ i. any (λ c. leb (length_at ns i) c.max_model_input_tokens) cells ≡ true) ns
        (range_from 0 (length ns))
        (All-range_from (λ i. any (λ c. leb (length_at ns i) c.max_model_input_tokens) cells ≡ true)
          0 (length ns)
          (λ i l.
            all_at (λ n. any (λ c. leb n c.max_model_input_tokens) cells) ns cover i
              (omega arith))) in
    let (bs, e, joined, fit) =
      pack-Packs ns cells (length ns) (sorted ns (range_from 0 (length ns))) (cells_ok-all cells ok)
        (omega
          (arith, length-sorted ns (range_from 0 (length ns)), length-range_from 0 (length ns)))
        covered in
    let valid : (leb 1 size && leb size 32 && lengths_ok ns && cells_ok cells && covers ns cells)
        ≡ true =
      ground (arith, lengths, ok, cover) in
    (
      bs,
      rw valid e,
      λ k. ap (occurrences k) joined ∙ occurrences-sorted ns k (range_from 0 (length ns)),
      fit,
    )

range_from-append : (s a b : ℕ) → range_from s a ++ range_from (s + a) b ≡ range_from s (a + b)
range_from-append s zero b =
    ap (λ z. range_from z b) (let e : s + 0 ≡ s = omega arith in e)
    ∙ ap (range_from s) (let e : b ≡ 0 + b = omega arith in e)
range_from-append s (suc a) b =
    ap (λ z. s ∷ z)
      (ap (λ z. range_from (suc s) a ++ range_from z b)
          (let e : s + suc a ≡ suc s + a = omega arith in e)
        ∙ range_from-append (suc s) a b)
    ∙ ap (range_from s) (let e : suc (a + b) ≡ suc a + b = omega arith in e)

-- The next range starts where this one ends, unless nothing is left.
next_range :
    (size n start : ℕ)
    → range_from (start + size) (n - (start + size))
      ≡ range_from (start + (min (start + size) n - start)) (n - (start + size))
next_range size n start = elim (Bool-cases (leb (start + size) n)) [
  | inl e ↦
      ap (λ z. range_from z (n - (start + size)))
        (let z : start + size ≡ start + (min (start + size) n - start) = ground arith in z)
  | inr e ↦
      let none_left : n - (start + size) ≡ 0 = ground arith in
      ap (range_from (start + size)) none_left
      ∙ ap (range_from (start + (min (start + size) n - start))) (sym none_left)
]

chunks_lem :
    (size n fuel start : ℕ)
    → 1 ≤ size
    → n ≤ start + fuel
    → (indices_of (chunks size n fuel start) ≡ range_from start (n - start))
      × All (λ b. length b.response_indices ≤ size) (chunks size n fuel start)
unfolding chunks
chunks_lem size n zero start h f =
    (ap (range_from start) (let e : 0 ≡ n - start = omega arith in e), tt)
chunks_lem size n (suc fuel) start h f =
    let (joined, small) = chunks_lem size n fuel (start + size) h (omega arith) in
    elim (Bool-cases (leb n start)) [
      | inl e ↦ rw e (ap (range_from start) (let z : 0 ≡ n - start = ground arith in z), tt)
      | inr e ↦ rw e (
        ap (λ z. range_from start (min (start + size) n - start) ++ z)
              (joined ∙ next_range size n start)
            ∙ range_from-append start (min (start + size) n - start) (n - (start + size))
            ∙ ap (range_from start) (
                let z : min (start + size) n - start + (n - (start + size)) ≡ n - start =
                  ground arith in
                z),
        (omega (arith, length-range_from start (min (start + size) n - start)), small),
      )
    ]

-- Without cells, if the fixed size is from 1 to 32 and the lengths are valid, then there is a plan,
-- its indices are all responses in their order, and no microbatch is larger than the fixed size.
pub plan_without_cells :
    (ns : List ℕ) (size : ℕ)
    → 1 ≤ size
    → size ≤ 32
    → lengths_ok ns ≡ true
    → (bs : List Microbatch) × (plan_learner_microbatches ns size none ≡ some bs)
      × (indices_of bs ≡ range_from 0 (length ns))
      × All (λ b. length b.response_indices ≤ size) bs
unfolding plan_learner_microbatches
plan_without_cells ns size low high lengths =
    let (joined, small) = chunks_lem size (length ns) (length ns) 0 low (omega arith) in
    let valid : (leb 1 size && leb size 32 && lengths_ok ns) ≡ true = ground (arith, lengths) in
    (
      chunks size (length ns) (length ns) 0,
      rw valid refl,
      joined ∙ ap (range_from 0) (let z : length ns - 0 ≡ length ns = omega arith in z),
      small,
    )
