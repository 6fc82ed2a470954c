-- ===== src/Planner/Plan.antt =====
-- `plan_learner_microbatches` (dsv41_train/rl/learner_batch_planner.py). `none` is a ValueError.
use tiny_dsv.Base.{
  ℕ, zero, suc, ◌+◌, ◌-◌, min, Bool, false, ◌&&◌, ◌||◌, Option, none, some, List, [], ◌∷◌, leb, ltb,
  ◌==◌, all, any, length, if◌then◌else◌, range_from,
}

pub record Cell : Type 0 where
  pub max_batch_size : ℕ
  pub max_model_input_tokens : ℕ

pub record Microbatch : Type 0 where
  pub response_indices : List ℕ
  pub qualified_shape_cell : Option Cell

-- `input_lengths[index]`. The indices are those of the list.
abbrev pub length_at : List ℕ → ℕ → ℕ
length_at [] i = 0
length_at (n ∷ ns) zero = n
length_at (n ∷ ns) (suc i) = length_at ns i

abbrev pub first_of : ℕ → List ℕ → List ℕ
first_of zero xs = []
first_of (suc n) [] = []
first_of (suc n) (x ∷ xs) = x ∷ first_of n xs

abbrev pub rest_of : ℕ → List ℕ → List ℕ
rest_of zero xs = xs
rest_of (suc n) [] = []
rest_of (suc n) (x ∷ xs) = rest_of n xs

abbrev pub lengths_ok : List ℕ → Bool
lengths_ok [] = false
lengths_ok (n ∷ ns) = all (λ k. leb 1 k && leb k 2047) (n ∷ ns)

abbrev pub cell_ok : Cell → Bool
cell_ok c =
    leb 1 c.max_batch_size
    && leb c.max_batch_size 32
    && leb 1 c.max_model_input_tokens
    && leb c.max_model_input_tokens 2047

abbrev pub cells_ok : List Cell → Bool
cells_ok [] = false
cells_ok (c ∷ cs) = all cell_ok (c ∷ cs)

-- Every length fits some cell.
abbrev pub covers : List ℕ → List Cell → Bool
covers ns cells = all (λ n. any (λ c. leb n c.max_model_input_tokens) cells) ns

-- The indices sorted by the length and then by the index.
abbrev pub comes_before : List ℕ → ℕ → ℕ → Bool
comes_before ns i j =
    ltb (length_at ns i) (length_at ns j) || (length_at ns i == length_at ns j && leb i j)

abbrev pub place : List ℕ → ℕ → List ℕ → List ℕ
place ns i [] = i ∷ []
place ns i (j ∷ js) =
    let rest = place ns i js in if comes_before ns i j then i ∷ j ∷ js else j ∷ rest

abbrev pub sorted : List ℕ → List ℕ → List ℕ
sorted ns [] = []
sorted ns (i ∷ is) = place ns i (sorted ns is)

-- How many responses from the cursor on a cell takes.
abbrev pub count_of : List ℕ → ℕ → ℕ → List ℕ → ℕ
count_of ns zero tokens order = 0
count_of ns (suc room) tokens [] = 0
count_of ns (suc room) tokens (i ∷ order) =
    let more = count_of ns room tokens order in if leb (length_at ns i) tokens then suc more else 0

abbrev pub taken : List ℕ → List ℕ → Cell → ℕ
taken ns order c = count_of ns c.max_batch_size c.max_model_input_tokens order

abbrev pub candidates : List ℕ → List ℕ → List Cell → List (ℕ × Cell)
candidates ns order [] = []
candidates ns order (c ∷ cells) =
    let more = candidates ns order cells in
    if taken ns order c == 0 then more else (taken ns order c, c) ∷ more

-- More responses, then the tighter bound on tokens, then the smaller batch.
abbrev pub is_better : ℕ × Cell → ℕ × Cell → Bool
is_better (n, c) (m, d) =
    ltb m n
    || (n == m
        && (ltb c.max_model_input_tokens d.max_model_input_tokens
            || (c.max_model_input_tokens == d.max_model_input_tokens
                && ltb c.max_batch_size d.max_batch_size)))

-- `min` gives the first of the best.
abbrev pub best : ℕ × Cell → List (ℕ × Cell) → ℕ × Cell
best x [] = x
best x (y ∷ ys) = best (if is_better y x then y else x) ys

abbrev pub choose : List (ℕ × Cell) → Option (ℕ × Cell)
choose [] = none
choose (x ∷ xs) = some (best x xs)

-- The loop; `order` is what the cursor has left. Without fuel there is no plan.
unfoldable pub pack : List ℕ → List Cell → ℕ → List ℕ → Option (List Microbatch)
pack ns cells fuel [] = some []
pack ns cells zero (i ∷ order) = none
pack ns cells (suc fuel) (i ∷ order) = elim (choose (candidates ns (i ∷ order) cells)) [
  | none ↦ none
  | some (n, c) ↦ elim (pack ns cells fuel (rest_of n (i ∷ order))) [
    | none ↦ none
    | some planned ↦ some (
        record { response_indices = first_of n (i ∷ order); qualified_shape_cell = some c }
        ∷ planned)
  ]
]

-- Without cells: the ranges from 0 on, of the fixed size.
unfoldable pub chunks : ℕ → ℕ → ℕ → ℕ → List Microbatch
chunks size n zero start = []
chunks size n (suc fuel) start =
    let rest = chunks size n fuel (start + size) in
    if leb n start
    then []
    else record {
      response_indices = range_from start (min (start + size) n - start);
      qualified_shape_cell = none;
    }
      ∷ rest

unfoldable pub plan_learner_microbatches :
    List ℕ → ℕ → Option (List Cell) → Option (List Microbatch)
plan_learner_microbatches ns size none =
    if leb 1 size && leb size 32 && lengths_ok ns
    then some (chunks size (length ns) (length ns) 0)
    else none
plan_learner_microbatches ns size (some cells) =
    if leb 1 size && leb size 32 && lengths_ok ns && cells_ok cells && covers ns cells
    then pack ns cells (length ns) (sorted ns (range_from 0 (length ns)))
    else none
