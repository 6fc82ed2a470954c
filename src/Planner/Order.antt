-- ===== src/Planner/Order.antt =====
-- The order of the planner, and what a cell takes from it.
use tiny_dsv.Base.{
  ℕ, zero, suc, ◌+◌, ◌≤◌, ◌≡◌, refl, ap, ◌∙◌, true, some, List, [], ◌∷◌, ◌++◌, leb, ◌==◌, ==_iff,
  all, any, All, length, if◌then◌else◌, arith, Bool-cases, inl, inr,
}
use tiny_dsv.Base.{Bool, ◌&&◌, ==_refl}
use tiny_dsv.Planner.Plan.{
  Cell, length_at, first_of, rest_of, place, sorted, count_of, taken, candidates, is_better, best,
  choose, cell_ok,
}

-- How often an index is in a list.
abbrev pub occurrences : ℕ → List ℕ → ℕ
occurrences k [] = 0
occurrences k (x ∷ xs) = (if x == k then 1 else 0) + occurrences k xs

occurrences-place :
    (ns : List ℕ) (k i : ℕ) (js : List ℕ) → occurrences k (place ns i js) ≡ occurrences k (i ∷ js)
occurrences-place ns k i [] = refl
occurrences-place ns k i (j ∷ js) = ground (arith, occurrences-place ns k i js)

pub occurrences-sorted :
    (ns : List ℕ) (k : ℕ) (is : List ℕ) → occurrences k (sorted ns is) ≡ occurrences k is
occurrences-sorted ns k [] = refl
occurrences-sorted ns k (i ∷ is) =
    omega (arith, occurrences-place ns k i (sorted ns is), occurrences-sorted ns k is)

length-place : (ns : List ℕ) (i : ℕ) (js : List ℕ) → length (place ns i js) ≡ suc (length js)
length-place ns i [] = refl
length-place ns i (j ∷ js) = ground (arith, length-place ns i js)

pub length-sorted : (ns is : List ℕ) → length (sorted ns is) ≡ length is
length-sorted ns [] = refl
length-sorted ns (i ∷ is) = length-place ns i (sorted ns is) ∙ ap suc (length-sorted ns is)

pub first_of-rest_of : (n : ℕ) (xs : List ℕ) → first_of n xs ++ rest_of n xs ≡ xs
first_of-rest_of zero xs = refl
first_of-rest_of (suc n) [] = refl
first_of-rest_of (suc n) (x ∷ xs) = ap (λ z. x ∷ z) (first_of-rest_of n xs)

pub length-rest_of : (n : ℕ) (xs : List ℕ) → n ≤ length xs → length (rest_of n xs) + n ≡ length xs
length-rest_of zero xs h = omega arith
length-rest_of (suc n) [] h = absurd (omega arith)
length-rest_of (suc n) (x ∷ xs) h = omega (arith, length-rest_of n xs (omega arith))

pub length-first_of : (n : ℕ) (xs : List ℕ) → n ≤ length xs → length (first_of n xs) ≡ n
length-first_of zero xs h = refl
length-first_of (suc n) [] h = absurd (omega arith)
length-first_of (suc n) (x ∷ xs) h = ap suc (length-first_of n xs (omega arith))

-- What a cell takes is within its room and its tokens.
pub count_of-room :
    (ns : List ℕ) (room tokens : ℕ) (order : List ℕ)
    → (count_of ns room tokens order ≤ room) × (count_of ns room tokens order ≤ length order)
count_of-room ns zero tokens order = (omega arith, omega arith)
count_of-room ns (suc room) tokens [] = (omega arith, omega arith)
count_of-room ns (suc room) tokens (i ∷ order) =
    let (a, b) = count_of-room ns room tokens order in
    elim (Bool-cases (leb (length_at ns i) tokens)) [
      | inl e ↦ rw e (omega (arith, a), omega (arith, b))
      | inr e ↦ rw e (omega arith, omega arith)
    ]

pub count_of-tokens :
    (ns : List ℕ) (room tokens : ℕ) (order : List ℕ)
    → All (λ i. length_at ns i ≤ tokens) (first_of (count_of ns room tokens order) order)
count_of-tokens ns zero tokens order = tt
count_of-tokens ns (suc room) tokens [] = tt
count_of-tokens ns (suc room) tokens (i ∷ order) = elim (Bool-cases (leb (length_at ns i) tokens)) [
  | inl e ↦ rw e (ground arith, count_of-tokens ns room tokens order)
  | inr e ↦ rw e tt
]

abbrev pub same_cell : Cell → Cell → Bool
same_cell c d =
    c.max_batch_size == d.max_batch_size && c.max_model_input_tokens == d.max_model_input_tokens

-- The cell is one of those that are supplied.
abbrev pub Supplied : List Cell → Cell → Type 0
Supplied cells c = any (same_cell c) cells ≡ true

-- A candidate is a cell that is supplied, with the positive number that it takes.
abbrev pub Candidate : List ℕ → List ℕ → List Cell → ℕ × Cell → Type 0
Candidate ns order cells (n, c) = (n ≡ taken ns order c) × (1 ≤ n) × Supplied cells c

candidates_among :
    (ns order : List ℕ) (supplied cells : List Cell)
    → ((c : Cell) → Supplied cells c → Supplied supplied c)
    → All (Candidate ns order supplied) (candidates ns order cells)
candidates_among ns order supplied [] h = tt
candidates_among ns order supplied (c ∷ cells) h =
    let rest = candidates_among ns order supplied cells (λ d m. h d (ground (arith, m))) in
    elim (Bool-cases (taken ns order c == 0)) [
      | inl e ↦ rw e rest
      | inr e ↦ rw e (
        (
          refl,
          ground arith,
          h c (ground (arith, ==_refl c.max_batch_size, ==_refl c.max_model_input_tokens)),
        ),
        rest,
      )
    ]

pub candidates-Candidate :
    (ns order : List ℕ) (cells : List Cell)
    → All (Candidate ns order cells) (candidates ns order cells)
candidates-Candidate ns order cells = candidates_among ns order cells cells (λ c m. m)

pub best-Candidate :
    (ns order : List ℕ) (cells : List Cell) (x : ℕ × Cell) (xs : List (ℕ × Cell))
    → Candidate ns order cells x
    → All (Candidate ns order cells) xs
    → Candidate ns order cells (best x xs)
best-Candidate ns order cells x [] h a = h
best-Candidate ns order cells x (y ∷ ys) h a =
    best-Candidate ns order cells (if is_better y x then y else x) ys
      (elim (Bool-cases (is_better y x)) [ inl e ↦ rw e (a.0) | inr e ↦ rw e h ]) a.1

takes_first :
    (ns : List ℕ) (room tokens i : ℕ) (order : List ℕ)
    → 1 ≤ room
    → leb (length_at ns i) tokens ≡ true
    → 1 ≤ count_of ns room tokens (i ∷ order)
takes_first ns zero tokens i order h a = absurd (omega arith)
takes_first ns (suc room) tokens i order h a = rw a (omega arith)

-- A cell that takes the first response is a candidate.
some_candidate :
    (ns : List ℕ) (i : ℕ) (order : List ℕ) (cells : List Cell)
    → all cell_ok cells ≡ true
    → any (λ c. leb (length_at ns i) c.max_model_input_tokens) cells ≡ true
    → 1 ≤ length (candidates ns (i ∷ order) cells)
some_candidate ns i order [] h a = absurd (ground arith)
some_candidate ns i order (c ∷ cells) h a = elim (Bool-cases (taken ns (i ∷ order) c == 0)) [
  | inr e ↦ rw e (omega arith)
  | inl e ↦ rw e (
      some_candidate ns i order cells (ground arith)
        (elim (Bool-cases (leb (length_at ns i) c.max_model_input_tokens)) [
          | inr f ↦ ground arith
          | inl f ↦
              let much =
                takes_first ns c.max_batch_size c.max_model_input_tokens i order (ground arith) f in
              absurd (omega (arith, much, (==_iff (taken ns (i ∷ order) c) 0).0 e))
        ]))
]

pub choose-candidates :
    (ns : List ℕ) (i : ℕ) (order : List ℕ) (cells : List Cell)
    → all cell_ok cells ≡ true
    → any (λ c. leb (length_at ns i) c.max_model_input_tokens) cells ≡ true
    → (x : ℕ × Cell) × (choose (candidates ns (i ∷ order) cells) ≡ some x)
      × Candidate ns (i ∷ order) cells x
choose-candidates ns i order cells h a =
    go (candidates ns (i ∷ order) cells) (candidates-Candidate ns (i ∷ order) cells)
      (some_candidate ns i order cells h a)
  where
    go :
        (xs : List (ℕ × Cell))
        → All (Candidate ns (i ∷ order) cells) xs
        → 1 ≤ length xs
        → (x : ℕ × Cell) × (choose xs ≡ some x) × Candidate ns (i ∷ order) cells x
    go [] v h = absurd (omega arith)
    go (x ∷ xs) v h = (best x xs, refl, best-Candidate ns (i ∷ order) cells x xs v.0 v.1)
