-- ===== src/Planner/Best.antt =====
-- The choice of the planner (dsv41_train/rl/learner_batch_planner.py, `min` over the candidates).
use tiny_dsv.Base.{
  ℕ, ◌≡◌, ap, sym, true, false, some, List, [], ◌∷◌, ◌==◌, ==_iff, All, if◌then◌else◌, arith,
  Bool-cases, inl, inr, ◌⊎◌, subst,
}
use tiny_dsv.Base.{◌≤◌, ◌<◌, ltb}
use tiny_dsv.Planner.Order.{Candidate, candidates-Candidate, best-Candidate}
use tiny_dsv.Planner.Plan.{Cell, is_better, best, choose, candidates, taken}

is_better_irrefl : (x : ℕ × Cell) → is_better x x ≡ false
is_better_irrefl (n, c) = ground arith

is_better_asym : (x y : ℕ × Cell) → is_better y x ≡ true → is_better x y ≡ false
is_better_asym (n, c) (m, d) h = ground arith

not_better_trans :
    (x y z : ℕ × Cell) → is_better x y ≡ false → is_better y z ≡ false → is_better x z ≡ false
not_better_trans (n, c) (m, d) (k, e) h g = ground arith

-- None of a list is better than `w`.
abbrev Unbeaten : List (ℕ × Cell) → ℕ × Cell → Type 0
Unbeaten xs w = All (λ y. is_better y w ≡ false) xs

best-Unbeaten : (x : ℕ × Cell) (xs : List (ℕ × Cell)) → Unbeaten (x ∷ xs) (best x xs)
best-Unbeaten x [] = (is_better_irrefl x, tt)
best-Unbeaten x (y ∷ ys) = elim (Bool-cases (is_better y x)) [
  | inl e ↦ subst (Unbeaten (x ∷ y ∷ ys)) (sym (ap (λ b. best (if b then y else x) ys) e)) (
      let (first, others) = best-Unbeaten y ys in
      (not_better_trans x y (best y ys) (is_better_asym x y e) first, (first, others)))
  | inr e ↦ subst (Unbeaten (x ∷ y ∷ ys)) (sym (ap (λ b. best (if b then y else x) ys) e)) (
      let (first, others) = best-Unbeaten x ys in
      (first, (not_better_trans y x (best x ys) e first, others)))
]

choose-Unbeaten : (xs : List (ℕ × Cell)) (w : ℕ × Cell) → choose xs ≡ some w → Unbeaten xs w
choose-Unbeaten [] w h = tt
choose-Unbeaten (x ∷ xs) w h =
    subst (Unbeaten (x ∷ xs)) (let e : best x xs ≡ w = ground (arith, h) in e) (best-Unbeaten x xs)

of_cells :
    (ns order : List ℕ) (w : ℕ × Cell) (cells : List Cell)
    → Unbeaten (candidates ns order cells) w
    → All (λ c. (taken ns order c ≡ 0) ⊎ (is_better (taken ns order c, c) w ≡ false)) cells
of_cells ns order w [] u = tt
of_cells ns order w (c ∷ cells) u = elim (Bool-cases (taken ns order c == 0)) [
  | inl e ↦ (inl ((==_iff (taken ns order c) 0).0 e), of_cells ns order w cells (rw e at u))
  | inr e ↦
      let v : Unbeaten ((taken ns order c, c) ∷ candidates ns order cells) w = (rw e at u) in
      (inr v.0, of_cells ns order w cells v.1)
]

-- The first cell takes more responses, or as many with a tighter bound on tokens, or as many with
-- the same bound and a batch that is no larger.
abbrev pub NoWorse : ℕ × Cell → ℕ × Cell → Type 0
NoWorse (n, c) (m, d) =
    (m < n)
    ⊎ (m ≡ n)
      × ((c.max_model_input_tokens < d.max_model_input_tokens)
          ⊎ (c.max_model_input_tokens ≡ d.max_model_input_tokens)
            × (c.max_batch_size ≤ d.max_batch_size))

is_better-NoWorse : (w x : ℕ × Cell) → is_better x w ≡ false → NoWorse w x
is_better-NoWorse (n, c) (m, d) h = elim (Bool-cases (ltb m n)) [
  | inl e ↦ inl (ground arith)
  | inr e ↦ inr (
    ground arith,
    elim (Bool-cases (ltb c.max_model_input_tokens d.max_model_input_tokens)) [
      | inl f ↦ inl (ground arith)
      | inr f ↦ inr (ground arith, ground arith)
    ],
  )
]

no_worse :
    (ns order : List ℕ) (w : ℕ × Cell) (cells : List Cell)
    → All (λ c. (taken ns order c ≡ 0) ⊎ (is_better (taken ns order c, c) w ≡ false)) cells
    → All (λ c. (taken ns order c ≡ 0) ⊎ NoWorse w (taken ns order c, c)) cells
no_worse ns order w [] a = tt
no_worse ns order w (c ∷ cells) a = (
  elim (a.0) [ inl e ↦ inl e | inr e ↦ inr (is_better-NoWorse w (taken ns order c, c) e) ],
  no_worse ns order w cells a.1,
)

choose-Candidate :
    (ns order : List ℕ) (cells : List Cell) (xs : List (ℕ × Cell)) (w : ℕ × Cell)
    → All (Candidate ns order cells) xs
    → choose xs ≡ some w
    → Candidate ns order cells w
choose-Candidate ns order cells [] w a h = absurd (ground arith)
choose-Candidate ns order cells (x ∷ xs) w a h =
    subst (Candidate ns order cells) (let e : best x xs ≡ w = ground (arith, h) in e)
      (best-Candidate ns order cells x xs a.0 a.1)

-- A cell that is chosen among the candidates is one of the supplied cells, with the number of the
-- responses that it takes from the front, at least one and at most its batch; and each supplied
-- cell that takes a response takes fewer, or as many with a looser bound on tokens, or as many with
-- the same bound and no smaller a batch.
pub choose-candidates-best :
    (ns order : List ℕ) (cells : List Cell) (w : ℕ × Cell)
    → choose (candidates ns order cells) ≡ some w
    → Candidate ns order cells w
      × All (λ c. (taken ns order c ≡ 0) ⊎ NoWorse w (taken ns order c, c)) cells
choose-candidates-best ns order cells w h = (
  choose-Candidate ns order cells (candidates ns order cells) w
      (candidates-Candidate ns order cells) h,
  no_worse ns order w cells
      (of_cells ns order w cells (choose-Unbeaten (candidates ns order cells) w h)),
)
