-- ===== src/Planner/Tests.antt =====
-- Five responses, planned with two cells and without.
use tiny_dsv.Base.{
  ℕ, ◌≤◌, ◌≡◌, refl, none, some, List, [], ◌∷◌, All, length, range_from, arith, map,
}
use tiny_dsv.Planner.Plan.{Cell, Microbatch, pack, chunks, plan_learner_microbatches}
use tiny_dsv.Base.{◌⊎◌}
use tiny_dsv.Planner.Plan.{taken}
use tiny_dsv.Planner.Best.{NoWorse, choose-candidates-best}
use tiny_dsv.Planner.Order.{occurrences, Candidate}
use tiny_dsv.Planner.Packing.{Fits, indices_of, plan_with_cells, plan_without_cells}

program : Unit {0}
unfolding pack chunks plan_learner_microbatches
program = tt

abbrev cells : List Cell
cells =
    record { max_batch_size = 2; max_model_input_tokens = 10 }
    ∷ record { max_batch_size = 1; max_model_input_tokens = 100 }
    ∷ []

abbrev lengths : List ℕ
lengths = 7 ∷ 90 ∷ 3 ∷ 10 ∷ 11 ∷ []

plan_of_lengths :
    (bs : List Microbatch) × (plan_learner_microbatches lengths 4 (some cells) ≡ some bs)
    × (map (λ b. b.response_indices) bs ≡ (2 ∷ 0 ∷ []) ∷ (3 ∷ []) ∷ (4 ∷ []) ∷ (1 ∷ []) ∷ [])
unfolding program
plan_of_lengths = (_, refl, refl)

uncovered_length : plan_learner_microbatches (101 ∷ []) 4 (some cells) ≡ none
unfolding program
uncovered_length = refl

plan_with_cells_example :
    (bs : List Microbatch) × (plan_learner_microbatches lengths 4 (some cells) ≡ some bs)
    × ((k : ℕ) → occurrences k (indices_of bs) ≡ occurrences k (range_from 0 5))
    × All (Fits lengths cells) bs
plan_with_cells_example = plan_with_cells lengths 4 cells (omega arith) (omega arith) refl refl refl

plan_without_cells_example :
    (bs : List Microbatch) × (plan_learner_microbatches lengths 2 none ≡ some bs)
    × (indices_of bs ≡ range_from 0 5)
    × All (λ b. length b.response_indices ≤ 2) bs
plan_without_cells_example = plan_without_cells lengths 2 (omega arith) (omega arith) refl

abbrev winner : ℕ × Cell
winner = (2, record { max_batch_size = 2; max_model_input_tokens = 10 })

choose-candidates-best_example :
    Candidate lengths (2 ∷ 0 ∷ []) cells winner
    × All
        (λ c. (taken lengths (2 ∷ 0 ∷ []) c ≡ 0) ⊎ NoWorse winner (taken lengths (2 ∷ 0 ∷ []) c, c))
        cells
choose-candidates-best_example = choose-candidates-best lengths (2 ∷ 0 ∷ []) cells winner refl
