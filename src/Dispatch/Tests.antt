-- ===== src/Dispatch/Tests.antt =====
-- Two ranks with two experts each.
use tiny_dsv.Base.{
  ℕ, zero, suc, ◌+◌, ◌*◌, ◌<◌, ◌≡◌, refl, none, some, List, [], ◌∷◌, All, arith, subst, sym, length,
}
use tiny_dsv.Mailbox.Sorting.{place, sort}
use tiny_dsv.Dispatch.Pieces.{sum}
use tiny_dsv.Dispatch.State.{Token, prepare, dispatch}
use tiny_dsv.Dispatch.Preparing.{Shaped}
use tiny_dsv.Dispatch.Experts.{forward_local, forward_parallel}
use tiny_dsv.Dispatch.Equivalence.{outcome, experts_in_parallel}
use tiny_dsv.Dispatch.Model.{torch, torch-Laws, place_pair}

program : Unit {0}
unfolding place sort place_pair prepare dispatch
program = tt

abbrev world : ℕ → List (Token ℕ ℕ)
world zero =
    record { hidden = 5; choices = (3, 1) ∷ (0, 2) ∷ [] }
    ∷ record { hidden = 7; choices = (1, 1) ∷ (2, 1) ∷ [] }
    ∷ []
world (suc r) = record { hidden = 2; choices = (0, 3) ∷ (3, 1) ∷ [] } ∷ []

abbrev weighted : ℕ → ℕ → ℕ → ℕ
weighted expert hidden weight = weight * (hidden + 10 * expert)

two :
    (token : Token ℕ ℕ) (i v j w : ℕ)
    → token.choices ≡ (i, v) ∷ (j, w) ∷ []
    → i < 4
    → j < 4
    → Shaped 2 4 token
two token i v j w e a b =
    subst (λ l. (length l ≡ 2) × All (λ c. c.0 < 4) l) (sym e) (refl, (a, (b, tt)))

world-Shaped : (r : ℕ) → r < 2 → All (Shaped 2 4) (world r)
world-Shaped zero h =
    let first =
      two (record { hidden = 5; choices = (3, 1) ∷ (0, 2) ∷ [] }) 3 1 0 2 refl (omega arith)
        (omega arith) in
    let second =
      two (record { hidden = 7; choices = (1, 1) ∷ (2, 1) ∷ [] }) 1 1 2 1 refl (omega arith)
        (omega arith) in
    (first, (second, tt))
world-Shaped (suc r) h =
    let only =
      two (record { hidden = 2; choices = (0, 3) ∷ (3, 1) ∷ [] }) 0 3 3 1 refl (omega arith)
        (omega arith) in
    (only, tt)

runs : forward_parallel sum weighted torch 2 2 4 world 0 ≡ some (45 ∷ 44 ∷ [])
unfolding program
runs = refl

-- A rank without tokens takes part in the exchange, and its combine fails.
abbrev idle_world : ℕ → List (Token ℕ ℕ)
idle_world zero = []
idle_world (suc r) = world 0

idle_rank_fails : forward_parallel sum weighted torch 2 2 4 idle_world 0 ≡ none
unfolding program
idle_rank_fails = refl

busy_rank_works : forward_parallel sum weighted torch 2 2 4 idle_world 1 ≡ some (45 ∷ 44 ∷ [])
unfolding program
busy_rank_works = refl

experts_in_parallel_example :
    (forward_parallel sum weighted torch 2 2 4 world 0 ≡ outcome sum weighted 2 (world 0))
    × (forward_local sum weighted 2 (world 0) ≡ outcome sum weighted 2 (world 0))
experts_in_parallel_example =
    experts_in_parallel torch torch-Laws sum weighted 2 2 4 world (omega arith) (omega arith) refl
      world-Shaped 0 (omega arith)
