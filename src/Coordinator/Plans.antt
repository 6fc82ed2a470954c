-- ===== src/Coordinator/Plans.antt =====
-- Plans, capacities and the checks that a run makes before it starts (`Coordinator.run`,
-- `ResourceRequirements`; rollout_manager/coordinator.py, contracts.py). Names and identities are
-- numbers, and so are the quantities.
use tiny_dsv.Base.{
  ℕ, zero, suc, Bool, true, false, not, ◌&&◌, ◌||◌, Option, none, some, List, [], ◌∷◌, leb, ◌==◌,
  all, contains, map, if◌then◌else◌,
}
use tiny_dsv.Base.Dict.{Dict, lookup, insert}

pub data Quantity : Type 0 where
  cpu memory_bytes storage_bytes gpu_count : Quantity

abbrev pub quantities : List Quantity
quantities = cpu ∷ memory_bytes ∷ storage_bytes ∷ gpu_count ∷ []

-- How much of each quantity.
abbrev pub Amount : Type 0
Amount = Quantity → ℕ

-- What a run reads of an `EpisodePlan`: `group` stands for the benchmark, the group identifier and
-- the pass, `staged` for the accounting "backend-stage".
pub record Plan : Type 0 where
  pub identity : ℕ
  pub run : ℕ
  pub benchmark : ℕ
  pub group : ℕ
  pub executor : ℕ
  pub staged : Bool
  pub need : Amount

pub record Setup : Type 0 where
  pub backends : Dict ℕ
  pub max_workers : ℕ
  pub max_groups : ℕ
  pub capacities : Dict Amount
  pub plans : List Plan

-- `plans[index]`. No index of a run is out of range, where there is no plan to give.
abbrev pub plan_at : List Plan → ℕ → Plan
plan_at [] i = record {
  identity = 0;
  run = 0;
  benchmark = 0;
  group = 0;
  executor = 0;
  staged = true;
  need = λ q. 0;
}
plan_at (p ∷ plans) zero = p
plan_at (p ∷ plans) (suc i) = plan_at plans i

abbrev pub within : Amount → Amount → Bool
within a b = all (λ q. leb (a q) (b q)) quantities

abbrev pub distinct : List ℕ → Bool
distinct [] = true
distinct (x ∷ xs) = not (contains x xs) && distinct xs

abbrev pub same_run : List Plan → Bool
same_run [] = true
same_run (p ∷ plans) = all (λ q. q.run == p.run) plans

-- `capacity and requirement.accounting == "episode" and any(...)` does not hold.
abbrev pub fits_alone : Dict Amount → Plan → Bool
fits_alone capacities p = elim (lookup p.executor capacities) [
  | none ↦ true
  | some c ↦ p.staged || within p.need c
]

-- The checks of the plans one by one, with the owners of the staged executors so far. `none` is a
-- ValueError.
abbrev pub owned : Plan → ℕ → Dict ℕ → Option (Dict ℕ)
owned p backend owners =
    if p.staged
    then elim (lookup p.executor owners) [
      | none ↦ some (insert p.executor backend owners)
      | some owner ↦ if owner == backend then some owners else none
    ]
    else some owners

unfoldable pub check_plans : Setup → List Plan → Dict ℕ → Bool
check_plans s [] owners = true
check_plans s (p ∷ plans) owners = elim (lookup p.benchmark s.backends) [
  | none ↦ false
  | some backend ↦ elim (owned p backend owners) [
    | none ↦ false
    | some owners' ↦ let rest = check_plans s plans owners' in fits_alone s.capacities p && rest
  ]
]

unfoldable pub is_valid : Setup → Bool
is_valid s =
    distinct (map (λ p. p.identity) s.plans) && same_run s.plans && check_plans s s.plans []
