-- ===== src/Coordinator/Tests.antt =====
-- Two episodes of a group on an executor that has room for one, run by hand.
use tiny_dsv.Base.{
  ℕ, ◌+◌, ◌-◌, ◌≡◌, refl, true, false, Option, none, some, List, [], ◌∷◌, arith, map,
}
use tiny_dsv.Coordinator.Plans.{
  cpu, memory_bytes, storage_bytes, gpu_count, Amount, Plan, Setup, is_valid, check_plans,
}
use tiny_dsv.Coordinator.Ledger.{fits, charge, uncharge, quarantine, amount_of}
use tiny_dsv.Coordinator.State.{State, Result, begin}
use tiny_dsv.Coordinator.Admission.{admit, admit_pass}
use tiny_dsv.Coordinator.Completion.{complete, complete_all}
use tiny_dsv.Coordinator.Loop.{
  Turn, Turned, again, over, abandon_all, turn, loop, turn_away, ordered, finish,
}
use tiny_dsv.Coordinator.Accounts.{Exact}
use tiny_dsv.Coordinator.Floats.{nearest_float, rounded}
use tiny_dsv.Coordinator.Results.{
  Inv, first, next, Reached-Inv, one_result_each, all_admitted, all_released,
}

program : Unit {0}
unfolding is_valid check_plans fits charge uncharge quarantine begin admit admit_pass complete
    complete_all abandon_all turn loop turn_away ordered finish rounded nearest_float
program = tt

abbrev cpus : ℕ → Amount
cpus n cpu = n
cpus n memory_bytes = 0
cpus n storage_bytes = 0
cpus n gpu_count = 0

abbrev plan : ℕ → Plan
plan identity = record {
  identity = identity;
  run = 1;
  benchmark = 0;
  group = 7;
  executor = 2;
  staged = false;
  need = cpus 3;
}

abbrev setup : Setup
setup = record {
  backends = (0, 9) ∷ [];
  max_workers = 2;
  max_groups = 1;
  capacities = (2, cpus 4) ∷ [];
  plans = plan 10 ∷ plan 11 ∷ [];
}

abbrev clean : ℕ → Result
clean identity = record {
  identity = identity;
  is_clean = true;
  is_uncertain = false;
  infrastructure = false;
  review_required = false;
  declined = none;
}

abbrev quiet : List (ℕ × Result) → Turn
quiet done = record { cancelled = none; is_late = false; interrupted = false; done = done }

abbrev turns : List Turn
turns = quiet ((0, clean 10) ∷ []) ∷ quiet ((1, clean 11) ∷ []) ∷ quiet [] ∷ []

-- The first episode is not cleaned up.
abbrev unclean_turns : List Turn
unclean_turns = quiet ((0, record (clean 10) { is_clean = false }) ∷ []) ∷ quiet [] ∷ []

abbrev or_begin : Option State → State
or_begin none = begin setup none
or_begin (some st) = st

abbrev after : List Turn → State
unfolding loop
after ts = or_begin (loop setup ts (begin setup none))

setup-IsValid : is_valid setup ≡ true
unfolding program
setup-IsValid = refl

-- One tenth and three tenths, added and subtracted again, in the unit 2 ^ -56.
left_over :
    rounded (
      rounded (rounded (7205759403792794 + 21617278211378380) - 7205759403792794)
      - 21617278211378380)
    ≡ 4
unfolding program
left_over = refl

setup-Exact : Exact setup
setup-Exact e cpu = ground arith
setup-Exact e memory_bytes = tt
setup-Exact e storage_bytes = tt
setup-Exact e gpu_count = tt

run_ends : loop setup turns (begin setup none) ≡ some (after turns)
unfolding program
run_ends = refl

stopped_run_ends : loop setup unclean_turns (begin setup none) ≡ some (after unclean_turns)
unfolding program
stopped_run_ends = refl

stopped_run_results :
    (rs : List Result) × (finish setup (after unclean_turns) ≡ some rs)
    × (map (λ r. r.is_clean) rs ≡ false ∷ true ∷ [])
unfolding program
stopped_run_results = (_, refl, refl)

stopped_run_quarantine : amount_of 2 (after unclean_turns).ledger.reserved cpu ≡ 3
unfolding program
stopped_run_quarantine = refl

one_result_each_example :
    (rs : List Result) × (finish setup (after unclean_turns) ≡ some rs)
    × (map (λ r. r.identity) rs ≡ map (λ p. p.identity) setup.plans)
one_result_each_example =
    one_result_each setup setup-IsValid (omega arith) (omega arith) none unclean_turns
      (after unclean_turns) stopped_run_ends

nothing_stopped : (after turns).stopped ≡ none
unfolding program
nothing_stopped = refl

all_admitted_example : (after turns).pending ≡ []
all_admitted_example =
    all_admitted setup setup-IsValid (omega arith) (omega arith) none turns (after turns) run_ends
      setup-Exact nothing_stopped

all_released_example :
    amount_of 2 (after unclean_turns).ledger.reserved cpu
    ≡ amount_of 2 (after unclean_turns).ledger.quarantined cpu
all_released_example =
    all_released setup setup-IsValid (omega arith) (omega arith) none unclean_turns
      (after unclean_turns) stopped_run_ends setup-Exact 2 cpu

abbrev state_of : Turned → State
state_of (again st) = st
state_of (over st) = st

abbrev second : State
unfolding turn
second = state_of (turn setup (quiet []) (begin setup none))

one_turn : turn setup (quiet []) (begin setup none) ≡ again second
unfolding program
one_turn = refl

Reached-Inv_example : Inv setup second
Reached-Inv_example =
    Reached-Inv setup setup-IsValid (omega arith) (omega arith) setup-Exact
      (next (quiet []) first one_turn)
