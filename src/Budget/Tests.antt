-- ===== src/Budget/Tests.antt =====
-- Two evaluators that do not fit together, the first of which is not cleaned up.
use tiny_dsv.Base.{◌≤◌, ◌≡◌, refl, true, false, List, [], ◌∷◌}
use tiny_dsv.Budget.State.{
  Budget, Event, Turn, used, enqueue, cancel, acquire, quarantine, release, run,
}
use tiny_dsv.Budget.Sublists.{Sublist}
use tiny_dsv.Budget.Bounds.{Served, within_capacity, head_is_admitted}
use tiny_dsv.Budget.Order.{admission_order}

program : Unit {0}
unfolding enqueue cancel acquire quarantine release
program = tt

abbrev budget : Budget
budget = record { capacity = 10; waiting = []; allocations = []; enqueued = []; admitted = [] }

abbrev events : List Event
events =
    Event.enters 1 6
    ∷ Event.enters 2 5
    ∷ Event.enters 3 2
    ∷ Event.turns 3 false
    ∷ Event.turns 1 false
    ∷ Event.leaves 1 true
    ∷ Event.turns 2 false
    ∷ []

in_turn : (run events budget).admitted ≡ 1 ∷ []
unfolding program
in_turn = refl

still_waiting : (acquire 2 false (run events budget)).1 ≡ Turn.waits
unfolding program
still_waiting = refl

within_capacity_example : used (run events budget) ≤ (run events budget).capacity
within_capacity_example = within_capacity events 10 budget refl

head_is_admitted_example :
    Served 2 5 ((3, 2) ∷ []) (run events budget) (acquire 2 false (run events budget))
    × (5 ≤ (run events budget).capacity)
unfolding program
head_is_admitted_example = head_is_admitted events 10 budget 2 5 ((3, 2) ∷ []) refl refl

admission_order_example : Sublist (run events budget).admitted (run events budget).enqueued
admission_order_example = admission_order events 10 budget refl
