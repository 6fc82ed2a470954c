-- ===== src/Coordinator/Loop.antt =====
-- The loop of `Coordinator.run` and its end (rollout_manager/coordinator.py).
use tiny_dsv.Base.{
  ℕ, Bool, true, false, ◌&&◌, Option, none, some, List, [], ◌∷◌, ◌++◌, if◌then◌else◌,
}
use tiny_dsv.Base.Dict.{Dict, insert, lookup}
use tiny_dsv.Coordinator.Plans.{Setup, plan_at}
use tiny_dsv.Coordinator.Ledger.{quarantine}
use tiny_dsv.Coordinator.State.{
  State, Result, Reason, coordinator_cancelled, not_admitted, or_reason, cancel, unresolved,
  turned_away, indices,
}
use tiny_dsv.Coordinator.Admission.{admit_pass}
use tiny_dsv.Coordinator.Completion.{complete_all}

-- What happens in a turn: the token may have been cancelled from outside, the drain deadline may
-- have passed, and the wait is interrupted or finds some tasks done.
pub record Turn : Type 0 where
  pub cancelled : Option Reason
  pub is_late : Bool
  pub interrupted : Bool
  pub done : List (ℕ × Result)

pub data Turned : Type 0 where
  again over : State → Turned

abbrev pub is_empty : List ℕ → Bool
is_empty [] = true
is_empty (x ∷ xs) = false

abbrev pub outside : Option Reason → State → State
outside none st = st
outside (some r) st = cancel r st

-- A cancelled token stops admission and sets the deadline.
abbrev pub heed_token : State → State
heed_token st = elim st.token [
  | none ↦ st
  | some r ↦ record st { stopped = or_reason st.stopped r; is_draining = true }
]

abbrev pub try_admission : Setup → State → State
try_admission s st = elim st.stopped [ none ↦ admit_pass s st.pending [] st | some r ↦ st ]

-- The deadline has passed: what is still active stays quarantined.
abbrev pub abandon : Setup → ℕ → State → State
abandon s i st = record st {
  ledger = quarantine (plan_at s.plans i) st.ledger;
  results = insert i (unresolved (plan_at s.plans i)) st.results;
  draining_tasks = st.draining_tasks ++ i ∷ [];
}

unfoldable pub abandon_all : Setup → List ℕ → State → State
abandon_all s [] st = record st { active = [] }
abandon_all s (i ∷ active) st = abandon_all s active (abandon s i st)

abbrev pub await : Setup → Turn → State → State
await s t st = if t.interrupted then cancel coordinator_cancelled st else complete_all s t.done st

abbrev pub wait_or_abandon : Setup → Turn → State → Turned
wait_or_abandon s t st = elim st.active [
  | [] ↦ over st
  | i ∷ active ↦
      if st.is_draining && t.is_late
      then over (abandon_all s (i ∷ active) st)
      else again (await s t st)
]

-- `pending or active` does not hold.
abbrev pub is_finished : State → Bool
is_finished st = is_empty st.pending && is_empty st.active

unfoldable pub turn : Setup → Turn → State → Turned
turn s t st =
    let st' = outside t.cancelled st in
    if is_finished st' then over st' else wait_or_abandon s t (try_admission s (heed_token st'))

-- `none` while the loop goes on.
unfoldable pub loop : Setup → List Turn → State → Option State
loop s [] st = none
loop s (t ∷ turns) st = elim (turn s t st) [ over st' ↦ some st' | again st' ↦ loop s turns st' ]

-- The `finally` clause: the plans that are still pending were not admitted.
unfoldable pub turn_away : Setup → Reason → List ℕ → Dict Result → Dict Result
turn_away s r [] results = results
turn_away s r (i ∷ pending) results =
    turn_away s r pending (insert i (turned_away (plan_at s.plans i) r) results)

abbrev pub reason_of : Option Reason → Option Reason → Reason
reason_of (some r) token = r
reason_of none (some r) = r
reason_of none none = not_admitted

-- `[results[index] for index in range(len(plans))]`; `none` is a KeyError.
unfoldable pub ordered : List ℕ → Dict Result → Option (List Result)
ordered [] results = some []
ordered (i ∷ is) results = elim (lookup i results) [
  | none ↦ none
  | some r ↦ elim (ordered is results) [ none ↦ none | some rs ↦ some (r ∷ rs) ]
]

unfoldable pub finish : Setup → State → Option (List Result)
finish s st =
    ordered (indices s) (turn_away s (reason_of st.stopped st.token) st.pending st.results)
