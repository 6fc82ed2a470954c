-- ===== src/Coordinator/Admission.antt =====
-- The admission of pending episodes in a turn of the loop of `Coordinator.run`
-- (rollout_manager/coordinator.py).
use tiny_dsv.Base.{ℕ, not, ◌&&◌, List, [], ◌∷◌, ◌++◌, leb, if◌then◌else◌, length, contains, add}
use tiny_dsv.Base.Sums.{remove_index}
use tiny_dsv.Coordinator.Plans.{Setup, plan_at}
use tiny_dsv.Coordinator.Ledger.{fits, charge}
use tiny_dsv.Coordinator.State.{State, group_of}

-- What the pass does with a plan: stop, pass it over, block its executor, or admit it.
pub data Verdict : Type 0 where
  no_worker passed_over blocked admitted : Verdict

abbrev pub judge : Setup → ℕ → List ℕ → State → Verdict
judge s i executors st =
    if leb s.max_workers (length st.active)
    then no_worker
    else (if not (contains (group_of s i) st.held_groups)
          && leb s.max_groups (length st.held_groups)
        then passed_over
        else (if contains (plan_at s.plans i).executor executors
            then passed_over
            else if fits s (plan_at s.plans i) st.ledger
            then admitted
            else blocked))

unfoldable pub admit : Setup → ℕ → State → State
admit s i st = record st {
  ledger = charge (plan_at s.plans i) st.ledger;
  held_groups = add (group_of s i) st.held_groups;
  pending = remove_index i st.pending;
  active = st.active ++ i ∷ [];
}

-- The candidates are a copy of `pending`.
unfoldable pub admit_pass : Setup → List ℕ → List ℕ → State → State
admit_pass s [] executors st = st
admit_pass s (i ∷ rest) executors st = elim (judge s i executors st) [
  | no_worker ↦ st
  | passed_over ↦ admit_pass s rest executors st
  | blocked ↦ admit_pass s rest (add (plan_at s.plans i).executor executors) st
  | admitted ↦ admit_pass s rest executors (admit s i st)
]
