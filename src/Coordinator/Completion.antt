-- ===== src/Coordinator/Completion.antt =====
-- The end of an episode in a turn of the loop of `Coordinator.run`
-- (rollout_manager/coordinator.py).
use tiny_dsv.Base.{
  ℕ, ◌+◌, Bool, not, ◌&&◌, Option, none, some, List, [], ◌∷◌, ◌==◌, if◌then◌else◌, contains,
  discard,
}
use tiny_dsv.Base.Dict.{insert}
use tiny_dsv.Base.Sums.{remove_index}
use tiny_dsv.Coordinator.Plans.{Plan, Setup, plan_at}
use tiny_dsv.Coordinator.Ledger.{uncharge, quarantine}
use tiny_dsv.Coordinator.State.{
  State, Result, Reason, uncertain_model_request, cleanup_unproven, infrastructure_failure,
  verifier_review_required, either, or_reason, group_of, expected, completed_of, unresolved,
}

-- `_safe`.
abbrev pub is_safe : Result → Bool
is_safe r = r.is_clean && not r.is_uncertain

-- The contract that `_execute` enforces on a backend: the identity is the plan's.
abbrev pub checked : Plan → Result → Result
checked p r = if r.identity == p.identity then r else unresolved p

abbrev pub doubt : Result → Reason
doubt r = if r.is_uncertain then uncertain_model_request else cleanup_unproven

-- The resources are quarantined and admission stops, or they are given back.
abbrev pub account : Setup → ℕ → Result → State → State
account s i r st = record st {
  ledger =
      if is_safe r
      then uncharge (plan_at s.plans i) st.ledger
      else quarantine (plan_at s.plans i) st.ledger;
  stopped = if is_safe r then st.stopped else or_reason st.stopped (doubt r);
  token = if is_safe r then st.token else or_reason st.token (either st.stopped (doubt r));
}

-- The reasons to stop that a result gives, the first of them first.
abbrev pub stopped_by : Result → Option Reason → Option Reason
stopped_by r stopped =
    let infra = if r.infrastructure then or_reason stopped infrastructure_failure else stopped in
    let native : Option Reason = elim r.declined [
      | none ↦ infra
      | some reason ↦ or_reason infra reason
    ] in
    if r.review_required then or_reason native verifier_review_required else native

-- A group that is complete is held no more.
abbrev pub count_completion : Setup → ℕ → State → State
count_completion s g st = record st {
  completed = insert g (completed_of g st + 1) st.completed;
  held_groups =
      if completed_of g st + 1 == expected s g then discard g st.held_groups else st.held_groups;
}

unfoldable pub complete : Setup → ℕ → Result → State → State
complete s i result st =
    let r = checked (plan_at s.plans i) result in
    let st1 =
      account s i r
        (record st { active = remove_index i st.active; results = insert i r st.results }) in
    count_completion s (group_of s i) (record st1 { stopped = stopped_by r st1.stopped })

-- The tasks that a wait has found done; it was given the active ones.
unfoldable pub complete_all : Setup → List (ℕ × Result) → State → State
complete_all s [] st = st
complete_all s ((i, r) ∷ done) st =
    complete_all s done (if contains i st.active then complete s i r st else st)
