-- ===== src/Coordinator/State.antt =====
-- The state of a run (`Coordinator.run`, rollout_manager/coordinator.py) and what it is told.
use tiny_dsv.Base.{ℕ, Bool, true, false, Option, none, some, List, [], ◌==◌, length, range_from}
use tiny_dsv.Base.Dict.{Dict, lookup}
use tiny_dsv.Coordinator.Plans.{Plan, Setup, plan_at}
use tiny_dsv.Coordinator.Ledger.{Ledger}
use tiny_dsv.Base.Sums.{sum_of, flag}

pub data Reason : Type 0 where
  uncertain_model_request cleanup_unproven infrastructure_failure verifier_review_required : Reason
  coordinator_cancelled drain_timeout not_admitted lifecycle_failure : Reason
  native : ℕ → Reason

-- What a run reads of an `EpisodeResult`. `is_clean` is a cleanup state "verified" or
-- "not_required", `is_uncertain` the answer of `request_uncertain`, `declined` the reason of an
-- execution state "not_admitted".
pub record Result : Type 0 where
  pub identity : ℕ
  pub is_clean : Bool
  pub is_uncertain : Bool
  pub infrastructure : Bool
  pub review_required : Bool
  pub declined : Option Reason

-- `_unresolved` and `_not_admitted`.
abbrev pub unresolved : Plan → Result
unresolved p = record {
  identity = p.identity;
  is_clean = false;
  is_uncertain = false;
  infrastructure = true;
  review_required = false;
  declined = none;
}

abbrev pub turned_away : Plan → Reason → Result
turned_away p r = record {
  identity = p.identity;
  is_clean = true;
  is_uncertain = false;
  infrastructure = false;
  review_required = false;
  declined = some r;
}

-- Tasks are named by the indices of their plans. `token` is the reason of a cancelled token, and
-- `is_draining` says that a drain deadline is set.
pub record State : Type 0 where
  pub ledger : Ledger
  pub pending : List ℕ
  pub active : List ℕ
  pub results : Dict Result
  pub completed : Dict ℕ
  pub held_groups : List ℕ
  pub token : Option Reason
  pub stopped : Option Reason
  pub is_draining : Bool
  pub draining_tasks : List ℕ

-- `a or b` for a reason.
abbrev pub either : Option Reason → Reason → Reason
either none r = r
either (some r) r' = r

abbrev pub or_reason : Option Reason → Reason → Option Reason
or_reason o r = some (either o r)

-- `CancellationToken.cancel`: the first reason stays.
abbrev pub cancel : Reason → State → State
cancel r st = record st { token = or_reason st.token r }

abbrev pub group_of : Setup → ℕ → ℕ
group_of s i = (plan_at s.plans i).group

abbrev pub indices : Setup → List ℕ
indices s = range_from 0 (length s.plans)

-- `expected[group]`.
abbrev pub expected : Setup → ℕ → ℕ
expected s g = sum_of (λ i. flag (group_of s i == g)) (indices s)

-- `completed[group]`, of a Counter.
abbrev pub completed_of : ℕ → State → ℕ
completed_of g st = elim (lookup g st.completed) [ none ↦ 0 | some n ↦ n ]

unfoldable pub begin : Setup → Option Reason → State
begin s token = record {
  ledger = record { reserved = []; peak_reserved = []; quarantined = [] };
  pending = indices s;
  active = [];
  results = [];
  completed = [];
  held_groups = [];
  token = token;
  stopped = none;
  is_draining = false;
  draining_tasks = [];
}
