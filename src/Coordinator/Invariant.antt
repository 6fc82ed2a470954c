-- ===== src/Coordinator/Invariant.antt =====
-- What holds of every state of a run of the coordinator.
use tiny_dsv.Base.{
  ℕ, ◌+◌, ◌≤◌, ◌<◌, ◌≡◌, true, false, none, some, List, length, contains, ◌==◌, ap, sym, ◌∙◌, inl,
  inr,
}
use tiny_dsv.Base.Dict.{Dict, lookup, insert}
use tiny_dsv.Base.Updates.{insert_cases}
use tiny_dsv.Base.Sums.{sum_of, times, flag}
use tiny_dsv.Coordinator.Plans.{Quantity, Setup, plan_at}
use tiny_dsv.Coordinator.Ledger.{amount_of}
use tiny_dsv.Coordinator.State.{State, Result, group_of, expected, completed_of, indices}
use tiny_dsv.Coordinator.Accounts.{Exact, Accounts}

-- 1 for a plan that has its result.
abbrev pub has_result : ℕ → Dict Result → ℕ
has_result k results = elim (lookup k results) [ none ↦ 0 | some r ↦ 1 ]

-- 1 for an index in the group `g`.
abbrev pub in_group : Setup → ℕ → ℕ → ℕ
in_group s g i = flag (group_of s i == g)

-- Every plan is at one place: pending, active, or with its result.
abbrev pub Placed : Setup → List ℕ → List ℕ → Dict Result → Type 0
Placed s pending active results =
    (k : ℕ) → times k pending + times k active + has_result k results ≡ times k (indices s)

-- A result has the identity of its plan.
abbrev pub Named : Setup → Dict Result → Type 0
Named s results =
    (k : ℕ) (r : Result) → lookup k results ≡ some r → r.identity ≡ (plan_at s.plans k).identity

pub Named-insert :
    (s : Setup) (i : ℕ) (r : Result) (results : Dict Result)
    → r.identity ≡ (plan_at s.plans i).identity
    → Named s results
    → Named s (insert i r results)
Named-insert s i r results h v k w q = elim (insert_cases i k r w results q) [
  | inl (e, y) ↦ ap (λ z. z.identity) (sym y) ∙ h ∙ ap (λ z. (plan_at s.plans z).identity) e
  | inr (e, y) ↦ v k w y
]

pub record Kept (s : Setup) (st : State) : Type 0 where
  pub placed : Placed s st.pending st.active st.results
  pub named : Named s st.results
  -- The ledgers, where cpu amounts add up without rounding.
  pub accounts : Exact s → Accounts s st.ledger st.pending st.active
  pub workers : length st.active ≤ s.max_workers
  pub groups : length st.held_groups ≤ s.max_groups
  pub counted :
      (g : ℕ)
      → sum_of (in_group s g) st.pending + sum_of (in_group s g) st.active + completed_of g st
        ≡ expected s g
  pub unfinished : (g : ℕ) → contains g st.held_groups ≡ true → completed_of g st < expected s g
  pub holding :
      (i : ℕ) → contains i st.active ≡ true → contains (group_of s i) st.held_groups ≡ true
  -- Nothing is quarantined before admission stops.
  pub trusting :
      st.stopped ≡ none → (e : ℕ) (q : Quantity) → amount_of e st.ledger.quarantined q ≡ 0
  -- A drain deadline is set when admission stops, not before.
  pub unhurried : st.stopped ≡ none → st.is_draining ≡ false
