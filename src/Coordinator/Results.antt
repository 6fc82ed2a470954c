-- ===== src/Coordinator/Results.antt =====
-- The results of a run of the coordinator.
use tiny_dsv.Base.{
  ℕ, zero, suc, ◌+◌, ◌≤◌, ◌<◌, ◌≡◌, refl, ap, ◌∙◌, true, Option, none, some, List, [], ◌∷◌, map,
  arith, length, contains, ◌==◌, ==_refl, Bool-cases, Option-cases, inl, inr, if◌then◌else◌, subst,
  range_from,
}
use tiny_dsv.Base.Dict.{Dict, lookup, insert}
use tiny_dsv.Base.Sums.{times, flag, sum_of-positive}
use tiny_dsv.Coordinator.Plans.{Quantity, Plan, Setup, plan_at, is_valid}
use tiny_dsv.Coordinator.Ledger.{amount_of}
use tiny_dsv.Coordinator.State.{
  State, Result, Reason, indices, begin, turned_away, group_of, completed_of, expected,
}
use tiny_dsv.Coordinator.Places.{has_result-insert}
use tiny_dsv.Coordinator.Invariant.{Kept, Named, Placed, Named-insert, has_result}
use tiny_dsv.Coordinator.Accounts.{Exact, Accounts}
use tiny_dsv.Coordinator.Loop.{Turn, again, turn, loop, turn_away, reason_of, ordered, finish}
use tiny_dsv.Coordinator.Turns.{Ended, Turns, turn-Turns, loop-Ended, begin-Kept}

module _ (s : Setup) where
  turn_away-result :
      (r : Reason) (pending : List ℕ) (results : Dict Result) (k : ℕ)
      → 1 ≤ times k pending + has_result k results
      → 1 ≤ has_result k (turn_away s r pending results)
  unfolding turn_away
  turn_away-result r [] results k h = omega arith
  turn_away-result r (i ∷ pending) results k h =
      let w = turned_away (plan_at s.plans i) r in
      turn_away-result r pending (insert i w results) k (elim (Bool-cases (i == k)) [
        | inl c ↦ omega (
          arith,
          has_result-insert i k w results ∙ ap (λ b. if b then 1 else has_result k results) c,
        )
        | inr c ↦ omega (
          arith,
          h,
          ap flag c,
          has_result-insert i k w results ∙ ap (λ b. if b then 1 else has_result k results) c,
        )
      ])

  turn_away-Named :
      (r : Reason) (pending : List ℕ) (results : Dict Result)
      → Named s results
      → Named s (turn_away s r pending results)
  unfolding turn_away
  turn_away-Named r [] results v = v
  turn_away-Named r (i ∷ pending) results v =
      turn_away-Named r pending (insert i (turned_away (plan_at s.plans i) r) results)
        (Named-insert s i (turned_away (plan_at s.plans i) r) results refl v)

  result_at :
      (k : ℕ) (results : Dict Result)
      → 1 ≤ has_result k results
      → (r : Result) × (lookup k results ≡ some r)
  result_at k results h = elim (Option-cases (lookup k results)) [
    | inl e ↦
        let missing : has_result k results ≡ 0 = rw (has_result, e) refl in
        absurd (omega (arith, h, missing))
    | inr w ↦ w
  ]

  -- The results that are put in order, by the identities that they carry.
  abbrev pub Ordered : List ℕ → Option (List Result) → Type 0
  Ordered is o =
      (rs : List Result) × (o ≡ some rs)
      × (map (λ r. r.identity) rs ≡ map (λ i. (plan_at s.plans i).identity) is)

  ordered-cons :
      (i : ℕ) (is : List ℕ) (results : Dict Result) (r : Result) (rs : List Result)
      → lookup i results ≡ some r
      → ordered is results ≡ some rs
      → ordered (i ∷ is) results ≡ some (r ∷ rs)
  unfolding ordered
  ordered-cons i is results r rs e f = rw (e, ordered, f) refl

  ordered-Ordered :
      (is : List ℕ) (results : Dict Result)
      → Named s results
      → ((k : ℕ) → contains k is ≡ true → 1 ≤ has_result k results)
      → Ordered is (ordered is results)
  unfolding ordered
  ordered-Ordered [] results v all_in = ([], refl, refl)
  ordered-Ordered (i ∷ is) results v all_in =
      let (r, e) = result_at i results (all_in i (ground (arith, ==_refl i))) in
      let (rs, f, g) = ordered-Ordered is results v (λ k c. all_in k (ground (arith, c))) in
      (
        r ∷ rs,
        ordered-cons i is results r rs e f,
        ap (λ z. z ∷ map (λ r. r.identity) rs) (v i r e)
            ∙ ap (λ z. (plan_at s.plans i).identity ∷ z) g,
      )

map-shift :
    (f : ℕ → ℕ) (s n : ℕ) → map f (range_from (suc s) n) ≡ map (λ i. f (suc i)) (range_from s n)
map-shift f s zero = refl
map-shift f s (suc n) = ap (λ z. f (suc s) ∷ z) (map-shift f (suc s) n)

identities-indices :
    (plans : List Plan)
    → map (λ i. (plan_at plans i).identity) (range_from 0 (length plans))
      ≡ map (λ p. p.identity) plans
identities-indices [] = refl
identities-indices (p ∷ plans) =
    ap (λ z. p.identity ∷ z)
      (map-shift (λ i. (plan_at (p ∷ plans) i).identity) 0 (length plans)
        ∙ identities-indices plans)

module _ (s : Setup) where
  pub finish_lem :
      (st : State)
      → Ended s st
      → (rs : List Result) × (finish s st ≡ some rs)
        × (map (λ r. r.identity) rs ≡ map (λ p. p.identity) s.plans)
  unfolding finish
  finish_lem st v =
      let reason = reason_of st.stopped st.token in
      let (rs, e, f) =
        ordered-Ordered s (indices s) (turn_away s reason st.pending st.results)
          (turn_away-Named s reason st.pending st.results v.named)
          (λ k c. turn_away-result s reason st.pending st.results k (
            omega (
              arith,
              v.placed k,
              sum_of-positive (λ i. flag (i == k)) k (indices s) c,
              ap flag (==_refl k),
            ))) in
      (rs, e, f ∙ identities-indices s.plans)

  -- The invariant, where cpu amounts add up without rounding.
  pub record Inv (st : State) : Type 0 where
    pub placed : Placed s st.pending st.active st.results
    pub named : Named s st.results
    pub accounts : Accounts s st.ledger st.pending st.active
    pub workers : length st.active ≤ s.max_workers
    pub groups : length st.held_groups ≤ s.max_groups
    pub unfinished : (g : ℕ) → contains g st.held_groups ≡ true → completed_of g st < expected s g
    pub holding :
        (i : ℕ) → contains i st.active ≡ true → contains (group_of s i) st.held_groups ≡ true
    pub trusting :
        st.stopped ≡ none → (e : ℕ) (q : Quantity) → amount_of e st.ledger.quarantined q ≡ 0

  -- The states of the loop.
  pub data Reached (token : Option Reason) : State → Type 0 where
    first : Reached token (begin s token)
    next :
        {st st' : State} (t : Turn) → Reached token st → turn s t st ≡ again st' → Reached token st'

  module _ (valid : is_valid s ≡ true) (some_worker : 1 ≤ s.max_workers)
      (some_group : 1 ≤ s.max_groups) where
    Reached-Kept : {token : Option Reason} {st : State} → Reached token st → Kept s st
    Reached-Kept {token} first = begin-Kept s valid some_worker some_group token
    Reached-Kept {token} (next {st} {st'} t before e) =
        subst (Turns s) e (turn-Turns s valid some_worker some_group t st (Reached-Kept before))

    -- If the plans pass the checks, there is at least one worker and one group, and what all plans
    -- need of a quantity on one executor adds up without rounding, which for the floats of cpu
    -- means at most 2^53 units, then every state of the loop satisfies the invariant: each plan is
    -- pending, active or has its result, the active episodes and the held groups are within their
    -- limits, the held groups are unfinished and cover the active episodes, what is reserved is
    -- within every capacity and is what is quarantined and what the active episodes need, and
    -- nothing is quarantined before admission stops.
    pub Reached-Inv : {token : Option Reason} {st : State} → Exact s → Reached token st → Inv st
    Reached-Inv exact reached =
        let v = Reached-Kept reached in
        record {
          placed = v.placed;
          named = v.named;
          accounts = v.accounts exact;
          workers = v.workers;
          groups = v.groups;
          unfinished = v.unfinished;
          holding = v.holding;
          trusting = v.trusting;
        }

    module _ (token : Option Reason) (turns : List Turn) (st : State)
        (e : loop s turns (begin s token) ≡ some st) where
      run_ended : Ended s st
      run_ended =
          loop-Ended s valid some_worker some_group turns (begin s token) st
            (begin-Kept s valid some_worker some_group token) e

      -- If the plans pass the checks and there is at least one worker and one group, then after a
      -- run of the loop that has ended, from any initial state of the token, the results exist and
      -- carry the identities of the plans in the order of the plans.
      pub one_result_each :
          (rs : List Result) × (finish s st ≡ some rs)
          × (map (λ r. r.identity) rs ≡ map (λ p. p.identity) s.plans)
      one_result_each = finish_lem st run_ended

      -- If the plans pass the checks, there is at least one worker and one group, and what all
      -- plans need of a quantity on one executor adds up without rounding, which for the floats of
      -- cpu means at most 2^53 units, then a run of the loop that has ended without a reason to
      -- stop has left no plan pending: a pass never starves a plan while admission is open.
      pub all_admitted : Exact s → st.stopped ≡ none → st.pending ≡ []
      all_admitted = run_ended.complete

      -- If the plans pass the checks, there is at least one worker and one group, and what all
      -- plans need of a quantity on one executor adds up without rounding, which for the floats of
      -- cpu means at most 2^53 units, then after a run of the loop that has ended, what is reserved
      -- on each executor is what is quarantined there, for every quantity.
      pub all_released :
          Exact s
          → (executor : ℕ) (q : Quantity)
          → amount_of executor st.ledger.reserved q ≡ amount_of executor st.ledger.quarantined q
      all_released exact executor q = omega (arith, (run_ended.accounts exact).balanced executor q)
