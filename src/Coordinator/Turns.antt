-- ===== src/Coordinator/Turns.antt =====
-- A run keeps the invariant, ends with a result for each plan, and turns no plan away unless
-- admission was stopped.
use tiny_dsv.Base.{
  ℕ, ◌≤◌, ◌≡◌, ◌≢◌, refl, ap, ◌∙◌, Bool, true, ◌&&◌, Option, none, some, List, [], ◌∷◌, arith,
  ==_refl, Bool-cases, inl, inr, if◌then◌else◌, subst,
}
use tiny_dsv.Base.Dict.{insert}
use tiny_dsv.Base.Sums.{remove_index}
use tiny_dsv.Coordinator.Plans.{Setup, plan_at, is_valid, fits_alone}
use tiny_dsv.Coordinator.Ledger.{quarantine}
use tiny_dsv.Coordinator.State.{State, coordinator_cancelled, Reason, or_reason, begin, unresolved}
use tiny_dsv.Coordinator.Accounts.{Exact, Accounts, quarantine-Accounts}
use tiny_dsv.Coordinator.Admission.{admit_pass}
use tiny_dsv.Coordinator.Admitting.{admit_pass-Kept}
use tiny_dsv.Coordinator.Progress.{check_plans-fits, try_admission-idle}
use tiny_dsv.Coordinator.Places.{Placed-end}
use tiny_dsv.Coordinator.Completing.{complete_all-Kept}
use tiny_dsv.Coordinator.Invariant.{Kept, Named, Named-insert, Placed}
use tiny_dsv.Coordinator.Loop.{
  Turn, Turned, again, over, outside, heed_token, try_admission, abandon, abandon_all, await,
  wait_or_abandon, is_finished, is_empty, turn, loop,
}

module _ (s : Setup) where
  is_empty-nil : (xs : List ℕ) → is_empty xs ≡ true → xs ≡ []
  is_empty-nil [] h = refl
  is_empty-nil (x ∷ xs) h = absurd (ground arith)

  -- A state that differs in the token, the reason and the deadline.
  relabel :
      (st : State) (token stopped : Option Reason) (is_draining : Bool)
      → Kept s st
      → (stopped ≡ none → (st.stopped ≡ none) × (is_draining ≡ st.is_draining))
      → Kept s (record st { token = token; stopped = stopped; is_draining = is_draining })
  relabel st token stopped d v h = record {
    placed = v.placed;
    named = v.named;
    accounts = v.accounts;
    workers = v.workers;
    groups = v.groups;
    counted = v.counted;
    unfinished = v.unfinished;
    holding = v.holding;
    trusting = λ e. v.trusting (h e).0;
    unhurried = λ e. (h e).1 ∙ v.unhurried (h e).0;
  }

  outside-Kept : (c : Option Reason) (st : State) → Kept s st → Kept s (outside c st)
  outside-Kept none st v = v
  outside-Kept (some r) st v =
      relabel st (or_reason st.token r) st.stopped st.is_draining v (λ e. (e, refl))

  heed_token-Kept : (st : State) → Kept s st → Kept s (heed_token st)
  heed_token-Kept st v = go st.token
    where
      go :
          (t : Option Reason)
          → Kept s (elim t [
            | none ↦ st
            | some r ↦ record st { stopped = or_reason st.stopped r; is_draining = true }
          ])
      go none = v
      go (some r) = relabel st st.token (or_reason st.stopped r) true v (λ e. absurd (ground arith))

  try_admission-Kept : (st : State) → Kept s st → Kept s (try_admission s st)
  try_admission-Kept st v = go st.stopped
    where
      go :
          (o : Option Reason)
          → Kept s (elim o [ none ↦ admit_pass s st.pending [] st | some r ↦ st ])
      go none = admit_pass-Kept s st.pending [] st v (λ k. omega arith)
      go (some r) = v

  await-Kept : (t : Turn) (st : State) → Kept s st → Kept s (await s t st)
  await-Kept t st v = elim (Bool-cases t.interrupted) [
    | inl c ↦ rw c (
        relabel st (or_reason st.token coordinator_cancelled) st.stopped st.is_draining v
          (λ e. (e, refl)))
    | inr c ↦ rw c (complete_all-Kept s t.done st v)
  ]

  -- How the loop ends: nothing is active, every plan is pending or has its result, and all that is
  -- reserved is quarantined.
  pub record Ended (st : State) : Type 0 where
    pub idle : st.active ≡ []
    pub placed : Placed s st.pending [] st.results
    pub named : Named s st.results
    pub accounts : Exact s → Accounts s st.ledger st.pending []
    pub complete : Exact s → st.stopped ≡ none → st.pending ≡ []

  ended :
      (st : State)
      → Kept s st
      → (Exact s → st.active ≡ [] → st.stopped ≡ none → st.pending ≡ [])
      → st.active ≡ []
      → Ended st
  ended st v all_in e = record {
    complete = λ exact. all_in exact e;
    idle = e;
    placed = subst (λ z. Placed s st.pending z st.results) e v.placed;
    named = v.named;
    accounts = λ exact. subst (Accounts s st.ledger st.pending) e (v.accounts exact);
  }

  abandon_all-Ended :
      (active : List ℕ) (st : State)
      → Placed s st.pending active st.results
      → Named s st.results
      → (Exact s → Accounts s st.ledger st.pending active)
      → st.stopped ≢ none
      → Ended (abandon_all s active st)
  unfolding abandon_all
  abandon_all-Ended [] st placed named accounts halted = record {
    complete = λ exact free. absurd (halted free);
    idle = refl;
    placed = placed;
    named = named;
    accounts = accounts;
  }
  abandon_all-Ended (i ∷ active) st placed named accounts halted =
      abandon_all-Ended active (abandon s i st)
        (subst (λ z. Placed s st.pending z (insert i (unresolved (plan_at s.plans i)) st.results))
          (ap (λ b. if b then active else i ∷ remove_index i active) (==_refl i))
          (Placed-end s i (unresolved (plan_at s.plans i)) st.pending (i ∷ active) st.results
            (ground (arith, ==_refl i)) placed))
        (Named-insert s i (unresolved (plan_at s.plans i)) st.results refl named)
        (λ exact.
          subst (Accounts s (quarantine (plan_at s.plans i) st.ledger) st.pending)
            (ap (λ b. if b then active else i ∷ remove_index i active) (==_refl i))
            (quarantine-Accounts s exact i st.ledger st.pending (i ∷ active) (accounts exact)
              (ground (arith, ==_refl i))))
        halted

  abbrev pub Turns : Turned → Type 0
  Turns (again st) = Kept s st
  Turns (over st) = Ended st

  wait_or_abandon-Turns :
      (t : Turn) (st : State)
      → Kept s st
      → (Exact s → st.active ≡ [] → st.stopped ≡ none → st.pending ≡ [])
      → Turns (wait_or_abandon s t st)
  wait_or_abandon-Turns t st v all_in = go st.active refl
    where
      go :
          (active : List ℕ)
          → st.active ≡ active
          → Turns (elim active [
            | [] ↦ over st
            | i ∷ rest ↦
                if st.is_draining && t.is_late
                then over (abandon_all s (i ∷ rest) st)
                else again (await s t st)
          ])
      go [] e = ended st v all_in e
      go (i ∷ rest) e = elim (Bool-cases (st.is_draining && t.is_late)) [
        | inl c ↦ rw c (
            abandon_all-Ended (i ∷ rest) st
              (subst (λ z. Placed s st.pending z st.results) e v.placed) v.named
              (λ exact. subst (Accounts s st.ledger st.pending) e (v.accounts exact))
              (λ free. absurd (ground (arith, v.unhurried free))))
        | inr c ↦ rw c (await-Kept t st v)
      ]

  module _ (valid : is_valid s ≡ true) (some_worker : 1 ≤ s.max_workers)
      (some_group : 1 ≤ s.max_groups) where
    alone : (i : ℕ) → fits_alone s.capacities (plan_at s.plans i) ≡ true
    unfolding is_valid
    alone i = check_plans-fits s s.plans [] (ground arith) i

    pub turn-Turns : (t : Turn) (st : State) → Kept s st → Turns (turn s t st)
    unfolding turn
    turn-Turns t st v =
        let v' = outside-Kept t.cancelled st v in
        let v'' = heed_token-Kept (outside t.cancelled st) v' in
        elim (Bool-cases (is_finished (outside t.cancelled st))) [
          | inl c ↦ rw c (
              ended (outside t.cancelled st) v'
                (λ exact e free. is_empty-nil (outside t.cancelled st).pending (ground arith))
                (is_empty-nil (outside t.cancelled st).active (ground arith)))
          | inr c ↦ rw c (
              wait_or_abandon-Turns t (try_admission s (heed_token (outside t.cancelled st)))
                (try_admission-Kept (heed_token (outside t.cancelled st)) v'')
                (λ exact.
                  try_admission-idle s alone exact (heed_token (outside t.cancelled st)) some_worker
                    some_group v''))
        ]

    pub loop-Ended :
        (turns : List Turn) (st st' : State) → Kept s st → loop s turns st ≡ some st' → Ended st'
    unfolding loop
    loop-Ended [] st st' v h = absurd (ground arith)
    loop-Ended (t ∷ turns) st st' v h =
        go (turn s t st) (turn-Turns t st v) h (λ st1 v1 h1. loop-Ended turns st1 st' v1 h1)
      where
        go :
            (o : Turned)
            → Turns o
            → elim o [ over st1 ↦ some st1 | again st1 ↦ loop s turns st1 ] ≡ some st'
            → ((st1 : State) → Kept s st1 → loop s turns st1 ≡ some st' → Ended st')
            → Ended st'
        go (over st1) v h ih = subst Ended (ground arith) v
        go (again st1) v h ih = ih st1 v h

    pub begin-Kept : (token : Option Reason) → Kept s (begin s token)
    unfolding begin
    begin-Kept token = record {
      placed = λ k. omega arith;
      named = λ k r h. absurd (ground arith);
      accounts = λ exact. record {
        balanced = λ e q. omega arith;
        within = λ e c found q. omega arith;
        bounded = λ e q. omega arith;
      };
      workers = omega arith;
      groups = omega arith;
      counted = λ g. omega arith;
      unfinished = λ g h. absurd (ground arith);
      holding = λ i h. absurd (ground arith);
      trusting = λ free e q. refl;
      unhurried = λ free. refl;
    }
