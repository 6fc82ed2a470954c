-- ===== src/Coordinator/Completing.antt =====
-- The end of an episode keeps the invariant.
use tiny_dsv.Base.{
  ℕ, ◌+◌, ◌≤◌, ◌<◌, ◌≡◌, refl, ap, sym, ◌∙◌, Bool, true, false, ◌&&◌, none, List, [], ◌∷◌, arith,
  length, contains, ◌==◌, ==_iff, ==_refl, Bool-cases, inl, inr, contains-discard, if◌then◌else◌,
}
use tiny_dsv.Base.Dict.{insert, lookup-insert}
use tiny_dsv.Base.Sums.{
  sum_of, flag, remove_index, sum_of-remove_index, length-remove_index, sum_of-positive,
}
use tiny_dsv.Coordinator.Plans.{Quantity, Plan, Setup, plan_at}
use tiny_dsv.Coordinator.Ledger.{amount_of}
use tiny_dsv.Coordinator.State.{State, Result, group_of, expected, completed_of, or_reason}
use tiny_dsv.Coordinator.Amounts.{quarantined-uncharge}
use tiny_dsv.Coordinator.Accounts.{Exact, Accounts, uncharge-Accounts, quarantine-Accounts}
use tiny_dsv.Coordinator.Completion.{
  is_safe, checked, doubt, account, stopped_by, count_completion, complete, complete_all,
}
use tiny_dsv.Coordinator.Invariant.{Kept, Named-insert, in_group}
use tiny_dsv.Coordinator.Places.{length-discard, contains-remove_index, stopped_by-none, Placed-end}

module _ (s : Setup) where
  module _ (i : ℕ) (r : Result) (st : State) (v : Kept s st)
      (here : contains i st.active ≡ true) where
    abbrev p : Plan
    p = plan_at s.plans i

    abbrev st0 : State
    st0 = record st { active = remove_index i st.active; results = insert i r st.results }

    abbrev st1 : State
    st1 = account s i r st0

    -- A clean end gives the resources back, another one keeps them.
    accounts' : Exact s → Accounts s st1.ledger st.pending (remove_index i st.active)
    accounts' exact = elim (Bool-cases (is_safe r)) [
      | inl c ↦
          rw c (uncharge-Accounts s exact i st.ledger st.pending st.active (v.accounts exact) here)
      | inr c ↦
          rw c
            (quarantine-Accounts s exact i st.ledger st.pending st.active (v.accounts exact) here)
    ]

    trusting' :
        stopped_by r st1.stopped ≡ none
        → (e : ℕ) (q : Quantity) → amount_of e st1.ledger.quarantined q ≡ 0
    trusting' free e q =
        let before : (if is_safe r then st.stopped else or_reason st.stopped (doubt r)) ≡ none =
          stopped_by-none r st1.stopped free in
        elim (Bool-cases (is_safe r)) [
          | inl d ↦ rw d (quarantined-uncharge p st.ledger e q ∙ v.trusting (rw d at before) e q)
          | inr d ↦ absurd (ground (arith, (rw d at before)))
        ]

    unhurried' : stopped_by r st1.stopped ≡ none → st.is_draining ≡ false
    unhurried' free =
        let before : (if is_safe r then st.stopped else or_reason st.stopped (doubt r)) ≡ none =
          stopped_by-none r st1.stopped free in
        elim (Bool-cases (is_safe r)) [
          | inl d ↦ v.unhurried (rw d at before)
          | inr d ↦ absurd (ground (arith, (rw d at before)))
        ]

    abbrev g0 : ℕ
    g0 = group_of s i

    abbrev st2 : State
    st2 = count_completion s g0 (record st1 { stopped = stopped_by r st1.stopped })

    abbrev is_last : Bool
    is_last = completed_of g0 st + 1 == expected s g0

    completed' :
        (g : ℕ)
        → completed_of g st2 ≡ (if g0 == g then completed_of g0 st + 1 else completed_of g st)
    completed' g = elim (Bool-cases (g0 == g)) [
      | inl c ↦ rw (completed_of, lookup-insert g0 g (completed_of g0 st + 1) st.completed, c) refl
      | inr c ↦ rw (completed_of, lookup-insert g0 g (completed_of g0 st + 1) st.completed, c) refl
    ]

    held' :
        (g : ℕ)
        → contains g st2.held_groups
          ≡ (if is_last && g0 == g then false else contains g st.held_groups)
    held' g = elim (Bool-cases is_last) [
      | inl c ↦ rw c (contains-discard g0 g st.held_groups)
      | inr c ↦ rw c refl
    ]

    groups' : length st2.held_groups ≤ s.max_groups
    groups' = elim (Bool-cases is_last) [
      | inl c ↦ rw c (omega (arith, v.groups, length-discard g0 st.held_groups))
      | inr c ↦ rw c v.groups
    ]

    counted' :
        (g : ℕ)
        → sum_of (in_group s g) st.pending
            + sum_of (in_group s g) (remove_index i st.active)
            + completed_of g st2
          ≡ expected s g
    counted' g = elim (Bool-cases (g0 == g)) [
      | inl c ↦ omega (
        arith,
        v.counted g,
        sum_of-remove_index (in_group s g) i st.active here,
        ap flag c,
        completed' g ∙ ap (λ b. if b then completed_of g0 st + 1 else completed_of g st) c,
        ap (λ z. completed_of z st) ((==_iff g0 g).0 c),
      )
      | inr c ↦ omega (
        arith,
        v.counted g,
        sum_of-remove_index (in_group s g) i st.active here,
        ap flag c,
        completed' g ∙ ap (λ b. if b then completed_of g0 st + 1 else completed_of g st) c,
      )
    ]

    unfinished' : (g : ℕ) → contains g st2.held_groups ≡ true → completed_of g st2 < expected s g
    unfinished' g h =
        ground (arith, held' g, completed' g, counted' g, v.unfinished g, (==_iff g0 g).0)

    holding' :
        (j : ℕ)
        → contains j (remove_index i st.active) ≡ true
        → contains (group_of s j) st2.held_groups ≡ true
    holding' j h =
        let old = v.holding j (contains-remove_index i j st.active h) in
        elim (Bool-cases (is_last && g0 == group_of s j)) [
          | inr c ↦ held' (group_of s j) ∙ rw c old
          | inl c ↦
              let last : is_last ≡ true = ground arith in
              let same : g0 ≡ group_of s j = ground (arith, (==_iff g0 (group_of s j)).0) in
              absurd (
                omega (
                  arith,
                  counted' g0,
                  completed' g0
                      ∙ ap (λ b. if b then completed_of g0 st + 1 else completed_of g0 st)
                          (==_refl g0),
                  (==_iff (completed_of g0 st + 1) (expected s g0)).0 last,
                  sum_of-positive (in_group s g0) j (remove_index i st.active) h,
                  ap flag ((==_iff (group_of s j) g0).1 (sym same)),
                ))
        ]

  named' :
      (i : ℕ) (r : Result) → (checked (plan_at s.plans i) r).identity ≡ (plan_at s.plans i).identity
  named' i r = elim (Bool-cases (r.identity == (plan_at s.plans i).identity)) [
    | inl c ↦ rw c ((==_iff r.identity (plan_at s.plans i).identity).0 c)
    | inr c ↦ rw c refl
  ]

  pub complete-Kept :
      (i : ℕ) (result : Result) (st : State)
      → Kept s st
      → contains i st.active ≡ true
      → Kept s (complete s i result st)
  unfolding complete
  complete-Kept i result st v here =
      let r = checked (plan_at s.plans i) result in
      record {
        placed = Placed-end s i r st.pending st.active st.results here v.placed;
        named = Named-insert s i r st.results (named' i result) v.named;
        accounts = accounts' i r st v here;
        workers = omega (arith, v.workers, length-remove_index i st.active here);
        groups = groups' i r st v here;
        counted = counted' i r st v here;
        unfinished = unfinished' i r st v here;
        holding = holding' i r st v here;
        trusting = trusting' i r st v here;
        unhurried = unhurried' i r st v here;
      }

  pub complete_all-Kept :
      (done : List (ℕ × Result)) (st : State) → Kept s st → Kept s (complete_all s done st)
  unfolding complete_all
  complete_all-Kept [] st v = v
  complete_all-Kept ((i, r) ∷ done) st v =
      complete_all-Kept done (if contains i st.active then complete s i r st else st)
        (elim (Bool-cases (contains i st.active)) [
          | inl c ↦ rw c (complete-Kept i r st v c)
          | inr c ↦ rw c v
        ])
