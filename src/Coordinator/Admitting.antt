-- ===== src/Coordinator/Admitting.antt =====
-- Admission keeps the invariant.
use tiny_dsv.Base.{
  ℕ, ◌≤◌, ◌<◌, ◌≡◌, refl, ap, ◌∙◌, true, List, [], ◌∷◌, arith, length, contains, add, ◌==◌, ==_iff,
  ==_refl, ◌||◌, Bool-cases, inl, inr, contains-add, length-append,
}
use tiny_dsv.Base.Sums.{
  times, flag, sum_of-append, sum_of-remove_index, contains-append, sum_of-positive, contains-times,
}
use tiny_dsv.Coordinator.Plans.{Setup, plan_at}
use tiny_dsv.Coordinator.Ledger.{fits}
use tiny_dsv.Coordinator.State.{State, group_of}
use tiny_dsv.Coordinator.Amounts.{quarantined-charge}
use tiny_dsv.Coordinator.Accounts.{charge-Accounts}
use tiny_dsv.Coordinator.Admission.{
  Verdict, judge, admit, admit_pass, no_worker, passed_over, blocked, admitted,
}
use tiny_dsv.Coordinator.Invariant.{Kept, in_group}

-- What `judge` has found when it admits a plan.
abbrev pub Admissible : Setup → ℕ → State → Type 0
Admissible s i st =
    (length st.active < s.max_workers)
    × (length (add (group_of s i) st.held_groups) ≤ s.max_groups)
    × (fits s (plan_at s.plans i) st.ledger ≡ true)

judge-admitted :
    (s : Setup) (i : ℕ) (executors : List ℕ) (st : State)
    → length st.held_groups ≤ s.max_groups
    → judge s i executors st ≡ admitted
    → Admissible s i st
judge-admitted s i executors st low h = (ground arith, ground arith, ground arith)

module _ (s : Setup) (i : ℕ) (st : State) (v : Kept s st)
    (here : contains i st.pending ≡ true) where
  admit-Kept : Admissible s i st → Kept s (admit s i st)
  unfolding admit
  admit-Kept (free, few, fit) = record {
    placed = λ k. omega (
      arith,
      v.placed k,
      sum_of-append (λ j. flag (j == k)) st.active i,
      sum_of-remove_index (λ j. flag (j == k)) i st.pending here,
    );
    named = v.named;
    unhurried = v.unhurried;
    accounts = λ exact.
        charge-Accounts s exact i st.ledger st.pending st.active (v.accounts exact) here fit;
    workers = omega (arith, length-append st.active (i ∷ []), free);
    groups = few;
    counted = λ g. omega (
      arith,
      v.counted g,
      sum_of-append (in_group s g) st.active i,
      sum_of-remove_index (in_group s g) i st.pending here,
    );
    unfinished = λ g held. elim (Bool-cases (group_of s i == g)) [
      | inl c ↦
          omega (arith, v.counted g, sum_of-positive (in_group s g) i st.pending here, ap flag c)
      | inr c ↦ v.unfinished g (ground (arith, contains-add (group_of s i) g st.held_groups))
    ];
    holding = λ j active. elim (Bool-cases (i == j)) [
      | inl c ↦
          contains-add (group_of s i) (group_of s j) st.held_groups
          ∙ ap (λ b. b || contains (group_of s j) st.held_groups)
              ((==_iff (group_of s i) (group_of s j)).1 (ap (group_of s) ((==_iff i j).0 c)))
      | inr c ↦
          contains-add (group_of s i) (group_of s j) st.held_groups
          ∙ ground (arith, v.holding j, contains-append i j st.active)
    ];
    trusting =
        λ free e q. quarantined-charge (plan_at s.plans i) st.ledger e q ∙ v.trusting free e q;
  }

-- The pass keeps the invariant, and what is active stays active.
pub admit_pass-Kept :
    (s : Setup) (rest executors : List ℕ) (st : State)
    → Kept s st
    → ((k : ℕ) → times k rest ≤ times k st.pending)
    → Kept s (admit_pass s rest executors st)
unfolding admit_pass admit
admit_pass-Kept s [] executors st v sub = v
admit_pass-Kept s (i ∷ rest) executors st v sub =
    go (judge s i executors st) refl (λ ex st' v' sub'. admit_pass-Kept s rest ex st' v' sub')
  where
    less : (k : ℕ) → times k rest ≤ times k st.pending
    less k = omega (arith, sub k)

    go :
        (w : Verdict)
        → judge s i executors st ≡ w
        → ((ex : List ℕ) (st' : State)
            → Kept s st'
            → ((k : ℕ) → times k rest ≤ times k st'.pending)
            → Kept s (admit_pass s rest ex st'))
        → Kept s (elim w [
          | no_worker ↦ st
          | passed_over ↦ admit_pass s rest executors st
          | blocked ↦ admit_pass s rest (add (plan_at s.plans i).executor executors) st
          | admitted ↦ admit_pass s rest executors (admit s i st)
        ])
    go no_worker e ih = v
    go passed_over e ih = ih executors st v less
    go blocked e ih = ih (add (plan_at s.plans i).executor executors) st v less
    go admitted e ih =
        let here : contains i st.pending ≡ true =
          contains-times i st.pending (omega (arith, sub i, ap flag (==_refl i))) in
        ih executors (admit s i st)
          (admit-Kept s i st v here (judge-admitted s i executors st v.groups e))
          (λ k. omega (arith, sub k, sum_of-remove_index (λ j. flag (j == k)) i st.pending here))
