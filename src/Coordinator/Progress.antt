-- ===== src/Coordinator/Progress.antt =====
-- A pass with no active episode and admission open admits an episode, if one is pending.
use tiny_dsv.Base.{
  ℕ, zero, suc, ◌+◌, ◌≤◌, ◌≡◌, refl, ap, sym, ◌∙◌, true, false, not, ◌&&◌, ◌||◌, Option, none, some,
  List, [], ◌∷◌, arith, length, length-append, contains, add, leb, ◌==◌, ==_iff, ==_refl,
  Bool-cases, Option-cases, inl, inr, ◌⊎◌,
}
use tiny_dsv.Base.Dict.{Dict, lookup}
use tiny_dsv.Base.Sums.{sum_of, flag}
use tiny_dsv.Coordinator.Plans.{
  Quantity, cpu, memory_bytes, storage_bytes, gpu_count, Amount, Plan, Setup, plan_at, within,
  fits_alone, check_plans, owned,
}
use tiny_dsv.Coordinator.Ledger.{amount_of, fits, plus, rounded_at}
use tiny_dsv.Coordinator.State.{State, Reason, group_of}
use tiny_dsv.Coordinator.Amounts.{cost, Fine, rounded_at-Fine}
use tiny_dsv.Coordinator.Accounts.{Exact, cost-Fine}
use tiny_dsv.Coordinator.Admission.{
  Verdict, no_worker, passed_over, blocked, admitted, judge, admit, admit_pass,
}
use tiny_dsv.Coordinator.Loop.{try_admission}
use tiny_dsv.Coordinator.Invariant.{Kept, in_group}

sum_of-member :
    (s : Setup) (g : ℕ) (xs : List ℕ)
    → 1 ≤ sum_of (in_group s g) xs
    → (j : ℕ) × (contains j xs ≡ true) × (group_of s j ≡ g)
sum_of-member s g [] h = absurd (omega arith)
sum_of-member s g (x ∷ xs) h = elim (Bool-cases (group_of s x == g)) [
  | inl c ↦ (x, ground (arith, ==_refl x), (==_iff (group_of s x) g).0 c)
  | inr c ↦
      let (j, here, e) = sum_of-member s g xs (omega (arith, h, ap flag c)) in
      (j, ground (arith, here), e)
]

pub check_plans-fits :
    (s : Setup) (plans : List Plan) (owners : Dict ℕ)
    → check_plans s plans owners ≡ true
    → (i : ℕ) → fits_alone s.capacities (plan_at plans i) ≡ true
unfolding check_plans
check_plans-fits s [] owners h i = ground arith
check_plans-fits s (p ∷ plans) owners h i = elim (Option-cases (lookup p.benchmark s.backends)) [
  | inl e ↦ absurd (ground (arith, (rw (e, check_plans) at h)))
  | inr (backend, e) ↦ elim (Option-cases (owned p backend owners)) [
    | inl f ↦ absurd (ground (arith, (rw (e, f, check_plans) at h)))
    | inr (owners', f) ↦
        let both : (fits_alone s.capacities p && check_plans s plans owners') ≡ true =
          (rw (e, f, check_plans) at h) in
        at i (ground (arith, both)) (check_plans-fits s plans owners' (ground (arith, both)))
  ]
]
  where
    at :
        (i : ℕ)
        → fits_alone s.capacities p ≡ true
        → ((j : ℕ) → fits_alone s.capacities (plan_at plans j) ≡ true)
        → fits_alone s.capacities (plan_at (p ∷ plans) i) ≡ true
    at zero a b = a
    at (suc i) a b = b i

plus-within :
    (a b c : Amount)
    → ((q : Quantity) → a q ≡ 0)
    → ((q : Quantity) → Fine q (b q))
    → within b c ≡ true
    → within (plus a b) c ≡ true
plus-within a b c z f h =
    ground (arith, h, same cpu, same memory_bytes, same storage_bytes, same gpu_count)
  where
    same : (q : Quantity) → plus a b q ≡ b q
    same q =
        let sum : a q + b q ≡ b q = omega (arith, z q) in
        ap (rounded_at q) sum ∙ rounded_at-Fine q (b q) (f q)

length-nil : (xs : List ℕ) → length xs ≤ 0 → xs ≡ []
length-nil [] h = refl
length-nil (x ∷ xs) h = absurd (omega arith)

module _ (s : Setup) (valid : (i : ℕ) → fits_alone s.capacities (plan_at s.plans i) ≡ true)
    (exact : Exact s) where
  -- With nothing active and nothing quarantined, every plan fits.
  idle_fits :
      (i : ℕ) (st : State)
      → Kept s st
      → st.active ≡ []
      → st.stopped ≡ none
      → fits s (plan_at s.plans i) st.ledger ≡ true
  unfolding fits
  idle_fits i st v idle free = elim (Bool-cases p.staged) [
    | inl d ↦ rw d refl
    | inr d ↦ elim (Option-cases (lookup p.executor s.capacities)) [
      | inl e ↦ rw (d, e) refl
      | inr (c, e) ↦
          rw (d, e)
            (plus-within (amount_of p.executor st.ledger.reserved) p.need c
              (λ q. omega (
                arith,
                (v.accounts exact).balanced p.executor q,
                v.trusting free p.executor q,
                ap (sum_of (λ j. cost (plan_at s.plans j) p.executor q)) idle,
              ))
              (λ q. rw (d, ==_refl p.executor) at (cost-Fine s exact i p.executor q))
              (ground (arith, (rw (e, d, fits_alone) at (valid i)))))
    ]
  ]
    where
      p : Plan
      p = plan_at s.plans i

  -- What a pass passes over, when no episode is active.
  abbrev PassedOver : List ℕ → State → Type 0
  PassedOver rest st =
      (i : ℕ)
      → contains i rest ≡ true
      → (contains (group_of s i) st.held_groups ≡ false) × (s.max_groups ≤ length st.held_groups)

  judge-idle :
      (i : ℕ) (st : State)
      → 1 ≤ s.max_workers
      → Kept s st
      → st.active ≡ []
      → st.stopped ≡ none
      → (judge s i [] st ≡ admitted)
        ⊎ ((judge s i [] st ≡ passed_over)
            × (contains (group_of s i) st.held_groups ≡ false)
            × (s.max_groups ≤ length st.held_groups))
  judge-idle i st some_worker v idle free =
      let none_active : leb s.max_workers (length st.active) ≡ false =
        ground (arith, ap length idle) in
      let fit = idle_fits i st v idle free in
      elim (Bool-cases (
        not (contains (group_of s i) st.held_groups) && leb s.max_groups (length st.held_groups))) [
          | inl c ↦ inr (rw (none_active, c) refl, ground arith, ground arith)
          | inr c ↦ inl (rw (none_active, c, fit) refl)
        ]

  admit_pass-active :
      (rest executors : List ℕ) (st : State)
      → length st.active ≤ length (admit_pass s rest executors st).active
  unfolding admit_pass admit
  admit_pass-active [] executors st = omega arith
  admit_pass-active (i ∷ rest) executors st =
      go (judge s i executors st) (λ ex st'. admit_pass-active rest ex st')
    where
      go :
          (w : Verdict)
          → ((ex : List ℕ) (st' : State)
              → length st'.active ≤ length (admit_pass s rest ex st').active)
          → length st.active
            ≤ length
                (let out : State = elim w [
                  | no_worker ↦ st
                  | passed_over ↦ admit_pass s rest executors st
                  | blocked ↦ admit_pass s rest (add (plan_at s.plans i).executor executors) st
                  | admitted ↦ admit_pass s rest executors (admit s i st)
                ] in
                  out).active
      go no_worker ih = omega arith
      go passed_over ih = ih executors st
      go blocked ih = ih (add (plan_at s.plans i).executor executors) st
      go admitted ih = omega (arith, ih executors (admit s i st), length-append st.active (i ∷ []))

  idle_pass :
      (rest : List ℕ) (st : State)
      → 1 ≤ s.max_workers
      → Kept s st
      → st.active ≡ []
      → st.stopped ≡ none
      → (admit_pass s rest [] st).active ≡ []
      → PassedOver rest st
  unfolding admit_pass admit
  idle_pass [] st w v idle free still k h = absurd (ground arith)
  idle_pass (i ∷ rest) st w v idle free still k h = elim (judge-idle i st w v idle free) [
    | inl e ↦ absurd (
        omega (
          arith,
          admit_pass-active rest [] (admit s i st),
          length-append st.active (i ∷ []),
          ap length (rw (e, admit_pass) at still),
        ))
    | inr (e, out, full) ↦ elim (Bool-cases (i == k)) [
      | inl c ↦
          (ap (λ z. contains (group_of s z) st.held_groups) (sym ((==_iff i k).0 c)) ∙ out, full)
      | inr c ↦ idle_pass rest st w v idle free (rw (e, admit_pass) at still) k (ground arith)
    ]
  ]

  some_member : (xs : List ℕ) → 1 ≤ length xs → (x : ℕ) × (contains x xs ≡ true)
  some_member [] h = absurd (omega arith)
  some_member (x ∷ xs) h = (x, ground (arith, ==_refl x))

  -- If a pass with admission open leaves no episode active, then none is pending.
  pub admit_pass-idle :
      (st : State)
      → 1 ≤ s.max_workers
      → 1 ≤ s.max_groups
      → Kept s st
      → st.active ≡ []
      → st.stopped ≡ none
      → (admit_pass s st.pending [] st).active ≡ []
      → st.pending ≡ []
  admit_pass-idle st w g v idle free still = go st.pending refl
    where
      passed : PassedOver st.pending st
      passed = idle_pass st.pending st w v idle free still

      go : (xs : List ℕ) → st.pending ≡ xs → st.pending ≡ []
      go [] e = e
      go (i ∷ rest) e =
          let (out, full) =
            passed i (ap (contains i) e ∙ ap (λ b. b || contains i rest) (==_refl i)) in
          let (k, held) = some_member st.held_groups (omega arith) in
          let (j, here, same) =
            sum_of-member s k st.pending
              (omega (arith, v.unfinished k held, v.counted k, ap (sum_of (in_group s k)) idle)) in
          absurd (ground (arith, (passed j here).0, ap (λ z. contains z st.held_groups) same, held))

  pub try_admission-idle :
      (st : State)
      → 1 ≤ s.max_workers
      → 1 ≤ s.max_groups
      → Kept s st
      → (try_admission s st).active ≡ []
      → (try_admission s st).stopped ≡ none
      → (try_admission s st).pending ≡ []
  unfolding admit_pass
  try_admission-idle st w g v = go st.stopped refl
    where
      go :
          (o : Option Reason)
          → st.stopped ≡ o
          → let out : State = elim o [ none ↦ admit_pass s st.pending [] st | some r ↦ st ] in
            (out.active ≡ [] → out.stopped ≡ none → out.pending ≡ [])
      go (some r) e still free = absurd (ground (arith, e))
      go none e still free =
          let idle : st.active ≡ [] =
            length-nil st.active
              (omega (arith, admit_pass-active st.pending [] st, ap length still)) in
          let nothing = admit_pass-idle st w g v idle e still in
          ap (λ z. (admit_pass s z [] st).pending) nothing ∙ nothing
