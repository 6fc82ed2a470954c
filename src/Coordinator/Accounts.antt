-- ===== src/Coordinator/Accounts.antt =====
-- The ledgers balance where cpu amounts add up without rounding (rollout_manager/coordinator.py).
use tiny_dsv.Base.{
  ℕ, zero, suc, ◌+◌, ◌≤◌, ◌≡◌, refl, true, false, some, List, [], ◌∷◌, ◌++◌, length, contains, ltb,
  arith, Bool-cases, inl, inr,
}
use tiny_dsv.Base.Dict.{Dict, lookup}
use tiny_dsv.Base.Sums.{sum_of, remove_index, sum_of-append, sum_of-remove_index, sum_of-positive}
use tiny_dsv.Mailbox.Shape.{contains-range_from}
use tiny_dsv.Coordinator.Plans.{Quantity, Amount, Plan, Setup, plan_at}
use tiny_dsv.Coordinator.Ledger.{Ledger, amount_of, fits, charge, uncharge, quarantine}
use tiny_dsv.Coordinator.State.{indices}
use tiny_dsv.Coordinator.Amounts.{
  cost, Fine, Fine-mono, reserved-charge, reserved-uncharge, quarantined-charge,
  quarantined-uncharge, reserved-quarantine, quarantined-quarantine, fits-charge,
}

-- What the plans of these indices need on an executor.
abbrev pub needs : Setup → List ℕ → ℕ → Quantity → ℕ
needs s is e q = sum_of (λ i. cost (plan_at s.plans i) e q) is

-- What all plans need together on an executor is a float without rounding.
abbrev pub Exact : Setup → Type 0
Exact s = (e : ℕ) (q : Quantity) → Fine q (needs s (indices s) e q)

-- What is reserved on an executor is what is quarantined and what the active plans need.
abbrev pub Balanced : Setup → Dict Amount → Dict Amount → List ℕ → Type 0
Balanced s reserved quarantined active =
    (e : ℕ) (q : Quantity) → amount_of e reserved q ≡ amount_of e quarantined q + needs s active e q

pub record Accounts (s : Setup) (l : Ledger) (pending active : List ℕ) : Type 0 where
  pub balanced : Balanced s l.reserved l.quarantined active
  pub within :
      (e : ℕ) (c : Amount)
      → lookup e s.capacities ≡ some c
      → (q : Quantity) → amount_of e l.reserved q ≤ c q
  -- Nothing is quarantined twice.
  pub bounded :
      (e : ℕ) (q : Quantity)
      → amount_of e l.quarantined q + needs s active e q + needs s pending e q
        ≤ needs s (indices s) e q

default_cost :
    (plans : List Plan) (i : ℕ) (e : ℕ) (q : Quantity)
    → ltb i (length plans) ≡ false
    → cost (plan_at plans i) e q ≡ 0
default_cost [] i e q h = refl
default_cost (p ∷ plans) zero e q h = absurd (ground arith)
default_cost (p ∷ plans) (suc i) e q h = default_cost plans i e q (ground arith)

module _ (s : Setup) (exact : Exact s) where
  pub cost-Fine : (i e : ℕ) (q : Quantity) → Fine q (cost (plan_at s.plans i) e q)
  cost-Fine i e q =
      Fine-mono q (cost (plan_at s.plans i) e q) (needs s (indices s) e q)
        (elim (Bool-cases (ltb i (length s.plans))) [
          | inl c ↦
              sum_of-positive (λ j. cost (plan_at s.plans j) e q) i (indices s)
                (ground (arith, contains-range_from i 0 (length s.plans)))
          | inr c ↦ omega (arith, default_cost s.plans i e q c)
        ])
        (exact e q)

  module _ (i : ℕ) (l : Ledger) (pending active : List ℕ) (v : Accounts s l pending active) where
    abbrev p : Plan
    p = plan_at s.plans i

    reserved-Fine : (e : ℕ) (q : Quantity) → Fine q (amount_of e l.reserved q)
    reserved-Fine e q =
        Fine-mono q (amount_of e l.reserved q) (needs s (indices s) e q)
          (omega (arith, v.balanced e q, v.bounded e q)) (exact e q)

    pub charge-Accounts :
        contains i pending ≡ true
        → fits s p l ≡ true
        → Accounts s (charge p l) (remove_index i pending) (active ++ i ∷ [])
    charge-Accounts here fit =
        let less = λ (e : ℕ). λ (q : Quantity).
          sum_of-remove_index (λ j. cost (plan_at s.plans j) e q) i pending here in
        let small : (e : ℕ) (q : Quantity) → Fine q (amount_of e l.reserved q + cost p e q) = λ e q.
          Fine-mono q (amount_of e l.reserved q + cost p e q) (needs s (indices s) e q)
            (omega (arith, v.balanced e q, v.bounded e q, less e q)) (exact e q) in
        record {
          balanced = λ e q. omega (
            arith,
            v.balanced e q,
            reserved-charge p l e q (small e q),
            quarantined-charge p l e q,
            sum_of-append (λ j. cost (plan_at s.plans j) e q) active i,
          );
          within = λ e c found q. omega (
            arith,
            reserved-charge p l e q (small e q),
            fits-charge p l e q s c fit found (small e q) (v.within e c found q),
          );
          bounded = λ e q. omega (
            arith,
            v.bounded e q,
            quarantined-charge p l e q,
            sum_of-append (λ j. cost (plan_at s.plans j) e q) active i,
            less e q,
          );
        }

    module _ (here : contains i active ≡ true) where
      fewer :
          (e : ℕ) (q : Quantity)
          → needs s (remove_index i active) e q + cost p e q ≡ needs s active e q
      fewer e q =
          omega (arith, sum_of-remove_index (λ j. cost (plan_at s.plans j) e q) i active here)

      pub uncharge-Accounts : Accounts s (uncharge p l) pending (remove_index i active)
      uncharge-Accounts = record {
        balanced = λ e q. omega (
          arith,
          v.balanced e q,
          fewer e q,
          reserved-uncharge p l e q (reserved-Fine e q),
          quarantined-uncharge p l e q,
        );
        within = λ e c found q.
            omega (arith, v.within e c found q, reserved-uncharge p l e q (reserved-Fine e q));
        bounded = λ e q. omega (arith, v.bounded e q, fewer e q, quarantined-uncharge p l e q);
      }

      held-Fine : (e : ℕ) (q : Quantity) → Fine q (amount_of e l.quarantined q + cost p e q)
      held-Fine e q =
          Fine-mono q (amount_of e l.quarantined q + cost p e q) (needs s (indices s) e q)
            (omega (arith, v.bounded e q, fewer e q)) (exact e q)

      pub quarantine-Accounts : Accounts s (quarantine p l) pending (remove_index i active)
      quarantine-Accounts = record {
        balanced = λ e q. omega (
          arith,
          v.balanced e q,
          fewer e q,
          reserved-quarantine p l e q,
          quarantined-quarantine p l e q (held-Fine e q),
        );
        within = λ e c found q. omega (arith, v.within e c found q, reserved-quarantine p l e q);
        bounded = λ e q.
            omega (arith, v.bounded e q, fewer e q, quarantined-quarantine p l e q (held-Fine e q));
      }
