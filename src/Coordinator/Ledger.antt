-- ===== src/Coordinator/Ledger.antt =====
-- The ledgers of a coordinator: what is reserved on each executor, the peak of that, and what is
-- quarantined (`_fits`, `_charge`, `_quarantine`; rollout_manager/coordinator.py).
use tiny_dsv.Base.{ℕ, ◌+◌, ◌-◌, max, Bool, true, none, some, if◌then◌else◌}
use tiny_dsv.Base.Dict.{Dict, lookup, insert}
use tiny_dsv.Coordinator.Plans.{
  Quantity, cpu, memory_bytes, storage_bytes, gpu_count, Amount, Plan, Setup, within,
}
use tiny_dsv.Coordinator.Floats.{rounded}

pub record Ledger : Type 0 where
  pub reserved : Dict Amount
  pub peak_reserved : Dict Amount
  pub quarantined : Dict Amount

-- `dict.get(executor, zero)` and `dict.setdefault(executor, zero)`.
abbrev pub amount_of : ℕ → Dict Amount → Amount
amount_of executor d = elim (lookup executor d) [ none ↦ (λ q. 0) | some a ↦ a ]

-- Only `cpu` is a float.
abbrev pub rounded_at : Quantity → ℕ → ℕ
rounded_at cpu n = rounded n
rounded_at memory_bytes n = n
rounded_at storage_bytes n = n
rounded_at gpu_count n = n

abbrev pub plus : Amount → Amount → Amount
plus a b = λ q. rounded_at q (a q + b q)

-- What is given back was taken; a difference that rounding takes below 0 stops at 0 here.
abbrev pub minus : Amount → Amount → Amount
minus a b = λ q. rounded_at q (a q - b q)

unfoldable pub fits : Setup → Plan → Ledger → Bool
fits s p l = if p.staged then true else elim (lookup p.executor s.capacities) [
  | none ↦ true
  | some c ↦ within (plus (amount_of p.executor l.reserved) p.need) c
]

abbrev pub recorded : ℕ → Amount → Ledger → Ledger
recorded executor used l = record l {
  reserved = insert executor used l.reserved;
  peak_reserved =
      insert executor (λ q. max (amount_of executor l.peak_reserved q) (used q)) l.peak_reserved;
}

-- `_charge` with sign 1.
unfoldable pub charge : Plan → Ledger → Ledger
charge p l =
    if p.staged then l else recorded p.executor (plus (amount_of p.executor l.reserved) p.need) l

-- `_charge` with sign -1.
unfoldable pub uncharge : Plan → Ledger → Ledger
uncharge p l =
    if p.staged then l else recorded p.executor (minus (amount_of p.executor l.reserved) p.need) l

unfoldable pub quarantine : Plan → Ledger → Ledger
quarantine p l = if p.staged then l else record l {
  quarantined = insert p.executor (plus (amount_of p.executor l.quarantined) p.need) l.quarantined;
}
