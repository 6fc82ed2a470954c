-- ===== src/Coordinator/Amounts.antt =====
-- What the ledgers hold after a charge, a release and a quarantine.
use tiny_dsv.Base.{
  ℕ, ◌+◌, ◌-◌, ◌≤◌, ◌≡◌, refl, ap, ◌∙◌, true, some, inl, inr, arith, ◌==◌, ==_iff, if◌then◌else◌,
  Bool-cases,
}
use tiny_dsv.Base.Dict.{Dict, lookup, insert, lookup-insert}
use tiny_dsv.Coordinator.Plans.{
  Quantity, cpu, memory_bytes, storage_bytes, gpu_count, Amount, Plan, Setup, within,
}
use tiny_dsv.Coordinator.Ledger.{
  Ledger, amount_of, charge, uncharge, quarantine, fits, plus, minus, rounded_at,
}
use tiny_dsv.Coordinator.Floats.{exact_limit, rounded_lem}

-- What a plan costs on an executor.
abbrev pub cost : Plan → ℕ → Quantity → ℕ
cost p e q = if p.staged then 0 else if p.executor == e then p.need q else 0

-- The amount is a float without rounding.
abbrev pub Fine : Quantity → ℕ → Type 0
Fine cpu n = n ≤ exact_limit
Fine memory_bytes n = Unit
Fine storage_bytes n = Unit
Fine gpu_count n = Unit

pub Fine-mono : (q : Quantity) (m n : ℕ) → m ≤ n → Fine q n → Fine q m
Fine-mono cpu m n h f = omega (arith, h, f)
Fine-mono memory_bytes m n h f = tt
Fine-mono storage_bytes m n h f = tt
Fine-mono gpu_count m n h f = tt

pub rounded_at-Fine : (q : Quantity) (n : ℕ) → Fine q n → rounded_at q n ≡ n
rounded_at-Fine cpu n f = rounded_lem n f
rounded_at-Fine memory_bytes n f = refl
rounded_at-Fine storage_bytes n f = refl
rounded_at-Fine gpu_count n f = refl

amount_of-insert :
    (k e : ℕ) (a : Amount) (d : Dict Amount) (q : Quantity)
    → amount_of e (insert k a d) q ≡ (if k == e then a q else amount_of e d q)
amount_of-insert k e a d q = elim (Bool-cases (k == e)) [
  | inl c ↦ rw (amount_of, lookup-insert k e a d, c) refl
  | inr c ↦ rw (amount_of, lookup-insert k e a d, c) refl
]

amount_of-plus :
    (k e : ℕ) (a : Amount) (d : Dict Amount) (q : Quantity)
    → Fine q (amount_of e d q + (if k == e then a q else 0))
    → amount_of e (insert k (plus (amount_of k d) a) d) q
      ≡ amount_of e d q + (if k == e then a q else 0)
amount_of-plus k e a d q f = elim (Bool-cases (k == e)) [
  | inl c ↦
      amount_of-insert k e (plus (amount_of k d) a) d q
      ∙ rw c (
          ap (λ z. rounded_at q (amount_of z d q + a q)) ((==_iff k e).0 c)
          ∙ rounded_at-Fine q (amount_of e d q + a q) (rw c at f))
  | inr c ↦ amount_of-insert k e (plus (amount_of k d) a) d q ∙ rw c (omega arith)
]

amount_of-minus :
    (k e : ℕ) (a : Amount) (d : Dict Amount) (q : Quantity)
    → Fine q (amount_of e d q)
    → amount_of e (insert k (minus (amount_of k d) a) d) q
      ≡ amount_of e d q - (if k == e then a q else 0)
amount_of-minus k e a d q f = elim (Bool-cases (k == e)) [
  | inl c ↦
      amount_of-insert k e (minus (amount_of k d) a) d q
      ∙ rw c (
          ap (λ z. rounded_at q (amount_of z d q - a q)) ((==_iff k e).0 c)
          ∙ rounded_at-Fine q (amount_of e d q - a q)
              (Fine-mono q (amount_of e d q - a q) (amount_of e d q) (omega arith) f))
  | inr c ↦ amount_of-insert k e (minus (amount_of k d) a) d q ∙ rw c (omega arith)
]

pub within-at : (a b : Amount) → within a b ≡ true → (q : Quantity) → a q ≤ b q
within-at a b h cpu = ground arith
within-at a b h memory_bytes = ground arith
within-at a b h storage_bytes = ground arith
within-at a b h gpu_count = ground arith

module _ (p : Plan) (l : Ledger) (e : ℕ) (q : Quantity) where
  pub reserved-charge :
      Fine q (amount_of e l.reserved q + cost p e q)
      → amount_of e (charge p l).reserved q ≡ amount_of e l.reserved q + cost p e q
  unfolding charge
  reserved-charge f = elim (Bool-cases p.staged) [
    | inl c ↦ rw c (omega arith)
    | inr c ↦ rw c (amount_of-plus p.executor e p.need l.reserved q (rw c at f))
  ]

  pub reserved-uncharge :
      Fine q (amount_of e l.reserved q)
      → amount_of e (uncharge p l).reserved q ≡ amount_of e l.reserved q - cost p e q
  unfolding uncharge
  reserved-uncharge f = elim (Bool-cases p.staged) [
    | inl c ↦ rw c (omega arith)
    | inr c ↦ rw c (amount_of-minus p.executor e p.need l.reserved q f)
  ]

  pub quarantined-charge : amount_of e (charge p l).quarantined q ≡ amount_of e l.quarantined q
  unfolding charge
  quarantined-charge = elim (Bool-cases p.staged) [
    | inl c ↦ rw c (omega arith)
    | inr c ↦ rw c (refl)
  ]

  pub quarantined-uncharge : amount_of e (uncharge p l).quarantined q ≡ amount_of e l.quarantined q
  unfolding uncharge
  quarantined-uncharge = elim (Bool-cases p.staged) [
    | inl c ↦ rw c (omega arith)
    | inr c ↦ rw c (refl)
  ]

  pub reserved-quarantine : amount_of e (quarantine p l).reserved q ≡ amount_of e l.reserved q
  unfolding quarantine
  reserved-quarantine = elim (Bool-cases p.staged) [
    | inl c ↦ rw c (omega arith)
    | inr c ↦ rw c (refl)
  ]

  pub quarantined-quarantine :
      Fine q (amount_of e l.quarantined q + cost p e q)
      → amount_of e (quarantine p l).quarantined q ≡ amount_of e l.quarantined q + cost p e q
  unfolding quarantine
  quarantined-quarantine f = elim (Bool-cases p.staged) [
    | inl c ↦ rw c (omega arith)
    | inr c ↦ rw c (amount_of-plus p.executor e p.need l.quarantined q (rw c at f))
  ]

  -- An admitted plan stays within the capacity of its executor.
  pub fits-charge :
      (s : Setup) (c : Amount)
      → fits s p l ≡ true
      → lookup e s.capacities ≡ some c
      → Fine q (amount_of e l.reserved q + cost p e q)
      → amount_of e l.reserved q ≤ c q
      → amount_of e l.reserved q + cost p e q ≤ c q
  unfolding fits
  fits-charge s c h found f low = elim (Bool-cases p.staged) [
    | inl d ↦ rw d (omega (arith, low))
    | inr d ↦ elim (Bool-cases (p.executor == e)) [
      | inr n ↦ rw (d, n) (omega (arith, low))
      | inl n ↦
          rw (d, n)
            (let same : p.executor ≡ e = (==_iff p.executor e).0 n in
              let small : within (plus (amount_of p.executor l.reserved) p.need) c ≡ true =
                ground (arith, h, d, ap (λ z. lookup z s.capacities) same, found) in
              omega (
                arith,
                within-at (plus (amount_of p.executor l.reserved) p.need) c small q,
                ap (λ z. rounded_at q (amount_of z l.reserved q + p.need q)) same,
                rounded_at-Fine q (amount_of e l.reserved q + p.need q) (rw (d, n) at f),
              ))
    ]
  ]
