-- ===== src/Cache/Leasing.antt =====
-- The well-formedness of a cache under a hit: the consumer records the lease, the entry lists it
-- and becomes the most recently used.
use tiny_dsv.Base.{
  ℕ, ◌+◌, ◌≤◌, ◌≡◌, ap, sym, ◌∙◌, ◌⊎◌, some, arith, inl, inr, contains, add, ◌==◌, ==_iff,
  Bool-cases, Option-cases, none, contains-add, subst,
}
use tiny_dsv.Base.Dict.{
  Dict, lookup, insert, move_to_end, Distinct, insert-Distinct, total-insert_old,
}
use tiny_dsv.Base.Updates.{
  insert_cases, lookup-insert_self, lookup-insert_ne, lookup-insert-some, length-insert_old,
  lookup-move_to_end, move_to_end-Distinct, total-move_to_end, length-move_to_end,
}
use tiny_dsv.Cache.State.{Entry, Consumer, ram, disk, ready, bytes_in}
use tiny_dsv.Cache.Acquire.{private}
use tiny_dsv.Cache.Private.{private_cong, private-insert, bytes_at}
use tiny_dsv.Cache.Invariant.{Sound, Pins, Holds, InBudget}

-- A lease is fresh: no consumer has it. The leases are UUIDs.
abbrev pub FreshLease : Dict Consumer → ℕ → Type 0
FreshLease cs l = (o k : ℕ) (r : Consumer) → lookup o cs ≡ some r → ¬ (lookup l r.leases ≡ some k)

module _ {a b n : ℕ} {es : Dict Entry} {cs : Dict Consumer} (v : Sound a b n es cs) (o k l : ℕ)
    (r : Consumer) (e : Entry) (live : lookup o cs ≡ some r) (here : lookup k es ≡ some e)
    (published : e.state ≡ ready) (fresh : FreshLease cs l) where
  r' : Consumer
  r' = record r { leases = insert l k r.leases }

  e' : Entry
  e' = record e { leases = add l e.leases }

  cs' : Dict Consumer
  cs' = insert o r' cs

  es' : Dict Entry
  es' = move_to_end k (insert k e' es)

  lookup-es' : (j : ℕ) → lookup j es' ≡ lookup j (insert k e' es)
  unfolding es'
  lookup-es' j = lookup-move_to_end k e' (insert k e' es) (lookup-insert_self k e' es) j

  -- A lease of the new state is the new one, or one of the old state.
  old_lease :
      (p x j : ℕ) (s : Consumer)
      → lookup p cs' ≡ some s
      → lookup x s.leases ≡ some j
      → ((o ≡ p) × (l ≡ x) × (k ≡ j))
        ⊎ ((t : Consumer) × (lookup p cs ≡ some t) × (lookup x t.leases ≡ some j))
  unfolding cs' r'
  old_lease p x j s h q = elim (insert_cases o p r' s cs h) [
    | inl (w, y) ↦ elim (insert_cases l x k j r.leases (ap (λ z. lookup x z.leases) y ∙ q)) [
      | inl (g, f) ↦ inl (w, g, f)
      | inr (g, f) ↦ inr (r, ap (λ z. lookup z cs) (sym w) ∙ live, f)
    ]
    | inr (w, y) ↦ inr (s, y, q)
  ]

  Pins-old : (j x : ℕ) → Pins es j x → Pins es' j x
  unfolding e'
  Pins-old j x (f, p, s, c) = elim (Bool-cases (k == j)) [
    | inl g ↦ (
      e',
      lookup-es' j
          ∙ ap (λ z. lookup z (insert k e' es)) (sym ((==_iff k j).0 g))
          ∙ lookup-insert_self k e' es,
      published,
      ground (arith, contains-add l x e.leases),
    )
    | inr g ↦ (f, lookup-es' j ∙ lookup-insert_ne k j e' es (ground arith) ∙ p, s, c)
  ]

  Pins-new : Pins es' k l
  unfolding e'
  Pins-new = (
    e',
    lookup-es' k ∙ lookup-insert_self k e' es,
    published,
    ground (arith, contains-add l l e.leases),
  )

  Holds-old : (x j : ℕ) → Holds cs x j → Holds cs' x j
  unfolding cs' r'
  Holds-old x j (p, s, h, q) = elim (Bool-cases (o == p)) [
    | inl g ↦ (
      o,
      r',
      lookup-insert_self o r' cs,
      lookup-insert_ne l x k r.leases (λ w. fresh p j s h (ap (λ z. lookup z s.leases) w ∙ q))
          ∙ ground arith,
    )
    | inr g ↦ (p, s, lookup-insert_ne o p r' cs (ground arith) ∙ h, q)
  ]

  bytes-es' : (j : ℕ) → bytes_at es j ≡ bytes_at es' j
  unfolding e'
  bytes-es' j =
      ground (arith, lookup-es' j, lookup-insert_self k e' es, lookup-insert_ne k j e' es, here)

  same_private : (s : Consumer) → Distinct s.leases → private es s.leases ≡ private es' s.leases
  same_private s d = private_cong es es' s.leases d (λ x j q. bytes-es' j)

  InBudget-old : (p : ℕ) (s : Consumer) → lookup p cs ≡ some s → InBudget es' s
  InBudget-old p s h =
      let (x, q, y) = v.budget p s h in (x, sym (same_private s (v.separate p s h)) ∙ q, y)

  -- A hit within the copy budget.
  pub lease-Sound :
      (m : ℕ)
      → private es r.leases ≡ some m
      → m + e.bytes ≤ r.copy_limit
      → Sound a b n
          (move_to_end k (insert k (record e { leases = add l e.leases }) es))
          (insert o (record r { leases = insert l k r.leases }) cs)
  unfolding es' cs' e' r'
  lease-Sound m pm fits = record {
    distinct = move_to_end-Distinct k e' (insert k e' es) self inner;
    in_ram = omega (
      arith,
      total-move_to_end k e' (insert k e' es) self inner (bytes_in ram),
      total-insert_old (bytes_in ram) k e' e es here,
      v.in_ram,
    );
    on_disk = omega (
      arith,
      total-move_to_end k e' (insert k e' es) self inner (bytes_in disk),
      total-insert_old (bytes_in disk) k e' e es here,
      v.on_disk,
    );
    counted = omega (
      arith,
      length-move_to_end k e' (insert k e' es) self inner,
      length-insert_old k e' e es here,
      v.counted,
    );
    pinned = λ p x j s h q. elim (old_lease p x j s h q) [
      | inl (_, g, f) ↦ move_pin x j g f Pins-new
      | inr (t, g, f) ↦ Pins-old j x (v.pinned p x j t g f)
    ];
    held = λ j x f h q. elim (insert_cases k j e' f es (sym (lookup-es' j) ∙ h)) [
      | inl (g, w) ↦ elim (Bool-cases (l == x)) [
        | inl y ↦ (
          o,
          r',
          lookup-insert_self o r' cs,
          ground (
            arith,
            lookup-insert_self l k r.leases,
            ap (λ z. lookup z r'.leases) ((==_iff l x).0 y),
          ),
        )
        | inr y ↦ Holds-old x j (
            v.held j x e (ground arith)
              (ground (arith, contains-add l x e.leases, ap (λ z. contains x z.leases) w)))
      ]
      | inr (g, w) ↦ Holds-old x j (v.held j x f w q)
    ];
    alone = λ p p' x j j' s s' h q h' q'. elim (old_lease p x j s h q) [
      | inl (y, g, f) ↦ elim (old_lease p' x j' s' h' q') [
        | inl (y', g', f') ↦ sym y ∙ y'
        | inr (t, g', f') ↦ absurd (fresh p' j' t g' (ap (λ z. lookup z t.leases) g ∙ f'))
      ]
      | inr (t, g, f) ↦ elim (old_lease p' x j' s' h' q') [
        | inl (y', g', f') ↦ absurd (fresh p j t g (ap (λ z. lookup z t.leases) g' ∙ f))
        | inr (t', g', f') ↦ v.alone p p' x j j' t t' g f g' f'
      ]
    ];
    produced = λ j f h g. elim (insert_cases k j e' f es (sym (lookup-es' j) ∙ h)) [
      | inl (x, y) ↦ absurd (ground (arith, ap (λ z. z.state) y))
      | inr (x, y) ↦ let (t, q) = v.produced j f y g in lookup-insert-some o f.producer r' t cs q
    ];
    described = λ j f h g. elim (insert_cases k j e' f es (sym (lookup-es' j) ∙ h)) [
      | inl (x, y) ↦
          let (d, q) = v.described k e here published in (d, ap (λ z. z.metadata) (sym y) ∙ q)
      | inr (x, y) ↦ v.described j f y g
    ];
    separate = λ p s h. elim (insert_cases o p r' s cs h) [
      | inl (w, y) ↦ subst (λ z. Distinct z.leases) y leases_distinct
      | inr (w, y) ↦ v.separate p s y
    ];
    budget = λ p s h. elim (insert_cases o p r' s cs h) [
      | inl (w, y) ↦ subst (InBudget es') y (
        m + e.bytes,
        sym (same_private r' leases_distinct) ∙ private-insert es l k m e r.leases unheld here pm,
        fits,
      )
      | inr (w, y) ↦ InBudget-old p s y
    ];
  }
    where
      self : lookup k (insert k e' es) ≡ some e'
      self = lookup-insert_self k e' es

      leases_distinct : Distinct r'.leases
      leases_distinct = insert-Distinct l k r.leases (v.separate o r live)

      unheld : lookup l r.leases ≡ none
      unheld = elim (Option-cases (lookup l r.leases)) [
        | inl q ↦ q
        | inr (j, q) ↦ absurd (fresh o j r live q)
      ]

      inner : Distinct (insert k e' es)
      inner = insert-Distinct k e' es v.distinct

      move_pin : (x j : ℕ) → l ≡ x → k ≡ j → Pins es' k l → Pins es' j x
      move_pin x j g f pin = subst (λ z. Pins es' z x) f (subst (Pins es' k) g pin)
