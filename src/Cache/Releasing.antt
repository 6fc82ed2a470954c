-- ===== src/Cache/Releasing.antt =====
-- The well-formedness of a cache when a consumer releases one lease.
use tiny_dsv.Base.{
  ℕ, ◌≡◌, ◌≢◌, refl, ap, sym, ◌∙◌, true, some, none, Option, arith, inl, inr, contains, discard,
  ◌==◌, ==_iff, Bool-cases, contains-discard, subst,
}
use tiny_dsv.Base.Dict.{
  Dict, lookup, insert, erase, Distinct, insert-Distinct, erase-Distinct, total-insert_old,
  erase_absent,
}
use tiny_dsv.Base.Updates.{
  insert_cases, erase_cases, lookup-insert_self, lookup-insert_ne, lookup-insert-some, insert_same,
  lookup-erase_ne, length-insert_old,
}
use tiny_dsv.Cache.State.{Cache, Entry, Consumer, ram, disk, bytes_in}
use tiny_dsv.Cache.Acquire.{private}
use tiny_dsv.Cache.Leases.{release, unpin}
use tiny_dsv.Cache.Private.{private_cong, private-erase, bytes_at}
use tiny_dsv.Cache.Invariant.{Sound, Inv, Pins, Holds, InBudget}

module _ {a b n : ℕ} {es : Dict Entry} {cs : Dict Consumer} (v : Sound a b n es cs) (o l k : ℕ)
    (r : Consumer) (e : Entry) (live : lookup o cs ≡ some r) (names : lookup l r.leases ≡ some k)
    (here : lookup k es ≡ some e) where
  r' : Consumer
  r' = record r { leases = erase l r.leases }

  e' : Entry
  e' = record e { leases = discard l e.leases }

  cs' : Dict Consumer
  cs' = insert o r' cs

  es' : Dict Entry
  es' = insert k e' es

  -- What is left of the leases is old, and is another lease.
  old_lease :
      (p x j : ℕ) (s : Consumer)
      → lookup p cs' ≡ some s
      → lookup x s.leases ≡ some j
      → (l ≢ x) × (t : Consumer) × (lookup p cs ≡ some t) × (lookup x t.leases ≡ some j)
  unfolding cs' r'
  old_lease p x j s h q = elim (insert_cases o p r' s cs h) [
    | inl (w, y) ↦
        let (g, f) = erase_cases l x j r.leases (ap (λ z. lookup x z.leases) y ∙ q) in
        (g, r, ap (λ z. lookup z cs) (sym w) ∙ live, f)
    | inr (w, y) ↦
        (λ g. w (v.alone o p l k j r s live names y (ap (λ z. lookup z s.leases) g ∙ q)), s, y, q)
  ]

  Pins-old : (j x : ℕ) → l ≢ x → Pins es j x → Pins es' j x
  unfolding es' e'
  Pins-old j x d (f, p, s, c) = elim (Bool-cases (k == j)) [
    | inl g ↦
        let y : e ≡ f = ground (arith, (==_iff k j).0 g) in
        (
          e',
          ap (λ z. lookup z es') (sym ((==_iff k j).0 g)) ∙ lookup-insert_self k e' es,
          ap (λ z. z.state) y ∙ s,
          ground (arith, contains-discard l x e.leases, ap (λ z. contains x z.leases) y),
        )
    | inr g ↦ (f, lookup-insert_ne k j e' es (ground arith) ∙ p, s, c)
  ]

  Holds-old : (x j : ℕ) → l ≢ x → Holds cs x j → Holds cs' x j
  unfolding cs' r'
  Holds-old x j d (p, s, h, q) = elim (Bool-cases (o == p)) [
    | inl g ↦
        let y : r ≡ s = ground (arith, (==_iff o p).0 g) in
        (
          o,
          r',
          lookup-insert_self o r' cs,
          lookup-erase_ne l x r.leases d ∙ ap (λ z. lookup x z.leases) y ∙ q,
        )
    | inr g ↦ (p, s, lookup-insert_ne o p r' cs (ground arith) ∙ h, q)
  ]

  -- The lease pins no other entry.
  other_lease : (j x : ℕ) → k ≢ j → Holds cs x j → l ≢ x
  other_lease j x d (p, s, h, q) w =
      let q' : lookup l s.leases ≡ some j = ap (λ z. lookup z s.leases) w ∙ q in
      let y : o ≡ p = v.alone o p l k j r s live names h q' in
      let z : r ≡ s = ground (arith, ap (λ i. lookup i cs) y) in
      d (ground (arith, ap (λ i. lookup l i.leases) z))

  bytes-es' : (j : ℕ) → bytes_at es j ≡ bytes_at es' j
  unfolding e' es'
  bytes-es' j = ground (arith, lookup-insert_self k e' es, lookup-insert_ne k j e' es, here)

  same_private : (s : Consumer) → Distinct s.leases → private es s.leases ≡ private es' s.leases
  same_private s d = private_cong es es' s.leases d (λ x j q. bytes-es' j)

  InBudget-r' : InBudget es' r'
  unfolding r'
  InBudget-r' =
      let (x, q, y) = v.budget o r live in
      let (x', q', y') = private-erase es l x r.leases q in
      (
        x',
        sym (same_private r' (erase-Distinct l r.leases (v.separate o r live))) ∙ q',
        omega arith,
      )

  unlist-Sound : Sound a b n es' cs'
  unfolding es' cs' e' r'
  unlist-Sound = record {
    distinct = insert-Distinct k e' es v.distinct;
    in_ram = omega (arith, total-insert_old (bytes_in ram) k e' e es here, v.in_ram);
    on_disk = omega (arith, total-insert_old (bytes_in disk) k e' e es here, v.on_disk);
    counted = omega (arith, length-insert_old k e' e es here, v.counted);
    pinned = λ p x j s h q.
        let (d, t, g, f) = old_lease p x j s h q in Pins-old j x d (v.pinned p x j t g f);
    held = λ j x f h q. elim (insert_cases k j e' f es h) [
      | inl (g, w) ↦
          let c : contains x e'.leases ≡ true = ap (λ z. contains x z.leases) w ∙ q in
          Holds-old x j (ground (arith, contains-discard l x e.leases)) (
            subst (Holds cs x) g
              (v.held k x e here (ground (arith, contains-discard l x e.leases))))
      | inr (g, w) ↦
          let old : Holds cs x j = v.held j x f w q in Holds-old x j (other_lease j x g old) old
    ];
    alone = λ p p' x j j' s s' h q h' q'.
        let (d, t, g, f) = old_lease p x j s h q in
        let (d', t', g', f') = old_lease p' x j' s' h' q' in v.alone p p' x j j' t t' g f g' f';
    produced = λ j f h g. elim (insert_cases k j e' f es h) [
      | inl (x, y) ↦
          let (t, q) = v.produced k e here (ap (λ z. z.state) y ∙ g) in
          lookup-insert-some o f.producer r' t cs (ap (λ z. lookup z.producer cs) (sym y) ∙ q)
      | inr (x, y) ↦ let (t, q) = v.produced j f y g in lookup-insert-some o f.producer r' t cs q
    ];
    described = λ j f h g. elim (insert_cases k j e' f es h) [
      | inl (x, y) ↦
          let (d, q) = v.described k e here (ap (λ z. z.state) y ∙ g) in
          (d, ap (λ z. z.metadata) (sym y) ∙ q)
      | inr (x, y) ↦ v.described j f y g
    ];
    separate = λ p s h. elim (insert_cases o p r' s cs h) [
      | inl (w, y) ↦
          subst (λ z. Distinct z.leases) y (erase-Distinct l r.leases (v.separate o r live))
      | inr (w, y) ↦ v.separate p s y
    ];
    budget = λ p s h. elim (insert_cases o p r' s cs h) [
      | inl (w, y) ↦ subst (InBudget es') y InBudget-r'
      | inr (w, y) ↦
          let (x, q, z) = v.budget p s y in (x, sym (same_private s (v.separate p s y)) ∙ q, z)
    ];
  }

abbrev without : ℕ → Consumer → Consumer
without l r = record r { leases = erase l r.leases }

release-live :
    (c : Cache) (o l : ℕ) (r : Consumer)
    → lookup o c.consumers ≡ some r
    → release o l c
      ≡ some (record c {
        consumers = insert o (without l r) c.consumers;
        entries = unpin l (lookup l r.leases) c.entries;
      })
unfolding release
release-live c o l r live = rw (live, release)

unpin-some :
    (l k : ℕ) (e : Entry) (es : Dict Entry)
    → lookup k es ≡ some e
    → unpin l (some k) es ≡ insert k (record e { leases = discard l e.leases }) es
unpin-some l k e es h = ground arith

-- `release` succeeds for a live consumer, which then lacks that lease and no other.
pub release_lem :
    (c : Cache) (v : Inv c) (o l : ℕ) (r : Consumer)
    → lookup o c.consumers ≡ some r
    → (c' : Cache) × (release o l c ≡ some c')
      × Inv c'
      × (lookup o c'.consumers ≡ some (record r { leases = erase l r.leases }))
release_lem c v o l r live = go (lookup l r.leases) refl
  where
    self : lookup o (insert o (without l r) c.consumers) ≡ some (without l r)
    self = lookup-insert_self o (without l r) c.consumers

    go :
        (q : Option ℕ)
        → lookup l r.leases ≡ q
        → (c' : Cache) × (release o l c ≡ some c')
          × Inv c'
          × (lookup o c'.consumers ≡ some (without l r))
    go none q = (
      record c { consumers = insert o (without l r) c.consumers },
      release-live c o l r live ∙ rw q,
      subst (λ z. Sound c.capacity_ram c.capacity_disk c.max_entries c.entries z)
          (sym (
            ap (λ z. insert o (record r { leases = z }) c.consumers) (erase_absent l r.leases q)
            ∙ insert_same o r c.consumers live))
          v,
      self,
    )
    go (some k) q =
        let (e, here, _, _) = v.pinned o l k r live q in
        (
          record c {
            consumers = insert o (without l r) c.consumers;
            entries = insert k (record e { leases = discard l e.leases }) c.entries;
          },
          release-live c o l r live ∙ rw (q, unpin-some l k e c.entries here),
          unfold r' e' cs' es' in unlist-Sound v o l k r e live q here,
          self,
        )
