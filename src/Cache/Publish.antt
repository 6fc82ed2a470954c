-- ===== src/Cache/Publish.antt =====
-- The well-formedness of a cache under a reservation and under its publication.
use tiny_dsv.Base.{
  ℕ, ◌+◌, ◌≤◌, ◌≡◌, ◌≢◌, refl, ap, sym, ◌∙◌, Option, none, some, arith, inl, inr, contains, length,
}
use tiny_dsv.Base.Dict.{Dict, lookup, insert, insert-Distinct, total-insert_new, total-insert_old}
use tiny_dsv.Base.Updates.{insert_cases, lookup-insert_ne, length-insert_new, length-insert_old}
use tiny_dsv.Cache.State.{
  Entry, Consumer, Metadata, Tier, ram, disk, generating, ready, used, bytes_in,
}
use tiny_dsv.Cache.Acquire.{private, new_entry}
use tiny_dsv.Cache.Calls.{sealed_entry}
use tiny_dsv.Cache.Private.{private_cong}
use tiny_dsv.Cache.Invariant.{Sound, Unleased, generating-Unleased, leased_ne}

abbrev bytes_of : Option Entry → Option ℕ
bytes_of none = none
bytes_of (some x) = some x.bytes

abbrev room_in : Tier → ℕ → Tier → ℕ
room_in ram size ram = size
room_in disk size disk = size
room_in _ size _ = 0

module _ {a b n : ℕ} {es : Dict Entry} {cs : Dict Consumer} (v : Sound a b n es cs) where
  -- A key that no lease names can be written: the leases see the old entries.
  module _ (k : ℕ) (f : Entry)
      (free : (o l j : ℕ) (r : Consumer)
        → lookup o cs ≡ some r
        → lookup l r.leases ≡ some j
        → k ≢ j) where
    insert-private :
        (o : ℕ) (r : Consumer)
        → lookup o cs ≡ some r
        → private es r.leases ≡ private (insert k f es) r.leases
    insert-private o r p =
        private_cong es (insert k f es) r.leases (v.separate o r p)
          λ l j q. ap bytes_of (sym (lookup-insert_ne k j f es (free o l j r p q)))

    insert-Sound :
        Unleased f
        → ((f.state ≡ generating) → (r : Consumer) × (lookup f.producer cs ≡ some r))
        → ((f.state ≡ ready) → (d : Metadata) × (f.metadata ≡ some d))
        → used (insert k f es) ram ≤ a
        → used (insert k f es) disk ≤ b
        → length (insert k f es) ≤ n
        → Sound a b n (insert k f es) cs
    insert-Sound unleased made known in_ram on_disk counted = record {
      distinct = insert-Distinct k f es v.distinct;
      in_ram = in_ram;
      on_disk = on_disk;
      counted = counted;
      pinned = λ o l j r p q.
          let (e', p', s, c') = v.pinned o l j r p q in
          (e', lookup-insert_ne k j f es (free o l j r p q) ∙ p', s, c');
      held = λ j l e p q. elim (insert_cases k j f e es p) [
        | inl (x, y) ↦ absurd (unleased l (ap (λ z. contains l z.leases) y ∙ q))
        | inr (x, y) ↦ v.held j l e y q
      ];
      alone = v.alone;
      produced = λ j e p q. elim (insert_cases k j f e es p) [
        | inl (x, y) ↦ subst_producer f e y (made (ap (λ z. z.state) y ∙ q))
        | inr (x, y) ↦ v.produced j e y q
      ];
      described = λ j e p q. elim (insert_cases k j f e es p) [
        | inl (x, y) ↦ subst_metadata f e y (known (ap (λ z. z.state) y ∙ q))
        | inr (x, y) ↦ v.described j e y q
      ];
      separate = v.separate;
      budget = λ o r p. let (x, q, y) = v.budget o r p in (x, sym (insert-private o r p) ∙ q, y);
    }
      where
        subst_producer :
            (f e : Entry)
            → f ≡ e
            → (r : Consumer) × (lookup f.producer cs ≡ some r)
            → (r : Consumer) × (lookup e.producer cs ≡ some r)
        subst_producer f e y (r, p) = (r, ap (λ z. lookup z.producer cs) (sym y) ∙ p)

        subst_metadata :
            (f e : Entry)
            → f ≡ e
            → (d : Metadata) × (f.metadata ≡ some d)
            → (d : Metadata) × (e.metadata ≡ some d)
        subst_metadata f e y (d, p) = (d, ap (λ z. z.metadata) (sym y) ∙ p)

  -- A reservation for a live consumer under a new key, with room in its tier and in the count.
  pub reserve-Sound :
      (k size o : ℕ) (t : Tier) (r : Consumer)
      → lookup k es ≡ none
      → lookup o cs ≡ some r
      → used es ram + room_in t size ram ≤ a
      → used es disk + room_in t size disk ≤ b
      → length es + 1 ≤ n
      → Sound a b n (insert k (new_entry o size t) es) cs
  reserve-Sound k size o t r fresh live in_ram on_disk counted =
      insert-Sound k (new_entry o size t)
        (λ p l j s q h w. let (e, x, _, _) = v.pinned p l j s q h in ground (arith, w)) (λ l w. cc)
        (λ _. (r, live)) (λ w. cc)
        (ground (arith, total-insert_new (bytes_in ram) k (new_entry o size t) es fresh))
        (ground (arith, total-insert_new (bytes_in disk) k (new_entry o size t) es fresh))
        (omega (arith, length-insert_new k (new_entry o size t) es fresh))

  -- Its producer publishes it, no larger than reserved.
  pub publish-Sound :
      (k size : ℕ) (e : Entry) (d : Metadata)
      → lookup k es ≡ some e
      → e.state ≡ generating
      → size ≤ e.bytes
      → Sound a b n (insert k (sealed_entry d size e) es) cs
  publish-Sound k size e d h g le =
      insert-Sound k f (leased_ne v k e h u) u (λ w. cc) (λ w. (d, refl))
        (ground (arith, total-insert_old (bytes_in ram) k f e es h, v.in_ram))
        (ground (arith, total-insert_old (bytes_in disk) k f e es h, v.on_disk))
        (omega (arith, length-insert_old k f e es h, v.counted))
    where
      f : Entry
      f = sealed_entry d size e

      u : Unleased e
      u = generating-Unleased v k e h g
