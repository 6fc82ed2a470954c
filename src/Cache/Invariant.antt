-- ===== src/Cache/Invariant.antt =====
-- The well-formedness of a cache, and the change of entries by an eviction or an abort.
use tiny_dsv.Base.{
  ℕ, ◌≤◌, ◌≡◌, ◌≢◌, ap, sym, ◌∙◌, true, Option, none, some, arith, contains, length,
}
use tiny_dsv.Base.Dict.{Dict, lookup, erase, Distinct, erase-Distinct, total-erase-le}
use tiny_dsv.Base.Updates.{erase_cases, lookup-erase_ne, length-erase}
use tiny_dsv.Cache.State.{
  Cache, Entry, Consumer, Metadata, ram, disk, generating, ready, used, bytes_in,
}
use tiny_dsv.Cache.Acquire.{private}
use tiny_dsv.Cache.Private.{private_cong}

-- The entry stands under its key, published, and lists the lease.
abbrev pub Pins : Dict Entry → ℕ → ℕ → Type 0
Pins es k l =
    (e : Entry) × (lookup k es ≡ some e) × (e.state ≡ ready) × (contains l e.leases ≡ true)

abbrev pub Holds : Dict Consumer → ℕ → ℕ → Type 0
Holds cs l k = (o : ℕ) × (r : Consumer) × (lookup o cs ≡ some r) × (lookup l r.leases ≡ some k)

abbrev pub InBudget : Dict Entry → Consumer → Type 0
InBudget es r = (n : ℕ) × (private es r.leases ≡ some n) × (n ≤ r.copy_limit)

-- Storage and entry count stay within their limits; a lease is held by one consumer, pins a
-- published entry and is listed by it; an entry in the making belongs to a live consumer; no
-- consumer leases more than its copy budget.
pub record Sound (cap_ram cap_disk limit : ℕ) (es : Dict Entry) (cs : Dict Consumer) : Type 0 where
  pub distinct : Distinct es
  pub in_ram : used es ram ≤ cap_ram
  pub on_disk : used es disk ≤ cap_disk
  pub counted : length es ≤ limit
  pub pinned :
      (o l k : ℕ) (r : Consumer) → lookup o cs ≡ some r → lookup l r.leases ≡ some k → Pins es k l
  pub held :
      (k l : ℕ) (e : Entry) → lookup k es ≡ some e → contains l e.leases ≡ true → Holds cs l k
  pub alone :
      (o p l k j : ℕ) (r s : Consumer)
      → lookup o cs ≡ some r
      → lookup l r.leases ≡ some k
      → lookup p cs ≡ some s
      → lookup l s.leases ≡ some j
      → o ≡ p
  pub produced :
      (k : ℕ) (e : Entry)
      → lookup k es ≡ some e
      → e.state ≡ generating
      → (r : Consumer) × (lookup e.producer cs ≡ some r)
  pub described :
      (k : ℕ) (e : Entry)
      → lookup k es ≡ some e
      → e.state ≡ ready
      → (d : Metadata) × (e.metadata ≡ some d)
  pub separate : (o : ℕ) (r : Consumer) → lookup o cs ≡ some r → Distinct r.leases
  pub budget : (o : ℕ) (r : Consumer) → lookup o cs ≡ some r → InBudget es r

abbrev pub Inv : Cache → Type 0
Inv c = Sound c.capacity_ram c.capacity_disk c.max_entries c.entries c.consumers

-- No consumer leases the entry.
abbrev pub Unleased : Entry → Type 0
Unleased e = (l : ℕ) → ¬ (contains l e.leases ≡ true)

module _ {a b n : ℕ} {es : Dict Entry} {cs : Dict Consumer} (v : Sound a b n es cs) where
  -- An entry in the making is leased by nobody.
  pub generating-Unleased :
      (k : ℕ) (e : Entry) → lookup k es ≡ some e → e.state ≡ generating → Unleased e
  generating-Unleased k e h g l c =
      let (o, r, p, q) = v.held k l e h c in let (e', p', s, c') = v.pinned o l k r p q in cc

  module _ (k : ℕ) (e : Entry) (h : lookup k es ≡ some e) (u : Unleased e) where
    pub leased_ne :
        (o l j : ℕ) (r : Consumer) → lookup o cs ≡ some r → lookup l r.leases ≡ some j → k ≢ j
    leased_ne o l j r p q x = let (e', p', s, c') = v.pinned o l j r p q in u l (ground arith)

    pub erase-private :
        (o : ℕ) (r : Consumer)
        → lookup o cs ≡ some r
        → private es r.leases ≡ private (erase k es) r.leases
    erase-private o r p =
        private_cong es (erase k es) r.leases (v.separate o r p)
          λ l j q. ap (λ x. bytes x) (sym (lookup-erase_ne k j es (leased_ne o l j r p q)))
      where
        bytes : Option Entry → Option ℕ
        bytes none = none
        bytes (some x) = some x.bytes

    -- An entry that nobody leases can go.
    pub erase-Sound : Sound a b n (erase k es) cs
    erase-Sound = record {
      distinct = erase-Distinct k es v.distinct;
      in_ram = omega (arith, total-erase-le (bytes_in ram) k es, v.in_ram);
      on_disk = omega (arith, total-erase-le (bytes_in disk) k es, v.on_disk);
      counted = omega (arith, length-erase k e es v.distinct h, v.counted);
      pinned = λ o l j r p q.
          let (e', p', s, c') = v.pinned o l j r p q in
          (e', lookup-erase_ne k j es (leased_ne o l j r p q) ∙ p', s, c');
      held = λ j l f p q. v.held j l f (erase_cases k j f es p).1 q;
      alone = v.alone;
      produced = λ j f p q. v.produced j f (erase_cases k j f es p).1 q;
      described = λ j f p q. v.described j f (erase_cases k j f es p).1 q;
      separate = v.separate;
      budget = λ o r p. let (x, q, y) = v.budget o r p in (x, sym (erase-private o r p) ∙ q, y);
    }
