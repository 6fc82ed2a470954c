-- ===== src/Cache/Consumers.antt =====
-- The well-formedness of a cache when a consumer registers, releases a lease, or retires.
use tiny_dsv.Base.{ℕ, ◌≡◌, ◌≢◌, refl, ap, sym, ◌∙◌, ◌⊎◌, some, none, [], arith, inl, inr, subst}
use tiny_dsv.Base.Dict.{Dict, lookup, insert, erase, Distinct}
use tiny_dsv.Base.Updates.{
  insert_cases, erase_cases, lookup-insert_ne, lookup-insert-some, lookup-erase_ne,
}
use tiny_dsv.Cache.State.{Entry, Consumer, generating}
use tiny_dsv.Cache.Invariant.{Sound, InBudget}

module _ {a b n : ℕ} {es : Dict Entry} {cs : Dict Consumer} (v : Sound a b n es cs) where
  -- A consumer registers under a new token.
  pub begin-Sound :
      (t limit : ℕ)
      → lookup t cs ≡ none
      → Sound a b n es (insert t (record { copy_limit = limit; leases = [] }) cs)
  begin-Sound t limit fresh = record {
    distinct = v.distinct;
    in_ram = v.in_ram;
    on_disk = v.on_disk;
    counted = v.counted;
    pinned = λ o l k r p q. elim (old o r p) [
      | inl y ↦ absurd (ground (arith, ap (λ z. lookup l z.leases) y))
      | inr h ↦ v.pinned o l k r h q
    ];
    held = λ k l e p q.
        let (o, r, h, w) = v.held k l e p q in
        (o, r, lookup-insert_ne t o s cs (λ x. ground (arith, ap (λ z. lookup z cs) x)) ∙ h, w);
    alone = λ o p l k j r r' h q h' q'. elim (old o r h) [
      | inl y ↦ absurd (ground (arith, ap (λ z. lookup l z.leases) y))
      | inr g ↦ elim (old p r' h') [
        | inl y ↦ absurd (ground (arith, ap (λ z. lookup l z.leases) y))
        | inr g' ↦ v.alone o p l k j r r' g q g' q'
      ]
    ];
    produced =
        λ k e p g. let (r, h) = v.produced k e p g in lookup-insert-some t e.producer s r cs h;
    described = v.described;
    separate = λ o r p. elim (old o r p) [
      | inl y ↦ subst (λ z. Distinct z.leases) y tt
      | inr h ↦ v.separate o r h
    ];
    budget = λ o r p. elim (old o r p) [
      | inl y ↦ subst (InBudget es) y (0, refl, omega arith)
      | inr h ↦ v.budget o r h
    ];
  }
    where
      s : Consumer
      s = record { copy_limit = limit; leases = [] }

      old :
          (o : ℕ) (r : Consumer)
          → lookup o (insert t s cs) ≡ some r
          → (s ≡ r) ⊎ (lookup o cs ≡ some r)
      old o r p = elim (insert_cases t o s r cs p) [ inl y ↦ inl y.1 | inr y ↦ inr y.1 ]

  -- A consumer without leases or unfinished entries retires.
  pub retire-Sound :
      (o : ℕ) (r : Consumer)
      → lookup o cs ≡ some r
      → ((l k : ℕ) → ¬ (lookup l r.leases ≡ some k))
      → ((k : ℕ) (e : Entry) → lookup k es ≡ some e → e.state ≡ generating → e.producer ≢ o)
      → Sound a b n es (erase o cs)
  retire-Sound o r live empty idle = record {
    distinct = v.distinct;
    in_ram = v.in_ram;
    on_disk = v.on_disk;
    counted = v.counted;
    pinned = λ p l k s h q. v.pinned p l k s (erase_cases o p s cs h).1 q;
    held = λ k l e p q.
        let (u, s, h, w) = v.held k l e p q in
        (
          u,
          s,
          lookup-erase_ne o u cs (λ x. empty l k (ground (arith, ap (λ z. lookup z cs) x))) ∙ h,
          w,
        );
    alone = λ p p' l k j s s' h q h' q'.
        v.alone p p' l k j s s' (erase_cases o p s cs h).1 q (erase_cases o p' s' cs h').1 q';
    produced = λ k e p g.
        let (s, h) = v.produced k e p g in
        (s, lookup-erase_ne o e.producer cs (λ x. idle k e p g (sym x)) ∙ h);
    described = v.described;
    separate = λ p s h. v.separate p s (erase_cases o p s cs h).1;
    budget = λ p s h. v.budget p s (erase_cases o p s cs h).1;
  }
