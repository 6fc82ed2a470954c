-- ===== src/Cache/Ending.antt =====
-- `end`: every lease of the consumer is released, what it was generating is removed, and it is
-- forgotten.
use tiny_dsv.Base.{
  ℕ, ◌≡◌, refl, ap, ◌∙◌, true, false, some, none, List, [], ◌∷◌, arith, inl, inr, Bool-cases,
  contains, subst, if◌then◌else◌,
}
use tiny_dsv.Base.Dict.{Dict, lookup, erase, keys, lookup-erase}
use tiny_dsv.Base.Updates.{erase_cases, lookup-erase_self}
use tiny_dsv.Cache.State.{Cache, Entry, Consumer, generating}
use tiny_dsv.Cache.Space.{Reason, removed}
use tiny_dsv.Cache.Requests.{ended}
use tiny_dsv.Cache.Leases.{release_all, produces, abort_all, retire, end_consumer}
use tiny_dsv.Cache.Invariant.{Inv, generating-Unleased, erase-Sound}
use tiny_dsv.Cache.Consumers.{retire-Sound}
use tiny_dsv.Cache.Releasing.{release_lem}
use tiny_dsv.Cache.Eviction.{
  Drops, Drops-refl, Drops-step, Pending, Pending-next, remove-some, head_cases,
}

-- The leases that are left after some have been released.
abbrev LeftBy : List ℕ → Consumer → Consumer → Type 0
LeftBy ls r r' = (x : ℕ) → lookup x r'.leases ≡ (if contains x ls then none else lookup x r.leases)

release_all_lem :
    (c : Cache) (v : Inv c) (o : ℕ) (ls : List ℕ) (r : Consumer)
    → lookup o c.consumers ≡ some r
    → (c' : Cache) × (r' : Consumer) × (release_all o ls c ≡ some c')
      × Inv c'
      × (lookup o c'.consumers ≡ some r')
      × LeftBy ls r r'
unfolding release_all
release_all_lem c v o [] r live = (c, r, refl, v, live, λ x. refl)
release_all_lem c v o (l ∷ ls) r live =
    let (d, run, w, there) = release_lem c v o l r live in
    let (c', r', run', w', there', left) =
      release_all_lem d w o ls (record r { leases = erase l r.leases }) there in
    (
      c',
      r',
      rw (run, release_all) run',
      w',
      there',
      λ x. left x ∙ ground (arith, lookup-erase l x r.leases),
    )

lookup-keys : (x : ℕ) (m : Dict ℕ) → contains x (keys m) ≡ false → lookup x m ≡ none
lookup-keys x [] h = refl
lookup-keys x ((j, v) ∷ m) h = ground (arith, lookup-keys x m)

-- Every lease goes.
released_all :
    (r r' : Consumer) → LeftBy (keys r.leases) r r' → (x k : ℕ) → ¬ (lookup x r'.leases ≡ some k)
released_all r r' left x k h = ground (arith, left x, lookup-keys x r.leases)

abbrev Aborted : ℕ → Dict Entry → Cache → Type 0
Aborted o items c =
    (c' : Cache) × (abort_all o items c ≡ some c')
    × Inv c'
    × Drops (produces o) c c'
    × ((k : ℕ) (e : Entry)
        → lookup k items ≡ some e
        → lookup k c'.entries ≡ some e
        → produces o e ≡ false)

pub produces-generating : (o : ℕ) (e : Entry) → produces o e ≡ true → e.state ≡ generating
produces-generating o e h = ground arith

abort_all_lem :
    (o : ℕ) (items : Dict Entry) (c : Cache) → Inv c → Pending items c.entries → Aborted o items c
unfolding abort_all
abort_all_lem o [] c v p = (c, refl, v, Drops-refl (produces o) c v, λ k e f. cc)
abort_all_lem o ((k, e) ∷ items) c v p = elim (Bool-cases (produces o e)) [
  | inl own ↦
      let (here, kept, left) = Pending-next k e items c.entries p in
      let (c', run, w, drops, last) =
        abort_all_lem o items (removed k e Reason.aborted c)
          (erase-Sound v k e here (generating-Unleased v k e here (produces-generating o e own)))
          left in
      (
        c',
        rw (own, remove-some k e Reason.aborted c here, abort_all) run,
        w,
        Drops-step (produces o) k e c (removed k e Reason.aborted c) c' here own refl refl refl refl
            refl drops,
        λ j f q r. elim (head_cases k j e f items q) [
          | inl (g, y) ↦ absurd ((erase_cases k j f c.entries (drops.within j f r)).0 g)
          | inr q' ↦ last j f q' r
        ],
      )
  | inr other ↦
      let (here, kept, left) = Pending-next k e items c.entries p in
      let (c', run, w, drops, last) = abort_all_lem o items c v kept in
      (
        c',
        rw (other, abort_all) run,
        w,
        drops,
        λ j f q r. elim (head_cases k j e f items q) [
          | inl (g, y) ↦ subst (λ z. produces o z ≡ false) y other
          | inr q' ↦ last j f q' r
        ],
      )
]

-- `end` of a live consumer succeeds: the consumer is gone, so by the invariant no entry lists a
-- lease of its, and nothing that it was generating is left.
retire_lem :
    (c : Cache) (v : Inv c) (o : ℕ) (r : Consumer)
    → lookup o c.consumers ≡ some r
    → (c' : Cache) × (retire o r c ≡ some c')
      × Inv c'
      × (lookup o c'.consumers ≡ none)
      × ((k : ℕ) (e : Entry) → lookup k c'.entries ≡ some e → produces o e ≡ false)
unfolding retire
retire_lem c v o r live =
    let (d, r', run, w, there, left) = release_all_lem c v o (keys r.leases) r live in
    let (c', run', w', drops, last) = abort_all_lem o d.entries d w (w.distinct, λ k e h. h) in
    let idle =
      λ (k : ℕ) (e : Entry) (h : lookup k c'.entries ≡ some e). last k e (drops.within k e h) h in
    (
      record c' { consumers = erase o c'.consumers },
      rw (run, retire, run'),
      retire-Sound w' o r' (ap (lookup o) drops.same_consumers ∙ there) (released_all r r' left)
          (λ k e h g x. ground (arith, idle k e h)),
      lookup-erase_self o c'.consumers,
      idle,
    )

-- Ending a live consumer succeeds, keeps the cache well-formed, forgets the consumer and leaves
-- nothing that it was generating.
pub end_consumer_lem :
    (c : Cache) (v : Inv c) (o : ℕ) (r : Consumer)
    → lookup o c.consumers ≡ some r
    → (c' : Cache) × (end_consumer o c ≡ (c', ended true))
      × Inv c'
      × (lookup o c'.consumers ≡ none)
      × ((k : ℕ) (e : Entry) → lookup k c'.entries ≡ some e → produces o e ≡ false)
unfolding end_consumer
end_consumer_lem c v o r live =
    let (c', run, w, gone, idle) = retire_lem c v o r live in
    (c', rw (live, run, end_consumer), w, gone, idle)
