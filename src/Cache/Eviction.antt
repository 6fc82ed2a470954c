-- ===== src/Cache/Eviction.antt =====
-- `_space`: the loop runs without a KeyError, evicts victims alone, and fails only when no victim is
-- left.
use tiny_dsv.Base.{
  ℕ, ◌≤◌, ◌≡◌, ◌⊎◌, refl, ap, sym, ◌∙◌, Bool, true, false, some, List, [], ◌∷◌, arith, inl, inr,
  ltb, ==_refl, ==_iff, ◌==◌, Bool-cases, contains, subst,
}
use tiny_dsv.Base.Dict.{Dict, lookup, erase, Distinct}
use tiny_dsv.Base.Updates.{erase_cases, lookup-erase_ne}
use tiny_dsv.Cache.State.{Cache, Entry, Tier, capacity, is_empty}
use tiny_dsv.Cache.Space.{Reason, evict, remove, removed, has_room, is_victim, make_room, space}
use tiny_dsv.Cache.Invariant.{Inv, Unleased, erase-Sound}

-- Every item of the first dictionary stands in the second.
abbrev pub Within : Dict Entry → Dict Entry → Type 0
Within fs es = (k : ℕ) (e : Entry) → lookup k fs ≡ some e → lookup k es ≡ some e

-- Every item that the test spares stays.
abbrev pub Keeps : (Entry → Bool) → Dict Entry → Dict Entry → Type 0
Keeps gone es fs =
    (k : ℕ) (e : Entry) → lookup k es ≡ some e → gone e ≡ false → lookup k fs ≡ some e

-- A run of removals: the bounds and consumers stay, and the entries lose what the test takes alone.
pub record Drops (gone : Entry → Bool) (c c' : Cache) : Type 0 where
  pub sound : Inv c'
  pub same_ram : c'.capacity_ram ≡ c.capacity_ram
  pub same_disk : c'.capacity_disk ≡ c.capacity_disk
  pub same_limit : c'.max_entries ≡ c.max_entries
  pub same_consumers : c'.consumers ≡ c.consumers
  pub within : Within c'.entries c.entries
  pub keeps : Keeps gone c.entries c'.entries

-- Only victims go: what is leased, unfinished or in the other tier stays.
abbrev pub Evicts : Tier → Cache → Cache → Type 0
Evicts t c c' = Drops (is_victim t) c c'

pub Drops-refl : (gone : Entry → Bool) (c : Cache) → Inv c → Drops gone c c
Drops-refl gone c v = record {
  sound = v;
  same_ram = refl;
  same_disk = refl;
  same_limit = refl;
  same_consumers = refl;
  within = λ k e h. h;
  keeps = λ k e h w. h;
}

pub remove-some :
    (k : ℕ) (e : Entry) (reason : Reason) (c : Cache)
    → lookup k c.entries ≡ some e
    → remove k reason c ≡ some (removed k e reason c)
unfolding remove
remove-some k e reason c h = rw (h, remove)

victim-Unleased : (t : Tier) (e : Entry) → is_victim t e ≡ true → Unleased e
victim-Unleased t e h l c = go e.leases refl
  where
    go : (ls : List ℕ) → e.leases ≡ ls → ⊥
    go [] p = ground (arith, ap (contains l) p)
    go (x ∷ ls) p = ground (arith, ap is_empty p)

-- One removal, followed by others.
pub Drops-step :
    (gone : Entry → Bool) (k : ℕ) (e : Entry) (c m c' : Cache)
    → lookup k c.entries ≡ some e
    → gone e ≡ true
    → m.entries ≡ erase k c.entries
    → m.capacity_ram ≡ c.capacity_ram
    → m.capacity_disk ≡ c.capacity_disk
    → m.max_entries ≡ c.max_entries
    → m.consumers ≡ c.consumers
    → Drops gone m c'
    → Drops gone c c'
Drops-step gone k e c m c' h taken es a b n cs v = record {
  sound = v.sound;
  same_ram = v.same_ram ∙ a;
  same_disk = v.same_disk ∙ b;
  same_limit = v.same_limit ∙ n;
  same_consumers = v.same_consumers ∙ cs;
  within = λ j f p. (erase_cases k j f c.entries (ap (lookup j) (sym es) ∙ v.within j f p)).1;
  keeps = λ j f p w.
      v.keeps j f
        (ap (lookup j) es
          ∙ lookup-erase_ne k j c.entries (λ x. ground (arith, ap (λ z. lookup z c.entries) x))
          ∙ p)
        w;
}

-- The snapshot's remaining items are still there.
abbrev pub Pending : Dict Entry → Dict Entry → Type 0
Pending items es = Distinct items × Within items es

pub Pending-next :
    (k : ℕ) (e : Entry) (items es : Dict Entry)
    → Pending ((k, e) ∷ items) es
    → (lookup k es ≡ some e) × Pending items es × Pending items (erase k es)
Pending-next k e items es (d, w) = (
  w k e (rw (==_refl k)),
  (d.1, below),
  (
    d.1,
    λ j f h. lookup-erase_ne k j es (λ x. ground (arith, ap (λ z. lookup z items) x)) ∙ below j f h,
  ),
)
  where
    below : Within items es
    below j f h = w j f (elim (Bool-cases (k == j)) [
      | inl g ↦ absurd (ground (arith, ap (λ z. lookup z items) ((==_iff k j).0 g)))
      | inr g ↦ rw g h
    ])

-- What the loop returns over the items that are left.
abbrev Made : Tier → ℕ → Dict Entry → Cache → Type 0
Made t size items c =
    (b : Bool) × (c' : Cache) × (make_room t size items c ≡ some (b, c'))
    × Evicts t c c'
    × (b ≡ has_room t size c')
    × (b ≡ false
        → (k : ℕ) (e : Entry) → lookup k items ≡ some e
        → lookup k c'.entries ≡ some e
        → is_victim t e ≡ false)

pub head_cases :
    (k j : ℕ) (e f : Entry) (items : Dict Entry)
    → lookup j ((k, e) ∷ items) ≡ some f
    → ((k ≡ j) × (e ≡ f)) ⊎ (lookup j items ≡ some f)
head_cases k j e f items h = ground arith

make_room_lem :
    (t : Tier) (size : ℕ) (items : Dict Entry) (c : Cache)
    → Inv c
    → Pending items c.entries
    → Made t size items c
unfolding make_room
make_room_lem t size [] c v p =
    (has_room t size c, c, refl, Drops-refl (is_victim t) c v, refl, λ h k e f. cc)
make_room_lem t size ((k, e) ∷ items) c v p = elim (Bool-cases (has_room t size c)) [
  | inl h ↦ (true, c, rw (h, make_room), Drops-refl (is_victim t) c v, sym h, λ w. cc)
  | inr h ↦ elim (Bool-cases (is_victim t e)) [
    | inl victim ↦
        let (here, kept, left) = Pending-next k e items c.entries p in
        let (b, c', run, ev, room, last) =
          make_room_lem t size items (removed k e evict c)
            (erase-Sound v k e here (victim-Unleased t e victim)) left in
        (
          b,
          c',
          rw (h, victim, remove-some k e evict c here, make_room) run,
          Drops-step (is_victim t) k e c (removed k e evict c) c' here victim refl refl refl refl
              refl ev,
          room,
          λ w j f q r. elim (head_cases k j e f items q) [
            | inl (g, y) ↦ absurd ((erase_cases k j f c.entries (ev.within j f r)).0 g)
            | inr q' ↦ last w j f q' r
          ],
        )
    | inr safe ↦
        let (here, kept, left) = Pending-next k e items c.entries p in
        let (b, c', run, ev, room, last) = make_room_lem t size items c v kept in
        (
          b,
          c',
          rw (h, safe, make_room) run,
          ev,
          room,
          λ w j f q r. elim (head_cases k j e f items q) [
            | inl (g, y) ↦ subst (λ z. is_victim t z ≡ false) y safe
            | inr q' ↦ last w j f q' r
          ],
        )
  ]
]

-- Making room raises no KeyError, evicts only published unleased entries of the tier, answers
-- exactly whether the size and an entry fit, and refuses a size within capacity only when nothing
-- evictable is left.
pub space_lem :
    (t : Tier) (size : ℕ) (c : Cache)
    → Inv c
    → (b : Bool) × (c' : Cache) × (space t size c ≡ some (b, c'))
      × Evicts t c c'
      × (b ≡ has_room t size c')
      × (b ≡ false
          → size ≤ capacity c t
          → (k : ℕ) (e : Entry) → lookup k c'.entries ≡ some e
          → is_victim t e ≡ false)
unfolding space
space_lem t size c v = elim (Bool-cases (ltb (capacity c t) size)) [
  | inl h ↦ (
    false,
    c,
    rw (h, space),
    Drops-refl (is_victim t) c v,
    ground arith,
    λ w fits k e q. absurd (ground arith),
  )
  | inr h ↦
      let (b, c', run, ev, room, last) =
        make_room_lem t size c.entries c v (v.distinct, λ k e p. p) in
      (b, c', rw (h, space) run, ev, room, λ w fits k e q. last w k e (ev.within k e q) q)
]
