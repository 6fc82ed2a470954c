-- ===== src/Cache/Reserving.antt =====
-- `acquire` of a key that is absent: a tier is chosen, room is made, and the entry is reserved.
use tiny_dsv.Base.{
  ℕ, ◌≡◌, refl, ap, sym, ◌∙◌, Bool, true, false, Option, some, none, arith, inl, inr, ◌==◌,
  Bool-cases, Option-cases,
}
use tiny_dsv.Base.Dict.{lookup, insert}
use tiny_dsv.Cache.State.{Cache, Consumer, Tier, ram, disk, capacity}
use tiny_dsv.Cache.Space.{has_room}
use tiny_dsv.Cache.Requests.{Reply, Env, os_error, failed, capacity_or_pinned_entries}
use tiny_dsv.Cache.Acquire.{try_tier, choose_tier, reserve, new_entry, bypassed}
use tiny_dsv.Cache.Invariant.{Inv}
use tiny_dsv.Cache.Publish.{reserve-Sound}
use tiny_dsv.Cache.Eviction.{Within, space_lem}

-- The bounds and consumers stay and no entry is new.
pub record Shrinks (c c' : Cache) : Type 0 where
  pub sound : Inv c'
  pub same_consumers : c'.consumers ≡ c.consumers
  pub within : Within c'.entries c.entries

Shrinks-trans : (c d e : Cache) → Shrinks c d → Shrinks d e → Shrinks c e
Shrinks-trans c d e v w = record {
  sound = w.sound;
  same_consumers = w.same_consumers ∙ v.same_consumers;
  within = λ k f h. v.within k f (w.within k f h);
}

Shrinks-refl : (c : Cache) → Inv c → Shrinks c c
Shrinks-refl c v = record { sound = v; same_consumers = refl; within = λ k e h. h }

try_tier_lem :
    (t : Tier) (size : ℕ) (c : Cache)
    → Inv c
    → (b : Bool) × (c' : Cache) × (try_tier t size c ≡ some (b, c'))
      × Shrinks c c'
      × (b ≡ true → has_room t size c' ≡ true)
unfolding try_tier
try_tier_lem t size c v = elim (Bool-cases (capacity c t == 0)) [
  | inl h ↦ (false, c, rw (h, try_tier), Shrinks-refl c v, λ w. cc)
  | inr h ↦
      let (b, c', run, ev, room, _) = space_lem t size c v in
      (
        b,
        c',
        rw (h, try_tier) run,
        record { sound = ev.sound; same_consumers = ev.same_consumers; within = ev.within },
        λ w. sym room ∙ w,
      )
]

abbrev Chosen : ℕ → Option Tier → Cache → Type 0
Chosen size none c = Unit {0}
Chosen size (some t) c = has_room t size c ≡ true

choose_tier_lem :
    (size : ℕ) (c : Cache)
    → Inv c
    → (o : Option Tier) × (c' : Cache) × (choose_tier size c ≡ some (o, c'))
      × Shrinks c c'
      × Chosen size o c'
unfolding choose_tier
choose_tier_lem size c v =
    let (b, d, run, w, room) = try_tier_lem ram size c v in
    let (b', d', run', w', room') = try_tier_lem disk size d w.sound in
    elim (Bool-cases b) [
      | inl h ↦ (some ram, d, rw (run, choose_tier, h), w, room h)
      | inr h ↦ elim (Bool-cases b') [
        | inl g ↦
            (some disk, d', rw (run, choose_tier, h, run', g), Shrinks-trans c d d' w w', room' g)
        | inr g ↦ (none, d', rw (run, choose_tier, h, run', g), Shrinks-trans c d d' w w', tt)
      ]
    ]

abbrev Reserved : ℕ → ℕ → Env → ℕ → Cache → Type 0
Reserved consumer size env key c =
    (c' : Cache) × (reply : Reply) × (reserve env consumer key size c ≡ (c', reply))
    × Inv c'
    × (c'.consumers ≡ c.consumers)

pub reserve_lem :
    (env : Env) (o key size : ℕ) (r : Consumer) (c : Cache)
    → Inv c
    → lookup o c.consumers ≡ some r
    → lookup key c.entries ≡ none
    → Reserved o size env key c
unfolding reserve
reserve_lem env o key size r c v live absent = go (choose_tier_lem size c v)
  where
    gone : (c' : Cache) → Within c'.entries c.entries → lookup key c'.entries ≡ none
    gone c' w = elim (Option-cases (lookup key c'.entries)) [
      | inl h ↦ h
      | inr (e, h) ↦ absurd (ground (arith, w key e h))
    ]

    place :
        (t : Tier) (c' : Cache)
        → Shrinks c c'
        → has_room t size c' ≡ true
        → Inv (record c' { entries = insert key (new_entry o size t) c'.entries })
    place ram c' w room =
        reserve-Sound w.sound key size o ram r (gone c' w.within)
          (ap (lookup o) w.same_consumers ∙ live) (ground arith) (omega (arith, w.sound.on_disk))
          (ground arith)
    place disk c' w room =
        reserve-Sound w.sound key size o disk r (gone c' w.within)
          (ap (lookup o) w.same_consumers ∙ live) (omega (arith, w.sound.in_ram)) (ground arith)
          (ground arith)

    go :
        (o' : Option Tier) × (c' : Cache) × (choose_tier size c ≡ some (o', c'))
          × Shrinks c c'
          × Chosen size o' c'
        → Reserved o size env key c
    go (none, c', run, w, room) = (
      (bypassed capacity_or_pinned_entries c').0,
      (bypassed capacity_or_pinned_entries c').1,
      rw (run, reserve),
      w.sound,
      w.same_consumers,
    )
    go (some t, c', run, w, room) = elim (Bool-cases env.storage_ok) [
      | inl ok ↦ (
        record c' { entries = insert key (new_entry o size t) c'.entries },
        Reply.miss key size t,
        rw (run, reserve, ok),
        place t c' w room,
        w.same_consumers,
      )
      | inr bad ↦ (c', failed os_error, rw (run, reserve, bad), w.sound, w.same_consumers)
    ]
