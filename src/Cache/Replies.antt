-- ===== src/Cache/Replies.antt =====
-- What a successful reply of `acquire` and `publish` establishes.
use mathlib.Core.Option
use tiny_dsv.Base.{
  ℕ, ◌+◌, ◌*◌, ◌≤◌, ◌<◌, ◌≡◌, refl, ap, ◌∙◌, ◌⊎◌, true, false, Option, some, none, arith, inl, inr,
  ltb, add, contains, Bool-cases, Option-cases, contains-add, subst,
}
use tiny_dsv.Base.Dict.{lookup, insert}
use tiny_dsv.Base.Updates.{lookup-insert_self, lookup-move_to_end}
use tiny_dsv.Cache.State.{Cache, Entry, Consumer, Metadata, Tier, ready}
use tiny_dsv.Cache.Requests.{Reply, Env, published, failed, key_error, bypass, consumer_copy_budget}
use tiny_dsv.Cache.Leases.{produces}
use tiny_dsv.Cache.Acquire.{
  private, settle_hit, leased, take_lease, acquire_settled, is_generating, acquire_round,
}
use tiny_dsv.Cache.Calls.{publish, sealed_entry}

-- The lease is recorded on both sides.
abbrev pub Leased : ℕ → ℕ → ℕ → Cache → Type 0
Leased o l k c =
    (r : Consumer) × (e : Entry) × (lookup o c.consumers ≡ some r)
    × (lookup l r.leases ≡ some k)
    × (lookup k c.entries ≡ some e)
    × (contains l e.leases ≡ true)

abbrev pub seconds_of : Entry → Option ℕ
seconds_of e = Option.bind e.metadata (λ d. d.generation_seconds)

settle_hit-cases :
    (k l : ℕ) (e : Entry) (c : Cache)
    → ((settle_hit k l e c).0.consumers ≡ c.consumers)
      × ((settle_hit k l e c).0.entries ≡ c.entries)
      × ((seconds_of e ≡ none) × ((settle_hit k l e c).1 ≡ failed key_error)
          ⊎ (s : ℕ) × (seconds_of e ≡ some s)
            × ((settle_hit k l e c).1 ≡ Reply.hit k l e.bytes e.tier))
settle_hit-cases k l e c = elim (Option-cases (seconds_of e)) [
  | inl h ↦ (rw (h, settle_hit), rw (h, settle_hit), inl (h, rw (h, settle_hit)))
  | inr (s, h) ↦ (rw (h, settle_hit), rw (h, settle_hit), inr (s, h, rw (h, settle_hit)))
]

leased_lem :
    (o k l : ℕ) (r : Consumer) (e : Entry) (c d : Cache)
    → lookup k c.entries ≡ some e
    → d.consumers ≡ (leased o k l r e c).consumers
    → d.entries ≡ (leased o k l r e c).entries
    → Leased o l k d
leased_lem o k l r e c d here cs es = (
  record r { leases = insert l k r.leases },
  listed,
  ap (lookup o) cs ∙ lookup-insert_self o _ c.consumers,
  lookup-insert_self l k r.leases,
  ap (lookup k) es ∙ lookup-move_to_end k listed _ there k ∙ there,
  ground (arith, contains-add l l e.leases),
)
  where
    listed : Entry
    listed = record e { leases = add l e.leases }

    there : lookup k (insert k listed c.entries) ≡ some listed
    there = lookup-insert_self k listed c.entries

-- A live consumer that acquires a published entry is turned away beyond its copy budget with
-- entries and consumers unchanged, and within it holds a lease recorded on both sides, the reply
-- being the hit or, when the metadata lacks its generation seconds, a KeyError.
pub acquire_published :
    (env : Env) (o k size wait n : ℕ) (r : Consumer) (e : Entry) (c : Cache)
    → lookup o c.consumers ≡ some r
    → lookup k c.entries ≡ some e
    → e.state ≡ ready
    → private c.entries r.leases ≡ some n
    → let (c', reply) = acquire_round env o k size wait c in
      ((r.copy_limit < n + e.bytes)
        × (reply ≡ bypass consumer_copy_budget)
        × (c'.entries ≡ c.entries)
        × (c'.consumers ≡ c.consumers))
      ⊎ ((n + e.bytes ≤ r.copy_limit)
          × Leased o env.lease k c'
          × ((seconds_of e ≡ none) × (reply ≡ failed key_error)
              ⊎ (s : ℕ) × (seconds_of e ≡ some s) × (reply ≡ Reply.hit k env.lease e.bytes e.tier)))
unfolding acquire_round acquire_settled take_lease
acquire_published env o k size wait n r e c live here done priv =
    let idle : is_generating k c ≡ false = ground arith in
    let path : acquire_round env o k size wait c ≡ take_lease env o k r e c =
      rw (idle, acquire_round, live, acquire_settled, here) in
    elim (Bool-cases (ltb r.copy_limit (n + e.bytes))) [
      | inl h ↦ rw path (rw (priv, take_lease, h) (inl (ground arith, refl, refl, refl)))
      | inr h ↦
          let (cs, es, reply) = settle_hit-cases k env.lease e (leased o k env.lease r e c) in
          rw path (
            rw (priv, take_lease, h)
              (inr (
                ground arith,
                leased_lem o k env.lease r e c
                    (settle_hit k env.lease e (leased o k env.lease r e c)).0 here cs es,
                reply,
              )))
    ]

-- What a consumer gets that asks for a published content of `n` bytes when `p` bytes are leased to it:
-- it is turned away beyond its limit, and else holds a lease and gets the content, or a KeyError when
-- the metadata lacks its generation seconds.
abbrev pub Answered :
    (env : Env) (reader k n p : ℕ) → Tier → Metadata → Consumer → Cache → Cache × Reply → Type 0
Answered env reader k n p tier d r c (c', reply) =
    ((r.copy_limit < p + n)
      × (reply ≡ bypass consumer_copy_budget)
      × (c'.entries ≡ c.entries)
      × (c'.consumers ≡ c.consumers))
    ⊎ ((p + n ≤ r.copy_limit)
        × Leased reader env.lease k c'
        × ((d.generation_seconds ≡ none) × (reply ≡ failed key_error)
            ⊎ (s : ℕ) × (d.generation_seconds ≡ some s) × (reply ≡ Reply.hit k env.lease n tier)))

publish_published :
    (o k : ℕ) (d : Metadata) (size : Option ℕ) (c : Cache)
    → (publish o k d size c).1 ≡ published
    → (n : ℕ) × (e : Entry) × (size ≡ some n)
      × (lookup k c.entries ≡ some e)
      × (produces o e ≡ true)
      × (n ≤ e.bytes)
      × (d.canonical_bytes ≤ 128 * 1024)
      × (lookup k (publish o k d size c).0.entries ≡ some (sealed_entry d n e))
unfolding publish
publish_published o k d none c h = absurd (ground arith)
publish_published o k d (some n) c h = go (lookup k c.entries) refl h
  where
    go :
        (q : Option Entry)
        → lookup k c.entries ≡ q
        → (publish o k d (some n) c).1 ≡ published
        → (m : ℕ) × (e : Entry) × (some n ≡ some m)
          × (lookup k c.entries ≡ some e)
          × (produces o e ≡ true)
          × (m ≤ e.bytes)
          × (d.canonical_bytes ≤ 128 * 1024)
          × (lookup k (publish o k d (some n) c).0.entries ≡ some (sealed_entry d m e))
    go none q h' = absurd (ground arith)
    go (some e) q h' = (
      n,
      e,
      refl,
      q,
      ground arith,
      ground arith,
      ground arith,
      ground (arith, lookup-insert_self k (sealed_entry d n e) c.entries),
    )

-- After a successful publication, which is by the producer of an unfinished entry and no larger
-- than reserved, a live consumer that acquires the key next gets the published content with its
-- size and tier: beyond its copy budget it is turned away with entries and consumers unchanged, and
-- within it holds a lease recorded on both sides, the reply being the hit or, when the metadata
-- lacks its generation seconds, a KeyError.
pub acquire-publish :
    (o k n : ℕ) (d : Metadata) (c : Cache)
    → (publish o k d (some n) c).1 ≡ published
    → (env : Env) (reader size wait p : ℕ) (r : Consumer)
    → lookup reader (publish o k d (some n) c).0.consumers ≡ some r
    → private (publish o k d (some n) c).0.entries r.leases ≡ some p
    → (e : Entry) × (lookup k c.entries ≡ some e)
      × (produces o e ≡ true)
      × (n ≤ e.bytes)
      × Answered env reader k n p e.tier d r
          (publish o k d (some n) c).0
          (acquire_round env reader k size wait (publish o k d (some n) c).0)
unfolding Option.bind
acquire-publish o k n d c h env reader size wait p r live priv =
    let (m, e, same, here, mine, fit, small, sealed) = publish_published o k d (some n) c h in
    let eq : m ≡ n = ground (arith, same) in
    (
      e,
      here,
      mine,
      omega (arith, fit, eq),
      subst
          (λ z.
            Answered env reader k z p e.tier d r (publish o k d (some n) c).0
              (acquire_round env reader k size wait (publish o k d (some n) c).0))
          eq
          (acquire_published env reader k size wait p r (sealed_entry d m e)
            (publish o k d (some n) c).0 live sealed refl priv),
    )
