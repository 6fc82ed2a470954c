-- ===== src/Cache/Steps.antt =====
-- Every step of the cache keeps it well-formed, and so does every history.
use mathlib.Core.Option
use Prim.Native.String.{String}
use tiny_dsv.Base.{
  ℕ, ◌+◌, ◌*◌, ◌≡◌, refl, false, Option, some, none, arith, inl, inr, ltb, leb, min, Bool-cases,
  Option-cases,
}
use tiny_dsv.Base.Dict.{lookup}
use tiny_dsv.Cache.State.{Cache, Entry, Consumer, Metadata, Phase, generating, ready}
use tiny_dsv.Cache.Space.{Reason}
use tiny_dsv.Cache.Requests.{Env, Request, Identity, cache_key}
use tiny_dsv.Cache.Leases.{begin, release, end_consumer, produces}
use tiny_dsv.Cache.Acquire.{
  settle_hit, leased, take_lease, acquire_settled, is_generating, is_consumer, acquire_round,
  acquire, missed,
}
use tiny_dsv.Cache.Calls.{
  publish, count_publication, may_publish, abort, snapshot, cow_reserved, release_reply, serve,
  requester, dispatch, Event, call, wake, step,
}
use tiny_dsv.Cache.Invariant.{Inv, generating-Unleased, erase-Sound}
use tiny_dsv.Cache.Publish.{publish-Sound}
use tiny_dsv.Cache.Leasing.{FreshLease, lease-Sound}
use tiny_dsv.Cache.Consumers.{begin-Sound}
use tiny_dsv.Cache.Releasing.{release_lem}
use tiny_dsv.Cache.Eviction.{remove-some}
use tiny_dsv.Cache.Ending.{end_consumer_lem, produces-generating}
use tiny_dsv.Cache.Reserving.{reserve_lem}

-- The UUIDs of the environment are new.
pub record Fresh (env : Env) (c : Cache) : Type 0 where
  pub token : lookup env.token c.consumers ≡ none
  pub lease : FreshLease c.consumers env.lease

settle_hit-Inv : (k l : ℕ) (e : Entry) (c : Cache) → Inv c → Inv (settle_hit k l e c).0
settle_hit-Inv k l e c v =
    elim (Option-cases (Option.bind e.metadata (λ d. d.generation_seconds))) [
      | inl h ↦ rw (h, settle_hit) v
      | inr (s, h) ↦ rw (h, settle_hit) v
    ]

module _ (env : Env) (c : Cache) (v : Inv c) (f : Fresh env c) where
  take_lease-Inv :
      (o k : ℕ) (r : Consumer) (e : Entry)
      → lookup o c.consumers ≡ some r
      → lookup k c.entries ≡ some e
      → e.state ≡ ready
      → Inv (take_lease env o k r e c).0
  unfolding take_lease
  take_lease-Inv o k r e live here published =
      let (n, p, fits) = v.budget o r live in
      elim (Bool-cases (ltb r.copy_limit (n + e.bytes))) [
        | inl h ↦ rw (p, take_lease, h) v
        | inr h ↦
            rw (p, take_lease, h)
              (settle_hit-Inv k env.lease e (leased o k env.lease r e c)
                (lease-Sound v o k env.lease r e live here published f.lease n p (ground arith)))
      ]

  settled_ready :
      (k : ℕ) (e : Entry)
      → is_generating k c ≡ false
      → lookup k c.entries ≡ some e
      → e.state ≡ ready
  settled_ready k e h here = go e.state refl
    where
      go : (s : Phase) → e.state ≡ s → s ≡ ready
      go ready p = refl
      go generating p = absurd (ground arith)

  acquire_settled-Inv :
      (o k size : ℕ) → is_generating k c ≡ false → Inv (acquire_settled env o k size c).0
  unfolding acquire_settled
  acquire_settled-Inv o k size h = elim (Option-cases (lookup o c.consumers)) [
    | inl dead ↦ rw (dead, acquire_settled) v
    | inr (r, live) ↦ elim (Option-cases (lookup k c.entries)) [
      | inl absent ↦
          let (c', reply, run, w, _) = reserve_lem env o k size r (missed c) v live absent in
          rw (live, acquire_settled, absent, run) w
      | inr (e, here) ↦
          rw (live, acquire_settled, here)
            (take_lease-Inv o k r e live here (settled_ready k e h here))
    ]
  ]

  acquire_round-Inv : (o k size wait : ℕ) → Inv (acquire_round env o k size wait c).0
  unfolding acquire_round
  acquire_round-Inv o k size wait = elim (Bool-cases (is_generating k c)) [
    | inr h ↦ rw (h, acquire_round) (acquire_settled-Inv o k size h)
    | inl h ↦ elim (Bool-cases (is_consumer o c)) [
      | inr dead ↦ rw (h, acquire_round, dead) v
      | inl live ↦ elim (Bool-cases (leb (min wait 240) env.elapsed)) [
        | inl late ↦ rw (h, acquire_round, live, late) v
        | inr early ↦ rw (h, acquire_round, live, early) v
      ]
    ]
  ]

  acquire-Inv :
      (sha256 : String → ℕ) (o : ℕ) (identity : Identity) (size : Option ℕ) (wait : ℕ)
      → Inv (acquire sha256 env o identity size wait c).0
  unfolding acquire
  acquire-Inv sha256 o identity size wait = go (cache_key sha256 identity) refl size
    where
      go :
          (k : Option ℕ)
          → cache_key sha256 identity ≡ k
          → (n : Option ℕ) → Inv (acquire sha256 env o identity n wait c).0
      go none h n = rw (h, acquire) v
      go (some k) h none = rw (h, acquire) v
      go (some k) h (some n) = rw (h, acquire) (acquire_round-Inv o k n wait)

  begin-Inv : (limit : Option ℕ) → Inv (begin env limit c).0
  unfolding begin
  begin-Inv none = v
  begin-Inv (some limit) = begin-Sound v env.token limit f.token

module _ (c : Cache) (v : Inv c) where
  count_publication-Inv : (d : Metadata) → Inv (count_publication d c).0
  count_publication-Inv d = elim (Option-cases d.publication_copy_bytes) [
    | inl h ↦ rw (h, count_publication) v
    | inr (b, h) ↦ elim (Option-cases d.publication_copy_seconds) [
      | inl g ↦ rw (h, count_publication, g) v
      | inr (s, g) ↦ rw (h, count_publication, g) v
    ]
  ]

module _ (c : Cache) (v : Inv c) where
  publish-Inv : (o k : ℕ) (d : Metadata) (size : Option ℕ) → Inv (publish o k d size c).0
  unfolding publish
  publish-Inv o k d none = elim (Option-cases (lookup k c.entries)) [
    | inl h ↦ rw (h, publish) v
    | inr (e, h) ↦ rw (h, publish) v
  ]
  publish-Inv o k d (some size) = elim (Option-cases (lookup k c.entries)) [
    | inl h ↦ rw (h, publish) v
    | inr (e, h) ↦ elim (Bool-cases (may_publish o size e)) [
      | inr g ↦ rw (h, publish, g) v
      | inl g ↦ elim (Bool-cases (ltb (128 * 1024) d.canonical_bytes)) [
        | inl big ↦ rw (h, publish, g, big) v
        | inr small ↦
            rw (h, publish, g, small)
              (count_publication-Inv _
                (publish-Sound v k size e d h (produces-generating o e (ground arith))
                  (ground arith))
                d)
      ]
    ]
  ]

  abort-Inv : (o k : ℕ) → Inv (abort o k c).0
  unfolding abort
  abort-Inv o k = elim (Option-cases (lookup k c.entries)) [
    | inl h ↦ rw (h, abort) v
    | inr (e, h) ↦ elim (Bool-cases (produces o e)) [
      | inr g ↦ rw (h, abort, g) v
      | inl g ↦
          rw (h, abort, g, remove-some k e Reason.aborted c h)
            (erase-Sound v k e h (generating-Unleased v k e h (produces-generating o e g)))
    ]
  ]

  snapshot-Inv : Inv (snapshot c).0
  unfolding snapshot
  snapshot-Inv = elim (Option-cases (cow_reserved c.entries c.consumers)) [
    | inl h ↦ rw (h, snapshot) v
    | inr (n, h) ↦ rw (h, snapshot) v
  ]

  release-Inv : (o l : ℕ) → Inv (release_reply c (release o l c)).0
  release-Inv o l = elim (Option-cases (lookup o c.consumers)) [
    | inl dead ↦ rw (release_dead o l dead) v
    | inr (r, live) ↦ let (c', run, w, _) = release_lem c v o l r live in rw run w
  ]
    where
      release_dead : (o l : ℕ) → lookup o c.consumers ≡ none → release o l c ≡ none
      release_dead o l h = unfold release in rw (h, release)

  end_consumer-Inv : (o : ℕ) → Inv (end_consumer o c).0
  unfolding end_consumer
  end_consumer-Inv o = elim (Option-cases (lookup o c.consumers)) [
    | inl dead ↦ rw (dead, end_consumer) v
    | inr (r, live) ↦ let (c', run, w, _, _) = end_consumer_lem c v o r live in rw run w
  ]

module _ (sha256 : String → ℕ) (env : Env) (c : Cache) (v : Inv c) (f : Fresh env c) where
  serve-Inv : (request : Request) → Inv (serve sha256 env request c).0
  unfolding serve
  serve-Inv Request.snapshot = snapshot-Inv c v
  serve-Inv (Request.begin limit) = begin-Inv env c v f limit
  serve-Inv (Request.acquire o identity size wait) =
      acquire-Inv env c v f sha256 o identity size wait
  serve-Inv (Request.publish o k d size) = publish-Inv c v o k d size
  serve-Inv (Request.release o l) = release-Inv c v o l
  serve-Inv (Request.finish o) = end_consumer-Inv c v o
  serve-Inv (Request.abort o k) = abort-Inv c v o k
  serve-Inv (Request.other o) = v

  dispatch-Inv : (request : Request) → Inv (dispatch sha256 env request c).0
  unfolding dispatch
  dispatch-Inv request = elim (Option-cases (requester request)) [
    | inl h ↦ rw (h, dispatch) (serve-Inv request)
    | inr (o, h) ↦ elim (Bool-cases (is_consumer o c)) [
      | inl live ↦ rw (h, dispatch, live) (serve-Inv request)
      | inr dead ↦ rw (h, dispatch, dead) v
    ]
  ]

  -- Every request, and every round of a waiting `acquire`, keeps the cache well-formed when its
  -- UUIDs are new: storage and entry count within their limits, every lease on a published entry
  -- that lists it and within its consumer's copy budget, every entry in the making with a live
  -- producer.
  pub step-Inv : (event : Event) → Inv (step sha256 env event c).0
  unfolding step
  step-Inv (call request) = dispatch-Inv request
  step-Inv (wake o k size wait) = acquire_round-Inv env c v f o k size wait
