-- ===== src/Cache/Acquire.antt =====
-- `acquire` of rollout_manager/input_cache.py: wait for a producer, lease an entry, or reserve room.
use mathlib.Core.Option
use Prim.Native.String.{String}
use tiny_dsv.Base.{
  ℕ, ◌+◌, min, Bool, true, false, not, Option, none, some, [], ◌∷◌, add, ltb, leb, ◌==◌,
  if◌then◌else◌,
}
use tiny_dsv.Base.Dict.{Dict, lookup, insert, move_to_end}
use tiny_dsv.Cache.State.{
  Cache, capacity, Consumer, Entry, Metrics, Tier, ram, disk, generating, is_ready,
}
use tiny_dsv.Cache.Space.{space}
use tiny_dsv.Cache.Requests.{
  Why, Reply, Env, Identity, cache_key, failed, key_error, invalid_identity, invalid_reservation,
  consumer_cancelled, os_error, generation_wait_timeout, consumer_copy_budget,
  capacity_or_pinned_entries,
}

abbrev pub bypassed : Why → Cache → Cache × Reply
bypassed why c = (
  record c { metrics = record (c.metrics) { bypasses = c.metrics.bypasses + 1 } },
  Reply.bypass why,
)

abbrev pub missed : Cache → Cache
missed c = record c { metrics = record (c.metrics) { misses = c.metrics.misses + 1 } }

-- The bytes of the entries that the leases pin; `none` is a KeyError.
abbrev pub private : Dict Entry → Dict ℕ → Option ℕ
private entries [] = some 0
private entries ((lease, key) ∷ leases) = elim (lookup key entries) [
  | none ↦ none
  | some item ↦ Option.map (λ n. item.bytes + n) (private entries leases)
]

-- The second half of a hit: the counters, after the lease is recorded.
abbrev pub settle_hit : ℕ → ℕ → Entry → Cache → Cache × Reply
settle_hit key lease item c =
    let m : Metrics = record (c.metrics) {
      hits = c.metrics.hits + 1;
      generation_bytes_saved = c.metrics.generation_bytes_saved + item.bytes;
    } in
    elim (Option.bind item.metadata (λ d. d.generation_seconds)) [
      | none ↦ (record c { metrics = m }, failed key_error)
      | some seconds ↦ (
        record c {
          metrics = record m {
            estimated_generation_seconds_saved = m.estimated_generation_seconds_saved + seconds;
          };
        },
        Reply.hit key lease item.bytes item.tier,
      )
    ]

abbrev pub leased : ℕ → ℕ → ℕ → Consumer → Entry → Cache → Cache
leased consumer key lease r item c = record c {
  consumers = insert consumer (record r { leases = insert lease key r.leases }) c.consumers;
  entries = move_to_end key (insert key (record item { leases = add lease item.leases }) c.entries);
}

unfoldable pub take_lease : Env → ℕ → ℕ → Consumer → Entry → Cache → Cache × Reply
take_lease env consumer key r item c = elim (private c.entries r.leases) [
  | none ↦ (c, failed key_error)
  | some n ↦
      if ltb r.copy_limit (n + item.bytes)
      then bypassed consumer_copy_budget c
      else settle_hit key env.lease item (leased consumer key env.lease r item c)
]

unfoldable pub try_tier : Tier → ℕ → Cache → Option (Bool × Cache)
try_tier t size c = if capacity c t == 0 then some (false, c) else space t size c

-- `next(t for t in ("ram", "disk") if capacity[t] and _space(t, size))`.
unfoldable pub choose_tier : ℕ → Cache → Option (Option Tier × Cache)
choose_tier size c = elim (try_tier ram size c) [
  | none ↦ none
  | some (true, c') ↦ some (some ram, c')
  | some (false, c') ↦ elim (try_tier disk size c') [
    | none ↦ none
    | some (true, c'') ↦ some (some disk, c'')
    | some (false, c'') ↦ some (none, c'')
  ]
]

abbrev pub new_entry : ℕ → ℕ → Tier → Entry
new_entry consumer size t = record {
  bytes = size;
  tier = t;
  state = generating;
  producer = consumer;
  leases = [];
  metadata = none;
  metadata_bytes = 0;
}

unfoldable pub reserve : Env → ℕ → ℕ → ℕ → Cache → Cache × Reply
reserve env consumer key size c = elim (choose_tier size c) [
  | none ↦ (c, failed key_error)
  | some (none, c') ↦ bypassed capacity_or_pinned_entries c'
  | some (some t, c') ↦
      if env.storage_ok
      then (
        record c' { entries = insert key (new_entry consumer size t) c'.entries },
        Reply.miss key size t,
      )
      else (c', failed os_error)
]

-- After the wait for a producer.
unfoldable pub acquire_settled : Env → ℕ → ℕ → ℕ → Cache → Cache × Reply
acquire_settled env consumer key size c = elim (lookup consumer c.consumers) [
  | none ↦ (c, failed key_error)
  | some r ↦ elim (lookup key c.entries) [
    | none ↦ reserve env consumer key size (missed c)
    | some item ↦ take_lease env consumer key r item c
  ]
]

abbrev pub is_generating : ℕ → Cache → Bool
is_generating key c = elim (lookup key c.entries) [
  | none ↦ false
  | some item ↦ not (is_ready item.state)
]

abbrev pub is_consumer : ℕ → Cache → Bool
is_consumer consumer c = elim (lookup consumer c.consumers) [ none ↦ false | some _ ↦ true ]

-- One round of the loop of `acquire`.
unfoldable pub acquire_round : Env → ℕ → ℕ → ℕ → ℕ → Cache → Cache × Reply
acquire_round env consumer key size wait_seconds c =
    if is_generating key c
    then (if not (is_consumer consumer c)
        then (c, failed consumer_cancelled)
        else (if leb (min wait_seconds 240) env.elapsed
            then bypassed generation_wait_timeout c
            else (c, Reply.waiting)))
    else acquire_settled env consumer key size c

unfoldable pub acquire : (String → ℕ) → Env → ℕ → Identity → Option ℕ → ℕ → Cache → Cache × Reply
acquire sha256 env consumer identity size wait_seconds c = elim (cache_key sha256 identity) [
  | none ↦ (c, failed invalid_identity)
  | some key ↦ elim size [
    | none ↦ (c, failed invalid_reservation)
    | some n ↦ acquire_round env consumer key n wait_seconds c
  ]
]
