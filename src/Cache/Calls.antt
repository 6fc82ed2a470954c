-- ===== src/Cache/Calls.antt =====
-- `publish`, `abort`, `snapshot`, `dispatch` and `clear` of rollout_manager/input_cache.py.
use mathlib.Core.Option
use Prim.Native.String.{String}
use tiny_dsv.Base.{
  ℕ, ◌-◌, min, max, ◌+◌, ◌*◌, Bool, true, false, ◌&&◌, Option, none, some, List, [], ◌∷◌, length,
  ltb, leb, if◌then◌else◌,
}
use tiny_dsv.Base.Dict.{Dict, lookup, insert, keys, total}
use tiny_dsv.Cache.State.{
  Cache, Consumer, Entry, Metadata, ram, disk, ready, is_ready, used, no_metrics,
}
use tiny_dsv.Cache.Space.{Reason, remove}
use tiny_dsv.Cache.Requests.{
  Reply, Env, Request, failed, key_error, invalid_publication, metadata_bound, unknown_consumer,
  unknown_operation, live_consumers,
}
use tiny_dsv.Cache.Leases.{begin, release, end_consumer, produces}
use tiny_dsv.Cache.Acquire.{acquire, acquire_round, private, is_consumer}

-- The counters of a publication, each read after the entry has changed.
abbrev pub count_publication : Metadata → Cache → Cache × Reply
count_publication d c = elim d.publication_copy_bytes [
  | none ↦ (c, failed key_error)
  | some bytes ↦
      let c' : Cache = record c {
        metrics = record (c.metrics) {
          publication_copy_bytes = c.metrics.publication_copy_bytes + bytes;
        };
      } in
      elim d.publication_copy_seconds [
        | none ↦ (c', failed key_error)
        | some seconds ↦ (
          record c' {
            metrics = record (c'.metrics) {
              publication_copy_seconds = c'.metrics.publication_copy_seconds + seconds;
            };
          },
          Reply.published,
        )
      ]
]

abbrev pub sealed_entry : Metadata → ℕ → Entry → Entry
sealed_entry d size item = record item {
  bytes = size;
  metadata = some d;
  metadata_bytes = d.canonical_bytes;
  state = ready;
}

abbrev pub may_publish : ℕ → ℕ → Entry → Bool
may_publish consumer size item = produces consumer item && leb size item.bytes

unfoldable pub publish : ℕ → ℕ → Metadata → Option ℕ → Cache → Cache × Reply
publish consumer key d none c = elim (lookup key c.entries) [
  | none ↦ (c, failed key_error)
  | some _ ↦ (c, failed invalid_publication)
]
publish consumer key d (some size) c = elim (lookup key c.entries) [
  | none ↦ (c, failed key_error)
  | some item ↦
      if may_publish consumer size item
      then (if ltb (128 * 1024) d.canonical_bytes
          then (c, failed metadata_bound)
          else count_publication d (record c {
            entries = insert key (sealed_entry d size item) c.entries;
            metrics = record (c.metrics) { publications = c.metrics.publications + 1 };
          }))
      else (c, failed invalid_publication)
]

-- `abort` in `dispatch`.
unfoldable pub abort : ℕ → ℕ → Cache → Cache × Reply
abort consumer key c = elim (lookup key c.entries) [
  | none ↦ (c, Reply.aborted)
  | some item ↦ elim (produces consumer item) [
    | false ↦ (c, Reply.aborted)
    | true ↦ elim (remove key Reason.aborted c) [
      | none ↦ (c, failed key_error)
      | some c' ↦ (c', Reply.aborted)
    ]
  ]
]

-- `sum(self.entries[k]["bytes"] for c in consumers for k in c["leases"])`.
abbrev pub cow_reserved : Dict Entry → Dict Consumer → Option ℕ
cow_reserved entries [] = some 0
cow_reserved entries ((k, r) ∷ consumers) = elim (private entries r.leases) [
  | none ↦ none
  | some n ↦ Option.map (λ m. n + m) (cow_reserved entries consumers)
]

unfoldable pub snapshot : Cache → Cache × Reply
snapshot c = elim (cow_reserved c.entries c.consumers) [
  | none ↦ (c, failed key_error)
  | some n ↦ (
    c,
    Reply.report (record {
      shared_ram_bytes = used c.entries ram;
      shared_disk_bytes = used c.entries disk;
      generating_bytes = total (λ e. if is_ready e.state then 0 else e.bytes) c.entries;
      entries = length c.entries;
      consumers = length c.consumers;
      metadata_bytes = total (λ e. e.metadata_bytes) c.entries;
      metadata_bound_bytes = c.max_entries * (128 * 1024);
      references = total (λ r. length r.leases) c.consumers;
      consumer_cow_reserved_bytes = n;
    }),
  )
]

abbrev pub release_reply : Cache → Option Cache → Cache × Reply
release_reply c none = (c, failed key_error)
release_reply c (some c') = (c', Reply.released)

-- What `dispatch` does for a registered consumer.
unfoldable pub serve : (String → ℕ) → Env → Request → Cache → Cache × Reply
serve sha256 env Request.snapshot c = snapshot c
serve sha256 env (Request.begin limit) c = begin env limit c
serve sha256 env (Request.acquire consumer identity size wait_seconds) c =
    acquire sha256 env consumer identity size wait_seconds c
serve sha256 env (Request.publish consumer key d size) c = publish consumer key d size c
serve sha256 env (Request.release consumer lease) c = release_reply c (release consumer lease c)
serve sha256 env (Request.finish consumer) c = end_consumer consumer c
serve sha256 env (Request.abort consumer key) c = abort consumer key c
serve sha256 env (Request.other consumer) c = (c, failed unknown_operation)

-- `request.get("consumer")`; a snapshot and a `begin` are served before it is read.
abbrev pub requester : Request → Option ℕ
requester Request.snapshot = none
requester (Request.begin limit) = none
requester (Request.acquire consumer identity size wait_seconds) = some consumer
requester (Request.publish consumer key d size) = some consumer
requester (Request.release consumer lease) = some consumer
requester (Request.finish consumer) = some consumer
requester (Request.abort consumer key) = some consumer
requester (Request.other consumer) = some consumer

unfoldable pub dispatch : (String → ℕ) → Env → Request → Cache → Cache × Reply
dispatch sha256 env request c = elim (requester request) [
  | none ↦ serve sha256 env request c
  | some consumer ↦
      if is_consumer consumer c then serve sha256 env request c else (c, failed unknown_consumer)
]

unfoldable pub clear_all : List ℕ → Cache → Option Cache
clear_all [] c = some c
clear_all (key ∷ rest) c = elim (remove key Reason.cleared c) [
  | none ↦ none
  | some c' ↦ clear_all rest c'
]

unfoldable pub clear : Cache → Cache × Reply
clear c = elim c.consumers [
  | [] ↦ elim (clear_all (keys c.entries) c) [
    | none ↦ (c, failed key_error)
    | some c' ↦ (c', Reply.cleared)
  ]
  | _ ∷ _ ↦ (c, failed live_consumers)
]

-- The entry limit is lowered to what the limit on open files allows.
abbrev pub entry_limit : ℕ → ℕ → ℕ
entry_limit max_entries soft_limit =
    if ltb 0 soft_limit then min max_entries (max 1 (soft_limit - 128)) else max_entries

-- `InputCache(...)`: its limits are checked first; `none` is a ValueError. The root folder and the
-- server are left out.
unfoldable pub init : Option ℕ → Option ℕ → ℕ → ℕ → Option Cache
init (some ram_bytes) (some disk_bytes) max_entries soft_limit =
    if leb 1 (ram_bytes + disk_bytes) && leb 1 max_entries
    then some (record {
      capacity_ram = ram_bytes;
      capacity_disk = disk_bytes;
      max_entries = entry_limit max_entries soft_limit;
      entries = [];
      consumers = [];
      metrics = no_metrics;
    })
    else none
init _ _ max_entries soft_limit = none

-- What happens to a cache under its lock: a request, or one more round of a waiting `acquire`.
pub data Event : Type 0 where
  call : Request → Event
  wake : ℕ → ℕ → ℕ → ℕ → Event

unfoldable pub step : (String → ℕ) → Env → Event → Cache → Cache × Reply
step sha256 env (call request) c = dispatch sha256 env request c
step sha256 env (wake consumer key size wait_seconds) c =
    acquire_round env consumer key size wait_seconds c
