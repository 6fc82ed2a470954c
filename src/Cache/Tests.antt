-- ===== src/Cache/Tests.antt =====
-- Runs of the cache, and the theorems at concrete caches.
use Prim.Native.String.{String}
use tiny_dsv.Base.{
  ℕ, ◌+◌, ◌≤◌, ◌<◌, ◌≡◌, refl, Bool, true, false, some, none, List, [], ◌∷◌, arith, ◌⊎◌, ◌≢◌,
}
use tiny_dsv.Base.Dict.{lookup}
use tiny_dsv.Cache.State.{
  Cache, Entry, Consumer, Metadata, ram, generating, ready, no_metrics, capacity,
}
use tiny_dsv.Cache.Space.{space, make_room, remove, has_room, is_victim}
use tiny_dsv.Cache.Requests.{
  Reply, Env, Request, Identity, cache_key, cleared, ended, failed, key_error, live_consumers,
  bypass, consumer_copy_budget,
}
use tiny_dsv.Cache.Leases.{begin, release, release_all, abort_all, retire, end_consumer, produces}
use tiny_dsv.Cache.Acquire.{
  take_lease, try_tier, choose_tier, reserve, acquire_settled, acquire_round, acquire,
}
use tiny_dsv.Cache.Calls.{
  publish, abort, snapshot, serve, dispatch, clear_all, clear, init, Event, call, wake, step,
}
use tiny_dsv.Cache.Invariant.{Inv}
use tiny_dsv.Cache.Leasing.{FreshLease}
use tiny_dsv.Cache.Eviction.{Evicts, space_lem}
use tiny_dsv.Cache.Ending.{end_consumer_lem}
use tiny_dsv.Cache.Steps.{step-Inv}
use tiny_dsv.Cache.Histories.{run, FreshRun, run-init-Inv, clear_lem}
use tiny_dsv.Cache.Replies.{Leased, seconds_of, Answered, acquire_published, acquire-publish}

program : Unit {0}
unfolding space make_room remove begin release release_all abort_all retire end_consumer take_lease
    try_tier choose_tier reserve acquire_settled acquire_round acquire cache_key publish abort
    snapshot serve dispatch clear_all clear init step run
program = tt

abbrev digest : String → ℕ
digest s = 7

abbrev env : ℕ → ℕ → Env
env token lease = record { token = token; lease = lease; elapsed = 0; storage_ok = true }

abbrev start : Cache
start = record {
  capacity_ram = 100;
  capacity_disk = 0;
  max_entries = 2;
  entries = [];
  consumers = [];
  metrics = no_metrics;
}

abbrev timed : Metadata
timed = record {
  generation_seconds = some 3;
  publication_copy_bytes = some 60;
  publication_copy_seconds = some 1;
  canonical_bytes = 40;
}

abbrev cold : Identity
cold = record {
  fields =
      "task_sha256" ∷ "generator_sha256" ∷ "configuration" ∷ "namespace" ∷ "seed" ∷ "trial_index"
      ∷ "input_contract" ∷ "adapter_version" ∷ "runtime" ∷ "rng_before" ∷ [];
  namespace = "development";
  canonical = "{}";
}

-- One consumer generates an entry of 60 bytes.
abbrev history : List (Env × Event)
history =
    (env 1 10, call (Request.begin (some 80)))
    ∷ (env 2 11, call (Request.acquire 1 cold (some 60) 240))
    ∷ (env 3 12, call (Request.publish 1 7 timed (some 60)))
    ∷ []

abbrev warm_entry : Entry
warm_entry = record {
  bytes = 60;
  tier = ram;
  state = ready;
  producer = 1;
  leases = [];
  metadata = some timed;
  metadata_bytes = 40;
}

abbrev first_consumer : Consumer
first_consumer = record { copy_limit = 80; leases = [] }

abbrev warm : Cache
warm = record start {
  entries = (7, warm_entry) ∷ [];
  consumers = (1, first_consumer) ∷ [];
  metrics = record no_metrics {
    misses = 1;
    publications = 1;
    publication_copy_bytes = 60;
    publication_copy_seconds = 1;
  };
}

history_result : run digest history start ≡ warm
unfolding program
history_result = refl

idle_fresh : (l : ℕ) → FreshLease ((1, first_consumer) ∷ []) l
idle_fresh l o k r h q = ground arith

history_fresh : FreshRun digest history start
unfolding program
history_fresh = (
  record { token = refl; lease = λ o k r h q. cc },
  (
    record { token = refl; lease = idle_fresh 11 },
    (record { token = refl; lease = idle_fresh 12 }, tt),
  ),
)

run-init-Inv_example : Inv (run digest history start)
unfolding init
run-init-Inv_example =
    run-init-Inv digest (some 100) (some 0) 2 1024 start history refl history_fresh

warm-Inv : Inv warm
unfolding program
warm-Inv = run-init-Inv_example

step-Inv_example : Inv (step digest (env 2 11) (call (Request.acquire 1 cold (some 60) 240)) warm).0
step-Inv_example =
    step-Inv digest (env 2 11) warm warm-Inv (record { token = refl; lease = idle_fresh 11 })
      (call (Request.acquire 1 cold (some 60) 240))

-- The entry is evicted for a larger one.
space_lem_example :
    (b : Bool) × (c' : Cache) × (space ram 70 warm ≡ some (b, c'))
    × Evicts ram warm c'
    × (b ≡ has_room ram 70 c')
    × (b ≡ false
        → 70 ≤ capacity warm ram
        → (k : ℕ) (e : Entry) → lookup k c'.entries ≡ some e
        → is_victim ram e ≡ false)
space_lem_example = space_lem ram 70 warm warm-Inv

evicted : (step digest (env 2 11) (wake 1 8 70 240) warm).1 ≡ Reply.miss 8 70 ram
unfolding program
evicted = refl

acquire_published_example :
    let (c', reply) = acquire_round (env 2 11) 1 7 60 240 warm in
    ((80 < 0 + 60)
      × (reply ≡ bypass consumer_copy_budget)
      × (c'.entries ≡ warm.entries)
      × (c'.consumers ≡ warm.consumers))
    ⊎ ((0 + 60 ≤ 80)
        × Leased 1 11 7 c'
        × ((seconds_of warm_entry ≡ none) × (reply ≡ failed key_error)
            ⊎ (s : ℕ) × (seconds_of warm_entry ≡ some s) × (reply ≡ Reply.hit 7 11 60 ram)))
acquire_published_example =
    acquire_published (env 2 11) 1 7 60 240 0 first_consumer warm_entry warm refl refl refl refl

abbrev making : Cache
making = record warm {
  entries = (7, record warm_entry { state = generating; metadata = none; metadata_bytes = 0 }) ∷ [];
}

acquire-publish_example :
    (e : Entry) × (lookup 7 making.entries ≡ some e)
    × (produces 1 e ≡ true)
    × (50 ≤ e.bytes)
    × Answered
        (env 2 11)
        1
        7
        50
        0
        e.tier
        timed
        first_consumer
        (publish 1 7 timed (some 50) making).0
        (acquire_round (env 2 11) 1 7 60 240 (publish 1 7 timed (some 50) making).0)
unfolding publish
acquire-publish_example =
    acquire-publish 1 7 50 timed making refl (env 2 11) 1 60 240 0 first_consumer refl refl

end_consumer_lem_example :
    (c' : Cache) × (end_consumer 1 warm ≡ (c', ended true))
    × Inv c'
    × (lookup 1 c'.consumers ≡ none)
    × ((k : ℕ) (e : Entry) → lookup k c'.entries ≡ some e → produces 1 e ≡ false)
end_consumer_lem_example = end_consumer_lem warm warm-Inv 1 first_consumer refl

-- With a live consumer the cache is not cleared.
clear_lem_example :
    ((warm.consumers ≡ []) × (c' : Cache) × (clear warm ≡ (c', cleared)) × (c'.entries ≡ []))
    ⊎ ((warm.consumers ≢ []) × (clear warm ≡ (warm, failed live_consumers)))
clear_lem_example = clear_lem warm warm-Inv

-- Metadata without its generation seconds: the reply is an error, and the lease is held.
abbrev untimed : Cache
untimed = record warm {
  entries =
      (7, record warm_entry { metadata = some (record timed { generation_seconds = none }) }) ∷ [];
}

lease_left_behind :
    ((acquire_round (env 2 11) 1 7 60 240 untimed).1 ≡ failed key_error)
    × (lookup 1 (acquire_round (env 2 11) 1 7 60 240 untimed).0.consumers
        ≡ some (record { copy_limit = 80; leases = (11, 7) ∷ [] }))
unfolding program mathlib.Core.Option.bind
lease_left_behind = (refl, refl)
