-- ===== src/Cache/Requests.antt =====
-- The requests, replies and cache keys of rollout_manager/input_cache.py. A size or limit that is
-- no nonnegative integer is `none`. UUIDs, the time waited so far and the success of the storage
-- allocation come from the environment.
use Prim.Native.String.{String}
use text.Mathlib.Text.{◌==◌ as str_eq}
use tiny_dsv.Base.{ℕ, Bool, ◌&&◌, ◌||◌, Option, none, some, List, [], ◌∷◌, any, all, if◌then◌else◌}
use tiny_dsv.Cache.State.{Metadata, Tier}

pub data Error : Type 0 where
  invalid_identity invalid_limit invalid_reservation invalid_publication metadata_bound : Error
  unknown_consumer unknown_operation consumer_cancelled live_consumers : Error
  key_error os_error : Error

pub data Why : Type 0 where
  generation_wait_timeout consumer_copy_budget capacity_or_pinned_entries : Why

pub record Snapshot : Type 0 where
  pub shared_ram_bytes : ℕ
  pub shared_disk_bytes : ℕ
  pub generating_bytes : ℕ
  pub entries : ℕ
  pub consumers : ℕ
  pub metadata_bytes : ℕ
  pub metadata_bound_bytes : ℕ
  pub references : ℕ
  pub consumer_cow_reserved_bytes : ℕ

-- `waiting` is one round of the condition variable: the caller comes back after it.
pub data Reply : Type 0 where
  began : ℕ → Reply
  hit : ℕ → ℕ → ℕ → Tier → Reply
  miss : ℕ → ℕ → Tier → Reply
  bypass : Why → Reply
  waiting published aborted released cleared : Reply
  ended : Bool → Reply
  report : Snapshot → Reply
  failed : Error → Reply

pub record Env : Type 0 where
  pub token : ℕ
  pub lease : ℕ
  pub elapsed : ℕ
  pub storage_ok : Bool

-- The identity of a cached input: the names of its fields, its namespace, and its canonical text.
pub record Identity : Type 0 where
  pub fields : List String
  pub namespace : String
  pub canonical : String

abbrev required : List String
required =
    "task_sha256" ∷ "generator_sha256" ∷ "configuration" ∷ "namespace" ∷ "seed" ∷ "trial_index"
    ∷ "input_contract" ∷ "adapter_version" ∷ "runtime" ∷ "rng_before" ∷ []

abbrev subset_of : List String → List String → Bool
subset_of xs ys = all (λ x. any (str_eq x) ys) xs

-- `cache_key`; `none` is its ValueError.
unfoldable pub cache_key : (String → ℕ) → Identity → Option ℕ
cache_key sha256 value =
    if subset_of value.fields required
      && subset_of required value.fields
      && (str_eq value.namespace "development" || str_eq value.namespace "final-verification")
    then some (sha256 value.canonical)
    else none

-- `consumer` arguments are tokens; `other` is an operation that the cache does not know.
pub data Request : Type 0 where
  snapshot : Request
  begin : Option ℕ → Request
  acquire : ℕ → Identity → Option ℕ → ℕ → Request
  publish : ℕ → ℕ → Metadata → Option ℕ → Request
  release : ℕ → ℕ → Request
  finish : ℕ → Request
  abort : ℕ → ℕ → Request
  other : ℕ → Request
