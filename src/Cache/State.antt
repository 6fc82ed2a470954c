-- ===== src/Cache/State.antt =====
-- The state of InputCache (rollout_manager/input_cache.py): entries, consumers and counters.
-- Keys, tokens and leases are numbers (a SHA-256 digest, a UUID); seconds are a count of a fixed
-- unit. Descriptors and paths stay out of the state.
use tiny_dsv.Base.{ℕ, Bool, true, false, Option, List, []}
use tiny_dsv.Base.Dict.{Dict, total}
use tiny_dsv.Base.{if◌then◌else◌}

pub data Tier : Type 0 where
  ram disk : Tier

pub data Phase : Type 0 where
  generating ready : Phase

-- What the cache reads of the JSON metadata: a missing field is `none`. `canonical_bytes` is the
-- length of its canonical encoding.
pub record Metadata : Type 0 where
  pub generation_seconds : Option ℕ
  pub publication_copy_bytes : Option ℕ
  pub publication_copy_seconds : Option ℕ
  pub canonical_bytes : ℕ

pub record Entry : Type 0 where
  pub bytes : ℕ
  pub tier : Tier
  pub state : Phase
  pub producer : ℕ
  pub leases : List ℕ
  pub metadata : Option Metadata
  pub metadata_bytes : ℕ

-- A lease names the entry that it pins.
pub record Consumer : Type 0 where
  pub copy_limit : ℕ
  pub leases : Dict ℕ

pub record Metrics : Type 0 where
  pub hits : ℕ
  pub misses : ℕ
  pub bypasses : ℕ
  pub evictions : ℕ
  pub evicted_bytes : ℕ
  pub publications : ℕ
  pub generation_bytes_saved : ℕ
  pub estimated_generation_seconds_saved : ℕ
  pub publication_copy_bytes : ℕ
  pub publication_copy_seconds : ℕ

-- `entries` is an OrderedDict, least recently used first.
pub record Cache : Type 0 where
  pub capacity_ram : ℕ
  pub capacity_disk : ℕ
  pub max_entries : ℕ
  pub entries : Dict Entry
  pub consumers : Dict Consumer
  pub metrics : Metrics

abbrev pub capacity : Cache → Tier → ℕ
capacity c ram = c.capacity_ram
capacity c disk = c.capacity_disk

abbrev pub same_tier : Tier → Tier → Bool
same_tier ram ram = true
same_tier disk disk = true
same_tier _ _ = false

abbrev pub is_ready : Phase → Bool
is_ready ready = true
is_ready generating = false

abbrev pub is_empty : List ℕ → Bool
is_empty [] = true
is_empty _ = false

abbrev pub bytes_in : Tier → Entry → ℕ
bytes_in t e = if same_tier e.tier t then e.bytes else 0

-- `_used`.
abbrev pub used : Dict Entry → Tier → ℕ
used entries t = total (bytes_in t) entries

abbrev pub no_metrics : Metrics
no_metrics = record {
  hits = 0;
  misses = 0;
  bypasses = 0;
  evictions = 0;
  evicted_bytes = 0;
  publications = 0;
  generation_bytes_saved = 0;
  estimated_generation_seconds_saved = 0;
  publication_copy_bytes = 0;
  publication_copy_seconds = 0;
}
