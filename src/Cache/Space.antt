-- ===== src/Cache/Space.antt =====
-- `_remove` and `_space` of rollout_manager/input_cache.py: room is made by evicting ready entries
-- that nobody leases, least recently used first.
use tiny_dsv.Base.{
  ℕ, ◌+◌, Bool, true, false, ◌&&◌, Option, none, some, [], ◌∷◌, length, ltb, leb, if◌then◌else◌,
}
use tiny_dsv.Base.Dict.{Dict, lookup, erase}
use tiny_dsv.Cache.State.{Cache, Entry, Tier, capacity, used, same_tier, is_ready, is_empty}

pub data Reason : Type 0 where
  evict aborted cleared : Reason

-- The counters of `_remove`: only an eviction is counted.
abbrev pub count_removal : Reason → ℕ → Cache → Cache
count_removal evict bytes c = record c {
  metrics = record (c.metrics) {
    evictions = c.metrics.evictions + 1;
    evicted_bytes = c.metrics.evicted_bytes + bytes;
  };
}
count_removal aborted bytes c = c
count_removal cleared bytes c = c

abbrev pub removed : ℕ → Entry → Reason → Cache → Cache
removed key item reason c =
    count_removal reason item.bytes (record c { entries = erase key c.entries })

-- `none` is the KeyError of `entries.pop`.
unfoldable pub remove : ℕ → Reason → Cache → Option Cache
remove key reason c = elim (lookup key c.entries) [
  | none ↦ none
  | some item ↦ some (removed key item reason c)
]

-- Enough bytes of the tier and one more entry are free.
abbrev pub has_room : Tier → ℕ → Cache → Bool
has_room t size c =
    leb (used c.entries t + size) (capacity c t) && ltb (length c.entries) c.max_entries

abbrev pub is_victim : Tier → Entry → Bool
is_victim t item = same_tier item.tier t && is_ready item.state && is_empty item.leases

-- The loop of `_space` over a snapshot of the items.
unfoldable pub make_room : Tier → ℕ → Dict Entry → Cache → Option (Bool × Cache)
unfolding remove
make_room t size [] c = some (has_room t size c, c)
make_room t size ((key, item) ∷ items) c = elim (has_room t size c) [
  | true ↦ some (true, c)
  | false ↦ elim (is_victim t item) [
    | true ↦ elim (remove key evict c) [ none ↦ none | some c' ↦ make_room t size items c' ]
    | false ↦ make_room t size items c
  ]
]

unfoldable pub space : Tier → ℕ → Cache → Option (Bool × Cache)
space t size c = if ltb (capacity c t) size then some (false, c) else make_room t size c.entries c
