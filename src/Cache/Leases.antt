-- ===== src/Cache/Leases.antt =====
-- `begin`, `release` and `end` of rollout_manager/input_cache.py: the life of a consumer. A Python
-- exception keeps what was changed before it, so an operation returns the state with its reply.
use tiny_dsv.Base.{
  ℕ, Bool, true, false, not, ◌&&◌, Option, none, some, List, [], ◌∷◌, discard, ◌==◌,
}
use tiny_dsv.Base.Dict.{Dict, lookup, insert, erase, keys}
use tiny_dsv.Cache.State.{Cache, Consumer, Entry, is_ready}
use tiny_dsv.Cache.Space.{Reason, remove}
use tiny_dsv.Cache.Requests.{Reply, Env, invalid_limit, key_error}

unfoldable pub begin : Env → Option ℕ → Cache → Cache × Reply
begin env none c = (c, Reply.failed invalid_limit)
begin env (some limit) c = (
  record c {
    consumers = insert env.token (record { copy_limit = limit; leases = [] }) c.consumers;
  },
  Reply.began env.token,
)

abbrev pub unpin : ℕ → Option ℕ → Dict Entry → Dict Entry
unpin lease none entries = entries
unpin lease (some key) entries = elim (lookup key entries) [
  | none ↦ entries
  | some item ↦ insert key (record item { leases = discard lease item.leases }) entries
]

-- `release`; `none` is the KeyError of an unknown consumer.
unfoldable pub release : ℕ → ℕ → Cache → Option Cache
release consumer lease c = elim (lookup consumer c.consumers) [
  | none ↦ none
  | some r ↦ some (record c {
    consumers = insert consumer (record r { leases = erase lease r.leases }) c.consumers;
    entries = unpin lease (lookup lease r.leases) c.entries;
  })
]

unfoldable pub release_all : ℕ → List ℕ → Cache → Option Cache
release_all consumer [] c = some c
release_all consumer (lease ∷ leases) c = elim (release consumer lease c) [
  | none ↦ none
  | some c' ↦ release_all consumer leases c'
]

abbrev pub produces : ℕ → Entry → Bool
produces consumer item = not (is_ready item.state) && item.producer == consumer

-- The loop of `end` over a snapshot of the items.
unfoldable pub abort_all : ℕ → Dict Entry → Cache → Option Cache
abort_all consumer [] c = some c
abort_all consumer ((key, item) ∷ items) c = elim (produces consumer item) [
  | true ↦ elim (remove key Reason.aborted c) [
    | none ↦ none
    | some c' ↦ abort_all consumer items c'
  ]
  | false ↦ abort_all consumer items c
]

unfoldable pub retire : ℕ → Consumer → Cache → Option Cache
retire consumer r c = elim (release_all consumer (keys r.leases) c) [
  | none ↦ none
  | some c' ↦ elim (abort_all consumer c'.entries c') [
    | none ↦ none
    | some c'' ↦ some (record c'' { consumers = erase consumer c''.consumers })
  ]
]

-- `end`.
unfoldable pub end_consumer : ℕ → Cache → Cache × Reply
end_consumer consumer c = elim (lookup consumer c.consumers) [
  | none ↦ (c, Reply.ended false)
  | some r ↦ elim (retire consumer r c) [
    | none ↦ (c, Reply.failed key_error)
    | some c' ↦ (c', Reply.ended true)
  ]
]
