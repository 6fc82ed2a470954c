-- ===== src/Mailbox/Rounds.antt =====
-- One round of the loop of `_serve` (dsv41_train/rl/manager.py): the commands that have come, the
-- completion of the sampled group, the drained boundary, and the next group.
use tiny_dsv.Base.{
  ℕ, ◌+◌, Bool, true, false, not, ◌&&◌, ◌||◌, Option, none, some, List, [], ◌∷◌, ◌++◌, map, ltb,
  if◌then◌else◌, length,
}
use tiny_dsv.Base.Dict.{Dict, lookup, insert, keys, total}
use tiny_dsv.Mailbox.Sorting.{sort}
use tiny_dsv.Mailbox.State.{Manager, Row, Recovery, bound}
use tiny_dsv.Mailbox.Commands.{World, Command, Reply, run_command, is_idle, hang_up}

-- An arrival on the pipe: a command with its identifier, or the end of the file.
pub data Arrival : Type 0 where
  request : ℕ → Command → Arrival
  eof : Arrival

-- The sampling task: not done, failed, or done. The backend then has the packet of the group.
pub data Outcome : Type 0 where
  unfinished failed sampled : Outcome

abbrev pub is_nil : List ℕ → Bool
is_nil [] = true
is_nil (x ∷ xs) = false

-- The round goes on, or was the last one.
pub data Round (A : Type 0) : Type 0 where
  goes_on stops : Manager A → List (ℕ × Reply A) → Round A

module _ {A : Type 0} where
  unfoldable pub run_arrivals :
      World → List Arrival → Manager A → Option (Manager A × List (ℕ × Reply A))
  run_arrivals w [] m = some (m, [])
  run_arrivals w (eof ∷ rest) m = some (hang_up m, [])
  run_arrivals w (request id c ∷ rest) m = elim (run_command w id c m) [
    | none ↦ none
    | some (m', rs) ↦ elim (run_arrivals w rest m') [
      | none ↦ none
      | some (m'', rs') ↦ some (m'', rs ++ rs')
    ]
  ]

  -- A finished group is retained until it is committed.
  unfoldable pub settle : (ℕ → A) → Outcome → Manager A → Option (Manager A)
  settle take_packet outcome m = elim m.active [
    | none ↦ some m
    | some id ↦ elim outcome [
      | unfinished ↦ some m
      | failed ↦ none
      | sampled ↦ some (record m {
        retained = insert id (record { packet = take_packet id; delivered = false }) m.retained;
        active = none;
      })
    ]
  ]

  abbrev pub packets : List ℕ → Dict (Row A) → List A
  packets [] retained = []
  packets (k ∷ ks) retained = elim (lookup k retained) [
    | none ↦ packets ks retained
    | some row ↦ row.packet ∷ packets ks retained
  ]

  -- `snapshot`, at a drained boundary.
  unfoldable pub snapshot : Manager A → Recovery A
  snapshot m = record {
    schema_version = 1;
    lineage = m.lineage;
    next_group_id = some m.next_group;
    committed_highwater = some m.committed;
    dropped_groups = some m.dropped;
    pending = packets (sort (keys m.retained)) m.retained;
  }

  abbrev pub answer : (Recovery A → Reply A) → List ℕ → Manager A → List (ℕ × Reply A)
  answer reply ids m = map (λ id. (id, reply (snapshot m))) ids

  -- At a pause with no group under way: the waiters of `pause`, then those of `close`. An answer to
  -- `pause` asks the backend, and a snapshot wants it idle.
  unfoldable pub drain : World → Manager A → Option (Round A)
  drain w m =
      if m.paused && is_idle m
      then (if (is_nil m.pause_waiters || (w.control_ok && not w.busy))
          then (let m' = record m { pause_waiters = [] } in
              let answers = answer Reply.paused m.pause_waiters m' in
              if m.closing
              then (if (w.close_ok && (is_nil m.close_waiters || not w.busy))
                  then some (stops m' (answers ++ answer Reply.drained m.close_waiters m'))
                  else none)
              else some (goes_on m' answers))
          else none)
      else some (goes_on m [])

  -- Rows that nobody has asked for yet.
  abbrev pub queued : Dict (Row A) → ℕ
  queued = total (λ row. if row.delivered then 0 else 1)

  abbrev pub may_admit : Manager A → Bool
  may_admit m =
      not m.paused
      && is_idle m
      && ltb (length m.retained) (bound m)
      && ltb (queued m.retained) m.queue_capacity

  -- The cursor is reserved before the group is sampled, and never used again.
  unfoldable pub admit_group : Manager A → Manager A
  admit_group m =
      if may_admit m
      then record m { next_group = m.next_group + 1; active = some m.next_group }
      else m

  unfoldable pub round : (ℕ → A) → World → List Arrival → Outcome → Manager A → Option (Round A)
  round take_packet w arrivals outcome m = elim (run_arrivals w arrivals m) [
    | none ↦ none
    | some (m1, replies) ↦ elim (settle take_packet outcome m1) [
      | none ↦ none
      | some m2 ↦ elim (drain w m2) [
        | none ↦ none
        | some (stops m3 answers) ↦ some (stops m3 (replies ++ answers))
        | some (goes_on m3 answers) ↦ some (goes_on (admit_group m3) (replies ++ answers))
      ]
    ]
  ]
