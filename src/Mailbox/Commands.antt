-- ===== src/Mailbox/Commands.antt =====
-- The commands of the learner in `_serve` (dsv41_train/rl/manager.py). An exception ends the
-- manager, `none`; the replies that were sent before it are not kept.
use tiny_dsv.Base.{
  ℕ, zero, suc, ◌+◌, Bool, true, false, not, ◌&&◌, Option, none, some, List, [], ◌∷◌, ◌++◌, all,
  if◌then◌else◌, length, contains,
}
use tiny_dsv.Base.Dict.{Dict, lookup, insert, erase, keys}
use tiny_dsv.Mailbox.Sorting.{sort}
use tiny_dsv.Mailbox.State.{Manager, Row, Recovery, list_eq}

-- What the backend and the stream answer at a call.
pub record World : Type 0 where
  pub control_ok : Bool
  pub stream_open : Bool
  pub busy : Bool
  pub can_evaluate : Bool
  pub close_ok : Bool

pub data Command : Type 0 where
  get pause activate evaluate resume close unknown : Command
  commit : List ℕ → List ℕ → Command

pub data Reply (A : Type 0) : Type 0 where
  empty : Reply A
  packet : A → Reply A
  marks : ℕ → ℕ → Reply A
  value ack : Reply A
  paused : Recovery A → Reply A
  drained : Recovery A → Reply A

abbrev pub nodup : List ℕ → Bool
nodup [] = true
nodup (x ∷ xs) = not (contains x xs) && nodup xs

abbrev pub take {ℓ} : {B : Type ℓ} → ℕ → List B → List B
take zero xs = []
take (suc n) [] = []
take (suc n) (x ∷ xs) = x ∷ take n xs

abbrev pub last_or : ℕ → List ℕ → ℕ
last_or d [] = d
last_or d (x ∷ xs) = last_or x xs

-- The high-water mark after `ids` are committed.
abbrev pub committed_after : List ℕ → ℕ → ℕ
committed_after [] c = c
committed_after (k ∷ ks) c = last_or k ks + 1

module _ {A : Type 0} where
  -- The first undelivered row in the order of the groups.
  unfoldable pub first_waiting : List ℕ → Dict (Row A) → Option (ℕ × Row A)
  first_waiting [] retained = none
  first_waiting (k ∷ ks) retained = elim (lookup k retained) [
    | none ↦ first_waiting ks retained
    | some row ↦ if row.delivered then first_waiting ks retained else some (k, row)
  ]

  unfoldable pub get_packet : Manager A → Manager A × Reply A
  get_packet m = elim (first_waiting (sort (keys m.retained)) m.retained) [
    | none ↦ (m, Reply.empty)
    | some (k, row) ↦ (
      record m { retained = insert k (record row { delivered = true }) m.retained },
      Reply.packet row.packet,
    )
  ]

  abbrev pub is_delivered : Dict (Row A) → ℕ → Bool
  is_delivered retained k = elim (lookup k retained) [ none ↦ false | some row ↦ row.delivered ]

  abbrev pub erase_all : List ℕ → Dict (Row A) → Dict (Row A)
  erase_all [] retained = retained
  erase_all (k ∷ ks) retained = erase_all ks (erase k retained)

  abbrev pub may_commit : List ℕ → Manager A → Bool
  may_commit ids m =
      nodup ids
      && list_eq ids (take (length ids) (sort (keys m.retained)))
      && all (is_delivered m.retained) ids

  unfoldable pub commit_groups : List ℕ → List ℕ → Manager A → Option (Manager A × Reply A)
  commit_groups consumed rejected m =
      let ids = sort (consumed ++ rejected) in
      if may_commit ids m
      then some (
        record m {
          retained = erase_all ids m.retained;
          committed = committed_after ids m.committed;
          dropped = m.dropped + length rejected;
        },
        Reply.marks (committed_after ids m.committed) (m.dropped + length rejected),
      )
      else none

  abbrev pub is_idle : Manager A → Bool
  is_idle m = elim m.active [ none ↦ true | some _ ↦ false ]

  -- A reply now, or none yet: `pause` and `close` are answered when the stream has drained.
  unfoldable pub run_command :
      World → ℕ → Command → Manager A → Option (Manager A × List (ℕ × Reply A))
  run_command w id Command.get m = let (m', r) = get_packet m in some (m', (id, r) ∷ [])
  run_command w id Command.pause m =
      some (record m { paused = true; pause_waiters = m.pause_waiters ++ id ∷ [] }, [])
  run_command w id (Command.commit consumed rejected) m = elim (commit_groups consumed rejected m) [
    | none ↦ none
    | some (m', r) ↦ some (m', (id, r) ∷ [])
  ]
  run_command w id Command.activate m =
      if m.paused && is_idle m && w.control_ok then some (m, (id, Reply.value) ∷ []) else none
  run_command w id Command.evaluate m =
      if m.paused && is_idle m && w.can_evaluate then some (m, (id, Reply.value) ∷ []) else none
  run_command w id Command.resume m =
      if not m.closing && w.control_ok && w.stream_open
      then some (record m { paused = false }, (id, Reply.ack) ∷ [])
      else none
  run_command w id Command.close m =
      some
        (record m { closing = true; paused = true; close_waiters = m.close_waiters ++ id ∷ [] }, [])
  run_command w id Command.unknown m = none

  -- The learner closed its side.
  abbrev pub hang_up : Manager A → Manager A
  hang_up m = record m { closing = true; paused = true }
