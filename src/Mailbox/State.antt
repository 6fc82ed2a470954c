-- ===== src/Mailbox/State.antt =====
-- The state of `_serve` (dsv41_train/rl/manager.py), its recovery record and the restoration of one.
-- A packet is opaque but for its group identifier. Configuration, policy lineages and request
-- identifiers are numbers.
use tiny_dsv.Base.{
  ℕ, ◌+◌, ◌-◌, Bool, true, false, not, ◌&&◌, ◌||◌, Option, none, some, List, [], ◌∷◌, leb, ltb,
  ◌==◌, if◌then◌else◌, length, range_from,
}
use tiny_dsv.Base.Dict.{Dict, lookup, insert, keys}
use tiny_dsv.Mailbox.Sorting.{sort}

pub record Row (A : Type 0) : Type 0 where
  pub packet : A
  pub delivered : Bool

pub record Manager (A : Type 0) : Type 0 where
  pub queue_capacity : ℕ
  pub groups_per_step : ℕ
  pub lineage : ℕ
  pub next_group : ℕ
  pub committed : ℕ
  pub dropped : ℕ
  pub retained : Dict (Row A)
  pub active : Option ℕ
  pub paused : Bool
  pub closing : Bool
  pub pause_waiters : List ℕ
  pub close_waiters : List ℕ

-- A recovery state. In `pending` a packet stands for its form as a dict, which `_encode_packet` makes
-- of its fields one by one.
pub record Recovery (A : Type 0) : Type 0 where
  pub schema_version : ℕ
  pub lineage : ℕ
  pub next_group_id : Option ℕ
  pub committed_highwater : Option ℕ
  pub dropped_groups : Option ℕ
  pub pending : List A

pub record Settings : Type 0 where
  pub queue_capacity : ℕ
  pub groups_per_step : ℕ
  pub lineage : ℕ
  pub next_group_id : ℕ
  pub start_paused : Bool

abbrev pub or_default : Option ℕ → ℕ → ℕ
or_default none d = d
or_default (some n) d = n

abbrev pub list_eq : List ℕ → List ℕ → Bool
list_eq [] [] = true
list_eq [] (y ∷ ys) = false
list_eq (x ∷ xs) [] = false
list_eq (x ∷ xs) (y ∷ ys) = x == y && list_eq xs ys

-- `list(range(start, stop))`.
abbrev pub range : ℕ → ℕ → List ℕ
range start stop = range_from start (stop - start)

module _ {A : Type 0} where
  abbrev pub bound : Manager A → ℕ
  bound m = m.queue_capacity + m.groups_per_step

  abbrev pub has : ℕ → Dict (Row A) → Bool
  has k m = elim (lookup k m) [ none ↦ false | some _ ↦ true ]

-- `_decode_packet`: the constructors may refuse the fields, and the training trace may disagree with
-- the native group and the policy acknowledgement.
abbrev pub decode_packet : {A : Type 0} → (agrees : A → Bool) → A → Option A
decode_packet agrees packet = if agrees packet then some packet else none

module _ {A : Type 0} (group_of : A → ℕ) where
  -- `none` is a ValueError: a refused packet, or an invalid or duplicate cursor.
  unfoldable pub load : (agrees : A → Bool) → ℕ → ℕ → List A → Dict (Row A) → Option (Dict (Row A))
  load agrees committed next [] retained = some retained
  load agrees committed next (raw ∷ encoded) retained = elim (decode_packet agrees raw) [
    | none ↦ none
    | some packet ↦
        if has (group_of packet) retained
          || not (leb committed (group_of packet) && ltb (group_of packet) next)
        then none
        else load agrees committed next encoded
            (insert (group_of packet) (record { packet = packet; delivered = false }) retained)
  ]

  abbrev pub opened : Settings → ℕ → ℕ → ℕ → Dict (Row A) → Manager A
  opened s next committed dropped retained = record {
    queue_capacity = s.queue_capacity;
    groups_per_step = s.groups_per_step;
    lineage = s.lineage;
    next_group = next;
    committed = committed;
    dropped = dropped;
    retained = retained;
    active = none;
    paused = s.start_paused;
    closing = false;
    pause_waiters = [];
    close_waiters = [];
  }

  -- The mailbox fits and has no gap.
  abbrev pub admit : Settings → ℕ → ℕ → ℕ → Dict (Row A) → Option (Manager A)
  admit s next committed dropped retained =
      if leb (length retained) (s.queue_capacity + s.groups_per_step)
        && list_eq (sort (keys retained)) (range committed next)
      then some (opened s next committed dropped retained)
      else none

  abbrev pub restored : (agrees : A → Bool) → Settings → Recovery A → ℕ → Option (Manager A)
  restored agrees s r next =
      elim (load agrees (or_default r.committed_highwater next) next r.pending []) [
        | none ↦ none
        | some retained ↦
            admit s next (or_default r.committed_highwater next) (or_default r.dropped_groups 0)
              retained
      ]

  -- The prologue of `_serve`; `none` is a ValueError.
  unfoldable pub start : (agrees : A → Bool) → Settings → Option (Recovery A) → Option (Manager A)
  start agrees s none = admit s s.next_group_id s.next_group_id 0 []
  start agrees s (some r) =
      if r.schema_version == 1 && r.lineage == s.lineage
      then restored agrees s r (or_default r.next_group_id s.next_group_id)
      else none
