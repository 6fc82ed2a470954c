-- ===== src/Budget/State.antt =====
-- ByteBudget of rollout_manager/host_memory.py: a queue of reservations and the allocations. Keys are
-- numbers. A turn of the loop of `acquire` is one step, under the lock of the condition.
use tiny_dsv.Base.{
  ℕ, ◌+◌, Bool, true, false, not, ◌&&◌, ◌||◌, Option, none, some, List, [], ◌∷◌, ◌++◌, leb, ltb,
  ◌==◌, if◌then◌else◌,
}
use tiny_dsv.Base.Dict.{Dict, lookup, insert, erase, total}

pub record Allocation : Type 0 where
  pub bytes : ℕ
  pub is_quarantined : Bool

-- `enqueued` and `admitted` are the keys that were enqueued and admitted, in their order.
pub record Budget : Type 0 where
  pub capacity : ℕ
  pub waiting : List (ℕ × ℕ)
  pub allocations : Dict Allocation
  pub enqueued : List ℕ
  pub admitted : List ℕ

abbrev pub used : Budget → ℕ
used b = total (λ (a : Allocation). a.bytes) b.allocations

abbrev pub new_budget : ℕ → Option Budget
new_budget capacity =
    if leb capacity 0
    then none
    else some (record {
      capacity = capacity;
      waiting = [];
      allocations = [];
      enqueued = [];
      admitted = [];
    })

abbrev pub is_waiting : ℕ → List (ℕ × ℕ) → Bool
is_waiting key [] = false
is_waiting key ((k, n) ∷ rest) = k == key || is_waiting key rest

abbrev pub is_allocated : ℕ → Budget → Bool
is_allocated key b = elim (lookup key b.allocations) [ none ↦ false | some a ↦ true ]

unfoldable pub enqueue : (key size : ℕ) → Budget → Option Budget
enqueue key size b =
    if not (ltb 0 size && leb size b.capacity)
    then none
    else if is_allocated key b || is_waiting key b.waiting
    then none
    else some
        (record b { waiting = b.waiting ++ (key, size) ∷ []; enqueued = b.enqueued ++ key ∷ [] })

-- The entries of a key leave the queue.
abbrev pub without : ℕ → List (ℕ × ℕ) → List (ℕ × ℕ)
without key [] = []
without key ((k, n) ∷ rest) =
    let others = without key rest in if k == key then others else (k, n) ∷ others

unfoldable pub cancel : ℕ → Budget → Budget
cancel key b = record b { waiting = without key b.waiting }

-- The first entry of a key.
abbrev pub entry_of : ℕ → List (ℕ × ℕ) → Option ℕ
entry_of key [] = none
entry_of key ((k, n) ∷ rest) = if k == key then some n else entry_of key rest

-- A turn of acquire: MemoryAdmissionCancelled, a wait, or the admission.
pub data Turn : Type 0 where
  cancelled waits admits : Turn

-- The head of the queue is this entry.
abbrev pub is_head : (key size : ℕ) → List (ℕ × ℕ) → Bool
is_head key size [] = false
is_head key size ((k, n) ∷ rest) = k == key && n == size

abbrev pub tail : List (ℕ × ℕ) → List (ℕ × ℕ)
tail [] = []
tail (entry ∷ rest) = rest

unfoldable pub acquire : (key : ℕ) (is_cancelled : Bool) → Budget → Budget × Turn
acquire key is_cancelled b =
    if is_cancelled then (cancel key b, Turn.cancelled) else elim (entry_of key b.waiting) [
      | none ↦ (b, Turn.cancelled)
      | some size ↦
          if is_head key size b.waiting && leb (used b + size) b.capacity
          then (
            record b {
              waiting = tail b.waiting;
              allocations =
                  insert key (record { bytes = size; is_quarantined = false }) b.allocations;
              admitted = b.admitted ++ key ∷ [];
            },
            Turn.admits,
          )
          else (b, Turn.waits)
    ]

unfoldable pub quarantine : ℕ → Budget → Option Budget
quarantine key b = elim (lookup key b.allocations) [
  | none ↦ none
  | some a ↦
      some
        (record b { allocations = insert key (record a { is_quarantined = true }) b.allocations })
]

unfoldable pub release : ℕ → Budget → Budget
release key b = cancel key (record b { allocations = erase key b.allocations })

-- evaluator_memory, in its three parts: the reservation, a turn of its wait, and its end. Every
-- exception withdraws the key.
abbrev pub enter : (key size : ℕ) → Budget → Budget
enter key size b = elim (enqueue key size b) [ none ↦ cancel key b | some b' ↦ b' ]

abbrev pub after_turn : (key : ℕ) → Budget × Turn → Budget
after_turn key (b, Turn.cancelled) = cancel key b
after_turn key (b, _) = b

abbrev pub leave : (key : ℕ) (is_quarantined : Bool) → Budget → Budget
leave key true b = elim (quarantine key b) [ none ↦ b | some b' ↦ b' ]
leave key false b = release key b

-- The evaluators that share the budget, in any order.
pub data Event : Type 0 where
  enters : (key size : ℕ) → Event
  turns : (key : ℕ) (is_cancelled : Bool) → Event
  leaves : (key : ℕ) (is_quarantined : Bool) → Event

abbrev pub step : Event → Budget → Budget
step (Event.enters key size) b = enter key size b
step (Event.turns key is_cancelled) b = after_turn key (acquire key is_cancelled b)
step (Event.leaves key is_quarantined) b = leave key is_quarantined b

abbrev pub run : List Event → Budget → Budget
run [] b = b
run (e ∷ es) b = run es (step e b)
