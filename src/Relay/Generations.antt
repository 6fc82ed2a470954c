-- ===== src/Relay/Generations.antt =====
-- The requests of a GPU relay (relay_server.py, RelayState): admission, cancellation, completion and
-- acknowledgement, each under the lock of the state.
use tiny_dsv.Base.{
  ℕ, ◌+◌, ◌*◌, min, Bool, true, false, not, ◌&&◌, ◌||◌, Option, none, some, length, leb, ◌==◌,
  if◌then◌else◌,
}
use tiny_dsv.Base.Dict.{lookup, insert, erase}
use tiny_dsv.Relay.State.{Failure, Outcome, Status, Result, Phase, Relay, max_tracked, reserved}

module _ {R : Type 0} where
  unfoldable pub finish_generation : (id context : ℕ) → Status → Relay R → Relay R × Outcome Unit
  finish_generation id context status s = elim (lookup id s.active) [
    | none ↦ (s, Outcome.refused Failure.conflict)
    | some owner ↦
        if owner == context
        then elim (lookup id s.journal) [
          | none ↦ (s, Outcome.refused Failure.unknown)
          | some row ↦ (
            record s {
              journal = insert id (record row { status = status }) s.journal;
              active = erase id s.active;
            },
            Outcome.ok tt,
          )
        ]
        else (s, Outcome.refused Failure.conflict)
  ]

  -- A request that was admitted, in the state.
  abbrev pub admitted :
      (id digest deadline : ℕ) (is_submitted : Bool) (phase : Phase R) → Relay R → Relay R
  admitted id digest deadline is_submitted phase s = record s {
    journal =
        insert id
          (record {
            status = Status.running;
            boot_id = s.boot_id;
            payload_sha256 = some digest;
            delivery_acknowledged = false;
          })
          s.journal;
    active = insert id s.next_context s.active;
    workers =
        insert s.next_context
          (record {
            request_id = id;
            is_submitted = is_submitted;
            phase = phase;
            cancel = false;
            dispatched = false;
            deadline = deadline;
          })
          s.workers;
    next_context = s.next_context + 1;
  }

  -- `timeout_ms` with the digest of the payload; the result is the identity of the context, whose
  -- thread starts in the phase given.
  unfoldable pub admit_generation :
      (now id digest timeout_ms : ℕ) (is_echo is_submitted : Bool) (phase : Phase R)
      → Relay R
      → Relay R × Outcome ℕ
  admit_generation now id digest timeout_ms is_echo is_submitted phase s =
      let maximum = if is_echo then 20000 else s.generation_seconds * 1000 in
      if not (leb 1 timeout_ms && leb timeout_ms maximum)
      then (s, Outcome.refused Failure.value_error)
      else if s.stopped || leb s.deadline now
      then (s, Outcome.refused Failure.value_error)
      else elim (lookup id s.journal) [
        | some row ↦ (s, Outcome.refused Failure.conflict)
        | none ↦
            if leb s.max_inflight (length (reserved s))
            then (s, Outcome.refused Failure.capacity)
            else if leb max_tracked (length s.journal)
            then (s, Outcome.refused Failure.capacity)
            else (
              admitted id digest (min (now + timeout_ms) s.deadline) is_submitted phase s,
              Outcome.ok s.next_context,
            )
      ]

  -- The entry of the completion, and the thread; `has_started` tells whether it could be started.
  abbrev pub start_worker :
      (id : ℕ) (has_started : Bool) → Relay R × Outcome ℕ → Relay R × Outcome Unit
  start_worker id has_started (s, Outcome.refused f) = (s, Outcome.refused f)
  start_worker id has_started (s, Outcome.ok context) =
      let entered : Relay R = record s { completions = insert id none s.completions } in
      let dropped : Relay R = (finish_generation id context Status.failed entered).0 in
      if has_started then (entered, Outcome.ok tt) else (
        record dropped {
          completions = erase id dropped.completions;
          workers = erase context dropped.workers;
        },
        Outcome.refused Failure.internal,
      )

  unfoldable pub submit_generation :
      (now id digest timeout_ms : ℕ) (has_started : Bool) → Relay R → Relay R × Outcome Unit
  submit_generation now id digest timeout_ms has_started s =
      start_worker id has_started
        (admit_generation now id digest timeout_ms false true Phase.connecting s)

  unfoldable pub completion_entry : ℕ → Relay R → Outcome (Option (Result R))
  completion_entry id s = elim (lookup id s.completions) [
    | some entry ↦ Outcome.ok entry
    | none ↦ elim (lookup id s.journal) [
      | none ↦ Outcome.refused Failure.unknown
      | some row ↦ Outcome.refused Failure.gone
    ]
  ]

  unfoldable pub acknowledge_delivery : ℕ → Relay R → Relay R × Outcome Unit
  acknowledge_delivery id s = elim (lookup id s.journal) [
    | none ↦ elim (completion_entry id s) [
      | Outcome.refused f ↦ (s, Outcome.refused f)
      | Outcome.ok none ↦ (s, Outcome.refused Failure.conflict)
      | Outcome.ok (some r) ↦ (s, Outcome.refused Failure.internal)
    ]
    | some row ↦
        if row.delivery_acknowledged then (s, Outcome.ok tt) else elim (completion_entry id s) [
          | Outcome.refused f ↦ (s, Outcome.refused f)
          | Outcome.ok none ↦ (s, Outcome.refused Failure.conflict)
          | Outcome.ok (some r) ↦ (
            record s {
              journal = insert id (record row { delivery_acknowledged = true }) s.journal;
              completions = erase id s.completions;
            },
            Outcome.ok tt,
          )
        ]
  ]

  -- The cancellation reaches the thread through its context.
  abbrev pub signalled : ℕ → Relay R → Relay R
  signalled id s = elim (lookup id s.active) [
    | none ↦ s
    | some context ↦ elim (lookup context s.workers) [
      | none ↦ s
      | some w ↦ record s { workers = insert context (record w { cancel = true }) s.workers }
    ]
  ]

  -- A request that is not known leaves a tombstone.
  unfoldable pub cancel_generation : ℕ → Relay R → Relay R × Outcome Unit
  cancel_generation id s = elim (lookup id s.journal) [
    | some row ↦ (signalled id s, Outcome.ok tt)
    | none ↦ if leb max_tracked (length s.journal) then (s, Outcome.refused Failure.capacity) else (
      signalled id (record s {
        journal =
            insert id
              (record {
                status = Status.cancelled;
                boot_id = s.boot_id;
                payload_sha256 = none;
                delivery_acknowledged = false;
              })
              s.journal;
      }),
      Outcome.ok tt,
    )
  ]
