-- ===== src/Relay/Threads.antt =====
-- The threads of a GPU relay (relay_server.py): execute_generation and Handler.echo, from one lock to
-- the next, the worker of submit_generation, and the start of a relay on the journal it finds.
use tiny_dsv.Base.{
  ℕ, ◌+◌, ◌-◌, Bool, true, false, not, ◌||◌, Option, none, some, List, [], ◌∷◌, length, leb,
  if◌then◌else◌,
}
use tiny_dsv.Base.Dict.{Dict, lookup, insert, erase}
use tiny_dsv.Relay.State.{Status, Row, Result, Phase, Worker, Relay, max_tracked}
use tiny_dsv.Relay.Generations.{
  finish_generation, admit_generation, submit_generation, acknowledge_delivery, cancel_generation,
}

-- What the upstream service answered, as far as the code looks at it: `receipt` is a failure receipt
-- that its check accepts, with the test failure_is_terminal; `body` is a valid response.
pub record Answer (R : Type 0) : Type 0 where
  pub is_too_large : Bool
  pub is_complete : Bool
  pub is_ok : Bool
  pub receipt : Option (R × Bool)
  pub body : Option R

module _ {R : Type 0} where
  -- The service refused the request; a controlled one may prove that the sampling has ended.
  abbrev pub refusal : (is_controlled : Bool) → Option (R × Bool) → Status × Result R
  refusal true none = (Status.uncertain, Result.rejected none)
  refusal true (some (r, true)) = (Status.failed, Result.rejected (some r))
  refusal true (some (r, false)) = (Status.uncertain, Result.rejected (some r))
  refusal false receipt = (Status.failed, Result.rejected none)

  abbrev pub completion : Option R → Status × Result R
  completion none = (Status.uncertain, Result.rejected none)
  completion (some r) = (Status.finished, Result.response r)

  -- The status and the result of a generation that was dispatched; none stands for an exception.
  unfoldable pub settle : (is_controlled is_over : Bool) → Option (Answer R) → Status × Result R
  settle is_controlled is_over none = (Status.uncertain, Result.rejected none)
  settle is_controlled is_over (some a) =
      if a.is_too_large || is_over || not a.is_complete
      then (Status.uncertain, Result.rejected none)
      else if not a.is_ok
      then refusal is_controlled a.receipt
      else completion a.body

  -- The end of a thread: the record is finished, and the result of a submitted request is kept until
  -- it is published.
  abbrev pub ended : (context : ℕ) → Worker R → Status → Result R → Relay R → Relay R
  ended context w status r s =
      let finished : Relay R = (finish_generation w.request_id context status s).0 in
      record finished {
        workers =
            if w.is_submitted
            then insert context (record w { phase = Phase.answered r }) finished.workers
            else erase context finished.workers;
      }

  -- A thread goes on; it holds its context.
  abbrev pub with_worker : ℕ → (Worker R → Relay R) → Relay R → Relay R
  with_worker context f s = elim (lookup context s.workers) [ none ↦ s | some w ↦ f w ]

  -- The connection was made, or not; then the request is dispatched unless it is too late.
  abbrev pub dispatch_from :
      (now context : ℕ) (is_connected : Bool) → Relay R → Worker R → Phase R → Relay R
  dispatch_from now context is_connected s w Phase.connecting =
      if not is_connected || (w.cancel || leb w.deadline now)
      then ended context w Status.failed (Result.rejected none) s
      else record s {
        workers = insert context (record w { dispatched = true; phase = Phase.waiting }) s.workers;
        sent = w.request_id ∷ s.sent;
      }
  dispatch_from now context is_connected s w _ = s

  unfoldable pub dispatch : (now context : ℕ) (is_connected : Bool) → Relay R → Relay R
  dispatch now context is_connected s =
      with_worker context (λ w. dispatch_from now context is_connected s w w.phase) s

  abbrev pub receive_from :
      (now context : ℕ) → Option (Answer R) → Relay R → Worker R → Phase R → Relay R
  receive_from now context answer s w Phase.waiting =
      let out : Status × Result R =
        settle s.is_controlled (w.cancel || leb w.deadline now) answer in
      ended context w out.0 out.1 s
  receive_from now context answer s w _ = s

  unfoldable pub receive : (now context : ℕ) → Option (Answer R) → Relay R → Relay R
  receive now context answer s =
      with_worker context (λ w. receive_from now context answer s w w.phase) s

  -- A chunk of an echo is written, or the client has gone; the last one ends the request.
  abbrev pub echo_from :
      (now context : ℕ) (is_written : Bool) → Relay R → Worker R → Phase R → Relay R
  echo_from now context is_written s w (Phase.echoing left) =
      if not is_written || (w.cancel || leb w.deadline now)
      then ended context w Status.failed (Result.rejected none) s
      else if leb left 1
      then ended context w Status.finished (Result.rejected none) s
      else record s {
        workers = insert context (record w { phase = Phase.echoing (left - 1) }) s.workers;
      }
  echo_from now context is_written s w _ = s

  unfoldable pub echo : (now context : ℕ) (is_written : Bool) → Relay R → Relay R
  echo now context is_written s =
      with_worker context (λ w. echo_from now context is_written s w w.phase) s

  -- The worker of a submitted request sets the event of its completion.
  abbrev pub publish_from : (context : ℕ) → Relay R → Worker R → Phase R → Relay R
  publish_from context s w (Phase.answered r) = record s {
    workers = erase context s.workers;
    completions = elim (lookup w.request_id s.completions) [
      | none ↦ s.completions
      | some entry ↦ insert w.request_id (some r) s.completions
    ];
  }
  publish_from context s w _ = s

  unfoldable pub publish : (context : ℕ) → Relay R → Relay R
  publish context s = with_worker context (λ w. publish_from context s w w.phase) s

-- A record of the journal on disk: a request that was running has an unknown outcome.
abbrev pub status_after : Status → Status
status_after Status.running = Status.uncertain
status_after other = other

abbrev pub recovered : Row → Row
recovered row = record row { status = status_after row.status }

abbrev pub recover_all : Dict Row → Dict Row
recover_all [] = []
recover_all ((id, row) ∷ rows) = (id, recovered row) ∷ recover_all rows

module _ {R : Type 0} where
  -- A new process starts on the journal; one that is too long stops it.
  unfoldable pub recover : (boot_id deadline : ℕ) → Relay R → Relay R
  recover boot_id deadline s = record s {
    stopped = leb (max_tracked + 1) (length s.journal);
    boot_id = boot_id;
    deadline = deadline;
    journal = recover_all s.journal;
    active = [];
    workers = [];
    completions = [];
  }

-- What happens to a relay, in any order: requests of its clients, the steps of its threads, the end
-- of its service and the start of another process.
pub data Event (R : Type 0) : Type 0 where
  submitted : (now id digest timeout_ms : ℕ) (has_started : Bool) → Event R
  generated echoed : (now id digest timeout_ms : ℕ) → Event R
  withdrawn acknowledged : (id : ℕ) → Event R
  connected written : (now context : ℕ) (is_good : Bool) → Event R
  received : (now context : ℕ) → Option (Answer R) → Event R
  completed : (context : ℕ) → Event R
  stopped : Event R
  restarted : (boot_id deadline : ℕ) → Event R

module _ {R : Type 0} where
  unfoldable pub step : Event R → Relay R → Relay R
  step (Event.submitted now id digest timeout_ms has_started) s =
      (submit_generation now id digest timeout_ms has_started s).0
  step (Event.generated now id digest timeout_ms) s =
      (admit_generation now id digest timeout_ms false false Phase.connecting s).0
  step (Event.echoed now id digest timeout_ms) s =
      (admit_generation now id digest timeout_ms true false (Phase.echoing 3) s).0
  step (Event.withdrawn id) s = (cancel_generation id s).0
  step (Event.acknowledged id) s = (acknowledge_delivery id s).0
  step (Event.connected now context is_good) s = dispatch now context is_good s
  step (Event.written now context is_good) s = echo now context is_good s
  step (Event.received now context answer) s = receive now context answer s
  step (Event.completed context) s = publish context s
  step Event.stopped s = record s { stopped = true }
  step (Event.restarted boot_id deadline) s = recover boot_id deadline s

  abbrev pub run : List (Event R) → Relay R → Relay R
  run [] s = s
  run (e ∷ es) s = run es (step e s)

-- A relay with an empty journal.
abbrev pub begin :
    {R : Type 0} → (max_inflight generation_seconds deadline : ℕ) (is_controlled : Bool) → Relay R
begin max_inflight generation_seconds deadline is_controlled = record {
  max_inflight = max_inflight;
  generation_seconds = generation_seconds;
  is_controlled = is_controlled;
  deadline = deadline;
  stopped = false;
  boot_id = 0;
  journal = [];
  active = [];
  workers = [];
  completions = [];
  next_context = 0;
  sent = [];
}
