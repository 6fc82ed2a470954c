-- ===== src/Relay/Silence.antt =====
-- No history of a GPU relay dispatches a request that was withdrawn before its dispatch
-- (relay_server.py).
use tiny_dsv.Base.{
  ℕ, ◌+◌, ◌*◌, min, ◌≡◌, refl, ap, Bool, true, false, not, ◌||◌, ◌&&◌, Option, none, some, List, [],
  ◌∷◌, length, leb, arith, if◌then◌else◌,
}
use tiny_dsv.Base.Dict.{Dict, lookup, insert, erase}
use tiny_dsv.Relay.State.{
  Failure, Outcome, Status, Row, Result, Phase, Worker, Relay, reserved, max_tracked,
}
use tiny_dsv.Relay.Generations.{
  admitted, admit_generation, signalled, start_worker, submit_generation, acknowledge_delivery,
  cancel_generation,
}
use tiny_dsv.Relay.Threads.{dispatch, receive, echo, publish}
use tiny_dsv.Relay.Running.{with_worker_lem}
use tiny_dsv.Relay.Entering.{lookup-recover_all}
use tiny_dsv.Relay.Serving.{acknowledge_delivery_lem, signalled_lem}
use tiny_dsv.Relay.Withdrawal.{
  Withdrawn, insert-present, replaced-Withdrawn, recorded-Withdrawn, finish_generation-Withdrawn,
  erased-Withdrawn, dispatch_from-Withdrawn, receive_from-Withdrawn, echo_from-Withdrawn,
  publish_from-Withdrawn,
}
use tiny_dsv.Relay.Threads.{Event, step, run, recover, recovered}

module _ {R : Type 0} (id : ℕ) where
  admitted-Withdrawn :
      (k digest deadline : ℕ) (is_submitted : Bool) (phase : Phase R) (s : Relay R)
      → Withdrawn id s
      → lookup k s.journal ≡ none
      → Withdrawn id (admitted k digest deadline is_submitted phase s)
  admitted-Withdrawn k digest deadline is_submitted phase s d new =
      let u : Worker R = record {
        request_id = k;
        is_submitted = is_submitted;
        phase = phase;
        cancel = false;
        dispatched = false;
        deadline = deadline;
      } in
      let d' = replaced-Withdrawn id s s.next_context u d (λ i c.
        absurd (let (row, at) = d.present in ground (arith, ap (λ z. lookup z s.journal) i))) in
      record {
        present = insert-present id k _ s.journal d.present;
        silent = d'.silent;
        stopped = d'.stopped;
      }

  admit_generation-Withdrawn :
      (now k digest timeout_ms : ℕ) (is_echo is_submitted : Bool) (phase : Phase R) (s : Relay R)
      → Withdrawn id s
      → Withdrawn id (admit_generation now k digest timeout_ms is_echo is_submitted phase s).0
  unfolding admit_generation
  admit_generation-Withdrawn now k digest timeout_ms is_echo is_submitted phase s d =
      go
        (not (
          leb 1 timeout_ms
          && leb timeout_ms (if is_echo then 20000 else s.generation_seconds * 1000)))
        (s.stopped || leb s.deadline now) (lookup k s.journal) refl
        (leb s.max_inflight (length (reserved s))) (leb max_tracked (length s.journal))
    where
      go :
          (b c : Bool) (o : Option Row)
          → lookup k s.journal ≡ o
          → (x y : Bool)
          → Withdrawn id
              (let out : Relay R × Outcome ℕ =
                  if b
                  then (s, Outcome.refused Failure.value_error)
                  else if c
                  then (s, Outcome.refused Failure.value_error)
                  else elim o [
                    | some row ↦ (s, Outcome.refused Failure.conflict)
                    | none ↦
                        if x
                        then (s, Outcome.refused Failure.capacity)
                        else if y
                        then (s, Outcome.refused Failure.capacity)
                        else (
                          admitted k digest
                              (min (now + timeout_ms) s.deadline)
                              is_submitted
                              phase
                              s,
                          Outcome.ok s.next_context,
                        )
                  ] in
                out).0
      go true c o p x y = d
      go false true o p x y = d
      go false false (some row) p x y = d
      go false false none p true y = d
      go false false none p false true = d
      go false false none p false false =
          admitted-Withdrawn k digest (min (now + timeout_ms) s.deadline) is_submitted phase s d p

  completions-Withdrawn :
      (s : Relay R) (c : Dict (Option (Result R)))
      → Withdrawn id s
      → Withdrawn id (record s { completions = c })
  completions-Withdrawn s c d = record {
    present = d.present;
    silent = d.silent;
    stopped = d.stopped;
  }

  start_worker-Withdrawn :
      (k : ℕ) (has_started : Bool) (out : Relay R × Outcome ℕ)
      → Withdrawn id out.0
      → Withdrawn id (start_worker k has_started out).0
  start_worker-Withdrawn k has_started (s, Outcome.refused f) d = d
  start_worker-Withdrawn k true (s, Outcome.ok t) d = completions-Withdrawn s _ d
  start_worker-Withdrawn k false (s, Outcome.ok t) d =
      let s' : Relay R = record s { completions = insert k none s.completions } in
      let d' = finish_generation-Withdrawn id k t Status.failed s' (completions-Withdrawn s _ d) in
      completions-Withdrawn _ _ (erased-Withdrawn id _ t d')

  submit_generation-Withdrawn :
      (now k digest timeout_ms : ℕ) (has_started : Bool) (s : Relay R)
      → Withdrawn id s
      → Withdrawn id (submit_generation now k digest timeout_ms has_started s).0
  unfolding submit_generation
  submit_generation-Withdrawn now k digest timeout_ms has_started s d =
      start_worker-Withdrawn k has_started _
        (admit_generation-Withdrawn now k digest timeout_ms false true Phase.connecting s d)

  acknowledge_delivery-Withdrawn :
      (k : ℕ) (s : Relay R) → Withdrawn id s → Withdrawn id (acknowledge_delivery k s).0
  acknowledge_delivery-Withdrawn k s d =
      acknowledge_delivery_lem (Withdrawn id) k s d
        (λ row h. recorded-Withdrawn id s k _ s.active (erase k s.completions) d)

  signalled-Withdrawn : (k : ℕ) (s : Relay R) → Withdrawn id s → Withdrawn id (signalled k s)
  signalled-Withdrawn k s d =
      signalled_lem (Withdrawn id) k s d
        (λ t w h. replaced-Withdrawn id s t (record w { cancel = true }) d (λ e c. refl))

  cancel_generation-Withdrawn :
      (k : ℕ) (s : Relay R) → Withdrawn id s → Withdrawn id (cancel_generation k s).0
  unfolding cancel_generation
  cancel_generation-Withdrawn k s d = go (lookup k s.journal) (leb max_tracked (length s.journal))
    where
      go :
          (o : Option Row) (b : Bool)
          → Withdrawn id
              (let out : Relay R × Outcome Unit = elim o [
                | some row ↦ (signalled k s, Outcome.ok tt)
                | none ↦ if b then (s, Outcome.refused Failure.capacity) else (
                  signalled k (record s {
                    journal =
                        insert k
                          (record {
                            status = Status.cancelled;
                            boot_id = s.boot_id;
                            payload_sha256 = none;
                            delivery_acknowledged = false;
                          })
                          s.journal;
                  }),
                  Outcome.ok tt,
                )
              ] in
                out).0
      go (some row) b = signalled-Withdrawn k s d
      go none true = d
      go none false = signalled-Withdrawn k _ (recorded-Withdrawn id s k _ s.active s.completions d)

  recover-Withdrawn :
      (boot_id deadline : ℕ) (s : Relay R)
      → Withdrawn id s
      → Withdrawn id (recover boot_id deadline s)
  unfolding recover
  recover-Withdrawn boot_id deadline s d = record {
    present =
        let (row, at) = d.present in
        (recovered row, ground (arith, lookup-recover_all id s.journal));
    silent = d.silent;
    stopped = λ t w h i c. absurd (ground arith);
  }

  step-Withdrawn : (e : Event R) (s : Relay R) → Withdrawn id s → Withdrawn id (step e s)
  unfolding step dispatch receive echo publish
  step-Withdrawn (Event.submitted now k digest timeout_ms has_started) s d =
      submit_generation-Withdrawn now k digest timeout_ms has_started s d
  step-Withdrawn (Event.generated now k digest timeout_ms) s d =
      admit_generation-Withdrawn now k digest timeout_ms false false Phase.connecting s d
  step-Withdrawn (Event.echoed now k digest timeout_ms) s d =
      admit_generation-Withdrawn now k digest timeout_ms true false (Phase.echoing 3) s d
  step-Withdrawn (Event.withdrawn k) s d = cancel_generation-Withdrawn k s d
  step-Withdrawn (Event.acknowledged k) s d = acknowledge_delivery-Withdrawn k s d
  step-Withdrawn (Event.connected now t is_good) s d =
      with_worker_lem (Withdrawn id) t _ s d
        (λ w h. dispatch_from-Withdrawn id s d now t w h is_good w.phase refl)
  step-Withdrawn (Event.written now t is_good) s d =
      with_worker_lem (Withdrawn id) t _ s d
        (λ w h. echo_from-Withdrawn id s d now t w h is_good w.phase)
  step-Withdrawn (Event.received now t answer) s d =
      with_worker_lem (Withdrawn id) t _ s d
        (λ w h. receive_from-Withdrawn id s d now t w h answer w.phase)
  step-Withdrawn (Event.completed t) s d =
      with_worker_lem (Withdrawn id) t _ s d (λ w h. publish_from-Withdrawn id s d 0 t w h w.phase)
  step-Withdrawn Event.stopped s d = record {
    present = d.present;
    silent = d.silent;
    stopped = d.stopped;
  }
  step-Withdrawn (Event.restarted boot_id deadline) s d = recover-Withdrawn boot_id deadline s d

  pub run-Withdrawn : (es : List (Event R)) (s : Relay R) → Withdrawn id s → Withdrawn id (run es s)
  run-Withdrawn [] s d = d
  run-Withdrawn (e ∷ es) s d = run-Withdrawn es (step e s) (step-Withdrawn e s d)
