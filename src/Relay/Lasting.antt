-- ===== src/Relay/Lasting.antt =====
-- The histories of a GPU relay without an acknowledgement of a request and without a restart keep its
-- published result (relay_server.py).
use tiny_dsv.Base.{
  ℕ, ◌+◌, ◌*◌, min, ◌≡◌, ◌≢◌, refl, ap, ◌∙◌, Bool, true, false, not, ◌||◌, ◌&&◌, Option, none, some,
  List, [], ◌∷◌, length, leb, ◌==◌, ==_iff, arith, if◌then◌else◌,
}
use tiny_dsv.Base.Dict.{lookup, insert, erase}
use tiny_dsv.Base.Updates.{lookup-insert_ne, lookup-erase_ne}
use tiny_dsv.Relay.State.{
  Failure, Outcome, Status, Row, Result, Phase, Relay, reserved, max_tracked,
}
use tiny_dsv.Relay.Generations.{
  admitted, admit_generation, signalled, start_worker, submit_generation, acknowledge_delivery,
  cancel_generation, finish_generation,
}
use tiny_dsv.Relay.Threads.{dispatch, receive, echo, publish}
use tiny_dsv.Relay.Running.{with_worker_lem}
use tiny_dsv.Relay.Serving.{acknowledge_delivery_lem, signalled_lem}
use tiny_dsv.Relay.Tracing.{
  Traced, replaced-Traced, erased-Traced, recorded-Traced, completions-Traced, insert-Waits,
  admitted-Traced,
}
use tiny_dsv.Relay.Standing.{
  finish_generation-Traced, dispatch_from-Traced, receive_from-Traced, echo_from-Traced,
  publish_from-Traced,
}
use tiny_dsv.Relay.Threads.{Event, step, run, recover}

-- The event is neither an acknowledgement of the request nor a restart.
abbrev pub spares : {R : Type 0} → ℕ → Event R → Bool
spares id (Event.acknowledged k) = not (k == id)
spares id (Event.restarted boot_id deadline) = false
spares id _ = true

abbrev pub all_spare : {R : Type 0} → ℕ → List (Event R) → Bool
all_spare id [] = true
all_spare id (e ∷ es) = spares id e && all_spare id es

module _ {R : Type 0} (id : ℕ) (o : Option (Result R)) where
  -- A request that is admitted is not the one whose result was published.
  abbrev Admitting : ℕ → Relay R × Outcome ℕ → Type 0
  Admitting k out =
      Traced id o out.0 × ((t : ℕ) → out.1 ≡ Outcome.ok t → (r : Result R) → o ≡ some r → k ≢ id)

  admit_generation-Traced :
      (now k digest timeout_ms : ℕ) (is_echo is_submitted : Bool) (phase : Phase R) (s : Relay R)
      → Traced id o s
      → Admitting k (admit_generation now k digest timeout_ms is_echo is_submitted phase s)
  unfolding admit_generation
  admit_generation-Traced now k digest timeout_ms is_echo is_submitted phase s d =
      go
        (not (
          leb 1 timeout_ms
          && leb timeout_ms (if is_echo then 20000 else s.generation_seconds * 1000)))
        (s.stopped || leb s.deadline now) (lookup k s.journal) refl
        (leb s.max_inflight (length (reserved s))) (leb max_tracked (length s.journal))
    where
      refused : (f : Failure) → Admitting k (s, Outcome.refused f)
      refused f = (d, λ t h. absurd (ground arith))

      go :
          (b c : Bool) (x : Option Row)
          → lookup k s.journal ≡ x
          → (y z : Bool)
          → Admitting k (
              let out : Relay R × Outcome ℕ =
                if b
                then (s, Outcome.refused Failure.value_error)
                else if c
                then (s, Outcome.refused Failure.value_error)
                else elim x [
                  | some row ↦ (s, Outcome.refused Failure.conflict)
                  | none ↦
                      if y
                      then (s, Outcome.refused Failure.capacity)
                      else if z
                      then (s, Outcome.refused Failure.capacity)
                      else (
                        admitted k digest (min (now + timeout_ms) s.deadline) is_submitted phase s,
                        Outcome.ok s.next_context,
                      )
                ] in
              out)
      go true c x p y z = refused Failure.value_error
      go false true x p y z = refused Failure.value_error
      go false false (some row) p y z = refused Failure.conflict
      go false false none p true z = refused Failure.capacity
      go false false none p false true = refused Failure.capacity
      go false false none p false false = (
        admitted-Traced id o k digest (min (now + timeout_ms) s.deadline) is_submitted phase s d p,
        λ t h r e same.
            let ((row, at, fresh), there) = d.waits r e in
            ground (arith, p, at, ap (λ q. lookup q s.journal) same),
      )

  start_worker-Traced :
      (k : ℕ) (has_started : Bool) (out : Relay R × Outcome ℕ)
      → Admitting k out
      → Traced id o (start_worker k has_started out).0
  start_worker-Traced k has_started (s, Outcome.refused f) (d, new) = d
  start_worker-Traced k true (s, Outcome.ok t) (d, new) =
      completions-Traced id o s _ d
        (λ r e there. lookup-insert_ne k id none s.completions (new t refl r e) ∙ there)
  start_worker-Traced k false (s, Outcome.ok t) (d, new) =
      let s' : Relay R = record s { completions = insert k none s.completions } in
      let d' =
        completions-Traced id o s (insert k none s.completions) d
          (λ r e there. lookup-insert_ne k id none s.completions (new t refl r e) ∙ there) in
      let d'' = finish_generation-Traced id o k t Status.failed s' d' in
      let s'' : Relay R = (finish_generation k t Status.failed s').0 in
      completions-Traced id o _ _ (erased-Traced id o s'' t d'')
        (λ r e there. lookup-erase_ne k id s''.completions (new t refl r e) ∙ there)

  submit_generation-Traced :
      (now k digest timeout_ms : ℕ) (has_started : Bool) (s : Relay R)
      → Traced id o s
      → Traced id o (submit_generation now k digest timeout_ms has_started s).0
  unfolding submit_generation
  submit_generation-Traced now k digest timeout_ms has_started s d =
      start_worker-Traced k has_started _
        (admit_generation-Traced now k digest timeout_ms false true Phase.connecting s d)

  acknowledge_delivery-Traced :
      (k : ℕ) (s : Relay R)
      → Traced id o s
      → ((r : Result R) → o ≡ some r → k ≢ id)
      → Traced id o (acknowledge_delivery k s).0
  acknowledge_delivery-Traced k s d other = acknowledge_delivery_lem (Traced id o) k s d (λ row h.
      recorded-Traced id o s k _ s.active (erase k s.completions) d (λ r e w.
        let ((x, at, fresh), there) = w in
        (
          (x, lookup-insert_ne k id _ s.journal (other r e) ∙ at, fresh),
          lookup-erase_ne k id s.completions (other r e) ∙ there,
        )))

  signalled-Traced : (k : ℕ) (s : Relay R) → Traced id o s → Traced id o (signalled k s)
  signalled-Traced k s d =
      signalled_lem (Traced id o) k s d
        (λ t w h. replaced-Traced id o s t w (record w { cancel = true }) d h refl)

  cancel_generation-Traced :
      (k : ℕ) (s : Relay R) → Traced id o s → Traced id o (cancel_generation k s).0
  unfolding cancel_generation
  cancel_generation-Traced k s d = go (lookup k s.journal) refl (leb max_tracked (length s.journal))
    where
      tombstone : Row
      tombstone = record {
        status = Status.cancelled;
        boot_id = s.boot_id;
        payload_sha256 = none;
        delivery_acknowledged = false;
      }

      go :
          (x : Option Row)
          → lookup k s.journal ≡ x
          → (b : Bool)
          → Traced id o
              (let out : Relay R × Outcome Unit = elim x [
                | some row ↦ (signalled k s, Outcome.ok tt)
                | none ↦ if b then (s, Outcome.refused Failure.capacity) else (
                  signalled k (record s {
                    journal =
                        insert k
                          (record {
                            status = Status.cancelled;
                            boot_id = s.boot_id;
                            payload_sha256 = none;
                            delivery_acknowledged = false;
                          })
                          s.journal;
                  }),
                  Outcome.ok tt,
                )
              ] in
                out).0
      go (some row) p b = signalled-Traced k s d
      go none p true = d
      go none p false = signalled-Traced k _ (
          recorded-Traced id o s k _ s.active s.completions d (λ r e.
            insert-Waits id o r k _ s.journal s.completions
              (λ old at. absurd (ground (arith, p, at)))))

  step-Traced :
      (e : Event R) (s : Relay R)
      → Traced id o s
      → ((r : Result R) → o ≡ some r → spares id e ≡ true)
      → Traced id o (step e s)
  unfolding step dispatch receive echo publish recover
  step-Traced (Event.submitted now k digest timeout_ms has_started) s d h =
      submit_generation-Traced now k digest timeout_ms has_started s d
  step-Traced (Event.generated now k digest timeout_ms) s d h =
      (admit_generation-Traced now k digest timeout_ms false false Phase.connecting s d).0
  step-Traced (Event.echoed now k digest timeout_ms) s d h =
      (admit_generation-Traced now k digest timeout_ms true false (Phase.echoing 3) s d).0
  step-Traced (Event.withdrawn k) s d h = cancel_generation-Traced k s d
  step-Traced (Event.acknowledged k) s d h =
      acknowledge_delivery-Traced k s d (λ r e same. ground (arith, h r e, (==_iff k id).1 same))
  step-Traced (Event.connected now t is_good) s d h =
      with_worker_lem (Traced id o) t _ s d
        (λ w at. dispatch_from-Traced id o s d now t w at is_good w.phase)
  step-Traced (Event.written now t is_good) s d h =
      with_worker_lem (Traced id o) t _ s d
        (λ w at. echo_from-Traced id o s d now t w at is_good w.phase)
  step-Traced (Event.received now t answer) s d h =
      with_worker_lem (Traced id o) t _ s d
        (λ w at. receive_from-Traced id o s d now t w at answer w.phase)
  step-Traced (Event.completed t) s d h =
      with_worker_lem (Traced id o) t _ s d (λ w at. publish_from-Traced id o s d 0 t w at w.phase)
  step-Traced Event.stopped s d h = record {
    journaled = d.journaled;
    sole = d.sole;
    waits = d.waits;
    left = d.left;
  }
  step-Traced (Event.restarted boot_id deadline) s d h = record {
    journaled = λ t w at. absurd (ground arith);
    sole = λ t w k u at. absurd (ground arith);
    waits = λ r e. absurd (ground (arith, h r e));
    left = λ r e. absurd (ground (arith, h r e));
  }

  pub run-Traced :
      (es : List (Event R)) (s : Relay R)
      → Traced id o s
      → ((r : Result R) → o ≡ some r → all_spare id es ≡ true)
      → Traced id o (run es s)
  run-Traced [] s d h = d
  run-Traced (e ∷ es) s d h =
      run-Traced es (step e s) (step-Traced e s d (λ r q. ground (arith, h r q)))
        (λ r q. ground (arith, h r q))
