-- ===== src/Relay/Safety.antt =====
-- Every history of a GPU relay preserves the invariant (relay_server.py).
use tiny_dsv.Base.{ℕ, ◌≡◌, refl, Bool, true, false, List, [], ◌∷◌, arith}
use tiny_dsv.Relay.State.{Outcome, Phase, Relay}
use tiny_dsv.Relay.Invariant.{Inv, is_under_way}
use tiny_dsv.Relay.Entering.{recover-Inv}
use tiny_dsv.Relay.Generations.{admit_generation}
use tiny_dsv.Relay.Threads.{dispatch, receive, echo, publish}
use tiny_dsv.Relay.Steps.{Entered, admit_generation-Entered}
use tiny_dsv.Relay.Serving.{submit_generation-Inv, acknowledge_delivery-Inv}
use tiny_dsv.Relay.Running.{
  cancel_generation-Inv, with_worker_lem, dispatch_from-Inv, receive_from-Inv, echo_from-Inv,
  publish_from-Inv,
}
use tiny_dsv.Relay.Threads.{Event, step, run, begin}

module _ {R : Type 0} where
  admit_generation-Inv :
      (now id digest timeout_ms : ℕ) (is_echo is_submitted : Bool) (phase : Phase R) (s : Relay R)
      → Inv s
      → is_under_way phase ≡ true
      → Inv (admit_generation now id digest timeout_ms is_echo is_submitted phase s).0
  admit_generation-Inv now id digest timeout_ms is_echo is_submitted phase s v on =
      go (admit_generation now id digest timeout_ms is_echo is_submitted phase s)
        (admit_generation-Entered now id digest timeout_ms is_echo is_submitted phase s v on)
    where
      go : (out : Relay R × Outcome ℕ) → Entered id out → Inv out.0
      go (s', Outcome.refused f) h = h
      go (s', Outcome.ok t) (h, h') = h

  stopped-Inv : (s : Relay R) → Inv s → Inv (record s { stopped = true })
  stopped-Inv s v = record {
    distinct = v.distinct;
    tracked = v.tracked;
    entries = v.entries;
    capacity = v.capacity;
    completed = v.completed;
    once = v.once;
    known = v.known;
    working = v.working;
    owned = v.owned;
    runs = v.runs;
    alive = v.alive;
    unsent = v.unsent;
    fresh = v.fresh;
  }

  pub step-Inv : (e : Event R) (s : Relay R) → Inv s → Inv (step e s)
  unfolding step dispatch receive echo publish
  step-Inv (Event.submitted now id digest timeout_ms has_started) s v =
      submit_generation-Inv now id digest timeout_ms has_started s v
  step-Inv (Event.generated now id digest timeout_ms) s v =
      admit_generation-Inv now id digest timeout_ms false false Phase.connecting s v refl
  step-Inv (Event.echoed now id digest timeout_ms) s v =
      admit_generation-Inv now id digest timeout_ms true false (Phase.echoing 3) s v refl
  step-Inv (Event.withdrawn id) s v = cancel_generation-Inv id s v
  step-Inv (Event.acknowledged id) s v = acknowledge_delivery-Inv id s v
  step-Inv (Event.connected now t is_good) s v =
      with_worker_lem Inv t _ s v (λ w h. dispatch_from-Inv s v now t w h is_good w.phase refl)
  step-Inv (Event.written now t is_good) s v =
      with_worker_lem Inv t _ s v (λ w h. echo_from-Inv s v now t w h is_good w.phase refl)
  step-Inv (Event.received now t answer) s v =
      with_worker_lem Inv t _ s v (λ w h. receive_from-Inv s v now t w h answer w.phase refl)
  step-Inv (Event.completed t) s v =
      with_worker_lem Inv t _ s v (λ w h. publish_from-Inv s v 0 t w h w.phase refl)
  step-Inv Event.stopped s v = stopped-Inv s v
  step-Inv (Event.restarted boot_id deadline) s v = recover-Inv boot_id deadline s v

  pub run-Inv : (es : List (Event R)) (s : Relay R) → Inv s → Inv (run es s)
  run-Inv [] s v = v
  run-Inv (e ∷ es) s v = run-Inv es (step e s) (step-Inv e s v)

  begin-Inv :
      (max_inflight seconds deadline : ℕ) (is_controlled : Bool)
      → Inv (begin {R = R} max_inflight seconds deadline is_controlled)
  begin-Inv n seconds deadline c = record {
    distinct = tt;
    tracked = omega arith;
    entries = tt;
    capacity = omega arith;
    completed = λ k h. refl;
    once = λ k. omega arith;
    known = λ k h. refl;
    working = λ t w h b. absurd (ground arith);
    owned = λ k t h. absurd (ground arith);
    runs = λ k t h. absurd (ground arith);
    alive = λ k h. absurd (let (row, l, r) = h in ground arith);
    unsent = λ t w h b. absurd (ground arith);
    fresh = λ t w h. absurd (ground arith);
  }

  -- In every history of a GPU relay, with any interleaving of requests, cancellations, thread
  -- steps, failures and restarts: no request is dispatched twice; the requests that hold a place
  -- never exceed the limit; the journal stays within its bound; a record is running exactly when a
  -- thread owns it; and each thread that is under way owns its record, so that its end is never
  -- refused.
  pub run-begin_lem :
      (es : List (Event R)) (max_inflight seconds deadline : ℕ) (is_controlled : Bool)
      → Inv (run es (begin max_inflight seconds deadline is_controlled))
  run-begin_lem es n seconds deadline c = run-Inv es _ (begin-Inv n seconds deadline c)
