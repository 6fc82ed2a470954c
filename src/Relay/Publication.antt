-- ===== src/Relay/Publication.antt =====
-- A result from its publication to its acknowledgement (relay_server.py, RelayState).
use tiny_dsv.Base.{
  ℕ, ◌≡◌, ◌≢◌, refl, ap, sym, ◌∙◌, subst, Bool, true, false, ◌||◌, Option, none, some, List, leb,
  arith, inl, inr, if◌then◌else◌,
}
use tiny_dsv.Base.Dict.{lookup, insert, erase}
use tiny_dsv.Base.Updates.{lookup-insert_self, lookup-erase_self, insert_cases, erase_cases}
use tiny_dsv.Relay.State.{Failure, Outcome, Status, Row, Result, Phase, Worker, Relay}
use tiny_dsv.Relay.Invariant.{Inv}
use tiny_dsv.Relay.Generations.{completion_entry, acknowledge_delivery}
use tiny_dsv.Relay.Threads.{receive, publish, settle, Answer, publish_from, Event, run, begin}
use tiny_dsv.Relay.Steps.{finish_generation_lem}
use tiny_dsv.Relay.Safety.{run-begin_lem}
use tiny_dsv.Relay.Delivery.{receive_eq, busy}
use tiny_dsv.Relay.Tracing.{Traced, Waits}
use tiny_dsv.Relay.Lasting.{run-Traced, all_spare}

module _ {R : Type 0} where
  -- The result is there until it is closed, and a second acknowledgement changes nothing.
  abbrev pub Delivered : (id : ℕ) → Result R → Relay R → Type 0
  Delivered id result s =
      (completion_entry id s ≡ Outcome.ok (some result))
      × ((acknowledge_delivery id s).1 ≡ Outcome.ok tt)
      × (completion_entry id (acknowledge_delivery id s).0 ≡ Outcome.refused Failure.gone)
      × (acknowledge_delivery id (acknowledge_delivery id s).0
          ≡ ((acknowledge_delivery id s).0, Outcome.ok tt))

  Waits-Delivered :
      (id : ℕ) (result : Result R) (s : Relay R)
      → Waits id result s.journal s.completions
      → Delivered id result s
  unfolding completion_entry acknowledge_delivery
  Waits-Delivered id result s ((row, at, fresh), there) =
      let row' : Row = record row { delivery_acknowledged = true } in
      let put = lookup-insert_self id row' s.journal in
      let gone = lookup-erase_self id s.completions in
      (
        ground (arith, there),
        ground (arith, at, fresh, there),
        ground (arith, at, fresh, there, put, gone),
        ground (arith, at, fresh, there, put, gone),
      )

  begin-Traced :
      (id max_inflight seconds deadline : ℕ) (is_controlled : Bool)
      → Traced {R = R} id none (begin max_inflight seconds deadline is_controlled)
  begin-Traced id n seconds deadline c = record {
    journaled = λ t w at. absurd (ground arith);
    sole = λ t w k u at. absurd (ground arith);
    waits = λ r e. absurd (ground arith);
    left = λ r e. absurd (ground arith);
  }

  module _ (s : Relay R) (v : Inv s) (now t : ℕ) (answer : Option (Answer R)) (w : Worker R)
      (here : lookup t s.workers ≡ some w) (waits : w.phase ≡ Phase.waiting)
      (submitted : w.is_submitted ≡ true)
      (waited : lookup w.request_id s.completions ≡ some none) where
    abbrev out : Status × Result R
    out = settle s.is_controlled (w.cancel || leb w.deadline now) answer

    abbrev kept : Row → Relay R
    kept row = record s {
      journal = insert w.request_id (record row { status = out.0 }) s.journal;
      active = erase w.request_id s.active;
      workers = insert t (record w { phase = Phase.answered out.1 }) s.workers;
    }

    received_eq :
        (row : Row) × (lookup w.request_id s.journal ≡ some row)
        × (receive now t answer s ≡ kept row)
    received_eq =
        let (row, at, on, e) =
          finish_generation_lem s t w out.0 v here (busy s v now t answer w here waits) in
        (
          row,
          at,
          receive_eq s v now t answer w here waits
              ∙ rw e (
                  ap
                    (λ b. record (kept row) {
                      workers =
                          if b
                          then insert t (record w { phase = Phase.answered out.1 }) s.workers
                          else erase t s.workers;
                    })
                    submitted),
        )

    abbrev stored : Row → Relay R
    stored row = record (kept row) {
      workers = erase t (kept row).workers;
      completions = insert w.request_id (some out.1) s.completions;
    }

    publish_eq : (row : Row) → publish t (kept row) ≡ stored row
    unfolding publish
    publish_eq row =
        ap
          (λ (o : Option (Worker R)).
            let out : Relay R = elim o [
              | none ↦ kept row
              | some u ↦ publish_from t (kept row) u u.phase
            ] in
            out)
          (lookup-insert_self t (record w { phase = Phase.answered out.1 }) s.workers)
        ∙ ap
            (λ (o : Option (Option (Result R))). record (kept row) {
              workers = erase t (kept row).workers;
              completions = elim o [
                | none ↦ s.completions
                | some entry ↦ insert w.request_id (some out.1) s.completions
              ];
            })
            waited

    stored-Traced :
        (row : Row)
        → row.delivery_acknowledged ≡ false
        → Traced w.request_id none s
        → Traced w.request_id (some out.1) (stored row)
    stored-Traced row fresh d =
        let answered : Worker R = record w { phase = Phase.answered out.1 } in
        let row' : Row = record row { status = out.0 } in
        let gone : (k : ℕ) (u : Worker R)
            → lookup k (stored row).workers ≡ some u
            → u.request_id ≢ w.request_id =
          λ k u at is.
            let (ne, was) = erase_cases t k u (kept row).workers at in
            elim (insert_cases t k answered u s.workers was) [
              | inl (e, same) ↦ ne e
              | inr (ne', was') ↦ ne (d.sole t w k u here refl was' is)
            ] in
        record {
          journaled = λ k u at is. (row', lookup-insert_self w.request_id row' s.journal);
          sole = λ k u j x at is at' is'. absurd (gone k u at is);
          waits = λ r e. (
            (row', lookup-insert_self w.request_id row' s.journal, fresh),
            lookup-insert_self w.request_id (some out.1) s.completions ∙ ap some e,
          );
          left = λ r e. gone;
        }

    published-Traced :
        ((row : Row) → lookup w.request_id s.journal ≡ some row → row.delivery_acknowledged ≡ false)
        → Traced w.request_id none s
        → Traced w.request_id (some out.1) (publish t (receive now t answer s))
    published-Traced fresh d =
        let (row, at, e) = received_eq in
        subst (Traced w.request_id (some out.1)) (sym (ap (λ z. publish t z) e ∙ publish_eq row))
          (stored-Traced row (fresh row at) d)

  -- A history of a relay.
  abbrev pub reached :
      List (Event R) → (max_inflight seconds deadline : ℕ) (is_controlled : Bool) → Relay R
  reached before n seconds deadline c = run before (begin n seconds deadline c)

  -- In any history of a relay, when the thread of a submitted request that was not acknowledged has
  -- received its answer and published it, the result of the request is what the thread received,
  -- and it stays through every further history without an acknowledgement of the request and
  -- without a restart: cancellations, other requests and their threads, and the end of the service
  -- leave it. An acknowledgement then succeeds, the result is gone after it, and a second
  -- acknowledgement succeeds and changes nothing.
  pub publish_lem :
      (before : List (Event R)) (max_inflight seconds deadline : ℕ) (is_controlled : Bool)
      (now t : ℕ) (answer : Option (Answer R)) (w : Worker R)
      → lookup t (reached before max_inflight seconds deadline is_controlled).workers ≡ some w
      → w.phase ≡ Phase.waiting
      → w.is_submitted ≡ true
      → lookup w.request_id (reached before max_inflight seconds deadline is_controlled).completions
        ≡ some none
      → ((row : Row)
          → lookup w.request_id (reached before max_inflight seconds deadline is_controlled).journal
            ≡ some row
          → row.delivery_acknowledged ≡ false)
      → (after : List (Event R)) → all_spare w.request_id after ≡ true
      → Delivered w.request_id
          (settle
            (reached before max_inflight seconds deadline is_controlled).is_controlled
            (w.cancel || leb w.deadline now)
            answer).1
          (run after (
            publish t
              (receive now t answer (reached before max_inflight seconds deadline is_controlled))))
  publish_lem before n seconds deadline c now t answer w here waits submitted waited fresh after h =
      let s : Relay R = reached before n seconds deadline c in
      let v = run-begin_lem before n seconds deadline c in
      let d =
        run-Traced w.request_id none before _ (begin-Traced w.request_id n seconds deadline c)
          (λ r e. absurd (ground arith)) in
      let result : Result R = (settle s.is_controlled (w.cancel || leb w.deadline now) answer).1 in
      let d' = published-Traced s v now t answer w here waits submitted waited fresh d in
      let last = run-Traced w.request_id (some result) after _ d' (λ r e. h) in
      Waits-Delivered w.request_id result _ (last.waits result refl)
