-- ===== src/Claims/Answers.antt =====
-- The answer of a job never changes (relay_server.py, RelayState.result and _fail_claim).
use tiny_dsv.Base.{
  ℕ, ◌≡◌, ap, Bool, true, false, not, ◌&&◌, Option, some, List, [], ◌∷◌, length, leb, ◌==◌, ==_iff,
  arith, Bool-cases, Option-cases, inl, inr,
}
use tiny_dsv.Base.Dict.{lookup, insert, lookup-insert}
use tiny_dsv.Claims.State.{Answer, Spool, is_file, Reply}
use tiny_dsv.Claims.Jobs.{
  passes, failure, fail_claim, unfinished_claims, moved, names_of, claim_after, claim_job, store,
  same_answer, result_after, take_result, cancel_known, cancel_claim, Event, step, run,
}
use tiny_dsv.Claims.Changes.{unfinished_of_lem, recover_claims_lem, pick_lem}

module _ (id : ℕ) (r : Answer) where
  -- The job has this answer.
  abbrev Kept : Spool → Type 0
  Kept s = lookup id s.outbox ≡ some r

  fail_claim-Kept : (s : Spool) (k message : ℕ) → Kept s → Kept (fail_claim k message s)
  unfolding fail_claim
  fail_claim-Kept s k message h = elim (Bool-cases (is_file k s.outbox)) [
    | inl e ↦ rw (e, fail_claim) h
    | inr e ↦ rw (e, fail_claim) (absent e)
  ]
    where
      absent : is_file k s.outbox ≡ false → lookup id (insert k (failure message) s.outbox) ≡ some r
      absent e = ground (
        arith,
        lookup-insert k id (failure message) s.outbox,
        ==_iff k id,
        λ (d : k ≡ id). ap (λ z. is_file z s.outbox) d,
        h,
      )

  claim_job-Kept :
      (now : ℕ) (wanted : Option ℕ) (s : Spool) → Kept s → Kept (claim_job now wanted s).0
  unfolding claim_job
  claim_job-Kept now wanted s h =
      go (unfinished_claims now s) (unfinished_of_lem Kept fail_claim-Kept now s.inflight s h)
    where
      go : (out : Spool × Reply (List ℕ)) → Kept out.0 → Kept (claim_after now wanted out).0
      go (s', Reply.raised) h = h
      go (s', Reply.gives ids) h = elim (Bool-cases (leb s'.max_inflight (length ids))) [
        | inl e ↦ rw e h
        | inr e ↦ rw e (
            pick_lem Kept Kept (λ z k. k)
              (λ z name message job k new. fail_claim-Kept (moved name job z) name message k)
              (λ z name job k new. k) now (names_of wanted s'.inbox) s' h)
      ]

  store-Kept : (k : ℕ) (value : Answer) (s : Spool) → Kept s → Kept (store k value s).0
  store-Kept k value s h = elim (Option-cases (lookup k s.outbox)) [
    | inl e ↦ elim (Bool-cases (not (is_file k s.inflight))) [
      | inl x ↦ rw (e, x, store) h
      | inr x ↦
          rw (e, x, store)
            (ground (
              arith,
              h,
              lookup-insert k id value s.outbox,
              ==_iff k id,
              λ (d : k ≡ id). ap (λ z. lookup z s.outbox) d,
            ))
    ]
    | inr (old, e) ↦ elim (Bool-cases (same_answer old value)) [
      | inl x ↦ rw (e, x, store) h
      | inr x ↦ rw (e, x, store) h
    ]
  ]

  take_result-Kept :
      (now k : ℕ) (is_valid is_bound : Bool) (value : Answer) (s : Spool)
      → Kept s
      → Kept (take_result now k is_valid is_bound value s).0
  unfolding take_result
  take_result-Kept now k false is_bound value s h = h
  take_result-Kept now k true is_bound value s h =
      go (unfinished_claims now s) (unfinished_of_lem Kept fail_claim-Kept now s.inflight s h)
    where
      go : (out : Spool × Reply (List ℕ)) → Kept out.0 → Kept (result_after k is_bound value out).0
      go (s', Reply.raised) h = h
      go (s', Reply.gives ids) h = elim (Bool-cases (not is_bound)) [
        | inl e ↦ rw e h
        | inr e ↦ rw e (store-Kept k value s' h)
      ]

  cancel_known-Kept : (k : ℕ) (s : Spool) → Kept s → Kept (cancel_known k s).0
  cancel_known-Kept k s h = elim (Bool-cases (is_file k s.inflight)) [
    | inl e ↦ rw e (fail_claim-Kept s k 3 h)
    | inr e ↦ rw e h
  ]

  cancel_claim-Kept : (now k : ℕ) (s : Spool) → Kept s → Kept (cancel_claim now k s).0
  unfolding cancel_claim
  cancel_claim-Kept now k s h = elim (Option-cases (lookup k s.inbox)) [
    | inl e ↦ rw (e, cancel_claim) (cancel_known-Kept k s h)
    | inr (job, e) ↦ elim (Bool-cases (is_file k s.inflight)) [
      | inl x ↦ rw (e, x, cancel_claim) (fail_claim-Kept s k 3 h)
      | inr x ↦ elim (Bool-cases (not (passes now job && job.id == k))) [
        | inl y ↦ rw (e, x, y, cancel_claim) h
        | inr y ↦ rw (e, x, y, cancel_claim) (cancel_known-Kept k (moved k job s) h)
      ]
    ]
  ]

  step-Kept : (e : Event) (s : Spool) → Kept s → Kept (step e s)
  step-Kept (Event.submitted name job) s h = h
  step-Kept (Event.claimed now wanted) s h = claim_job-Kept now wanted s h
  step-Kept (Event.resulted now k is_valid is_bound value) s h =
      take_result-Kept now k is_valid is_bound value s h
  step-Kept (Event.cancelled now k) s h = cancel_claim-Kept now k s h
  step-Kept (Event.restarted now) s h = recover_claims_lem Kept fail_claim-Kept now s.inflight s h

  -- The answer of a job, once it is there, stays the same through any sequence of claims, results,
  -- cancellations, expiries and restarts.
  pub run-Kept :
      (es : List Event) (s : Spool)
      → lookup id s.outbox ≡ some r
      → lookup id (run es s).outbox ≡ some r
  run-Kept [] s h = h
  run-Kept (e ∷ es) s h = run-Kept es (step e s) (step-Kept e s h)
