-- ===== src/Claims/Histories.antt =====
-- Every history of the jobs of a CPU relay keeps its limit (relay_server.py).
use tiny_dsv.Base.{
  ℕ, ◌≡◌, refl, ap, Bool, true, false, not, ◌&&◌, Option, List, [], ◌∷◌, length, leb, ◌==◌, ==_refl,
  arith, Bool-cases, Option-cases, inl, inr,
}
use tiny_dsv.Base.Dict.{lookup, insert}
use tiny_dsv.Claims.State.{Job, Answer, Spool, is_file, Reply}
use tiny_dsv.Claims.Jobs.{
  passes, fail_claim, unfinished_claims, moved, names_of, claim_after, claim_job, store,
  same_answer, result_after, take_result, cancel_known, cancel_claim, Event, step, run,
}
use tiny_dsv.Claims.Changes.{unfinished_of_lem, recover_claims_lem, pick_lem}
use tiny_dsv.Claims.Capacity.{
  open_count, Inv, Roomy, answered-Inv, fail_claim-Inv, expired_lem, expired-Inv, expired-Roomy,
  handed-Inv, Counted, unfinished_of-Counted, is_file-insert,
}

-- A scan changes the answers alone.
unfinished_of-inflight : (now : ℕ) (s : Spool) → (unfinished_claims now s).0.inflight ≡ s.inflight
unfolding fail_claim
unfinished_of-inflight now s =
    unfinished_of_lem (λ z. z.inflight ≡ s.inflight) fail_keeps now s.inflight s refl
  where
    fail_keeps :
        (z : Spool) (id message : ℕ)
        → z.inflight ≡ s.inflight
        → (fail_claim id message z).inflight ≡ s.inflight
    fail_keeps z id message e = elim (Bool-cases (is_file id z.outbox)) [
      | inl x ↦ rw (x, fail_claim) e
      | inr x ↦ rw (x, fail_claim) e
    ]

claim_job-Inv : (now : ℕ) (wanted : Option ℕ) (s : Spool) → Inv s → Inv (claim_job now wanted s).0
unfolding claim_job
claim_job-Inv now wanted s v =
    go (unfinished_claims now s) (unfinished_of_lem Inv fail_claim-Inv now s.inflight s v)
      (unfinished_of-Counted now s.inflight s) (unfinished_of-inflight now s)
  where
    go :
        (out : Spool × Reply (List ℕ))
        → Inv out.0
        → Counted s.inflight out
        → out.0.inflight ≡ s.inflight
        → Inv (claim_after now wanted out).0
    go (z, Reply.raised) v c e = v
    go (z, Reply.gives ids) v c e = elim (Bool-cases (leb z.max_inflight (length ids))) [
      | inl full ↦ rw full v
      | inr free ↦ rw free (
          pick_lem Roomy Inv (λ y r. r.inv)
            (λ y name message job r new.
              expired_lem Roomy y name message job
                (λ o own more. expired-Roomy y name job o own more r))
            handed-Inv now (names_of wanted z.inbox) z
            (record {
              room = ground (arith, c, free, ap (λ files. open_count files z.outbox) e);
              inv = v;
            }))
    ]

store-Inv : (id : ℕ) (value : Answer) (s : Spool) → Inv s → Inv (store id value s).0
store-Inv id value s v = elim (Option-cases (lookup id s.outbox)) [
  | inl e ↦ elim (Bool-cases (not (is_file id s.inflight))) [
    | inl x ↦ rw (e, x, store) v
    | inr x ↦
        rw (e, x, store)
          (answered-Inv s (insert id value s.outbox)
            (λ k h. ground (arith, is_file-insert id k value s.outbox)) v)
  ]
  | inr (old, e) ↦ elim (Bool-cases (same_answer old value)) [
    | inl x ↦ rw (e, x, store) v
    | inr x ↦ rw (e, x, store) v
  ]
]

take_result-Inv :
    (now id : ℕ) (is_valid is_bound : Bool) (value : Answer) (s : Spool)
    → Inv s
    → Inv (take_result now id is_valid is_bound value s).0
unfolding take_result
take_result-Inv now id false is_bound value s v = v
take_result-Inv now id true is_bound value s v =
    go (unfinished_claims now s) (unfinished_of_lem Inv fail_claim-Inv now s.inflight s v)
  where
    go : (out : Spool × Reply (List ℕ)) → Inv out.0 → Inv (result_after id is_bound value out).0
    go (z, Reply.raised) v = v
    go (z, Reply.gives ids) v = elim (Bool-cases (not is_bound)) [
      | inl e ↦ rw e v
      | inr e ↦ rw e (store-Inv id value z v)
    ]

cancel_known-Inv : (id : ℕ) (s : Spool) → Inv s → Inv (cancel_known id s).0
cancel_known-Inv id s v = elim (Bool-cases (is_file id s.inflight)) [
  | inl e ↦ rw e (fail_claim-Inv s id 3 v)
  | inr e ↦ rw e v
]

-- The job that moves from the inbox is answered at once.
cancel_moved-Inv :
    (id : ℕ) (job : Job) (s : Spool) → Inv s → Inv (cancel_known id (moved id job s)).0
cancel_moved-Inv id job s v =
    rw
      (let e : is_file id (insert id job s.inflight) ≡ true =
          ground (arith, is_file-insert id id job s.inflight, ==_refl id) in
        e)
      (expired_lem Inv s id 3 job (λ o own more. expired-Inv s id job o own more v))

cancel_claim-Inv : (now id : ℕ) (s : Spool) → Inv s → Inv (cancel_claim now id s).0
unfolding cancel_claim
cancel_claim-Inv now id s v = elim (Option-cases (lookup id s.inbox)) [
  | inl e ↦ rw (e, cancel_claim) (cancel_known-Inv id s v)
  | inr (job, e) ↦ elim (Bool-cases (is_file id s.inflight)) [
    | inl x ↦ rw (e, x, cancel_claim) (fail_claim-Inv s id 3 v)
    | inr x ↦ elim (Bool-cases (not (passes now job && job.id == id))) [
      | inl y ↦ rw (e, x, y, cancel_claim) v
      | inr y ↦ rw (e, x, y, cancel_claim) (cancel_moved-Inv id job s v)
    ]
  ]
]

step-Inv : (e : Event) (s : Spool) → Inv s → Inv (step e s)
step-Inv (Event.submitted name job) s v = record {
  capacity = v.capacity;
  once = v.once;
  held = v.held;
}
step-Inv (Event.claimed now wanted) s v = claim_job-Inv now wanted s v
step-Inv (Event.resulted now id is_valid is_bound value) s v =
    take_result-Inv now id is_valid is_bound value s v
step-Inv (Event.cancelled now id) s v = cancel_claim-Inv now id s v
step-Inv (Event.restarted now) s v = recover_claims_lem Inv fail_claim-Inv now s.inflight s v

-- Any sequence of jobs of clients, claims, results, cancellations and restarts, failed ones
-- included, keeps this: the claims without an answer never exceed max_inflight, no job is handed
-- out twice, and a job that was handed out is a claim.
pub run_jobs-Inv : (es : List Event) (s : Spool) → Inv s → Inv (run es s)
run_jobs-Inv [] s v = v
run_jobs-Inv (e ∷ es) s v = run_jobs-Inv es (step e s) (step-Inv e s v)
