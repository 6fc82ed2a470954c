-- ===== src/Relay/Serving.antt =====
-- The requests of the clients of a GPU relay preserve the invariant (relay_server.py).
use tiny_dsv.Base.{
  ℕ, ◌≡◌, refl, ap, ◌∙◌, subst, Bool, true, false, Option, none, some, ◌==◌, ==_iff, arith,
  Bool-cases, inl, inr, if◌then◌else◌,
}
use tiny_dsv.Base.Dict.{
  lookup, insert, erase, lookup-insert, lookup-erase, insert-Distinct, erase-Distinct,
}
use tiny_dsv.Base.Updates.{length-insert_old}
use tiny_dsv.Relay.State.{Failure, Outcome, Status, Row, Result, Phase, Worker, Relay}
use tiny_dsv.Relay.Places.{has_place}
use tiny_dsv.Relay.Invariant.{
  Inv, Runs, is_running, is_under_way, finished-Inv, occupying_of_running,
}
use tiny_dsv.Relay.Changes.{recorded-Inv, replaced-Inv}
use tiny_dsv.Relay.Generations.{
  signalled, start_worker, submit_generation, completion_entry, acknowledge_delivery,
}
use tiny_dsv.Relay.Steps.{
  finish_generation_lem, Entered, admit_generation-Entered, remaining-old, remaining-others,
}

module _ {R : Type 0} where
  -- A running request waits for its completion.
  entered-Inv :
      (s : Relay R) (id : ℕ)
      → Inv s
      → Runs (lookup id s.journal)
      → Inv (record s { completions = insert id none s.completions })
  entered-Inv s id v (row, at, on) =
      recorded-Inv s v s.journal (insert id none s.completions) v.distinct v.tracked
        (insert-Distinct id none s.completions v.entries) (λ k h. h) (λ k h. h)
        (λ k h. (
          h,
          ground (
            arith,
            v.completed k h,
            lookup-insert id k none s.completions,
            ==_iff id k,
            at,
            λ (e : id ≡ k). ap (λ z. lookup z s.journal) e,
          ),
        ))
        (λ k h. elim (Bool-cases (id == k)) [
          | inl e ↦
              rw
                (
                  subst (λ z. lookup z s.journal ≡ some row) ((==_iff id k).0 e) at,
                  occupying_of_running row.status on,
                )
                refl
          | inr e ↦ ground (arith, lookup-insert id k none s.completions)
        ])

  -- The thread that could not be started leaves a failed record and no completion.
  dropped-Inv :
      (s : Relay R) (t : ℕ) (w : Worker R)
      → Inv s
      → lookup t s.workers ≡ some w
      → is_under_way w.phase ≡ true
      → Inv (start_worker w.request_id false (s, Outcome.ok t)).0
  dropped-Inv s t w v here busy =
      let s' : Relay R = record s { completions = insert w.request_id none s.completions } in
      let v' : Inv s' =
        entered-Inv s w.request_id v (v.runs w.request_id t (v.working t w here busy)) in
      let u : Worker R = record w { phase = Phase.answered (Result.rejected none) } in
      let (row, at, on, e) = finish_generation_lem s' t w Status.failed v' here busy in
      rw e (
        finished-Inv s' v' t w here busy Status.failed refl row at on (erase t s.workers)
          (erase w.request_id s'.completions) (remaining-old s' v' t w u here refl false)
          (remaining-others s' v' t w u here refl false)
          (erase-Distinct w.request_id s'.completions v'.entries)
          (λ k h. ground (arith, lookup-erase w.request_id k s'.completions)))

  start_worker-Inv :
      (id : ℕ) (has_started : Bool) (out : Relay R × Outcome ℕ)
      → Entered id out
      → Inv (start_worker id has_started out).0
  start_worker-Inv id has_started (s, Outcome.refused f) v = v
  start_worker-Inv id true (s, Outcome.ok t) (v, (w, here, is, busy)) =
      entered-Inv s id v (
        subst (λ z. Runs (lookup z s.journal)) is (v.runs w.request_id t (v.working t w here busy)))
  start_worker-Inv id false (s, Outcome.ok t) (v, (w, here, is, busy)) =
      subst (λ z. Inv (start_worker z false (s, Outcome.ok t)).0) is (dropped-Inv s t w v here busy)

  pub submit_generation-Inv :
      (now id digest timeout_ms : ℕ) (has_started : Bool) (s : Relay R)
      → Inv s
      → Inv (submit_generation now id digest timeout_ms has_started s).0
  unfolding submit_generation
  submit_generation-Inv now id digest timeout_ms has_started s v =
      start_worker-Inv id has_started _
        (admit_generation-Entered now id digest timeout_ms false true Phase.connecting s v refl)

  -- A record that keeps its status, and a completion that is dropped.
  module _ (s : Relay R) (v : Inv s) (id : ℕ) (row : Row)
      (here : lookup id s.journal ≡ some row) where
    abbrev row' : Row
    row' = record row { delivery_acknowledged = true }

    look :
        (k : ℕ)
        → lookup k (insert id row' s.journal) ≡ (if id == k then some row' else lookup k s.journal)
    look k = lookup-insert id k row' s.journal

    at : (k : ℕ) → (id == k) ≡ true → lookup k s.journal ≡ some row
    at k e = subst (λ z. lookup z s.journal ≡ some row) ((==_iff id k).0 e) here

    same : (k : ℕ) → Runs (lookup k (insert id row' s.journal)) → Runs (lookup k s.journal)
    same k h = elim (Bool-cases (id == k)) [
      | inl e ↦
          let (x, l, r) = h in
          let q : row' ≡ x = ground (arith, look k) in
          (row, at k e, ap (λ z. is_running z.status) q ∙ r)
      | inr e ↦ subst Runs (ground (arith, look k)) h
    ]

    still : (k : ℕ) → Runs (lookup k s.journal) → Runs (lookup k (insert id row' s.journal))
    still k h = elim (Bool-cases (id == k)) [
      | inl e ↦
          let (x, l, r) = h in
          let q : row ≡ x = ground (arith, at k e) in
          (row', ground (arith, look k), ap (λ z. is_running z.status) q ∙ r)
      | inr e ↦ subst Runs (ground (arith, look k)) h
    ]

    held :
        (k : ℕ)
        → has_place k (insert id row' s.journal) (erase id s.completions) ≡ true
        → has_place k s.journal s.completions ≡ true
    held k h = elim (Bool-cases (id == k)) [
      | inl e ↦ ground (arith, look k, at k e, lookup-erase id k s.completions)
      | inr e ↦ ground (arith, look k, lookup-erase id k s.completions)
    ]

    acknowledged-Inv :
        Inv (record s { journal = insert id row' s.journal; completions = erase id s.completions })
    acknowledged-Inv =
        recorded-Inv s v (insert id row' s.journal) (erase id s.completions)
          (insert-Distinct id row' s.journal v.distinct)
          (omega (arith, v.tracked, length-insert_old id row' row s.journal here))
          (erase-Distinct id s.completions v.entries) same still
          (λ k h.
            let old : lookup k s.journal ≡ none = ground (arith, look k) in
            (old, ground (arith, lookup-erase id k s.completions, v.completed k old)))
          held

  -- An acknowledgement leaves the state, or marks the record and drops the completion.
  pub acknowledge_delivery_lem :
      (P : Relay R → Type 0) (id : ℕ) (s : Relay R)
      → P s
      → ((row : Row)
          → lookup id s.journal ≡ some row
          → P (record s {
            journal = insert id (record row { delivery_acknowledged = true }) s.journal;
            completions = erase id s.completions;
          }))
      → P (acknowledge_delivery id s).0
  unfolding acknowledge_delivery
  acknowledge_delivery_lem P id s v h = go (lookup id s.journal) h (completion_entry id s)
    where
      found :
          (row : Row) (b : Bool) (e : Outcome (Option (Result R)))
          → P (record s {
            journal = insert id (record row { delivery_acknowledged = true }) s.journal;
            completions = erase id s.completions;
          })
          → P
              (let out : Relay R × Outcome Unit = if b then (s, Outcome.ok tt) else elim e [
                | Outcome.refused f ↦ (s, Outcome.refused f)
                | Outcome.ok none ↦ (s, Outcome.refused Failure.conflict)
                | Outcome.ok (some r) ↦ (
                  record s {
                    journal = insert id (record row { delivery_acknowledged = true }) s.journal;
                    completions = erase id s.completions;
                  },
                  Outcome.ok tt,
                )
              ] in
                out).0
      found row true e h = v
      found row false (Outcome.refused f) h = v
      found row false (Outcome.ok none) h = v
      found row false (Outcome.ok (some r)) h = h

      go :
          (o : Option Row)
          → ((row : Row)
              → o ≡ some row
              → P (record s {
                journal = insert id (record row { delivery_acknowledged = true }) s.journal;
                completions = erase id s.completions;
              }))
          → (e : Outcome (Option (Result R)))
          → P
              (let out : Relay R × Outcome Unit = elim o [
                | none ↦ elim e [
                  | Outcome.refused f ↦ (s, Outcome.refused f)
                  | Outcome.ok none ↦ (s, Outcome.refused Failure.conflict)
                  | Outcome.ok (some r) ↦ (s, Outcome.refused Failure.internal)
                ]
                | some row ↦ if row.delivery_acknowledged then (s, Outcome.ok tt) else elim e [
                  | Outcome.refused f ↦ (s, Outcome.refused f)
                  | Outcome.ok none ↦ (s, Outcome.refused Failure.conflict)
                  | Outcome.ok (some r) ↦ (
                    record s {
                      journal = insert id (record row { delivery_acknowledged = true }) s.journal;
                      completions = erase id s.completions;
                    },
                    Outcome.ok tt,
                  )
                ]
              ] in
                out).0
      go none h (Outcome.refused f) = v
      go none h (Outcome.ok none) = v
      go none h (Outcome.ok (some r)) = v
      go (some row) h e = found row row.delivery_acknowledged e (h row refl)

  pub acknowledge_delivery-Inv : (id : ℕ) (s : Relay R) → Inv s → Inv (acknowledge_delivery id s).0
  acknowledge_delivery-Inv id s v =
      acknowledge_delivery_lem Inv id s v (λ row h. acknowledged-Inv s v id row h)

  -- A cancellation leaves the state, or sets the event of one context.
  pub signalled_lem :
      (P : Relay R → Type 0) (id : ℕ) (s : Relay R)
      → P s
      → ((t : ℕ) (w : Worker R)
          → lookup t s.workers ≡ some w
          → P (record s { workers = insert t (record w { cancel = true }) s.workers }))
      → P (signalled id s)
  signalled_lem P id s v h = go (lookup id s.active)
    where
      inner :
          (t : ℕ) (o : Option (Worker R))
          → lookup t s.workers ≡ o
          → P (
              let out : Relay R = elim o [
                | none ↦ s
                | some w ↦ record s { workers = insert t (record w { cancel = true }) s.workers }
              ] in
              out)
      inner t none p = v
      inner t (some w) p = h t w p

      go :
          (o : Option ℕ)
          → P (
              let out : Relay R = elim o [
                | none ↦ s
                | some t ↦ elim (lookup t s.workers) [
                  | none ↦ s
                  | some w ↦ record s { workers = insert t (record w { cancel = true }) s.workers }
                ]
              ] in
              out)
      go none = v
      go (some t) = inner t (lookup t s.workers) refl

  pub signalled-Inv : (id : ℕ) (s : Relay R) → Inv s → Inv (signalled id s)
  signalled-Inv id s v =
      signalled_lem Inv id s v
        (λ t w h. replaced-Inv s v t w (record w { cancel = true }) h refl refl (λ e. e))
