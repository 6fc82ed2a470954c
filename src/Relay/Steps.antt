-- ===== src/Relay/Steps.antt =====
-- Every command and every thread of a GPU relay preserves the invariant (relay_server.py).
use tiny_dsv.Base.{
  ℕ, ◌+◌, ◌*◌, min, ◌<◌, ◌≡◌, ◌≢◌, ◌⊎◌, refl, ap, sym, ◌∙◌, subst, Bool, true, false, not, ◌||◌,
  ◌&&◌, Option, none, some, length, leb, ==_refl, arith, inl, inr, if◌then◌else◌,
}
use tiny_dsv.Base.Dict.{Dict, lookup, insert, erase}
use tiny_dsv.Base.Updates.{
  insert_cases, erase_cases, lookup-insert_self, lookup-insert_ne, lookup-erase_ne,
}
use tiny_dsv.Relay.State.{
  Failure, Outcome, Status, Row, Result, Phase, Worker, Relay, reserved, max_tracked,
}
use tiny_dsv.Relay.Invariant.{Inv, Serves, is_running, is_under_way, finished-Inv}
use tiny_dsv.Relay.Entering.{admitted-Inv}
use tiny_dsv.Relay.Generations.{admitted, finish_generation, admit_generation}
use tiny_dsv.Relay.Threads.{ended}

module _ {R : Type 0} where
  -- The thread owns its record: finish_generation is never refused.
  pub finish_generation_lem :
      (s : Relay R) (t : ℕ) (w : Worker R) (status : Status)
      → Inv s
      → lookup t s.workers ≡ some w
      → is_under_way w.phase ≡ true
      → (row : Row) × (lookup w.request_id s.journal ≡ some row)
        × (is_running row.status ≡ true)
        × (finish_generation w.request_id t status s ≡ (
          record s {
            journal = insert w.request_id (record row { status = status }) s.journal;
            active = erase w.request_id s.active;
          },
          Outcome.ok tt,
        ))
  unfolding finish_generation
  finish_generation_lem s t w status v here busy =
      let mine = v.working t w here busy in
      let (row, at, on) = v.runs w.request_id t mine in
      (row, at, on, ground (arith, mine, at, ==_refl t))

  -- The threads when one of them has ended, or waits for the publication of its result.
  module _ (s : Relay R) (v : Inv s) (t : ℕ) (w u : Worker R) (here : lookup t s.workers ≡ some w)
      (over : is_under_way u.phase ≡ false) where
    abbrev pub remaining : Bool → Dict (Worker R)
    remaining b = if b then insert t u s.workers else erase t s.workers

    pub remaining-old :
        (b : Bool) (k : ℕ) (x : Worker R)
        → lookup k (remaining b) ≡ some x
        → (k < s.next_context)
          × ((is_under_way x.phase ≡ false) ⊎ ((k ≢ t) × (lookup k s.workers ≡ some x)))
    remaining-old true k x h = elim (insert_cases t k u x s.workers h) [
      | inl (e, same) ↦ (
        subst (λ z. z < s.next_context) e (v.fresh t w here),
        inl (ap (λ y. is_under_way y.phase) (sym same) ∙ over),
      )
      | inr (ne, was) ↦ (v.fresh k x was, inr (λ e. ne (sym e), was))
    ]
    remaining-old false k x h =
        let (ne, was) = erase_cases t k x s.workers h in
        (v.fresh k x was, inr (λ e. ne (sym e), was))

    pub remaining-others : (b : Bool) (k : ℕ) → k ≢ t → lookup k (remaining b) ≡ lookup k s.workers
    remaining-others true k ne = lookup-insert_ne t k u s.workers (λ e. ne (sym e))
    remaining-others false k ne = lookup-erase_ne t k s.workers (λ e. ne (sym e))

  -- The end of a thread preserves the invariant.
  pub ended-Inv :
      (s : Relay R) (t : ℕ) (w : Worker R) (status : Status) (r : Result R)
      → Inv s
      → lookup t s.workers ≡ some w
      → is_under_way w.phase ≡ true
      → is_running status ≡ false
      → Inv (ended t w status r s)
  ended-Inv s t w status r v here busy over =
      let (row, at, on, e) = finish_generation_lem s t w status v here busy in
      rw e (
        finished-Inv s v t w here busy status over row at on
          (remaining s v t w (record w { phase = Phase.answered r }) here refl w.is_submitted)
          s.completions
          (remaining-old s v t w (record w { phase = Phase.answered r }) here refl w.is_submitted)
          (remaining-others s v t w (record w { phase = Phase.answered r }) here refl
            w.is_submitted)
          v.entries (λ k h. h))

  -- An admitted request has a thread.
  abbrev pub Entered : ℕ → Relay R × Outcome ℕ → Type 0
  Entered id (s, Outcome.refused f) = Inv s
  Entered id (s, Outcome.ok t) = Inv s × Serves id (lookup t s.workers)

  pub admit_generation-Entered :
      (now id digest timeout_ms : ℕ) (is_echo is_submitted : Bool) (phase : Phase R) (s : Relay R)
      → Inv s
      → is_under_way phase ≡ true
      → Entered id (admit_generation now id digest timeout_ms is_echo is_submitted phase s)
  unfolding admit_generation
  admit_generation-Entered now id digest timeout_ms is_echo is_submitted phase s v on =
      go
        (not (
          leb 1 timeout_ms
          && leb timeout_ms (if is_echo then 20000 else s.generation_seconds * 1000)))
        (s.stopped || leb s.deadline now) (lookup id s.journal) refl
        (leb s.max_inflight (length (reserved s))) refl (leb max_tracked (length s.journal)) refl
    where
      go :
          (b c : Bool) (o : Option Row)
          → lookup id s.journal ≡ o
          → (d : Bool) → leb s.max_inflight (length (reserved s)) ≡ d
          → (e : Bool) → leb max_tracked (length s.journal) ≡ e
          → Entered id (
              if b
              then (s, Outcome.refused Failure.value_error)
              else if c
              then (s, Outcome.refused Failure.value_error)
              else elim o [
                | some row ↦ (s, Outcome.refused Failure.conflict)
                | none ↦
                    if d
                    then (s, Outcome.refused Failure.capacity)
                    else if e
                    then (s, Outcome.refused Failure.capacity)
                    else (
                      admitted id digest (min (now + timeout_ms) s.deadline) is_submitted phase s,
                      Outcome.ok s.next_context,
                    )
              ])
      go true c o p d q e r = v
      go false true o p d q e r = v
      go false false (some row) p d q e r = v
      go false false none p true q e r = v
      go false false none p false q true r = v
      go false false none p false q false r = (
        admitted-Inv s v id digest (min (now + timeout_ms) s.deadline) is_submitted phase p
            (ground arith) (ground arith) on,
        (
          record {
            request_id = id;
            is_submitted = is_submitted;
            phase = phase;
            cancel = false;
            dispatched = false;
            deadline = min (now + timeout_ms) s.deadline;
          },
          lookup-insert_self s.next_context _ s.workers,
          refl,
          on,
        ),
      )
