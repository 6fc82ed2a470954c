-- ===== src/Relay/Running.antt =====
-- The threads of a GPU relay preserve the invariant, and so does every history (relay_server.py).
use tiny_dsv.Base.{
  ℕ, ◌-◌, ◌≡◌, refl, ap, sym, subst, Bool, true, false, not, ◌||◌, Option, none, some, ◌∷◌, length,
  leb, ◌==◌, ==_iff, arith, Bool-cases, inl, inr, if◌then◌else◌,
}
use tiny_dsv.Base.Dict.{lookup, insert, erase, lookup-insert, insert-Distinct}
use tiny_dsv.Base.Updates.{length-insert_new, lookup-insert_self}
use tiny_dsv.Relay.State.{
  Failure, Outcome, Status, Row, Result, Phase, Worker, Relay, is_occupying, max_tracked,
}
use tiny_dsv.Relay.Invariant.{Inv, Runs, is_running, is_under_way}
use tiny_dsv.Relay.Changes.{recorded-Inv, replaced-Inv, sent-Inv, erased-Inv, is_connecting}
use tiny_dsv.Relay.Generations.{signalled, cancel_generation}
use tiny_dsv.Relay.Threads.{ended, settle, Answer}
use tiny_dsv.Relay.Steps.{ended-Inv}
use tiny_dsv.Relay.Serving.{signalled-Inv}
use tiny_dsv.Relay.Threads.{
  dispatch_from, receive_from, echo_from, publish_from, with_worker, refusal, completion,
}

module _ {R : Type 0} where
  -- A tombstone occupies no place.
  module _ (s : Relay R) (v : Inv s) (id : ℕ) (new : lookup id s.journal ≡ none)
      (room : leb max_tracked (length s.journal) ≡ false) (row : Row)
      (free : is_occupying row.status ≡ false) (idle : is_running row.status ≡ false) where
    look :
        (k : ℕ)
        → lookup k (insert id row s.journal) ≡ (if id == k then some row else lookup k s.journal)
    look k = lookup-insert id k row s.journal

    same : (k : ℕ) → Runs (lookup k (insert id row s.journal)) → Runs (lookup k s.journal)
    same k h = elim (Bool-cases (id == k)) [
      | inl e ↦
          let (x, l, r) = h in
          let q : row ≡ x = ground (arith, look k) in
          absurd (ground (arith, ap (λ z. is_running z.status) q))
      | inr e ↦ subst Runs (ground (arith, look k)) h
    ]

    still : (k : ℕ) → Runs (lookup k s.journal) → Runs (lookup k (insert id row s.journal))
    still k h = elim (Bool-cases (id == k)) [
      | inl e ↦
          let (x, l, r) = h in
          absurd (ground (arith, ap (λ z. lookup z s.journal) ((==_iff id k).0 e)))
      | inr e ↦ subst Runs (ground (arith, look k)) h
    ]

    pub tombstone-Inv : Inv (record s { journal = insert id row s.journal })
    tombstone-Inv =
        recorded-Inv s v (insert id row s.journal) s.completions
          (insert-Distinct id row s.journal v.distinct)
          (ground (arith, length-insert_new id row s.journal new)) v.entries same still
          (λ k h.
            let old : lookup k s.journal ≡ none = ground (arith, look k) in
            (old, v.completed k old))
          (λ k h. ground (arith, look k))

  pub cancel_generation-Inv : (id : ℕ) (s : Relay R) → Inv s → Inv (cancel_generation id s).0
  unfolding cancel_generation
  cancel_generation-Inv id s v =
      go (lookup id s.journal) refl (leb max_tracked (length s.journal)) refl
    where
      tombstone : Row
      tombstone = record {
        status = Status.cancelled;
        boot_id = s.boot_id;
        payload_sha256 = none;
        delivery_acknowledged = false;
      }

      go :
          (o : Option Row)
          → lookup id s.journal ≡ o
          → (b : Bool) → leb max_tracked (length s.journal) ≡ b
          → Inv
              (let out : Relay R × Outcome Unit = elim o [
                | some row ↦ (signalled id s, Outcome.ok tt)
                | none ↦ if b then (s, Outcome.refused Failure.capacity) else (
                  signalled id (record s {
                    journal =
                        insert id
                          (record {
                            status = Status.cancelled;
                            boot_id = s.boot_id;
                            payload_sha256 = none;
                            delivery_acknowledged = false;
                          })
                          s.journal;
                  }),
                  Outcome.ok tt,
                )
              ] in
                out).0
      go (some row) p b q = signalled-Inv id s v
      go none p true q = v
      go none p false q = signalled-Inv id _ (tombstone-Inv s v id p q _ refl refl)

  refusal-over : (c : Bool) (receipt : Option (R × Bool)) → is_running (refusal c receipt).0 ≡ false
  refusal-over true none = refl
  refusal-over true (some (r, true)) = refl
  refusal-over true (some (r, false)) = refl
  refusal-over false receipt = refl

  completion-over : (body : Option R) → is_running (completion body).0 ≡ false
  completion-over none = refl
  completion-over (some r) = refl

  pub settle-over :
      (is_controlled is_over : Bool) (answer : Option (Answer R))
      → is_running (settle is_controlled is_over answer).0 ≡ false
  unfolding settle
  settle-over c o none = refl
  settle-over c o (some a) = go (a.is_too_large || o || not a.is_complete) (not a.is_ok)
    where
      go :
          (x y : Bool)
          → is_running
              (if x
                then (Status.uncertain, Result.rejected none)
                else if y
                then refusal c a.receipt
                else completion a.body).0
            ≡ false
      go true y = refl
      go false true = refusal-over c a.receipt
      go false false = completion-over a.body

  -- What holds of the state as it is and of what the thread makes of it.
  pub with_worker_lem :
      (P : Relay R → Type 0) (t : ℕ) (f : Worker R → Relay R) (s : Relay R)
      → P s
      → ((w : Worker R) → lookup t s.workers ≡ some w → P (f w))
      → P (with_worker t f s)
  with_worker_lem P t f s v h = go (lookup t s.workers) h
    where
      go :
          (o : Option (Worker R))
          → ((w : Worker R) → o ≡ some w → P (f w))
          → P (let out : Relay R = elim o [ none ↦ s | some w ↦ f w ] in out)
      go none h = v
      go (some w) h = h w refl

  module _ (s : Relay R) (v : Inv s) (now t : ℕ) (w : Worker R)
      (here : lookup t s.workers ≡ some w) where
    -- A thread that is not connecting any more.
    advanced-Inv :
        (u : Worker R)
        → u.request_id ≡ w.request_id
        → is_under_way u.phase ≡ is_under_way w.phase
        → is_connecting u.phase ≡ false
        → Inv (record s { workers = insert t u s.workers })
    advanced-Inv u id on later =
        replaced-Inv s v t w u here id on (λ e. absurd (ground (arith, ap is_connecting e)))

    pub dispatch_from-Inv :
        (is_connected : Bool) (p : Phase R)
        → w.phase ≡ p
        → Inv (dispatch_from now t is_connected s w p)
    dispatch_from-Inv is_connected Phase.connecting e =
        go (not is_connected || (w.cancel || leb w.deadline now))
      where
        u : Worker R
        u = record w { dispatched = true; phase = Phase.waiting }

        go :
            (b : Bool)
            → Inv (
                if b then ended t w Status.failed (Result.rejected none) s else record s {
                  workers =
                      insert t (record w { dispatched = true; phase = Phase.waiting }) s.workers;
                  sent = w.request_id ∷ s.sent;
                })
        go true =
            ended-Inv s t w Status.failed (Result.rejected none) v here (ap is_under_way e) refl
        go false =
            sent-Inv _
              (advanced-Inv (record w { dispatched = true; phase = Phase.waiting }) refl
                (sym (ap is_under_way e)) refl)
              t _ (lookup-insert_self t _ s.workers) refl (v.unsent t w here e)
    dispatch_from-Inv is_connected Phase.waiting e = v
    dispatch_from-Inv is_connected (Phase.echoing n) e = v
    dispatch_from-Inv is_connected (Phase.answered r) e = v

    pub receive_from-Inv :
        (answer : Option (Answer R)) (p : Phase R)
        → w.phase ≡ p
        → Inv (receive_from now t answer s w p)
    receive_from-Inv answer Phase.waiting e =
        ended-Inv s t w _ _ v here (ap is_under_way e)
          (settle-over s.is_controlled (w.cancel || leb w.deadline now) answer)
    receive_from-Inv answer Phase.connecting e = v
    receive_from-Inv answer (Phase.echoing n) e = v
    receive_from-Inv answer (Phase.answered r) e = v

    pub echo_from-Inv :
        (is_written : Bool) (p : Phase R) → w.phase ≡ p → Inv (echo_from now t is_written s w p)
    echo_from-Inv is_written (Phase.echoing n) e =
        go (not is_written || (w.cancel || leb w.deadline now)) (leb n 1)
      where
        go :
            (b c : Bool)
            → Inv (
                if b
                then ended t w Status.failed (Result.rejected none) s
                else if c
                then ended t w Status.finished (Result.rejected none) s
                else record s {
                  workers = insert t (record w { phase = Phase.echoing (n - 1) }) s.workers;
                })
        go true c =
            ended-Inv s t w Status.failed (Result.rejected none) v here (ap is_under_way e) refl
        go false true =
            ended-Inv s t w Status.finished (Result.rejected none) v here (ap is_under_way e) refl
        go false false =
            advanced-Inv (record w { phase = Phase.echoing (n - 1) }) refl (sym (ap is_under_way e))
              refl
    echo_from-Inv is_written Phase.connecting e = v
    echo_from-Inv is_written Phase.waiting e = v
    echo_from-Inv is_written (Phase.answered r) e = v

    pub publish_from-Inv : (p : Phase R) → w.phase ≡ p → Inv (publish_from t s w p)
    publish_from-Inv (Phase.answered r) e = go (lookup w.request_id s.completions) refl
      where
        found :
            (k : ℕ) (entry : Option (Result R))
            → lookup w.request_id s.completions ≡ some entry
            → (w.request_id == k) ≡ true
            → lookup k s.completions ≡ some entry
        found k entry q c =
            subst (λ z. lookup z s.completions ≡ some entry) ((==_iff w.request_id k).0 c) q

        go :
            (o : Option (Option (Result R)))
            → lookup w.request_id s.completions ≡ o
            → Inv (record s {
              workers = erase t s.workers;
              completions = elim o [
                | none ↦ s.completions
                | some entry ↦ insert w.request_id (some r) s.completions
              ];
            })
        go none q = erased-Inv s v t w here (ap is_under_way e)
        go (some entry) q =
            recorded-Inv _ (erased-Inv s v t w here (ap is_under_way e)) s.journal
              (insert w.request_id (some r) s.completions) v.distinct v.tracked
              (insert-Distinct w.request_id (some r) s.completions v.entries) (λ k h. h) (λ k h. h)
              (λ k h. (
                h,
                elim (Bool-cases (w.request_id == k)) [
                  | inl c ↦ absurd (ground (arith, v.completed k h, found k entry q c))
                  | inr c ↦
                      ground (
                        arith,
                        v.completed k h,
                        lookup-insert w.request_id k (some r) s.completions,
                      )
                ],
              ))
              (λ k h. elim (Bool-cases (w.request_id == k)) [
                | inl c ↦ ground (arith, found k entry q c)
                | inr c ↦ ground (arith, lookup-insert w.request_id k (some r) s.completions)
              ])
    publish_from-Inv Phase.connecting e = v
    publish_from-Inv Phase.waiting e = v
    publish_from-Inv (Phase.echoing n) e = v
