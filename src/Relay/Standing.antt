-- ===== src/Relay/Standing.antt =====
-- No history of a GPU relay makes a second thread for a request, or loses a result that was
-- published (relay_server.py).
use tiny_dsv.Base.{
  ℕ, ◌≡◌, refl, ap, ◌∙◌, Bool, true, false, not, ◌||◌, Option, none, some, ◌∷◌, leb, ◌==◌, arith,
  if◌then◌else◌, ◌-◌,
}
use tiny_dsv.Base.Dict.{Dict, lookup, insert, erase}
use tiny_dsv.Base.Updates.{lookup-insert_ne}
use tiny_dsv.Relay.State.{Failure, Outcome, Status, Row, Result, Phase, Worker, Relay}
use tiny_dsv.Relay.Generations.{finish_generation}
use tiny_dsv.Relay.Threads.{ended, dispatch_from, receive_from, echo_from, publish_from, Answer}
use tiny_dsv.Relay.Tracing.{
  Traced, replaced-Traced, erased-Traced, recorded-Traced, completions-Traced, insert-Waits,
}

module _ {R : Type 0} (id : ℕ) (o : Option (Result R)) where
  pub finish_generation-Traced :
      (k t : ℕ) (status : Status) (s : Relay R)
      → Traced id o s
      → Traced id o (finish_generation k t status s).0
  unfolding finish_generation
  finish_generation-Traced k t status s d = go (lookup k s.active) (lookup k s.journal) refl
    where
      taken :
          (b : Bool) (x : Option Row)
          → lookup k s.journal ≡ x
          → Traced id o
              (let out : Relay R × Outcome Unit =
                  if b
                  then elim x [
                    | none ↦ (s, Outcome.refused Failure.unknown)
                    | some row ↦ (
                      record s {
                        journal = insert k (record row { status = status }) s.journal;
                        active = erase k s.active;
                      },
                      Outcome.ok tt,
                    )
                  ]
                  else (s, Outcome.refused Failure.conflict) in
                out).0
      taken true none e = d
      taken true (some row) e =
          recorded-Traced id o s k (record row { status = status }) (erase k s.active) s.completions
            d
            (λ r same.
              insert-Waits id o r k (record row { status = status }) s.journal s.completions
                (λ old at. ground (arith, e, at)))
      taken false x e = d

      go :
          (a : Option ℕ) (x : Option Row)
          → lookup k s.journal ≡ x
          → Traced id o
              (let out : Relay R × Outcome Unit = elim a [
                | none ↦ (s, Outcome.refused Failure.conflict)
                | some owner ↦
                    if owner == t
                    then elim x [
                      | none ↦ (s, Outcome.refused Failure.unknown)
                      | some row ↦ (
                        record s {
                          journal = insert k (record row { status = status }) s.journal;
                          active = erase k s.active;
                        },
                        Outcome.ok tt,
                      )
                    ]
                    else (s, Outcome.refused Failure.conflict)
              ] in
                out).0
      go none x e = d
      go (some owner) x e = taken (owner == t) x e

  finish_generation-workers :
      (k t : ℕ) (status : Status) (s : Relay R)
      → (finish_generation k t status s).0.workers ≡ s.workers
  unfolding finish_generation
  finish_generation-workers k t status s = ground arith

  ended-Traced :
      (s : Relay R) (t : ℕ) (w : Worker R) (status : Status) (r : Result R)
      → Traced id o s
      → lookup t s.workers ≡ some w
      → Traced id o (ended t w status r s)
  ended-Traced s t w status r d here =
      go (finish_generation w.request_id t status s).0 w.is_submitted
        (finish_generation-Traced w.request_id t status s d)
        (finish_generation-workers w.request_id t status s)
    where
      go :
          (s' : Relay R) (b : Bool)
          → Traced id o s'
          → s'.workers ≡ s.workers
          → Traced id o (record s' {
            workers =
                if b
                then insert t (record w { phase = Phase.answered r }) s'.workers
                else erase t s'.workers;
          })
      go s' true d' e =
          replaced-Traced id o s' t w (record w { phase = Phase.answered r }) d'
            (ap (λ z. lookup t z) e ∙ here) refl
      go s' false d' e = erased-Traced id o s' t d'

  module _ (s : Relay R) (d : Traced id o s) (now t : ℕ) (w : Worker R)
      (here : lookup t s.workers ≡ some w) where
    pub dispatch_from-Traced :
        (is_connected : Bool) (p : Phase R) → Traced id o (dispatch_from now t is_connected s w p)
    dispatch_from-Traced is_connected Phase.connecting =
        go (not is_connected || (w.cancel || leb w.deadline now))
      where
        go :
            (b : Bool)
            → Traced id o (
                if b then ended t w Status.failed (Result.rejected none) s else record s {
                  workers =
                      insert t (record w { dispatched = true; phase = Phase.waiting }) s.workers;
                  sent = w.request_id ∷ s.sent;
                })
        go true = ended-Traced s t w Status.failed (Result.rejected none) d here
        go false =
            let d' =
              replaced-Traced id o s t w (record w { dispatched = true; phase = Phase.waiting }) d
                here refl in
            record { journaled = d'.journaled; sole = d'.sole; waits = d'.waits; left = d'.left }
    dispatch_from-Traced is_connected Phase.waiting = d
    dispatch_from-Traced is_connected (Phase.echoing n) = d
    dispatch_from-Traced is_connected (Phase.answered r) = d

    pub receive_from-Traced :
        (answer : Option (Answer R)) (p : Phase R) → Traced id o (receive_from now t answer s w p)
    receive_from-Traced answer Phase.waiting = ended-Traced s t w _ _ d here
    receive_from-Traced answer Phase.connecting = d
    receive_from-Traced answer (Phase.echoing n) = d
    receive_from-Traced answer (Phase.answered r) = d

    pub echo_from-Traced :
        (is_written : Bool) (p : Phase R) → Traced id o (echo_from now t is_written s w p)
    echo_from-Traced is_written (Phase.echoing n) =
        go (not is_written || (w.cancel || leb w.deadline now)) (leb n 1)
      where
        go :
            (b c : Bool)
            → Traced id o (
                if b
                then ended t w Status.failed (Result.rejected none) s
                else if c
                then ended t w Status.finished (Result.rejected none) s
                else record s {
                  workers = insert t (record w { phase = Phase.echoing (n - 1) }) s.workers;
                })
        go true c = ended-Traced s t w Status.failed (Result.rejected none) d here
        go false true = ended-Traced s t w Status.finished (Result.rejected none) d here
        go false false =
            replaced-Traced id o s t w (record w { phase = Phase.echoing (n - 1) }) d here refl
    echo_from-Traced is_written Phase.connecting = d
    echo_from-Traced is_written Phase.waiting = d
    echo_from-Traced is_written (Phase.answered r) = d

    pub publish_from-Traced : (p : Phase R) → Traced id o (publish_from t s w p)
    publish_from-Traced (Phase.answered r) =
        completions-Traced id o _ _ (erased-Traced id o s t d)
          (λ q e there. go (lookup w.request_id s.completions) q e there)
      where
        go :
            (x : Option (Option (Result R))) (q : Result R)
            → o ≡ some q
            → lookup id s.completions ≡ some (some q)
            → lookup id (
                let out : Dict (Option (Result R)) = elim x [
                  | none ↦ s.completions
                  | some entry ↦ insert w.request_id (some r) s.completions
                ] in
                out)
              ≡ some (some q)
        go none q e there = there
        go (some entry) q e there =
            lookup-insert_ne w.request_id id (some r) s.completions (d.left q e t w here) ∙ there
    publish_from-Traced Phase.connecting = d
    publish_from-Traced Phase.waiting = d
    publish_from-Traced (Phase.echoing n) = d
