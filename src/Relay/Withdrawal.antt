-- ===== src/Relay/Withdrawal.antt =====
-- A request of a GPU relay that is withdrawn before its dispatch is never dispatched
-- (RelayState.cancel_generation).
use tiny_dsv.Base.{
  ℕ, ◌-◌, ◌≡◌, refl, ap, sym, ◌∙◌, Bool, true, false, not, ◌||◌, Option, none, some, ◌∷◌, leb, ◌==◌,
  ==_iff, arith, Bool-cases, inl, inr, if◌then◌else◌,
}
use tiny_dsv.Base.Dict.{Dict, lookup, insert, erase, lookup-insert}
use tiny_dsv.Base.Updates.{insert_cases, erase_cases}
use tiny_dsv.Base.Sums.{times}
use tiny_dsv.Relay.State.{Failure, Outcome, Status, Row, Result, Phase, Worker, Relay}
use tiny_dsv.Relay.Generations.{finish_generation}
use tiny_dsv.Relay.Threads.{ended, Answer}
use tiny_dsv.Relay.Changes.{is_connecting}
use tiny_dsv.Relay.Threads.{dispatch_from, receive_from, echo_from, publish_from, ended}

pub insert-present :
    (id k : ℕ) (row : Row) (m : Dict Row)
    → (x : Row) × (lookup id m ≡ some x)
    → (x : Row) × (lookup id (insert k row m) ≡ some x)
insert-present id k row m (x, at) = elim (Bool-cases (k == id)) [
  | inl e ↦ (row, ground (arith, lookup-insert k id row m))
  | inr e ↦ (x, ground (arith, lookup-insert k id row m))
]

module _ {R : Type 0} (id : ℕ) where
  -- The request has a record, was not dispatched, and its threads that could dispatch it are cancelled.
  pub record Withdrawn (s : Relay R) : Type 0 where
    pub present : (row : Row) × (lookup id s.journal ≡ some row)
    pub silent : times id s.sent ≡ 0
    pub stopped :
        (t : ℕ) (w : Worker R)
        → lookup t s.workers ≡ some w
        → w.request_id ≡ id
        → w.phase ≡ Phase.connecting
        → w.cancel ≡ true

  -- One thread changes or ends.
  pub replaced-Withdrawn :
      (s : Relay R) (t : ℕ) (u : Worker R)
      → Withdrawn s
      → (u.request_id ≡ id → u.phase ≡ Phase.connecting → u.cancel ≡ true)
      → Withdrawn (record s { workers = insert t u s.workers })
  replaced-Withdrawn s t u d h = record {
    present = d.present;
    silent = d.silent;
    stopped = λ k x at is c. elim (insert_cases t k u x s.workers at) [
      | inl (e, same) ↦
          sym (ap (λ y. y.cancel) same)
          ∙ h (ap (λ y. y.request_id) same ∙ is) (ap (λ y. y.phase) same ∙ c)
      | inr (ne, was) ↦ d.stopped k x was is c
    ];
  }

  pub erased-Withdrawn :
      (s : Relay R) (t : ℕ) → Withdrawn s → Withdrawn (record s { workers = erase t s.workers })
  erased-Withdrawn s t d = record {
    present = d.present;
    silent = d.silent;
    stopped = λ k x at is c. d.stopped k x (erase_cases t k x s.workers at).1 is c;
  }

  pub recorded-Withdrawn :
      (s : Relay R) (k : ℕ) (row : Row) (active : Dict ℕ) (completions : Dict (Option (Result R)))
      → Withdrawn s
      → Withdrawn (record s {
        journal = insert k row s.journal;
        active = active;
        completions = completions;
      })
  recorded-Withdrawn s k row active completions d = record {
    present = insert-present id k row s.journal d.present;
    silent = d.silent;
    stopped = d.stopped;
  }

  pub finish_generation-Withdrawn :
      (k t : ℕ) (status : Status) (s : Relay R)
      → Withdrawn s
      → Withdrawn (finish_generation k t status s).0
  unfolding finish_generation
  finish_generation-Withdrawn k t status s d = go (lookup k s.active) (lookup k s.journal)
    where
      taken :
          (b : Bool) (o : Option Row)
          → Withdrawn
              (let out : Relay R × Outcome Unit =
                  if b
                  then elim o [
                    | none ↦ (s, Outcome.refused Failure.unknown)
                    | some row ↦ (
                      record s {
                        journal = insert k (record row { status = status }) s.journal;
                        active = erase k s.active;
                      },
                      Outcome.ok tt,
                    )
                  ]
                  else (s, Outcome.refused Failure.conflict) in
                out).0
      taken true none = d
      taken true (some row) = recorded-Withdrawn s k _ (erase k s.active) s.completions d
      taken false o = d

      go :
          (a : Option ℕ) (o : Option Row)
          → Withdrawn
              (let out : Relay R × Outcome Unit = elim a [
                | none ↦ (s, Outcome.refused Failure.conflict)
                | some owner ↦
                    if owner == t
                    then elim o [
                      | none ↦ (s, Outcome.refused Failure.unknown)
                      | some row ↦ (
                        record s {
                          journal = insert k (record row { status = status }) s.journal;
                          active = erase k s.active;
                        },
                        Outcome.ok tt,
                      )
                    ]
                    else (s, Outcome.refused Failure.conflict)
              ] in
                out).0
      go none o = d
      go (some owner) o = taken (owner == t) o

  pub ended-Withdrawn :
      (s : Relay R) (t : ℕ) (w : Worker R) (status : Status) (r : Result R)
      → Withdrawn s
      → Withdrawn (ended t w status r s)
  ended-Withdrawn s t w status r d =
      go (finish_generation w.request_id t status s).0 w.is_submitted
        (finish_generation-Withdrawn w.request_id t status s d)
    where
      go :
          (s' : Relay R) (b : Bool)
          → Withdrawn s'
          → Withdrawn (record s' {
            workers =
                if b
                then insert t (record w { phase = Phase.answered r }) s'.workers
                else erase t s'.workers;
          })
      go s' true d' =
          replaced-Withdrawn s' t (record w { phase = Phase.answered r }) d'
            (λ e c. absurd (ground (arith, ap is_connecting c)))
      go s' false d' = erased-Withdrawn s' t d'

  module _ (s : Relay R) (d : Withdrawn s) (now t : ℕ) (w : Worker R)
      (here : lookup t s.workers ≡ some w) where
    pub dispatch_from-Withdrawn :
        (is_connected : Bool) (p : Phase R)
        → w.phase ≡ p
        → Withdrawn (dispatch_from now t is_connected s w p)
    dispatch_from-Withdrawn is_connected Phase.connecting e =
        go (not is_connected || (w.cancel || leb w.deadline now)) refl
      where
        go :
            (b : Bool)
            → (not is_connected || (w.cancel || leb w.deadline now)) ≡ b
            → Withdrawn (
                if b then ended t w Status.failed (Result.rejected none) s else record s {
                  workers =
                      insert t (record w { dispatched = true; phase = Phase.waiting }) s.workers;
                  sent = w.request_id ∷ s.sent;
                })
        go true q = ended-Withdrawn s t w Status.failed (Result.rejected none) d
        go false q =
            let d' =
              replaced-Withdrawn s t (record w { dispatched = true; phase = Phase.waiting }) d
                (λ i c. absurd (ground (arith, ap is_connecting c))) in
            record {
              present = d'.present;
              silent = ground (arith, d.silent, d.stopped t w here, ==_iff w.request_id id);
              stopped = d'.stopped;
            }
    dispatch_from-Withdrawn is_connected Phase.waiting e = d
    dispatch_from-Withdrawn is_connected (Phase.echoing n) e = d
    dispatch_from-Withdrawn is_connected (Phase.answered r) e = d

    pub receive_from-Withdrawn :
        (answer : Option (Answer R)) (p : Phase R) → Withdrawn (receive_from now t answer s w p)
    receive_from-Withdrawn answer Phase.waiting = ended-Withdrawn s t w _ _ d
    receive_from-Withdrawn answer Phase.connecting = d
    receive_from-Withdrawn answer (Phase.echoing n) = d
    receive_from-Withdrawn answer (Phase.answered r) = d

    pub echo_from-Withdrawn :
        (is_written : Bool) (p : Phase R) → Withdrawn (echo_from now t is_written s w p)
    echo_from-Withdrawn is_written (Phase.echoing n) =
        go (not is_written || (w.cancel || leb w.deadline now)) (leb n 1)
      where
        go :
            (b c : Bool)
            → Withdrawn (
                if b
                then ended t w Status.failed (Result.rejected none) s
                else if c
                then ended t w Status.finished (Result.rejected none) s
                else record s {
                  workers = insert t (record w { phase = Phase.echoing (n - 1) }) s.workers;
                })
        go true c = ended-Withdrawn s t w Status.failed (Result.rejected none) d
        go false true = ended-Withdrawn s t w Status.finished (Result.rejected none) d
        go false false =
            replaced-Withdrawn s t (record w { phase = Phase.echoing (n - 1) }) d
              (λ i c. absurd (ground (arith, ap is_connecting c)))
    echo_from-Withdrawn is_written Phase.connecting = d
    echo_from-Withdrawn is_written Phase.waiting = d
    echo_from-Withdrawn is_written (Phase.answered r) = d

    pub publish_from-Withdrawn : (p : Phase R) → Withdrawn (publish_from t s w p)
    publish_from-Withdrawn (Phase.answered r) =
        let d' = erased-Withdrawn s t d in
        record { present = d'.present; silent = d'.silent; stopped = d'.stopped }
    publish_from-Withdrawn Phase.connecting = d
    publish_from-Withdrawn Phase.waiting = d
    publish_from-Withdrawn (Phase.echoing n) = d
