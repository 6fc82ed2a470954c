-- ===== src/Relay/Cancelling.antt =====
-- A cancellation that comes before the dispatch (RelayState.cancel_generation).
use tiny_dsv.Base.{
  ℕ, ◌≡◌, refl, ap, sym, Bool, true, false, Option, none, some, List, length, leb, arith, inl, inr,
  if◌then◌else◌,
}
use tiny_dsv.Base.Dict.{lookup, insert}
use tiny_dsv.Base.Updates.{insert_cases, lookup-insert_self}
use tiny_dsv.Base.Sums.{times}
use tiny_dsv.Relay.State.{Failure, Outcome, Status, Row, Worker, Relay, max_tracked}
use tiny_dsv.Relay.Invariant.{Inv, is_under_way}
use tiny_dsv.Relay.Generations.{signalled, cancel_generation}
use tiny_dsv.Relay.Running.{tombstone-Inv}
use tiny_dsv.Relay.Withdrawal.{Withdrawn}
use tiny_dsv.Relay.Silence.{run-Withdrawn}
use tiny_dsv.Relay.Threads.{Event, run}

module _ {R : Type 0} (id : ℕ) where
  signalled-Withdrawn_new :
      (s : Relay R)
      → Inv s
      → (row : Row) × (lookup id s.journal ≡ some row)
      → times id s.sent ≡ 0
      → Withdrawn id (signalled id s)
  signalled-Withdrawn_new s v known silent = go (lookup id s.active) refl
    where
      inner :
          (t : ℕ)
          → lookup id s.active ≡ some t
          → (o : Option (Worker R)) → lookup t s.workers ≡ o
          → Withdrawn id (
              let out : Relay R = elim o [
                | none ↦ s
                | some w ↦ record s { workers = insert t (record w { cancel = true }) s.workers }
              ] in
              out)
      inner t a none p = absurd (let (w, at, is, on) = v.owned id t a in ground arith)
      inner t a (some w) p = record {
        present = known;
        silent = silent;
        stopped = λ k x at is c.
            elim (insert_cases t k (record w { cancel = true }) x s.workers at) [
              | inl (e, same) ↦ sym (ap (λ y. y.cancel) same)
              | inr (ne, was) ↦ absurd (
                  ne (
                    ground (
                      arith,
                      a,
                      v.working k x was (ap is_under_way c),
                      ap (λ z. lookup z s.active) is,
                    )))
            ];
      }

      go :
          (o : Option ℕ)
          → lookup id s.active ≡ o
          → Withdrawn id (
              let out : Relay R = elim o [
                | none ↦ s
                | some t ↦ elim (lookup t s.workers) [
                  | none ↦ s
                  | some w ↦ record s { workers = insert t (record w { cancel = true }) s.workers }
                ]
              ] in
              out)
      go none a = record {
        present = known;
        silent = silent;
        stopped = λ k x at is c. absurd (
            ground
              (arith, a, v.working k x at (ap is_under_way c), ap (λ z. lookup z s.active) is));
      }
      go (some t) a = inner t a (lookup t s.workers) refl

  cancel_generation-Withdrawn_new :
      (s : Relay R)
      → Inv s
      → times id s.sent ≡ 0
      → (cancel_generation id s).1 ≡ Outcome.ok tt
      → Withdrawn id (cancel_generation id s).0
  unfolding cancel_generation
  cancel_generation-Withdrawn_new s v silent done =
      go (lookup id s.journal) refl (leb max_tracked (length s.journal)) refl done
    where
      go :
          (o : Option Row)
          → lookup id s.journal ≡ o
          → (b : Bool) → leb max_tracked (length s.journal) ≡ b
          → let out : Relay R × Outcome Unit = elim o [
            | some row ↦ (signalled id s, Outcome.ok tt)
            | none ↦ if b then (s, Outcome.refused Failure.capacity) else (
              signalled id (record s {
                journal =
                    insert id
                      (record {
                        status = Status.cancelled;
                        boot_id = s.boot_id;
                        payload_sha256 = none;
                        delivery_acknowledged = false;
                      })
                      s.journal;
              }),
              Outcome.ok tt,
            )
          ] in
            (out.1 ≡ Outcome.ok tt → Withdrawn id out.0)
      go (some row) p b q h = signalled-Withdrawn_new s v (row, p) silent
      go none p true q h = absurd (ground arith)
      go none p false q h =
          signalled-Withdrawn_new _ (tombstone-Inv s v id p q _ refl refl)
            (_, lookup-insert_self id _ s.journal) silent

  -- A request that is cancelled before it was dispatched, known or not, is never dispatched
  -- afterwards, whatever happens to the relay, if the cancellation is accepted.
  pub cancel_generation_lem :
      (s : Relay R) (es : List (Event R))
      → Inv s
      → times id s.sent ≡ 0
      → (cancel_generation id s).1 ≡ Outcome.ok tt
      → times id (run es (cancel_generation id s).0).sent ≡ 0
  cancel_generation_lem s es v silent done =
      (run-Withdrawn id es _ (cancel_generation-Withdrawn_new s v silent done)).silent
