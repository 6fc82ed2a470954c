-- ===== src/Relay/Delivery.antt =====
-- The outcome of a generation and its status (relay_server.py, execute_generation).
use tiny_dsv.Base.{
  ℕ, ◌≡◌, ◌⊎◌, refl, ap, sym, ◌∙◌, subst, Bool, true, false, not, ◌||◌, Option, none, some, leb,
  arith, inl, inr, if◌then◌else◌,
}
use tiny_dsv.Base.Dict.{lookup}
use tiny_dsv.Base.Updates.{lookup-insert_self, lookup-erase_self}
use tiny_dsv.Relay.State.{Status, Row, Result, Phase, Worker, Relay, is_occupying}
use tiny_dsv.Relay.Invariant.{Inv, is_under_way, is_running}
use tiny_dsv.Relay.Running.{settle-over}
use tiny_dsv.Relay.Threads.{ended, receive, settle, Answer}
use tiny_dsv.Relay.Steps.{finish_generation_lem}
use tiny_dsv.Relay.Threads.{receive_from, completion, refusal}

module _ {R : Type 0} where
  -- The answer came in full and in time.
  abbrev pub Arrived : Bool → Option (Answer R) → Type 0
  Arrived is_over answer =
      (a : Answer R) × (answer ≡ some a)
      × (is_over ≡ false)
      × (a.is_too_large ≡ false)
      × (a.is_complete ≡ true)

  -- The record of a request is no longer running, and keeps its place unless the answer arrived.
  abbrev pub Settled : (id : ℕ) (is_over : Bool) → Option (Answer R) → Relay R → Type 0
  Settled id is_over answer s =
      (row : Row) × (lookup id s.journal ≡ some row)
      × (lookup id s.active ≡ none)
      × (is_running row.status ≡ false)
      × ((is_occupying row.status ≡ true) ⊎ Arrived is_over answer)

  settle_cases :
      (is_controlled is_over : Bool) (answer : Option (Answer R))
      → (is_occupying (settle is_controlled is_over answer).0 ≡ true) ⊎ Arrived is_over answer
  unfolding settle
  settle_cases c o none = inl refl
  settle_cases c o (some a) = go (a.is_too_large || o || not a.is_complete) refl
    where
      go :
          (x : Bool)
          → (a.is_too_large || o || not a.is_complete) ≡ x
          → (is_occupying
                (if x
                  then (Status.uncertain, Result.rejected none)
                  else if not a.is_ok
                  then refusal c a.receipt
                  else completion a.body).0
              ≡ true)
            ⊎ Arrived o (some a)
      go true e = inl refl
      go false e = inr (a, refl, ground arith, ground arith, ground arith)

  module _ (s : Relay R) (v : Inv s) (now t : ℕ) (answer : Option (Answer R)) (w : Worker R)
      (here : lookup t s.workers ≡ some w) (waits : w.phase ≡ Phase.waiting) where
    abbrev pub outcome : Status × Result R
    outcome = settle s.is_controlled (w.cancel || leb w.deadline now) answer

    pub receive_eq : receive now t answer s ≡ ended t w outcome.0 outcome.1 s
    unfolding receive
    receive_eq =
        ap
          (λ (o : Option (Worker R)).
            let out : Relay R = elim o [
              | none ↦ s
              | some u ↦ receive_from now t answer s u u.phase
            ] in
            out)
          here
        ∙ ap (λ p. receive_from now t answer s w p) waits

    pub busy : is_under_way w.phase ≡ true
    busy = ap is_under_way waits

    -- When the outcome of a dispatched request is known to its thread, the record is no longer
    -- running and its owner is gone; the record keeps its place unless the upstream service
    -- answered in full, within the size bound, before the deadline and without a cancellation.
    pub receive_lem :
        Settled w.request_id (w.cancel || leb w.deadline now) answer (receive now t answer s)
    receive_lem =
        let (row, at, on, e) = finish_generation_lem s t w outcome.0 v here busy in
        let row' : Row = record row { status = outcome.0 } in
        subst (Settled w.request_id (w.cancel || leb w.deadline now) answer) (sym receive_eq) (
          rw (e, ended)
            (
              row',
              lookup-insert_self w.request_id row' s.journal,
              lookup-erase_self w.request_id s.active,
              settle-over s.is_controlled (w.cancel || leb w.deadline now) answer,
              settle_cases s.is_controlled (w.cancel || leb w.deadline now) answer,
            ))
