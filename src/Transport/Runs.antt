-- ===== src/Transport/Runs.antt =====
-- Whatever happens to a transport, its ledger keeps the evidence.
use tiny_dsv.Base.{
  ℕ, ◌≡◌, refl, ap, ◌∙◌, Bool, true, false, not, ◌&&◌, ◌||◌, Option, none, some, List, [], ◌∷◌,
  contains, leb, ◌==◌, ==_iff, ==_refl, arith, Bool-cases, inl, inr, if◌then◌else◌,
}
use tiny_dsv.Base.Dict.{Dict, lookup, insert}
use tiny_dsv.Base.Sums.{times}
use tiny_dsv.Transport.State.{Entry, Binding, Transport}
use tiny_dsv.Transport.Calls.{
  World, Ending, training_admission, Disk, ledger_claim, no_claim, claim_file, claim_on, missed,
  replaced, stored, claim, binding_of, dispatch, call, first_entry, bind_episode, close_episode,
  Event, called, bound, ended, restarted, step, run, begin,
}
use tiny_dsv.Transport.Evidence.{Inv, knows-insert, dispatch-Inv}

-- A claim that succeeds is of a request that was not sent.
abbrev Claimed : ℕ → Transport × Option Entry → Type 0
Claimed id (t, none) = Inv t
Claimed id (t, some e) = Inv t × (contains id t.claims ≡ true) × (times id t.sent ≡ 0)

claim-Claimed : (w : World) (id : ℕ) (t : Transport) → Inv t → Claimed id (claim w id t)
unfolding claim
claim-Claimed w id t v = go (not w.is_valid_id || contains id t.claims) refl w.claim_disk
  where
    fresh : contains id t.claims ≡ false → times id t.sent ≡ 0
    fresh h = elim (Bool-cases (leb 1 (times id t.sent))) [
      | inl c ↦ absurd (ground (arith, v.exclusive id (ground arith), h))
      | inr c ↦ ground arith
    ]

    claimed_only : Inv (record t { claims = id ∷ t.claims })
    claimed_only = record {
      once = v.once;
      exclusive = λ k s. ground (arith, v.exclusive k s);
      recorded = v.recorded;
    }

    claimed_all :
        contains id t.claims ≡ false
        → Inv (record t { claims = id ∷ t.claims; entries = insert id first_entry t.entries })
    claimed_all h = record {
      once = v.once;
      exclusive = claimed_only.exclusive;
      recorded = λ k s.
          knows-insert id k first_entry t.answers t.entries ∙ elim (Bool-cases (id == k)) [
            | inl c ↦
                absurd (omega (arith, s, fresh h, ap (λ z. times z t.sent) ((==_iff id k).0 c)))
            | inr c ↦ rw c (v.recorded k s)
          ];
    }

    go :
        (refused : Bool)
        → (not w.is_valid_id || contains id t.claims) ≡ refused
        → (disk : Disk) → Claimed id (if refused then (t, none) else claim_on disk id t)
    go true h disk = v
    go false h no_claim = v
    go false h (claim_file missed) = claimed_only
    go false h (claim_file replaced) = claimed_all (ground arith)
    go false h (claim_file stored) =
        (claimed_all (ground arith), ground (arith, ==_refl id), fresh (ground arith))

call-Inv :
    (episode_of : ℕ → Option ℕ) (w : World) (id : ℕ) (t : Transport)
    → Inv t
    → Inv (call episode_of w id t).0
unfolding call
call-Inv episode_of w id t v =
    go (binding_of episode_of id t) (w.is_trained && not w.payload_ok) (claim w id t)
      (claim-Claimed w id t v)
  where
    go :
        (b : Option (Option (ℕ × Binding))) (refused : Bool) (c : Transport × Option Entry)
        → Claimed id c
        → Inv
            (let out : Transport × Ending = elim b [
              | none ↦ (t, training_admission)
              | some binding ↦ if refused then (t, training_admission) else elim c.1 [
                | none ↦ (c.0, ledger_claim)
                | some e ↦ dispatch w id binding e c.0
              ]
            ] in
              out).0
    go none refused c h = v
    go (some b) true c h = v
    go (some b) false (t', none) h = h
    go (some b) false (t', some e) (h, mine, fresh) = dispatch-Inv w id b e t' mine fresh h

rebind-Inv :
    (t : Transport) (bindings : Dict Binding) (captured : List ℕ)
    → Inv t
    → Inv (record t { bindings = bindings; captured = captured })
rebind-Inv t bindings captured v = record {
  once = v.once;
  exclusive = v.exclusive;
  recorded = v.recorded;
}

step-Inv :
    (episode_of : ℕ → Option ℕ) (e : Event) (t : Transport) → Inv t → Inv (step episode_of e t)
unfolding step bind_episode close_episode
step-Inv episode_of (called w id) t v = call-Inv episode_of w id t v
step-Inv episode_of (bound trial) t v = go (lookup trial t.bindings)
  where
    fresh : Dict Binding
    fresh = insert trial (record { closed = false; next_turn = 1; traces = [] }) t.bindings

    go :
        (o : Option Binding)
        → Inv (
            let bound_to : Option Transport = elim o [
              | some b ↦ none
              | none ↦ some (record t { bindings = fresh })
            ] in
            let out : Transport = elim bound_to [ none ↦ t | some t' ↦ t' ] in out)
    go none = rebind-Inv t fresh t.captured v
    go (some b) = v
step-Inv episode_of (ended trial) t v = go (lookup trial t.bindings)
  where
    closed : Binding → Dict Binding
    closed b = insert trial (record b { closed = true }) t.bindings

    go :
        (o : Option Binding)
        → Inv (
            let left : Option (Transport × List ℕ) = elim o [
              | none ↦ none
              | some b ↦ some (record t { bindings = closed b }, b.traces)
            ] in
            let out : Transport = elim left [ none ↦ t | some (t', ts) ↦ t' ] in out)
    go none = v
    go (some b) = rebind-Inv t (closed b) t.captured v
step-Inv episode_of restarted t v = rebind-Inv t [] [] v

run-Inv :
    (episode_of : ℕ → Option ℕ) (events : List Event) (t : Transport)
    → Inv t
    → Inv (run episode_of events t)
unfolding run
run-Inv episode_of [] t v = v
run-Inv episode_of (e ∷ events) t v =
    run-Inv episode_of events (step episode_of e t) (step-Inv episode_of e t v)

-- Whatever happens to a transport with a new ledger, calls with any failures of files, before or
-- after a file is replaced, and of the route, bindings, closed episodes and restarts: no request is
-- sent twice, every request that was sent is claimed, and its entry in the ledger says that it is
-- uncertain unless the answer of the route to that very request has settled it, by a response or by
-- a failure that says that the request was not dispatched; what the entry says then agrees with
-- that answer.
pub run-begin-Inv :
    (episode_of : ℕ → Option ℕ) (events : List Event) → Inv (run episode_of events begin)
run-begin-Inv episode_of events = run-Inv episode_of events begin (record {
  once = λ k. omega arith;
  exclusive = λ k s. absurd (omega arith);
  recorded = λ k s. absurd (omega arith);
})
