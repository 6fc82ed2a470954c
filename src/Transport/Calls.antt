-- ===== src/Transport/Calls.antt =====
-- `Client.call` of an RpcTransport and what it uses of the ledger
-- (rollout_manager/transports.py). A claim may fail half way. Writing a state may fail before the
-- file is replaced, and after it. The death of the process at such a place leaves the same files.
use tiny_dsv.Base.{
  ℕ, ◌+◌, Bool, true, false, not, ◌&&◌, ◌||◌, Option, none, some, List, [], ◌∷◌, ◌++◌, contains,
  if◌then◌else◌,
}
use tiny_dsv.Base.Dict.{Dict, lookup, insert}
use tiny_dsv.Transport.State.{
  Stage, claimed, dispatching, outcome_unknown, not_dispatched, response_received, Answer, result,
  failure, Entry, Binding, Transport,
}

-- How far `_atomic` gets: it fails before the file is replaced, or after it, or it ends.
pub data Write : Type 0 where
  missed replaced stored : Write

abbrev pub has_replaced : Write → Bool
has_replaced missed = false
has_replaced replaced = true
has_replaced stored = true

-- How far `claim` gets: not to the exclusive file, or to writing the state.
pub data Disk : Type 0 where
  no_claim : Disk
  claim_file : Write → Disk

-- What a call meets: `is_trained` says that there is a contract.
pub record World : Type 0 where
  pub is_valid_id : Bool
  pub is_trained : Bool
  pub payload_ok : Bool
  pub claim_disk : Disk
  pub dispatch_disk : Write
  pub answer : Answer
  pub outcome_disk : Write
  pub evidence_ok : Bool
  pub evidence_disk : Write
  pub rejection_disk : Write
  pub trace : ℕ

pub data Ending : Type 0 where
  returned : Ending
  training_admission ledger_claim request_failed response_evidence training_evidence : Ending

abbrev pub first_entry : Entry
first_entry = record {
  stage = claimed;
  uncertain = none;
  acknowledged = false;
  training_evidence = none;
}

abbrev pub is_stored : Write → Bool
is_stored missed = false
is_stored replaced = false
is_stored stored = true

-- `RequestLedger.claim`: the claim is exclusive. `none` in the second place is an exception.
abbrev pub claim_on : Disk → ℕ → Transport → Transport × Option Entry
claim_on no_claim id t = (t, none)
claim_on (claim_file missed) id t = (record t { claims = id ∷ t.claims }, none)
claim_on (claim_file replaced) id t =
    (record t { claims = id ∷ t.claims; entries = insert id first_entry t.entries }, none)
claim_on (claim_file stored) id t = (
  record t { claims = id ∷ t.claims; entries = insert id first_entry t.entries },
  some first_entry,
)

unfoldable pub claim : World → ℕ → Transport → Transport × Option Entry
claim w id t =
    if not w.is_valid_id || contains id t.claims then (t, none) else claim_on w.claim_disk id t

-- `RequestLedger.update`; it raises unless the write is `stored`.
abbrev pub update : Write → ℕ → Entry → Transport → Transport
update disk id e t = if has_replaced disk then record t { entries = insert id e t.entries } else t

abbrev pub is_empty : Dict Binding → Bool
is_empty [] = true
is_empty (b ∷ bs) = false

-- `_binding`: `episode_of` reads the trial out of a request `trial-tN`. The outer `none` is an
-- exception.
unfoldable pub binding_of : (ℕ → Option ℕ) → ℕ → Transport → Option (Option (ℕ × Binding))
binding_of episode_of id t = elim (lookup id t.bindings) [
  | some b ↦ if b.closed then none else some (some (id, b))
  | none ↦ elim (episode_of id) [
    | none ↦ if is_empty t.bindings then some none else none
    | some trial ↦ elim (lookup trial t.bindings) [
      | none ↦ if is_empty t.bindings then some none else none
      | some b ↦ if b.closed then none else some (some (trial, b))
    ]
  ]
]

abbrev pub count_turn : Option (ℕ × Binding) → Transport → Transport
count_turn none t = t
count_turn (some (trial, b)) t = record t {
  bindings = insert trial (record b { next_turn = b.next_turn + 1 }) t.bindings;
}

abbrev pub add_trace : ℕ → Option (ℕ × Binding) → Transport → Transport
add_trace trace none t = record t { captured = t.captured ++ trace ∷ [] }
add_trace trace (some (trial, b)) t = record t {
  bindings =
      insert trial (record b { next_turn = b.next_turn + 1; traces = b.traces ++ trace ∷ [] })
        t.bindings;
  captured = t.captured ++ trace ∷ [];
}

-- A receipt is rejected when its validation fails, or writing that it is valid.
abbrev pub reject : World → ℕ → Entry → Transport → Transport
reject w id e t =
    update w.rejection_disk id (record e { training_evidence = some false })
      (if w.evidence_ok
        then update w.evidence_disk id (record e { training_evidence = some true }) t
        else t)

-- The receipt is validated before the result is given on.
unfoldable pub take_evidence :
    World → ℕ → Option (ℕ × Binding) → Entry → Transport → Transport × Ending
take_evidence w id binding e t =
    if not w.is_trained
    then (t, returned)
    else (if w.evidence_ok && is_stored w.evidence_disk
        then (
          add_trace w.trace binding (
              update stored id (record e { training_evidence = some true }) (count_turn binding t)),
          returned,
        )
        else (reject w id e (count_turn binding t), training_evidence))

abbrev pub with_outcome : Stage → Bool → Entry → Entry
with_outcome s u e = record e { stage = s; uncertain = some u }

abbrev pub failed_stage : Bool → Stage
failed_stage u = if u then outcome_unknown else not_dispatched

abbrev pub doubt : Option Bool → Bool
doubt none = true
doubt (some u) = u

-- The answer of the route is put down.
unfoldable pub settle : World → ℕ → Option (ℕ × Binding) → Entry → Transport → Transport × Ending
settle w id binding e t = elim w.answer [
  | failure f ↦ (
    update w.outcome_disk id (with_outcome (failed_stage (doubt f)) (doubt f) e) t,
    request_failed,
  )
  | result ↦
      let answered : Entry = record (with_outcome response_received false e) {
        acknowledged = true;
      } in
      let t' : Transport = update w.outcome_disk id answered t in
      if is_stored w.outcome_disk
      then take_evidence w id binding answered t'
      else (t', response_evidence)
]

-- The request is marked as dispatching and uncertain before it is sent.
unfoldable pub dispatch : World → ℕ → Option (ℕ × Binding) → Entry → Transport → Transport × Ending
dispatch w id binding e t =
    if is_stored w.dispatch_disk
    then settle w id binding (with_outcome dispatching true e) (record t {
      entries = insert id (with_outcome dispatching true e) t.entries;
      sent = t.sent ++ id ∷ [];
      answers = insert id w.answer t.answers;
    })
    else (update w.dispatch_disk id (with_outcome dispatching true e) t, ledger_claim)

unfoldable pub call : (ℕ → Option ℕ) → World → ℕ → Transport → Transport × Ending
call episode_of w id t = elim (binding_of episode_of id t) [
  | none ↦ (t, training_admission)
  | some binding ↦
      if w.is_trained && not w.payload_ok
      then (t, training_admission)
      else (let (t', e) = claim w id t in
          elim e [ none ↦ (t', ledger_claim) | some e ↦ dispatch w id binding e t' ])
]

-- `bind_episode`, of an identity with a trial and a contract: a trial is bound once.
unfoldable pub bind_episode : ℕ → Transport → Option Transport
bind_episode trial t = elim (lookup trial t.bindings) [
  | some b ↦ none
  | none ↦ some (record t {
    bindings = insert trial (record { closed = false; next_turn = 1; traces = [] }) t.bindings;
  })
]

-- `episode_traces` with `close`; `none` is a KeyError.
unfoldable pub close_episode : ℕ → Transport → Option (Transport × List ℕ)
close_episode trial t = elim (lookup trial t.bindings) [
  | none ↦ none
  | some b ↦
      some (record t { bindings = insert trial (record b { closed = true }) t.bindings }, b.traces)
]

-- What happens to a transport. After a restart of the process its files are left.
pub data Event : Type 0 where
  called : World → ℕ → Event
  bound ended : ℕ → Event
  restarted : Event

unfoldable pub step : (ℕ → Option ℕ) → Event → Transport → Transport
step episode_of (called w id) t = (call episode_of w id t).0
step episode_of (bound trial) t = elim (bind_episode trial t) [ none ↦ t | some t' ↦ t' ]
step episode_of (ended trial) t = elim (close_episode trial t) [ none ↦ t | some (t', ts) ↦ t' ]
step episode_of restarted t = record t { bindings = []; captured = [] }

unfoldable pub run : (ℕ → Option ℕ) → List Event → Transport → Transport
run episode_of [] t = t
run episode_of (e ∷ events) t = run episode_of events (step episode_of e t)

-- A new ledger.
abbrev pub begin : Transport
begin = record { claims = []; entries = []; bindings = []; captured = []; sent = []; answers = [] }
