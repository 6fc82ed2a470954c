-- ===== src/Relay/State.antt =====
-- What the GPU side of a RelayState keeps (relay_server.py). Request and boot identities, digests and
-- object identities are numbers, times are whole milliseconds of one clock.
use tiny_dsv.Base.{ℕ, Bool, true, false, Option, List, [], ◌∷◌, if◌then◌else◌}
use tiny_dsv.Base.Dict.{Dict, keys}
use tiny_dsv.Base.Sets.{union}

pub data Failure : Type 0 where
  value_error conflict capacity gone unknown internal : Failure

pub data Outcome (A : Type 0) : Type 0 where
  refused : Failure → Outcome A
  ok : A → Outcome A

pub data Status : Type 0 where
  running uncertain finished failed cancelled : Status

-- A record of the journal; a tombstone has no payload.
pub record Row : Type 0 where
  pub status : Status
  pub boot_id : ℕ
  pub payload_sha256 : Option ℕ
  pub delivery_acknowledged : Bool

-- The body of a completion: the response, or an error with a failure receipt at most.
pub data Result (R : Type 0) : Type 0 where
  response : R → Result R
  rejected : Option R → Result R

-- Where the thread of a generation stands: before its dispatch, waiting for the upstream service,
-- with a result that is not published, or with chunks of an echo that are left to write.
pub data Phase (R : Type 0) : Type 0 where
  connecting waiting : Phase R
  echoing : ℕ → Phase R
  answered : Result R → Phase R

-- A thread and the context that it shares with the state.
pub record Worker (R : Type 0) : Type 0 where
  pub request_id : ℕ
  pub is_submitted : Bool
  pub phase : Phase R
  pub cancel : Bool
  pub dispatched : Bool
  pub deadline : ℕ

-- `active` maps a request to the identity of its context; `completions` holds none for an event that
-- is not set. `next_context` is the identity of the next context, `sent` the sequence of requests
-- that were dispatched to the upstream service, in all boots.
pub record Relay (R : Type 0) : Type 0 where
  pub max_inflight : ℕ
  pub generation_seconds : ℕ
  pub is_controlled : Bool
  pub deadline : ℕ
  pub stopped : Bool
  pub boot_id : ℕ
  pub journal : Dict Row
  pub active : Dict ℕ
  pub workers : Dict (Worker R)
  pub completions : Dict (Option (Result R))
  pub next_context : ℕ
  pub sent : List ℕ

abbrev pub max_tracked : ℕ
max_tracked = 10000

-- A request with this status retains its reservation.
abbrev pub is_occupying : Status → Bool
is_occupying Status.running = true
is_occupying Status.uncertain = true
is_occupying _ = false

abbrev pub occupied : Dict Row → List ℕ
occupied [] = []
occupied ((id, row) ∷ rows) =
    let rest = occupied rows in if is_occupying row.status then id ∷ rest else rest

-- The requests that hold a place: occupied | completions.keys().
abbrev pub reserved : {R : Type 0} → Relay R → List ℕ
reserved s = union (occupied s.journal) (keys s.completions)
