-- ===== src/Transport/State.antt =====
-- The files of a RequestLedger and the state of an RpcTransport (rollout_manager/transports.py).
-- Request and trial identities are numbers; traces are numbers too.
use tiny_dsv.Base.{ℕ, Bool, Option, List}
use tiny_dsv.Base.Dict.{Dict}

pub data Stage : Type 0 where
  claimed dispatching outcome_unknown not_dispatched response_received : Stage

-- A state file. `uncertain` is absent from a claim.
pub record Entry : Type 0 where
  pub stage : Stage
  pub uncertain : Option Bool
  pub acknowledged : Bool
  pub training_evidence : Option Bool

-- The binding of an episode.
pub record Binding : Type 0 where
  pub closed : Bool
  pub next_turn : ℕ
  pub traces : List ℕ

-- What the client of the route answers; a failure says whether the request may have been dispatched,
-- or nothing.
pub data Answer : Type 0 where
  result : Answer
  failure : Option Bool → Answer

-- `sent` is the sequence of the requests that were handed to the client of the route, `answers` has
-- what it answered to them.
pub record Transport : Type 0 where
  pub claims : List ℕ
  pub entries : Dict Entry
  pub bindings : Dict Binding
  pub captured : List ℕ
  pub sent : List ℕ
  pub answers : Dict Answer
