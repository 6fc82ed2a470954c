-- ===== src/Claims/State.antt =====
-- The spool of the CPU side of a RelayState (relay_server.py): the files of its directories by name.
-- Names, identities and the contents of results are numbers; all times are of one clock, in seconds.
use tiny_dsv.Base.{ℕ, Bool, true, false, none, some, List}
use tiny_dsv.Base.Dict.{Dict, lookup}

-- `is_sound` is the part of check_job that looks at the fields and the payload.
pub record Job : Type 0 where
  pub id : ℕ
  pub is_sound : Bool
  pub is_generate : Bool
  pub deadline : ℕ

pub record Answer : Type 0 where
  pub is_ok : Bool
  pub content : ℕ

-- `handed` is the sequence of the jobs that claims have handed out.
pub record Spool : Type 0 where
  pub max_inflight : ℕ
  pub inbox : Dict Job
  pub inflight : Dict Job
  pub outbox : Dict Answer
  pub handed : List ℕ

abbrev pub is_file : {A : Type 0} → ℕ → Dict A → Bool
is_file name files = elim (lookup name files) [ none ↦ false | some a ↦ true ]

pub data Reply (A : Type 0) : Type 0 where
  raised : Reply A
  gives : A → Reply A
