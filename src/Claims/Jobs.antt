-- ===== src/Claims/Jobs.antt =====
-- Claims, results and cancellations of jobs (relay_server.py: RelayState._fail_claim,
-- _unfinished_claims, claim, result, cancel_claim and recover).
use tiny_dsv.Base.{
  ℕ, ◌+◌, Bool, true, false, not, ◌&&◌, ◌||◌, Option, none, some, List, [], ◌∷◌, length, leb, ◌==◌,
  if◌then◌else◌,
}
use tiny_dsv.Base.Dict.{Dict, lookup, insert, erase, keys}
use tiny_dsv.Mailbox.Sorting.{sort}
use tiny_dsv.Claims.State.{Job, Answer, Spool, is_file, Reply}

-- check_job with allow_expired.
abbrev pub passes : (now : ℕ) → Job → Bool
passes now job = job.is_sound && leb 1 job.deadline && leb job.deadline (now + 3600)

-- The answer of a job that the relay gives up; the message is a number.
abbrev pub failure : (message : ℕ) → Answer
failure message = record { is_ok = false; content = message }

unfoldable pub fail_claim : (id message : ℕ) → Spool → Spool
fail_claim id message s =
    if is_file id s.outbox then s else record s { outbox = insert id (failure message) s.outbox }

abbrev pub prepend : ℕ → Spool × Reply (List ℕ) → Spool × Reply (List ℕ)
prepend id (s, Reply.raised) = (s, Reply.raised)
prepend id (s, Reply.gives ids) = (s, Reply.gives (id ∷ ids))

-- The claims of these files that have no answer; the expired ones get one.
abbrev pub unfinished_of : (now : ℕ) → Dict Job → Spool → Spool × Reply (List ℕ)
unfinished_of now [] s = (s, Reply.gives [])
unfinished_of now ((name, job) ∷ rest) s =
    if is_file name s.outbox
    then unfinished_of now rest s
    else if not (passes now job && job.id == name)
    then (s, Reply.raised)
    else if leb job.deadline now
    then unfinished_of now rest (fail_claim job.id 1 s)
    else prepend job.id (unfinished_of now rest s)

abbrev pub unfinished_claims : (now : ℕ) → Spool → Spool × Reply (List ℕ)
unfinished_claims now s = unfinished_of now s.inflight s

-- The file moves from the inbox to the claims.
abbrev pub moved : (name : ℕ) → Job → Spool → Spool
moved name job s = record s { inbox = erase name s.inbox; inflight = insert name job s.inflight }

-- The first job of these names that can be handed out; expired ones are answered.
abbrev pub pick : (now : ℕ) → List ℕ → Spool → Spool × Reply (Option Job)
pick now [] s = (s, Reply.gives none)
pick now (name ∷ rest) s = elim (lookup name s.inbox) [
  | none ↦ pick now rest s
  | some job ↦
      if not (passes now job && job.id == name)
      then (s, Reply.raised)
      else if is_file name s.inflight || is_file name s.outbox
      then (s, Reply.raised)
      else if leb job.deadline now
      then pick now rest (fail_claim job.id 2 (moved name job s))
      else (
        record s {
          inbox = erase name s.inbox;
          inflight = insert name job s.inflight;
          handed = name ∷ s.handed;
        },
        Reply.gives (some job),
      )
]

abbrev pub names_of : Option ℕ → Dict Job → List ℕ
names_of none inbox = sort (keys inbox)
names_of (some name) inbox = name ∷ []

-- What follows the count of the unfinished claims.
abbrev pub claim_after : (now : ℕ) → Option ℕ → Spool × Reply (List ℕ) → Spool × Reply (Option Job)
claim_after now requested (s, Reply.raised) = (s, Reply.raised)
claim_after now requested (s, Reply.gives ids) =
    if leb s.max_inflight (length ids)
    then (s, Reply.gives none)
    else pick now (names_of requested s.inbox) s

unfoldable pub claim_job : (now : ℕ) → Option ℕ → Spool → Spool × Reply (Option Job)
claim_job now requested s = claim_after now requested (unfinished_claims now s)

abbrev pub same_answer : Answer → Answer → Bool
same_answer a b = (if a.is_ok then b.is_ok else not b.is_ok) && a.content == b.content

-- The result is a duplicate, or not.
abbrev pub store : (id : ℕ) → Answer → Spool → Spool × Reply Bool
store id value s = elim (lookup id s.outbox) [
  | some old ↦ if same_answer old value then (s, Reply.gives true) else (s, Reply.raised)
  | none ↦
      if not (is_file id s.inflight)
      then (s, Reply.raised)
      else (record s { outbox = insert id value s.outbox }, Reply.gives false)
]

abbrev pub result_after :
    (id : ℕ) (is_bound : Bool) → Answer → Spool × Reply (List ℕ) → Spool × Reply Bool
result_after id is_bound value (s, Reply.raised) = (s, Reply.raised)
result_after id is_bound value (s, Reply.gives ids) =
    if not is_bound then (s, Reply.raised) else store id value s

-- `is_valid` is the check of the fields of the value, `is_bound` the one of its failure receipt.
unfoldable pub take_result :
    (now id : ℕ) (is_valid is_bound : Bool) → Answer → Spool → Spool × Reply Bool
take_result now id is_valid is_bound value s =
    if not is_valid
    then (s, Reply.raised)
    else result_after id is_bound value (unfinished_claims now s)

abbrev pub cancel_known : (id : ℕ) → Spool → Spool × Reply Unit
cancel_known id s =
    if is_file id s.inflight then (fail_claim id 3 s, Reply.gives tt) else (s, Reply.raised)

unfoldable pub cancel_claim : (now id : ℕ) → Spool → Spool × Reply Unit
cancel_claim now id s = elim (lookup id s.inbox) [
  | none ↦ cancel_known id s
  | some job ↦
      if is_file id s.inflight
      then cancel_known id s
      else if not (passes now job && job.id == id)
      then (s, Reply.raised)
      else cancel_known id (moved id job s)
]

-- After a restart every claim without an answer gets one.
abbrev pub recover_claims : (now : ℕ) → Dict Job → Spool → Spool
recover_claims now [] s = s
recover_claims now ((name, job) ∷ rest) s =
    if is_file name s.outbox
    then recover_claims now rest s
    else if not (passes now job && job.id == name)
    then s
    else recover_claims now rest (fail_claim job.id 4 s)

-- Files of clients, claims, results, cancellations and restarts, in any order.
pub data Event : Type 0 where
  submitted : (name : ℕ) → Job → Event
  claimed : (now : ℕ) → Option ℕ → Event
  resulted : (now id : ℕ) (is_valid is_bound : Bool) → Answer → Event
  cancelled : (now id : ℕ) → Event
  restarted : (now : ℕ) → Event

abbrev pub step : Event → Spool → Spool
step (Event.submitted name job) s = record s { inbox = insert name job s.inbox }
step (Event.claimed now wanted) s = (claim_job now wanted s).0
step (Event.resulted now id is_valid is_bound value) s =
    (take_result now id is_valid is_bound value s).0
step (Event.cancelled now id) s = (cancel_claim now id s).0
step (Event.restarted now) s = recover_claims now s.inflight s

abbrev pub run : List Event → Spool → Spool
run [] s = s
run (e ∷ es) s = run es (step e s)
