-- ===== src/Claims/Tests.antt =====
-- Two jobs of clients with room for one claim.
use tiny_dsv.Base.{ℕ, ◌≡◌, refl, arith, true, none, some, List, [], ◌∷◌}
use tiny_dsv.Base.Dict.{lookup}
use tiny_dsv.Mailbox.Sorting.{place, sort}
use tiny_dsv.Claims.State.{Job, Spool, Reply}
use tiny_dsv.Claims.Jobs.{fail_claim, claim_job, take_result, cancel_claim, Event, run}
use tiny_dsv.Claims.Capacity.{Inv}
use tiny_dsv.Claims.Answers.{run-Kept}
use tiny_dsv.Claims.Histories.{run_jobs-Inv}

program : Unit {0}
unfolding place sort fail_claim claim_job take_result cancel_claim
program = tt

abbrev job : ℕ → Job
job n = record { id = n; is_sound = true; is_generate = true; deadline = 1000 }

abbrev spool : Spool
spool = record { max_inflight = 1; inbox = []; inflight = []; outbox = []; handed = [] }

abbrev events : List Event
events =
    Event.submitted 8 (job 8)
    ∷ Event.submitted 7 (job 7)
    ∷ Event.claimed 500 none
    ∷ Event.claimed 501 none
    ∷ Event.resulted 502 7 true true (record { is_ok = true; content = 42 })
    ∷ Event.claimed 503 none
    ∷ Event.cancelled 504 8
    ∷ []

handed_in_order : (run events spool).handed ≡ 8 ∷ 7 ∷ []
unfolding program
handed_in_order = refl

second_result :
    (take_result 505 7 true true (record { is_ok = true; content = 43 }) (run events spool)).1
    ≡ Reply.raised
unfolding program
second_result = refl

abbrev more_events : List Event
more_events =
    Event.resulted 505 7 true true (record { is_ok = true; content = 43 })
    ∷ Event.cancelled 506 7
    ∷ Event.restarted 507
    ∷ []

run-Kept_example :
    lookup 7 (run more_events (run events spool)).outbox
    ≡ some (record { is_ok = true; content = 42 })
unfolding program
run-Kept_example =
    run-Kept 7 (record { is_ok = true; content = 42 }) more_events (run events spool) refl

spool-Inv : Inv spool
spool-Inv = record { capacity = omega arith; once = λ id. omega arith; held = λ id h. refl }

run_jobs-Inv_example : Inv (run events spool)
run_jobs-Inv_example = run_jobs-Inv events spool spool-Inv
