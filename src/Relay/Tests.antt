-- ===== src/Relay/Tests.antt =====
-- A generation from its submission to its acknowledgement, and one that is withdrawn first.
use tiny_dsv.Base.{arith, ℕ, ◌≡◌, refl, false, true, none, some, List, [], ◌∷◌}
use tiny_dsv.Base.Sums.{times}
use tiny_dsv.Relay.State.{Outcome, Result, Phase, Worker, Relay, Failure}
use tiny_dsv.Relay.Generations.{
  finish_generation, admit_generation, submit_generation, completion_entry, acknowledge_delivery,
  cancel_generation,
}
use tiny_dsv.Relay.Threads.{
  Answer, Event, settle, dispatch, receive, echo, publish, recover, step, run, begin,
}
use tiny_dsv.Relay.Invariant.{Inv}
use tiny_dsv.Relay.Safety.{run-begin_lem}
use tiny_dsv.Relay.Cancelling.{cancel_generation_lem}
use tiny_dsv.Relay.Delivery.{Settled, receive_lem}
use tiny_dsv.Relay.Publication.{Delivered, publish_lem}

program : Unit {0}
unfolding finish_generation admit_generation submit_generation completion_entry acknowledge_delivery
    cancel_generation settle dispatch receive echo publish recover step
program = tt

abbrev answer : Answer ℕ
answer = record {
  is_too_large = false;
  is_complete = true;
  is_ok = true;
  receipt = none;
  body = some 42;
}

abbrev submission : List (Event ℕ)
submission = Event.submitted 0 7 99 1000 true ∷ []

abbrev dispatched_events : List (Event ℕ)
dispatched_events = Event.submitted 0 7 99 1000 true ∷ Event.connected 10 0 true ∷ []

abbrev events : List (Event ℕ)
events =
    Event.submitted 0 7 99 1000 true
    ∷ Event.submitted 1 8 99 1000 true
    ∷ Event.connected 10 0 true
    ∷ Event.restarted 1 90000
    ∷ Event.submitted 20 7 99 1000 true
    ∷ []

abbrev start : Relay ℕ
start = begin 1 120 60000 false

abbrev waiting_state : Relay ℕ
waiting_state = run dispatched_events start

abbrev worker : Worker ℕ
worker = record {
  request_id = 7;
  is_submitted = true;
  phase = Phase.waiting;
  cancel = false;
  dispatched = true;
  deadline = 1000;
}

sent_once : (run events start).sent ≡ 7 ∷ []
unfolding program
sent_once = refl

kept_place :
    (submit_generation 30 9 99 1000 true (run events start)).1 ≡ Outcome.refused Failure.capacity
unfolding program
kept_place = refl

run-begin_lem_example : Inv (run events start)
run-begin_lem_example = run-begin_lem events 1 120 60000 false

cancel_generation_lem_example :
    times 7
      (run (Event.connected 10 0 true ∷ []) (cancel_generation 7 (run submission start)).0).sent
    ≡ 0
unfolding program
cancel_generation_lem_example =
    cancel_generation_lem 7 (run submission start) (Event.connected 10 0 true ∷ [])
      (run-begin_lem submission 1 120 60000 false) refl refl

receive_lem_example : Settled 7 false (some answer) (receive 20 0 (some answer) waiting_state)
unfolding program
receive_lem_example =
    receive_lem waiting_state (run-begin_lem dispatched_events 1 120 60000 false) 20 0 (some answer)
      worker refl refl

abbrev later_events : List (Event ℕ)
later_events =
    Event.withdrawn 7 ∷ Event.submitted 40 8 99 1000 true ∷ Event.submitted 41 7 99 1000 true ∷ []

publish_lem_example :
    Delivered 7
      (Result.response 42)
      (run later_events (publish 0 (receive 20 0 (some answer) waiting_state)))
unfolding program
publish_lem_example =
    publish_lem dispatched_events 1 120 60000 false 20 0 (some answer) worker refl refl refl refl
      (λ row h. ground arith) later_events refl
