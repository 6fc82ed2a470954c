-- ===== src/Transport/Tests.antt =====
-- A request that is tried again after its process died.
use tiny_dsv.Base.{ℕ, ◌≡◌, refl, true, Option, none, some, List, [], ◌∷◌}
use tiny_dsv.Transport.State.{Answer, failure, result}
use tiny_dsv.Transport.Calls.{
  World, claim_file, stored, claim, binding_of, take_evidence, settle, dispatch, call, bind_episode,
  close_episode, Event, called, bound, ended, restarted, step, run, begin,
}
use tiny_dsv.Transport.Evidence.{Inv, knows}
use tiny_dsv.Transport.Runs.{run-begin-Inv}

program : Unit {0}
unfolding claim binding_of take_evidence settle dispatch call bind_episode close_episode step run
program = tt

abbrev episode_of : ℕ → Option ℕ
episode_of id = some 1

abbrev world : Answer → World
world a = record {
  is_valid_id = true;
  is_trained = true;
  payload_ok = true;
  claim_disk = claim_file stored;
  dispatch_disk = stored;
  answer = a;
  outcome_disk = stored;
  evidence_ok = true;
  evidence_disk = stored;
  rejection_disk = stored;
  trace = 33;
}

-- The first call loses its outcome, the second one is another request.
abbrev events : List Event
events =
    bound 1
    ∷ called (world (failure none)) 10
    ∷ restarted
    ∷ called (world result) 10
    ∷ called (world result) 11
    ∷ []

sent_once : (run episode_of events begin).sent ≡ 10 ∷ 11 ∷ []
unfolding program
sent_once = refl

known_at_the_end :
    knows 10 (run episode_of events begin).answers (run episode_of events begin).entries ≡ true
unfolding program
known_at_the_end = refl

closed_episode :
    (run episode_of (bound 1 ∷ ended 1 ∷ called (world result) 10 ∷ []) begin).sent ≡ []
unfolding program
closed_episode = refl

run-begin-Inv_example : Inv (run episode_of events begin)
run-begin-Inv_example = run-begin-Inv episode_of events
