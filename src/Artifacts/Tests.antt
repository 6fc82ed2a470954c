-- ===== src/Artifacts/Tests.antt =====
-- Five bytes in chunks of two, with a break after the first chunk.
use tiny_dsv.Base.{inr, ℕ, ◌+◌, ◌*◌, ◌≡◌, refl, arith, false, none, some, List, [], ◌∷◌}
use tiny_dsv.Artifacts.State.{
  Kind, Role, Manifest, Queue, Config, same_manifest, validate_manifest, is_bounded,
}
use tiny_dsv.Artifacts.Sending.{publish_artifact, manifest_of, chunk, acknowledge, next_artifact}
use tiny_dsv.Artifacts.Receiving.{start, receive_chunk, commit, received}
use tiny_dsv.Artifacts.Chunks.{none-Partial, insert-Partial}
use tiny_dsv.Artifacts.Passage.{Passed, opened, receiving, resume_lem}
use tiny_dsv.Artifacts.Publishing.{publish_artifact_lem}
use tiny_dsv.Artifacts.Storage.{Event, run, Stored}
use tiny_dsv.Artifacts.Histories.{Intact, run-Stored, received_lem}
use tiny_dsv.Mailbox.Sorting.{place, sort}

program : Unit {0}
unfolding validate_manifest is_bounded publish_artifact chunk acknowledge next_artifact start
    receive_chunk commit received place sort
program = tt

abbrev weigh : List ℕ → ℕ
weigh [] = 1
weigh (x ∷ xs) = x + 10 * weigh xs

abbrev number : Kind → ℕ
number Kind.policy_lease = 1
number Kind.sealed_group = 2
number Kind.public_capsule = 3

abbrev config : Config
config = record {
  chunk_bytes = 2;
  max_bytes = 100;
  max_small = 4;
  max_artifacts = 10;
  max_queue_bytes = 1000;
  digest = weigh;
  identity = λ kind key bytes sha. number kind + 10 * key + 100 * bytes + 1000 * sha;
}

abbrev source : List ℕ
source = 1 ∷ 2 ∷ 3 ∷ 4 ∷ 5 ∷ []

abbrev manifest : Manifest
manifest = manifest_of config Kind.sealed_group 7 source

abbrev empty : Role → Queue
empty role = record { role = role; outgoing = []; incoming = [] }

abbrev sender : Queue
sender = record {
  role = Role.gpu;
  outgoing = (manifest.id, record { manifest = manifest; blob = source; delivery = none }) ∷ [];
  incoming = [];
}

abbrev receiver : Queue
receiver = record {
  role = Role.any_role;
  outgoing = [];
  incoming = (manifest.id, receiving manifest ((0, 1 ∷ 2 ∷ []) ∷ [])) ∷ [];
}

published_once :
    publish_artifact config Kind.sealed_group 7 source source (empty Role.gpu)
    ≡ some (sender, manifest)
unfolding program
published_once = refl

too_large_lease : publish_artifact config Kind.policy_lease 7 source source (empty Role.gpu) ≡ none
unfolding program
too_large_lease = refl

first_in_line : next_artifact config sender ≡ some manifest
unfolding program
first_in_line = refl

out_of_order : receive_chunk config manifest.id 2 (5 ∷ []) 15 receiver ≡ none
unfolding program
out_of_order = refl

-- The whole passage, to a receiver without an entry.
fresh_passage :
    (start config manifest (empty Role.any_role)
      ≡ some (opened manifest (empty Role.any_role), 0, false))
    × Passed config manifest source 0 sender (opened manifest (empty Role.any_role))
unfolding program
fresh_passage = (refl, (_, _, _, refl, refl, refl, refl, (_, refl)))

resume_lem_example :
    (start config manifest receiver ≡ some (opened manifest receiver, 1, false))
    × Passed config manifest source 1 sender (opened manifest receiver)
unfolding program
resume_lem_example =
    resume_lem config manifest source (omega arith) refl refl refl sender refl 1 receiver
      (omega arith)
      (inr ((0, 1 ∷ 2 ∷ []) ∷ [], insert-Partial 2 source 0 [] (none-Partial 2 source), refl)) refl
      refl

publish_artifact_lem_example :
    (publish_artifact config Kind.sealed_group 7 source [] sender ≡ some (sender, manifest))
    × (same_manifest manifest (manifest_of config Kind.sealed_group 7 (9 ∷ [])) ≡ false
        → publish_artifact config Kind.sealed_group 7 (9 ∷ []) [] sender ≡ none)
publish_artifact_lem_example =
    publish_artifact_lem config Kind.sealed_group 7 source source (9 ∷ []) [] (empty Role.gpu)
      sender manifest published_once

abbrev events : List Event
events =
    Event.started manifest
    ∷ Event.arrived manifest.id 0 (1 ∷ 2 ∷ []) 121
    ∷ Event.arrived manifest.id 2 (5 ∷ []) 15
    ∷ Event.arrived manifest.id 1 (3 ∷ 4 ∷ []) 143
    ∷ Event.arrived manifest.id 2 (5 ∷ []) 15
    ∷ Event.finished manifest.id
    ∷ []

empty-Stored : Stored config (empty Role.any_role)
empty-Stored = record { sound = tt; count = omega arith; bytes = omega arith }

received_whole :
    received config Kind.sealed_group 7 (run config events (empty Role.any_role))
    ≡ some (some (manifest, source))
unfolding program
received_whole = refl

run-Stored_example : Stored config (run config events (empty Role.any_role))
run-Stored_example = run-Stored config events (empty Role.any_role) empty-Stored

received_lem_example :
    Intact config Kind.sealed_group 7
      (received config Kind.sealed_group 7 (run config events (empty Role.any_role)))
received_lem_example =
    received_lem config events (empty Role.any_role) Kind.sealed_group 7 empty-Stored
