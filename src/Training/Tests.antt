-- ===== src/Training/Tests.antt =====
-- A group of two samples, to a training group and back.
use tiny_dsv.Base.{ℕ, zero, suc, ◌≡◌, refl, Bool, true, false, Option, none, some, List, [], ◌∷◌}
use tiny_dsv.Training.Records.{Text, PolicyRef, stop, make_turn, make_trajectory}
use tiny_dsv.Training.Groups.{
  TrainingGroup, Sample, RolloutGroup, make_group, convert_sample, convert, from_rollout_group,
  sample_of, samples_of, to_rollout_group,
}
use tiny_dsv.Training.Passage.{to_rollout_group-from_rollout_group}
use tiny_dsv.Training.Order.{Complete, make_group_lem}

program : Unit {0}
unfolding make_turn make_trajectory make_group convert_sample convert from_rollout_group sample_of
    samples_of to_rollout_group
program = tt

abbrev zeros : ℕ → Text
zeros zero = []
zeros (suc n) = 48 ∷ zeros n

abbrev digest : List ℕ → Text
digest ts = zeros 64

abbrev any_number : ℕ → Bool
any_number r = true

abbrev no_number : ℕ → Bool
no_number r = false

abbrev sample_name : ℕ → ℕ → Text
sample_name g i = g ∷ 58 ∷ i ∷ []

abbrev request_name : ℕ → Text
request_name i = 115 ∷ i ∷ []

abbrev policy : PolicyRef
policy = record { version = 4; digest = zeros 64; lineage = 97 ∷ []; contract = 0 }

abbrev sample : ℕ → Sample ℕ
sample r = record {
  prompt_ids = 1 ∷ 2 ∷ [];
  response_ids = 3 ∷ r ∷ [];
  behavior_log_probs = 0 ∷ 0 ∷ [];
  reward = r;
  policy_version = 4;
  finish_reason = stop;
  stop_token_count = 1;
  raw_reward = some r;
}

abbrev group : RolloutGroup ℕ
group = record { samples = sample 5 ∷ sample 6 ∷ []; group_id = 8; policy_version = 4 }

abbrev or_none : Option (TrainingGroup ℕ) → TrainingGroup ℕ
or_none none = record {
  group_id = 0;
  task_id = [];
  initial_context_sha256 = [];
  reset_sha256 = [];
  policy = policy;
  expected_size = 0;
  samples = [];
}
or_none (some g) = g

abbrev task : Text
task = 116 ∷ []

abbrev training_group : TrainingGroup ℕ
unfolding from_rollout_group
training_group = or_none (
    from_rollout_group any_number no_number digest sample_name request_name group policy task
      (zeros 64))

converted :
    from_rollout_group any_number no_number digest sample_name request_name group policy task
      (zeros 64)
    ≡ some training_group
unfolding program
converted = refl

to_rollout_group-from_rollout_group_example : to_rollout_group training_group ≡ some group
to_rollout_group-from_rollout_group_example =
    to_rollout_group-from_rollout_group any_number no_number digest sample_name request_name group
      policy task (zeros 64) training_group (refl, (refl, tt)) converted

made_again : make_group training_group ≡ some training_group
unfolding program
made_again = refl

make_group_lem_example : Complete training_group training_group
make_group_lem_example = make_group_lem training_group training_group made_again
