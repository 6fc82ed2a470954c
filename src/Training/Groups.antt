-- ===== src/Training/Groups.antt =====
-- Complete groups, and the passage from rollout groups and back (rollout_manager/training.py; the
-- rollout groups are those of dsv41_train/rl/rollout.py).
use tiny_dsv.Base.{
  ℕ, suc, Bool, true, false, ◌&&◌, Option, none, some, List, [], ◌∷◌, ◌++◌, leb, ◌==◌, all, length,
  map, if◌then◌else◌, range_from, contains,
}
use tiny_dsv.Training.Records.{
  Text, same, PolicyRef, same_policy, Finish, eos, stop, max_tokens, tool_calls, TurnTrace,
  TrainingTrajectory, distinct, make_turn, make_trajectory,
}

pub record TrainingGroup (R : Type 0) : Type 0 where
  pub group_id : ℕ
  pub task_id : Text
  pub initial_context_sha256 : Text
  pub reset_sha256 : Text
  pub policy : PolicyRef
  pub expected_size : ℕ
  pub samples : List (TrainingTrajectory R)

pub record Sample (R : Type 0) : Type 0 where
  pub prompt_ids : List ℕ
  pub response_ids : List ℕ
  pub behavior_log_probs : List R
  pub reward : R
  pub policy_version : ℕ
  pub finish_reason : Finish
  pub stop_token_count : ℕ
  pub raw_reward : Option R

pub record RolloutGroup (R : Type 0) : Type 0 where
  pub samples : List (Sample R)
  pub group_id : ℕ
  pub policy_version : ℕ

-- A set of as many indices as there are samples is `set(range(expected_size))`.
abbrev pub covers : ℕ → List ℕ → Bool
covers n is = all (λ k. contains k is) (range_from 0 n) && all (λ i. contains i (range_from 0 n)) is

abbrev pub is_tool_calls : Finish → Bool
is_tool_calls eos = false
is_tool_calls stop = false
is_tool_calls max_tokens = false
is_tool_calls tool_calls = true

module _ {R : Type 0} where
  -- `sorted(samples, key=lambda sample: sample.sample_index)`.
  abbrev pub insert_sample :
      TrainingTrajectory R → List (TrainingTrajectory R) → List (TrainingTrajectory R)
  insert_sample t [] = t ∷ []
  insert_sample t (u ∷ us) =
      let rest = insert_sample t us in
      if leb t.sample_index u.sample_index then t ∷ u ∷ us else u ∷ rest

  abbrev pub sort_samples : List (TrainingTrajectory R) → List (TrainingTrajectory R)
  sort_samples [] = []
  sort_samples (t ∷ ts) = insert_sample t (sort_samples ts)

  abbrev pub ids_of : List (TrainingTrajectory R) → List Text
  ids_of [] = []
  ids_of (t ∷ ts) = elim t.sample_id [ none ↦ ids_of ts | some id ↦ id ∷ ids_of ts ]

  abbrev pub requests_of : List (TrainingTrajectory R) → List Text
  requests_of [] = []
  requests_of (t ∷ ts) = map (λ u. u.request_id) t.turns ++ requests_of ts

  abbrev pub has_policy : PolicyRef → TrainingTrajectory R → Bool
  has_policy p t = elim t.turns [ [] ↦ false | u ∷ us ↦ same_policy u.policy p ]

  abbrev pub is_rewarded : TrainingTrajectory R → Bool
  is_rewarded t = elim t.reward [ none ↦ false | some r ↦ t.reward_eligible ]

  abbrev pub belongs : TrainingGroup R → TrainingTrajectory R → Bool
  belongs g t =
      t.group_id == g.group_id
      && same t.task_id g.task_id
      && same t.initial_context_sha256 g.initial_context_sha256
      && same t.reset_sha256 g.reset_sha256
      && has_policy g.policy t
      && is_rewarded t

  -- `TrainingGroup.__post_init__`.
  abbrev pub group_ok : TrainingGroup R → Bool
  group_ok g =
      leb 2 g.expected_size
      && length g.samples == g.expected_size
      && covers g.expected_size (map (λ t. t.sample_index) g.samples)
      && distinct (ids_of g.samples)
      && distinct (requests_of g.samples)
      && all (belongs g) g.samples

  unfoldable pub make_group : TrainingGroup R → Option (TrainingGroup R)
  make_group g = if group_ok g then some (record g { samples = sort_samples g.samples }) else none

module _ {R : Type 0} (is_finite is_positive : R → Bool) (token_digest : List ℕ → Text)
    (default_id : ℕ → ℕ → Text) (request_of : ℕ → Text) where
  abbrev pub turn_of : PolicyRef → ℕ → Sample R → TurnTrace R
  turn_of policy index s = record {
    turn_id = 1;
    request_id = request_of index;
    context_token_ids = s.prompt_ids;
    action_token_ids = s.response_ids;
    behavior_log_probs = s.behavior_log_probs;
    policy = policy;
    finish_reason = s.finish_reason;
    stop_token_count = s.stop_token_count;
    context_truncation = 110 ∷ 111 ∷ 110 ∷ 101 ∷ [];
  }

  abbrev pub trajectory_of :
      ℕ → Text → Text → Text → ℕ → Sample R → TurnTrace R → TrainingTrajectory R
  trajectory_of group_id task_id context reset index s turn = record {
    group_id = group_id;
    task_id = task_id;
    initial_context_sha256 = context;
    reset_sha256 = reset;
    sample_index = index;
    turns = turn ∷ [];
    reward = some s.reward;
    reward_eligible = true;
    exclusion_reason = none;
    sample_id = none;
    raw_reward = s.raw_reward;
  }

  -- One turn of the loop of `from_rollout_group`.
  unfoldable pub convert_sample :
      PolicyRef → ℕ → Text → Text → Text → ℕ → Sample R → Option (TrainingTrajectory R)
  convert_sample policy group_id task_id context reset index s =
      if s.policy_version == policy.version
      then elim (make_turn is_finite is_positive (turn_of policy index s)) [
        | none ↦ none
        | some turn ↦
            make_trajectory is_finite is_positive token_digest default_id
              (trajectory_of group_id task_id context reset index s turn)
      ]
      else none

  -- The loop over the samples, from an index on.
  unfoldable pub convert :
      PolicyRef
      → ℕ
      → Text
      → Text
      → Text
      → ℕ
      → List (Sample R)
      → Option (List (TrainingTrajectory R))
  convert policy group_id task_id context reset index [] = some []
  convert policy group_id task_id context reset index (s ∷ ss) =
      elim (convert_sample policy group_id task_id context reset index s) [
        | none ↦ none
        | some t ↦ elim (convert policy group_id task_id context reset (suc index) ss) [
          | none ↦ none
          | some ts ↦ some (t ∷ ts)
        ]
      ]

  abbrev pub first_prompt : List (Sample R) → List ℕ
  first_prompt [] = []
  first_prompt (s ∷ ss) = s.prompt_ids

  abbrev pub group_with :
      RolloutGroup R → PolicyRef → Text → Text → List (TrainingTrajectory R) → TrainingGroup R
  group_with g policy task_id reset ts = record {
    group_id = g.group_id;
    task_id = task_id;
    initial_context_sha256 = token_digest (first_prompt g.samples);
    reset_sha256 = reset;
    policy = policy;
    expected_size = length ts;
    samples = ts;
  }

  unfoldable pub from_rollout_group :
      RolloutGroup R → PolicyRef → Text → Text → Option (TrainingGroup R)
  from_rollout_group g policy task_id reset =
      if g.policy_version == policy.version && leb 2 (length g.samples)
      then elim (convert policy g.group_id task_id (token_digest (first_prompt g.samples)) reset 0
          g.samples) [ none ↦ none | some ts ↦ make_group (group_with g policy task_id reset ts) ]
      else none

module _ {R : Type 0} where
  -- `_single_turn`.
  abbrev pub single_turn : List (TurnTrace R) → Option (TurnTrace R)
  single_turn [] = none
  single_turn (turn ∷ []) = some turn
  single_turn (turn ∷ other ∷ more) = none

  -- A group has a reward for each trajectory; without one there is no sample to give.
  abbrev pub sample_from : TrainingTrajectory R → TurnTrace R → R → Sample R
  sample_from t turn reward = record {
    prompt_ids = turn.context_token_ids;
    response_ids = turn.action_token_ids;
    behavior_log_probs = turn.behavior_log_probs;
    reward = reward;
    policy_version = turn.policy.version;
    finish_reason = turn.finish_reason;
    stop_token_count = turn.stop_token_count;
    raw_reward = t.raw_reward;
  }

  unfoldable pub sample_of : TrainingTrajectory R → Option (Sample R)
  sample_of t = elim (single_turn t.turns) [
    | none ↦ none
    | some turn ↦
        if is_tool_calls turn.finish_reason
        then none
        else elim t.reward [ none ↦ none | some r ↦ some (sample_from t turn r) ]
  ]

  unfoldable pub samples_of : List (TrainingTrajectory R) → Option (List (Sample R))
  samples_of [] = some []
  samples_of (t ∷ ts) = elim (sample_of t) [
    | none ↦ none
    | some s ↦ elim (samples_of ts) [ none ↦ none | some ss ↦ some (s ∷ ss) ]
  ]

  unfoldable pub to_rollout_group : TrainingGroup R → Option (RolloutGroup R)
  to_rollout_group g = elim (samples_of g.samples) [
    | none ↦ none
    | some ss ↦
        some (record { samples = ss; group_id = g.group_id; policy_version = g.policy.version })
  ]
