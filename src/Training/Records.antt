-- ===== src/Training/Records.antt =====
-- Turns and trajectories, and the checks of their constructors (rollout_manager/training.py). `none`
-- is a ValueError. A text is the list of its characters; a real number is of any type that can say
-- whether it is finite and whether it is positive.
use tiny_dsv.Base.{
  ℕ, Bool, true, false, not, ◌&&◌, ◌||◌, Option, none, some, List, [], ◌∷◌, leb, ◌==◌, all, length,
  map, if◌then◌else◌, range_from,
}

abbrev pub Text : Type 0
Text = List ℕ

abbrev pub same : List ℕ → List ℕ → Bool
same [] [] = true
same [] (y ∷ ys) = false
same (x ∷ xs) [] = false
same (x ∷ xs) (y ∷ ys) = x == y && same xs ys

abbrev pub nonempty : List ℕ → Bool
nonempty [] = false
nonempty (x ∷ xs) = true

-- A lowercase SHA256 digest: 64 characters of 0-9 and a-f.
abbrev pub is_digest : Text → Bool
is_digest t = length t == 64 && all (λ c. (leb 48 c && leb c 57) || (leb 97 c && leb c 102)) t

-- The identities and the sampling of a policy are told apart by one number.
pub record PolicyRef : Type 0 where
  pub version : ℕ
  pub digest : Text
  pub lineage : Text
  pub contract : ℕ

abbrev pub same_policy : PolicyRef → PolicyRef → Bool
same_policy p q =
    p.version == q.version
    && same p.digest q.digest
    && same p.lineage q.lineage
    && p.contract == q.contract

pub data Finish : Type 0 where
  eos stop max_tokens tool_calls : Finish

pub record TurnTrace (R : Type 0) : Type 0 where
  pub turn_id : ℕ
  pub request_id : Text
  pub context_token_ids : List ℕ
  pub action_token_ids : List ℕ
  pub behavior_log_probs : List R
  pub policy : PolicyRef
  pub finish_reason : Finish
  pub stop_token_count : ℕ
  pub context_truncation : Text

pub record TrainingTrajectory (R : Type 0) : Type 0 where
  pub group_id : ℕ
  pub task_id : Text
  pub initial_context_sha256 : Text
  pub reset_sha256 : Text
  pub sample_index : ℕ
  pub turns : List (TurnTrace R)
  pub reward : Option R
  pub reward_eligible : Bool
  pub exclusion_reason : Option Text
  pub sample_id : Option Text
  pub raw_reward : Option R

abbrev pub among : Text → List Text → Bool
among t [] = false
among t (u ∷ us) = same t u || among t us

-- `len(set(texts)) == len(texts)`.
abbrev pub distinct : List Text → Bool
distinct [] = true
distinct (t ∷ ts) = not (among t ts) && distinct ts

abbrev pub is_given : Option Text → Bool
is_given none = false
is_given (some t) = nonempty t

abbrev pub is_absent : Option Text → Bool
is_absent none = true
is_absent (some t) = false

module _ {R : Type 0} (is_finite is_positive : R → Bool) where
  abbrev pub finite_or_none : Option R → Bool
  finite_or_none none = true
  finite_or_none (some r) = is_finite r

  -- `TurnTrace.__post_init__`.
  abbrev pub turn_ok : TurnTrace R → Bool
  turn_ok t =
      leb 1 t.turn_id
      && nonempty t.request_id
      && nonempty t.context_token_ids
      && nonempty t.action_token_ids
      && all is_finite t.behavior_log_probs
      && length t.action_token_ids == length t.behavior_log_probs
      && all (λ r. not (is_positive r)) t.behavior_log_probs
      && leb t.stop_token_count (length t.action_token_ids)
      && nonempty t.context_truncation

  unfoldable pub make_turn : TurnTrace R → Option (TurnTrace R)
  make_turn t = if turn_ok t then some t else none

  -- The turns are of one policy, and the first context has the digest.
  abbrev pub one_origin : (List ℕ → Text) → TrainingTrajectory R → Bool
  one_origin token_digest t = elim t.turns [
    | [] ↦ false
    | u ∷ us ↦
        all (λ w. same_policy w.policy u.policy) (u ∷ us)
        && same (token_digest u.context_token_ids) t.initial_context_sha256
  ]

  -- `TrainingTrajectory.__post_init__`.
  abbrev pub trajectory_ok : (List ℕ → Text) → TrainingTrajectory R → Bool
  trajectory_ok token_digest t =
      nonempty t.task_id
      && is_digest t.initial_context_sha256
      && is_digest t.reset_sha256
      && same (map (λ u. u.turn_id) t.turns) (range_from 1 (length t.turns))
      && distinct (map (λ u. u.request_id) t.turns)
      && one_origin token_digest t
      && finite_or_none t.reward
      && finite_or_none t.raw_reward
      && (if t.reward_eligible then is_absent t.exclusion_reason else is_given t.exclusion_reason)

  abbrev pub id_or : (ℕ → ℕ → Text) → TrainingTrajectory R → Text
  id_or default_id t = elim t.sample_id [
    | none ↦ default_id t.group_id t.sample_index
    | some id ↦ id
  ]

  unfoldable pub make_trajectory :
      (List ℕ → Text) → (ℕ → ℕ → Text) → TrainingTrajectory R → Option (TrainingTrajectory R)
  make_trajectory token_digest default_id t =
      if trajectory_ok token_digest t && nonempty (id_or default_id t)
      then some (record t { sample_id = some (id_or default_id t) })
      else none
