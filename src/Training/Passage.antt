-- ===== src/Training/Passage.antt =====
-- A rollout group survives the passage to a training group and back.
use tiny_dsv.Base.{
  ℕ, suc, ◌≡◌, refl, ap, sym, ◌∙◌, Bool, false, ◌&&◌, Option, some, List, [], ◌∷◌, leb, ◌==◌,
  ==_iff, All, length, arith, Bool-cases, Option-cases, inl, inr, subst,
}
use tiny_dsv.Training.Records.{
  Text, nonempty, PolicyRef, TurnTrace, TrainingTrajectory, make_turn, make_trajectory, turn_ok,
  trajectory_ok, id_or,
}
use tiny_dsv.Training.Groups.{
  TrainingGroup, Sample, RolloutGroup, insert_sample, sort_samples, make_group, group_ok, turn_of,
  trajectory_of, convert_sample, convert, first_prompt, group_with, from_rollout_group,
  is_tool_calls, sample_of, samples_of, to_rollout_group,
}

module _ {R : Type 0} where
  -- Samples whose indices are in order are in order already.
  IndexedFrom : ℕ → List (TrainingTrajectory R) → Type 0
  IndexedFrom n [] = Unit {0}
  IndexedFrom n (t ∷ ts) = (t.sample_index ≡ n) × IndexedFrom (suc n) ts

  sort_samples-IndexedFrom :
      (n : ℕ) (ts : List (TrainingTrajectory R)) → IndexedFrom n ts → sort_samples ts ≡ ts
  unfolding IndexedFrom
  sort_samples-IndexedFrom n [] h = refl
  sort_samples-IndexedFrom n (t ∷ []) h = refl
  sort_samples-IndexedFrom n (t ∷ u ∷ us) (a, (b, c)) =
      ap (insert_sample t) (sort_samples-IndexedFrom (suc n) (u ∷ us) (b, c)) ∙ ground arith

module _ {R : Type 0} (is_finite is_positive : R → Bool) (token_digest : List ℕ → Text)
    (default_id : ℕ → ℕ → Text) (request_of : ℕ → Text) where
  convert_sample-back :
      (policy : PolicyRef) (group_id : ℕ) (task_id context reset : Text) (index : ℕ) (s : Sample R)
      (t : TrainingTrajectory R)
      → is_tool_calls s.finish_reason ≡ false
      → convert_sample is_finite is_positive token_digest default_id request_of policy group_id
          task_id context reset index s
        ≡ some t
      → (sample_of t ≡ some s) × (t.sample_index ≡ index)
  unfolding convert_sample make_turn make_trajectory sample_of
  convert_sample-back policy group_id task_id context reset index s t plain h =
      elim (Bool-cases (s.policy_version == policy.version)) [
        | inr e ↦ absurd (ground (arith, (rw e at h)))
        | inl e ↦ elim (Bool-cases (turn_ok is_finite is_positive turn)) [
          | inr f ↦ absurd (ground (arith, (rw (e, f) at h)))
          | inl f ↦
              elim (Bool-cases (
                trajectory_ok is_finite is_positive token_digest raw
                && nonempty (id_or is_finite is_positive default_id raw))) [
                  | inr g ↦ absurd (ground (arith, (rw (e, f, g) at h)))
                  | inl g ↦
                      subst (λ t. (sample_of t ≡ some s) × (t.sample_index ≡ index))
                        (let made : record raw {
                          sample_id = some (id_or is_finite is_positive default_id raw);
                        }
                              ≡ t =
                            ground (arith, (rw (e, f, g) at h)) in
                          made)
                        (
                          rw plain (
                              ap (λ v. some (record s { policy_version = v }))
                                (sym ((==_iff s.policy_version policy.version).0 e))),
                          refl,
                        )
                ]
        ]
      ]
    where
      turn : TurnTrace R
      turn = turn_of is_finite is_positive token_digest default_id request_of policy index s

      raw : TrainingTrajectory R
      raw =
          trajectory_of is_finite is_positive token_digest default_id request_of group_id task_id
            context reset index s turn

  convert-back :
      (policy : PolicyRef) (group_id : ℕ) (task_id context reset : Text) (index : ℕ)
      (ss : List (Sample R)) (ts : List (TrainingTrajectory R))
      → All (λ s. is_tool_calls s.finish_reason ≡ false) ss
      → convert is_finite is_positive token_digest default_id request_of policy group_id task_id
          context reset index ss
        ≡ some ts
      → (samples_of ts ≡ some ss) × IndexedFrom index ts
  unfolding convert samples_of IndexedFrom
  convert-back policy group_id task_id context reset index [] ts plain h =
      subst (λ ts. (samples_of ts ≡ some []) × IndexedFrom index ts)
        (let e : [] ≡ ts = ground (arith, h) in e) (refl, tt)
  convert-back policy group_id task_id context reset index (s ∷ ss) ts (p, plain) h =
      elim (Option-cases (one index s)) [
        | inl e ↦ absurd (ground (arith, (rw (e, convert) at h)))
        | inr (t, e) ↦ elim (Option-cases (more (suc index) ss)) [
          | inl f ↦ absurd (ground (arith, (rw (e, f, convert) at h)))
          | inr (us, f) ↦
              let (back, at) =
                convert_sample-back policy group_id task_id context reset index s t p e in
              let (backs, ats) =
                convert-back policy group_id task_id context reset (suc index) ss us plain f in
              subst (λ ts. (samples_of ts ≡ some (s ∷ ss)) × IndexedFrom index ts)
                (let made : t ∷ us ≡ ts = ground (arith, (rw (e, f, convert) at h)) in made)
                (rw (back, samples_of, backs) refl, (at, ats))
        ]
      ]
    where
      one : ℕ → Sample R → Option (TrainingTrajectory R)
      one =
          convert_sample is_finite is_positive token_digest default_id request_of policy group_id
            task_id context reset

      more : ℕ → List (Sample R) → Option (List (TrainingTrajectory R))
      more =
          convert is_finite is_positive token_digest default_id request_of policy group_id task_id
            context reset

  -- If no sample of a rollout group ended in tool calls and `from_rollout_group` makes a training
  -- group of it, then `to_rollout_group` makes of that the rollout group again, with its samples in
  -- their order.
  pub to_rollout_group-from_rollout_group :
      (g : RolloutGroup R) (policy : PolicyRef) (task_id reset : Text) (tg : TrainingGroup R)
      → All (λ s. is_tool_calls s.finish_reason ≡ false) g.samples
      → from_rollout_group is_finite is_positive token_digest default_id request_of g policy task_id
          reset
        ≡ some tg
      → to_rollout_group tg ≡ some g
  unfolding from_rollout_group to_rollout_group make_group
  to_rollout_group-from_rollout_group g policy task_id reset tg plain h =
      elim (Bool-cases (g.policy_version == policy.version && leb 2 (length g.samples))) [
        | inr e ↦ absurd (ground (arith, (rw e at h)))
        | inl e ↦ elim (Option-cases ts0) [
          | inl f ↦ absurd (ground (arith, (rw (e, f) at h)))
          | inr (ts, f) ↦ elim (Bool-cases (group_ok (built ts))) [
            | inr k ↦ absurd (ground (arith, (rw (e, f, k) at h)))
            | inl k ↦
                let (backs, ats) =
                  convert-back policy g.group_id task_id context reset 0 g.samples ts plain f in
                subst (λ tg. to_rollout_group tg ≡ some g)
                  (let made : record (built ts) { samples = sort_samples ts } ≡ tg =
                      ground (arith, (rw (e, f, k) at h)) in
                    made)
                  (rw (sort_samples-IndexedFrom 0 ts ats, to_rollout_group, backs)
                    (ap (λ v. some (record g { policy_version = v }))
                      (sym ((==_iff g.policy_version policy.version).0 (ground (arith, e))))))
          ]
        ]
      ]
    where
      context : Text
      context =
          token_digest
            (first_prompt is_finite is_positive token_digest default_id request_of g.samples)

      built : List (TrainingTrajectory R) → TrainingGroup R
      built =
          group_with is_finite is_positive token_digest default_id request_of g policy task_id reset

      ts0 : Option (List (TrainingTrajectory R))
      ts0 =
          convert is_finite is_positive token_digest default_id request_of policy g.group_id task_id
            context reset 0 g.samples
