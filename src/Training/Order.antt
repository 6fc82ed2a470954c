-- ===== src/Training/Order.antt =====
-- What a training group keeps of the samples that it is given (rollout_manager/training.py).
use tiny_dsv.Base.{
  ℕ, ◌+◌, ◌≤◌, ◌≡◌, refl, ap, ◌∙◌, Bool, true, ◌&&◌, some, List, [], ◌∷◌, leb, ==_iff, all, All,
  length, arith, Bool-cases, inl, inr, subst,
}
use tiny_dsv.Base.{zero, suc, ◌<◌, ◌==◌, ◌||◌, false, Option, none, map, contains, range_from}
use tiny_dsv.Mailbox.Sorting.{IsSorted}
use tiny_dsv.Training.Indices.{sorted_range}
use tiny_dsv.Training.Records.{Text, same, PolicyRef, same_policy, TurnTrace, TrainingTrajectory}
use tiny_dsv.Training.Groups.{
  TrainingGroup, insert_sample, sort_samples, belongs, make_group, group_ok,
}

same-eq : (xs ys : Text) → same xs ys ≡ true → xs ≡ ys
same-eq [] [] h = refl
same-eq [] (y ∷ ys) h = absurd (ground arith)
same-eq (x ∷ xs) [] h = absurd (ground arith)
same-eq (x ∷ xs) (y ∷ ys) h =
    let first : x ≡ y = ground (arith, h) in
    ap (λ z. z ∷ xs) first ∙ ap (λ l. y ∷ l) (same-eq xs ys (ground (arith, h)))

all_least : (is : List ℕ) → All (λ i. 0 ≤ i) is
all_least [] = tt
all_least (i ∷ is) = (omega arith, all_least is)

all_range :
    (p : ℕ → Bool) (s n : ℕ)
    → all p (range_from s n) ≡ true
    → (k : ℕ) → s ≤ k
    → k < s + n
    → p k ≡ true
all_range p s zero h k low high = absurd (omega (arith, low, high))
all_range p s (suc n) h k low high = elim (Bool-cases (s == k)) [
  | inl e ↦ subst (λ z. p z ≡ true) ((==_iff s k).0 e) (ground (arith, h))
  | inr e ↦ all_range p (suc s) n (ground (arith, h)) k (ground (arith, e)) (omega (arith, high))
]

module _ {R : Type 0} where
  all-insert_sample :
      (p : TrainingTrajectory R → Bool) (t : TrainingTrajectory R)
      (us : List (TrainingTrajectory R))
      → all p (insert_sample t us) ≡ (p t && all p us)
  all-insert_sample p t [] = refl
  all-insert_sample p t (u ∷ us) = ground (arith, all-insert_sample p t us)

  all-sort_samples :
      (p : TrainingTrajectory R → Bool) (ts : List (TrainingTrajectory R))
      → all p (sort_samples ts) ≡ all p ts
  all-sort_samples p [] = refl
  all-sort_samples p (t ∷ ts) =
      all-insert_sample p t (sort_samples ts) ∙ ap (λ b. p t && b) (all-sort_samples p ts)

  length-insert_sample :
      (t : TrainingTrajectory R) (us : List (TrainingTrajectory R))
      → length (insert_sample t us) ≡ length us + 1
  length-insert_sample t [] = omega arith
  length-insert_sample t (u ∷ us) = ground (arith, length-insert_sample t us)

  length-sort_samples : (ts : List (TrainingTrajectory R)) → length (sort_samples ts) ≡ length ts
  length-sort_samples [] = refl
  length-sort_samples (t ∷ ts) =
      omega (arith, length-insert_sample t (sort_samples ts), length-sort_samples ts)

  -- The indices do not fall.
  abbrev pub InOrder : List (TrainingTrajectory R) → Type 0
  InOrder [] = Unit {0}
  InOrder (t ∷ ts) = All (λ u. t.sample_index ≤ u.sample_index) ts × InOrder ts

  All-insert_sample :
      (n : ℕ) (t : TrainingTrajectory R) (us : List (TrainingTrajectory R))
      → n ≤ t.sample_index
      → All (λ u. n ≤ u.sample_index) us
      → All (λ u. n ≤ u.sample_index) (insert_sample t us)
  All-insert_sample n t [] h a = (h, tt)
  All-insert_sample n t (u ∷ us) h a = elim (Bool-cases (leb t.sample_index u.sample_index)) [
    | inl e ↦ rw e (h, a)
    | inr e ↦ rw e (a.0, All-insert_sample n t us h a.1)
  ]

  All-below :
      (m n : ℕ) (us : List (TrainingTrajectory R))
      → m ≤ n
      → All (λ u. n ≤ u.sample_index) us
      → All (λ u. m ≤ u.sample_index) us
  All-below m n [] h a = tt
  All-below m n (u ∷ us) h a = (omega arith, All-below m n us h a.1)

  insert_sample-InOrder :
      (t : TrainingTrajectory R) (us : List (TrainingTrajectory R))
      → InOrder us
      → InOrder (insert_sample t us)
  insert_sample-InOrder t [] v = (tt, tt)
  insert_sample-InOrder t (u ∷ us) v = elim (Bool-cases (leb t.sample_index u.sample_index)) [
    | inl e ↦
        rw e ((ground arith, All-below t.sample_index u.sample_index us (ground arith) v.0), v)
    | inr e ↦
        rw e
          (All-insert_sample u.sample_index t us (ground arith) v.0, insert_sample-InOrder t us v.1)
  ]

  sort_samples-InOrder : (ts : List (TrainingTrajectory R)) → InOrder (sort_samples ts)
  sort_samples-InOrder [] = tt
  sort_samples-InOrder (t ∷ ts) =
      insert_sample-InOrder t (sort_samples ts) (sort_samples-InOrder ts)

  -- The sample is of the task, context and reset of the group, its first turn follows the policy of
  -- the group, and its reward counts.
  pub record Member (g : TrainingGroup R) (t : TrainingTrajectory R) : Type 0 where
    pub group : t.group_id ≡ g.group_id
    pub task : t.task_id ≡ g.task_id
    pub context : t.initial_context_sha256 ≡ g.initial_context_sha256
    pub reset : t.reset_sha256 ≡ g.reset_sha256
    pub policy :
        (u : TurnTrace R) × (us : List (TurnTrace R)) × (t.turns ≡ u ∷ us)
        × (u.policy.version ≡ g.policy.version)
        × (u.policy.digest ≡ g.policy.digest)
        × (u.policy.lineage ≡ g.policy.lineage)
        × (u.policy.contract ≡ g.policy.contract)
    pub reward : (r : R) × (t.reward ≡ some r)
    pub eligible : t.reward_eligible ≡ true

  first_policy :
      (p : PolicyRef) (ts : List (TurnTrace R))
      → (let out : Bool = elim ts [ [] ↦ false | u ∷ us ↦ same_policy u.policy p ] in out) ≡ true
      → (u : TurnTrace R) × (us : List (TurnTrace R)) × (ts ≡ u ∷ us)
        × (u.policy.version ≡ p.version)
        × (u.policy.digest ≡ p.digest)
        × (u.policy.lineage ≡ p.lineage)
        × (u.policy.contract ≡ p.contract)
  first_policy p [] h = absurd (ground arith)
  first_policy p (u ∷ us) h = (
    u,
    us,
    refl,
    ground (arith, h),
    same-eq u.policy.digest p.digest (ground (arith, h)),
    same-eq u.policy.lineage p.lineage (ground (arith, h)),
    ground (arith, h),
  )

  rewarded :
      (o : Option R) (b : Bool)
      → (let out : Bool = elim o [ none ↦ false | some r ↦ b ] in out) ≡ true
      → (r : R) × (o ≡ some r) × (b ≡ true)
  rewarded none b h = absurd (ground arith)
  rewarded (some r) b h = (r, refl, h)

  belongs-Member :
      (g : TrainingGroup R) (t : TrainingTrajectory R) → belongs g t ≡ true → Member g t
  belongs-Member g t h =
      let (r, here, counts) = rewarded t.reward t.reward_eligible (ground (arith, h)) in
      record {
        group = ground (arith, h);
        task = same-eq t.task_id g.task_id (ground (arith, h));
        context = same-eq t.initial_context_sha256 g.initial_context_sha256 (ground (arith, h));
        reset = same-eq t.reset_sha256 g.reset_sha256 (ground (arith, h));
        policy = first_policy g.policy t.turns (ground (arith, h));
        reward = (r, here);
        eligible = counts;
      }

  members :
      (g : TrainingGroup R) (ts : List (TrainingTrajectory R))
      → all (belongs g) ts ≡ true
      → All (Member g) ts
  members g [] h = tt
  members g (t ∷ ts) h = (belongs-Member g t (ground (arith, h)), members g ts (ground (arith, h)))

  InOrder-IsSorted :
      (ts : List (TrainingTrajectory R)) → InOrder ts → IsSorted (map (λ t. t.sample_index) ts)
  InOrder-IsSorted [] v = tt
  InOrder-IsSorted (t ∷ ts) v = (below ts v.0, InOrder-IsSorted ts v.1)
    where
      below :
          (us : List (TrainingTrajectory R))
          → All (λ u. t.sample_index ≤ u.sample_index) us
          → All (λ i. t.sample_index ≤ i) (map (λ u. u.sample_index) us)
      below [] a = tt
      below (u ∷ us) a = (a.0, below us a.1)

  contains-insert_sample :
      (k : ℕ) (t : TrainingTrajectory R) (us : List (TrainingTrajectory R))
      → contains k (map (λ u. u.sample_index) (insert_sample t us))
        ≡ (t.sample_index == k || contains k (map (λ u. u.sample_index) us))
  contains-insert_sample k t [] = refl
  contains-insert_sample k t (u ∷ us) = ground (arith, contains-insert_sample k t us)

  contains-sort_samples :
      (k : ℕ) (ts : List (TrainingTrajectory R))
      → contains k (map (λ u. u.sample_index) (sort_samples ts))
        ≡ contains k (map (λ u. u.sample_index) ts)
  contains-sort_samples k [] = refl
  contains-sort_samples k (t ∷ ts) =
      contains-insert_sample k t (sort_samples ts)
      ∙ ap (λ b. t.sample_index == k || b) (contains-sort_samples k ts)

  length-map_samples :
      (ts : List (TrainingTrajectory R)) → length (map (λ t. t.sample_index) ts) ≡ length ts
  length-map_samples [] = refl
  length-map_samples (t ∷ ts) = omega (arith, length-map_samples ts)

  -- A complete group has the samples that it was given, with the indices from 0 on in order, and
  -- each of them is a member.
  pub record Complete (g tg : TrainingGroup R) : Type 0 where
    pub size : 2 ≤ tg.expected_size
    pub indices : map (λ t. t.sample_index) tg.samples ≡ range_from 0 tg.expected_size
    pub members : All (Member tg) tg.samples
    pub same_samples : (p : TrainingTrajectory R → Bool) → all p tg.samples ≡ all p g.samples

  made :
      (g : TrainingGroup R)
      → group_ok g ≡ true
      → Complete g (record g { samples = sort_samples g.samples })
  made g e = record {
    size = ground (arith, e);
    indices =
        sorted_range g.expected_size 0 (map (λ t. t.sample_index) (sort_samples g.samples))
          (InOrder-IsSorted (sort_samples g.samples) (sort_samples-InOrder g.samples))
          (all_least (map (λ t. t.sample_index) (sort_samples g.samples)))
          (λ k low high.
            contains-sort_samples k g.samples
            ∙ all_range (λ i. contains i (map (λ t. t.sample_index) g.samples)) 0 g.expected_size
                (ground (arith, e)) k low high)
          (length-map_samples (sort_samples g.samples)
            ∙ length-sort_samples g.samples
            ∙ (==_iff (length g.samples) g.expected_size).0 (ground (arith, e)));
    members =
        members (record g { samples = sort_samples g.samples }) (sort_samples g.samples)
          (all-sort_samples (belongs g) g.samples ∙ ground (arith, e));
    same_samples = λ p. all-sort_samples p g.samples;
  }

  -- A training group that is made has as many samples as it expects and at least two; they are the
  -- given samples, with the indices from 0 on in order, each with the task, the context and the
  -- reset of the group, with its first turn under the policy of the group, and with a reward that
  -- counts.
  pub make_group_lem : (g tg : TrainingGroup R) → make_group g ≡ some tg → Complete g tg
  unfolding make_group
  make_group_lem g tg h = elim (Bool-cases (group_ok g)) [
    | inr e ↦ absurd (ground (arith, (rw e at h)))
    | inl e ↦
        subst (Complete g)
          (let result : record g { samples = sort_samples g.samples } ≡ tg =
              ground (arith, (rw e at h)) in
            result)
          (made g e)
  ]
