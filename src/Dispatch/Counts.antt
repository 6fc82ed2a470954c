-- ===== src/Dispatch/Counts.antt =====
-- A sorted list of owners, cut by how often each owner occurs: every piece has one owner.
use tiny_dsv.Base.{
  ℕ, zero, suc, ◌+◌, ◌≤◌, ◌<◌, ◌≡◌, refl, ap, sym, ◌∙◌, subst, List, [], ◌∷◌, length, ◌==◌, ==_iff,
  All, arith, Bool-cases, inl, inr,
}
use tiny_dsv.Base.Sums.{flag, times}
use tiny_dsv.Base.Slices.{take, drop}
use tiny_dsv.Mailbox.Sorting.{place, sort, IsSorted}
use tiny_dsv.Dispatch.Pieces.{sum, tabulate, tabulate-ext, piece}

times-place : (k x : ℕ) (xs : List ℕ) → times k (place x xs) ≡ flag (x == k) + times k xs
unfolding place
times-place k x [] = omega arith
times-place k x (y ∷ ys) = ground (arith, times-place k x ys)

pub times-sort : (k : ℕ) (xs : List ℕ) → times k (sort xs) ≡ times k xs
unfolding sort
times-sort k [] = refl
times-sort k (x ∷ xs) = omega (arith, times-place k x (sort xs), times-sort k xs)

sum-add :
    (n s : ℕ) (f g : ℕ → ℕ)
    → sum (tabulate n s (λ q. f q + g q)) ≡ sum (tabulate n s f) + sum (tabulate n s g)
sum-add zero s f g = refl
sum-add (suc n) s f g = omega (arith, sum-add n (suc s) f g)

sum-none : (n s : ℕ) → sum (tabulate n s (λ q. 0)) ≡ 0
sum-none zero s = refl
sum-none (suc n) s = omega (arith, sum-none n (suc s))

sum-flag_below : (n s k : ℕ) → k < s → sum (tabulate n s (λ q. flag (k == q))) ≡ 0
sum-flag_below zero s k h = refl
sum-flag_below (suc n) s k h = ground (arith, sum-flag_below n (suc s) k)

sum-flag : (n s k : ℕ) → s ≤ k → k < s + n → sum (tabulate n s (λ q. flag (k == q))) ≡ 1
sum-flag zero s k h lt = absurd (omega (arith, h, lt))
sum-flag (suc n) s k h lt = elim (Bool-cases (k == s)) [
  | inl e ↦ rw e (omega (arith, sum-flag_below n (suc s) k (ground arith)))
  | inr e ↦ rw e (omega (arith, sum-flag n (suc s) k (ground arith) (omega (arith, lt))))
]

-- The owners together occur as often as there are entries.
pub sum-times :
    (n : ℕ) (ks : List ℕ) → All (λ k. k < n) ks → sum (tabulate n 0 (λ q. times q ks)) ≡ length ks
sum-times n [] a = sum-none n 0
sum-times n (k ∷ ks) a = omega (
  arith,
  sum-add n 0 (λ q. flag (k == q)) (λ q. times q ks),
  sum-flag n 0 k (omega arith) (omega (arith, a.0)),
  sum-times n ks a.1,
)

times_above : (k : ℕ) (ks : List ℕ) → All (λ x. suc k ≤ x) ks → times k ks ≡ 0
times_above k [] a = refl
times_above k (x ∷ xs) a = ground (arith, times_above k xs)

raise : (k x : ℕ) (xs : List ℕ) → suc k ≤ x → All (λ y. x ≤ y) xs → All (λ y. suc k ≤ y) xs
raise k x [] h a = tt
raise k x (y ∷ xs) h a = (omega (arith, h, a.0), raise k x xs h a.1)

-- What is left of a sorted list when the entries of its least owner are cut off.
record Split (k : ℕ) (ks : List ℕ) : Type 0 where
  least : All (λ x. x ≡ k) (take (times k ks) ks)
  above : All (λ x. suc k ≤ x) (drop (times k ks) ks)
  in_order : IsSorted (drop (times k ks) ks)
  counts : (q : ℕ) → suc k ≤ q → times q ks ≡ times q (drop (times k ks) ks)

Split-none : (k : ℕ) (ks : List ℕ) → All (λ x. suc k ≤ x) ks → IsSorted ks → Split k ks
Split-none k ks a s =
    let zero_times = times_above k ks a in
    record {
      least = subst (λ n. All (λ x. x ≡ k) (take n ks)) (sym zero_times) tt;
      above = subst (λ n. All (λ x. suc k ≤ x) (drop n ks)) (sym zero_times) a;
      in_order = subst (λ n. IsSorted (drop n ks)) (sym zero_times) s;
      counts = λ q h. subst (λ n. times q ks ≡ times q (drop n ks)) (sym zero_times) refl;
    }

Split-sorted : (k : ℕ) (ks : List ℕ) → All (λ x. k ≤ x) ks → IsSorted ks → Split k ks
Split-sorted k [] a s = record { least = tt; above = tt; in_order = tt; counts = λ q h. refl }
Split-sorted k (x ∷ xs) a s = elim (Bool-cases (x == k)) [
  | inl e ↦
      let rest = Split-sorted k xs a.1 s.1 in
      let same : times k (x ∷ xs) ≡ suc (times k xs) = ground arith in
      record {
        least =
            subst (λ n. All (λ z. z ≡ k) (take n (x ∷ xs))) (sym same)
              ((==_iff x k).0 e, rest.least);
        above = subst (λ n. All (λ z. suc k ≤ z) (drop n (x ∷ xs))) (sym same) rest.above;
        in_order = subst (λ n. IsSorted (drop n (x ∷ xs))) (sym same) rest.in_order;
        counts = λ q h.
            subst (λ n. times q (x ∷ xs) ≡ times q (drop n (x ∷ xs))) (sym same)
              (let other : times q (x ∷ xs) ≡ times q xs = ground arith in other ∙ rest.counts q h);
      }
  | inr e ↦
      let more : suc k ≤ x = ground (arith, a.0) in
      Split-none k (x ∷ xs) (more, raise k x xs more s.0) s
]

pub piece-times :
    (n s i : ℕ) (ks : List ℕ)
    → All (λ x. s ≤ x) ks
    → IsSorted ks
    → All (λ x. x ≡ s + i) (piece i (tabulate n s (λ q. times q ks)) ks)
piece-times zero s i ks a o = tt
piece-times (suc n) s zero ks a o =
    subst (λ k. All (λ x. x ≡ k) (take (times s ks) ks)) (let e : s ≡ s + 0 = omega arith in e)
      (Split-sorted s ks a o).least
piece-times (suc n) s (suc i) ks a o =
    let cut = Split-sorted s ks a o in
    let rest = drop (times s ks) ks in
    subst (λ k. All (λ x. x ≡ k) (piece i (tabulate n (suc s) (λ q. times q ks)) rest))
      (let e : suc s + i ≡ s + suc i = omega arith in e)
      (subst (λ l. All (λ x. x ≡ suc s + i) (piece i l rest))
        (sym (tabulate-ext n (suc s) (λ q. times q ks) (λ q. times q rest) (λ q h. cut.counts q h)))
        (piece-times n (suc s) i rest cut.above cut.in_order))

length-place : (x : ℕ) (xs : List ℕ) → length (place x xs) ≡ suc (length xs)
unfolding place
length-place x [] = refl
length-place x (y ∷ ys) = ground (arith, length-place x ys)

pub length-sort : (xs : List ℕ) → length (sort xs) ≡ length xs
unfolding sort
length-sort [] = refl
length-sort (x ∷ xs) = length-place x (sort xs) ∙ ap suc (length-sort xs)
