-- ===== src/Coordinator/Places.antt =====
-- Where the plans are when an episode ends.
use tiny_dsv.Base.{
  ℕ, zero, suc, ◌+◌, ◌≤◌, ◌≡◌, refl, ap, ◌∙◌, Bool, true, false, ◌&&◌, Option, none, some, List, [],
  ◌∷◌, arith, length, contains, discard, leb, ltb, ◌==◌, Bool-cases, inl, inr, if◌then◌else◌,
  range_from,
}
use tiny_dsv.Base.Dict.{Dict, insert, lookup-insert}
use tiny_dsv.Base.Sums.{times, flag, remove_index, sum_of-remove_index}
use tiny_dsv.Coordinator.Plans.{Setup}
use tiny_dsv.Coordinator.State.{Result, Reason, indices}
use tiny_dsv.Coordinator.Completion.{stopped_by}
use tiny_dsv.Coordinator.Invariant.{Placed, has_result}

pub length-discard : (g : ℕ) (xs : List ℕ) → length (discard g xs) ≤ length xs
length-discard g [] = omega arith
length-discard g (x ∷ xs) = ground (arith, length-discard g xs)

pub contains-remove_index :
    (i k : ℕ) (xs : List ℕ) → contains k (remove_index i xs) ≡ true → contains k xs ≡ true
contains-remove_index i k [] h = h
contains-remove_index i k (x ∷ xs) h = ground (arith, contains-remove_index i k xs)

pub times-range_from : (k s n : ℕ) → times k (range_from s n) ≡ flag (leb s k && ltb k (s + n))
times-range_from k s zero = ground arith
times-range_from k s (suc n) = ground (arith, times-range_from k (suc s) n)

pub flag_most : (b : Bool) → flag b ≤ 1
flag_most true = omega arith
flag_most false = omega arith

pub has_result-insert :
    (i k : ℕ) (r : Result) (results : Dict Result)
    → has_result k (insert i r results) ≡ (if i == k then 1 else has_result k results)
has_result-insert i k r results = elim (Bool-cases (i == k)) [
  | inl c ↦ rw (has_result, lookup-insert i k r results, c) refl
  | inr c ↦ rw (has_result, lookup-insert i k r results, c) refl
]

pub stopped_by-none : (r : Result) (o : Option Reason) → stopped_by r o ≡ none → o ≡ none
stopped_by-none r none h = refl
stopped_by-none r (some x) h = absurd (ground arith)

module _ (s : Setup) where
  -- What ends, or is abandoned, is put down as a result.
  pub Placed-end :
      (i : ℕ) (r : Result) (pending active : List ℕ) (results : Dict Result)
      → contains i active ≡ true
      → Placed s pending active results
      → Placed s pending (remove_index i active) (insert i r results)
  Placed-end i r pending active results here v k =
      let taken = sum_of-remove_index (λ j. flag (j == k)) i active here in
      let most : times k (indices s) ≤ 1 = omega (
        arith,
        times-range_from k 0 (length s.plans),
        flag_most (leb 0 k && ltb k (0 + length s.plans)),
      ) in
      elim (Bool-cases (i == k)) [
        | inl c ↦ omega (
          arith,
          v k,
          taken,
          most,
          ap flag c,
          has_result-insert i k r results ∙ ap (λ b. if b then 1 else has_result k results) c,
        )
        | inr c ↦ omega (
          arith,
          v k,
          taken,
          ap flag c,
          has_result-insert i k r results ∙ ap (λ b. if b then 1 else has_result k results) c,
        )
      ]
