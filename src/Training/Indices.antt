-- ===== src/Training/Indices.antt =====
-- A sorted list of n numbers that has every number below n is the range of them.
use tiny_dsv.Base.{
  ℕ, zero, suc, ◌+◌, ◌≤◌, ◌<◌, ◌≡◌, refl, ap, ◌∙◌, true, false, List, [], ◌∷◌, ◌==◌, ==_iff,
  contains, length, All, arith, Bool-cases, inl, inr, range_from, length-range_from,
}
use tiny_dsv.Base.Sets.{Unique, length-subset}
use tiny_dsv.Mailbox.Sorting.{IsSorted}
use tiny_dsv.Mailbox.Shape.{contains-range_from}

range_from-Unique : (s n : ℕ) → Unique (range_from s n)
range_from-Unique s zero = tt
range_from-Unique s (suc n) =
    (ground (arith, contains-range_from s (suc s) n), range_from-Unique (suc s) n)

least_of : (s k : ℕ) (xs : List ℕ) → All (λ y. s ≤ y) xs → contains k xs ≡ true → s ≤ k
least_of s k [] a h = absurd (ground arith)
least_of s k (x ∷ xs) a h = elim (Bool-cases (x == k)) [
  | inl e ↦ omega (arith, a.0, (==_iff x k).0 e)
  | inr e ↦ least_of s k xs a.1 (ground arith)
]

above :
    (s : ℕ) (xs : List ℕ) → All (λ y. s ≤ y) xs → contains s xs ≡ false → All (λ y. suc s ≤ y) xs
above s [] a h = tt
above s (x ∷ xs) a h = (ground (arith, a.0), above s xs a.1 (ground arith))

pub sorted_range :
    (n s : ℕ) (xs : List ℕ)
    → IsSorted xs
    → All (λ y. s ≤ y) xs
    → ((k : ℕ) → s ≤ k → k < s + n → contains k xs ≡ true)
    → length xs ≡ n
    → xs ≡ range_from s n
sorted_range zero s [] o a h e = refl
sorted_range zero s (x ∷ xs) o a h e = absurd (omega (arith, e))
sorted_range (suc n) s [] o a h e = absurd (omega (arith, e))
sorted_range (suc n) s (x ∷ xs) o a h e =
    let here = h s (omega arith) (omega arith) in
    let first : x ≡ s = elim (Bool-cases (x == s)) [
      | inl c ↦ (==_iff x s).0 c
      | inr c ↦ omega (arith, a.0, least_of x s xs o.0 (ground arith))
    ] in
    let once : contains s xs ≡ false = elim (Bool-cases (contains s xs)) [
      | inr c ↦ c
      | inl c ↦ absurd (
          omega (
            arith,
            e,
            length-range_from s (suc n),
            length-subset (range_from s (suc n)) xs (range_from-Unique s (suc n)) (λ k m.
                elim (Bool-cases (s == k)) [
                  | inl f ↦ ap (λ z. contains z xs) (let g : k ≡ s = ground arith in g) ∙ c
                  | inr f ↦ ground (arith, contains-range_from k s (suc n), m, h k, first)
                ]),
          ))
    ] in
    ap (λ z. z ∷ xs) first
    ∙ ap (λ z. s ∷ z)
        (sorted_range n (suc s) xs o.1 (above s xs a.1 once)
          (λ k low high. ground (arith, h k, first, low, high)) (omega (arith, e)))
