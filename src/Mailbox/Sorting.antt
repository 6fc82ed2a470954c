-- ===== src/Mailbox/Sorting.antt =====
-- `sorted` on lists of numbers, as insertion, and the laws that the mailbox needs.
use tiny_dsv.Base.{
  ℕ, zero, suc, ◌+◌, ◌≤◌, ◌<◌, ◌≡◌, refl, ap, ◌∙◌, List, [], ◌∷◌, ◌++◌, arith, leb, ◌==◌,
  if◌then◌else◌, All, range_from, Bool-cases, inl, inr, discard,
}

unfoldable pub place : ℕ → List ℕ → List ℕ
place x [] = x ∷ []
place x (y ∷ ys) = if leb x y then x ∷ y ∷ ys else y ∷ place x ys

unfoldable pub sort : List ℕ → List ℕ
unfolding place
sort [] = []
sort (x ∷ xs) = place x (sort xs)

abbrev pub IsSorted : List ℕ → Type 0
IsSorted [] = Unit {0}
IsSorted (x ∷ xs) = All (λ y. x ≤ y) xs × IsSorted xs

All-mono : (x y : ℕ) (xs : List ℕ) → x ≤ y → All (λ z. y ≤ z) xs → All (λ z. x ≤ z) xs
All-mono x y [] h a = tt
All-mono x y (z ∷ xs) h a = (omega arith, All-mono x y xs h a.1)

All-place : (n x : ℕ) (xs : List ℕ) → n ≤ x → All (λ z. n ≤ z) xs → All (λ z. n ≤ z) (place x xs)
unfolding place
All-place n x [] h a = (h, tt)
All-place n x (y ∷ xs) h a = elim (Bool-cases (leb x y)) [
  | inl e ↦ rw e (h, a)
  | inr e ↦ rw e (a.0, All-place n x xs h a.1)
]

place-IsSorted : (x : ℕ) (xs : List ℕ) → IsSorted xs → IsSorted (place x xs)
unfolding place
place-IsSorted x [] s = (tt, tt)
place-IsSorted x (y ∷ xs) s = elim (Bool-cases (leb x y)) [
  | inl e ↦ rw e ((ground arith, All-mono x y xs (ground arith) s.0), s)
  | inr e ↦ rw e (All-place y x xs (ground arith) s.0, place-IsSorted x xs s.1)
]

pub sort-IsSorted : (xs : List ℕ) → IsSorted (sort xs)
unfolding sort
sort-IsSorted [] = tt
sort-IsSorted (x ∷ xs) = place-IsSorted x (sort xs) (sort-IsSorted xs)

-- A number no greater than the rest of a sorted list goes in front.
pub place_least : (x : ℕ) (xs : List ℕ) → All (λ z. x ≤ z) xs → place x xs ≡ x ∷ xs
unfolding place
place_least x [] a = refl
place_least x (y ∷ xs) a = ground arith

All-discard : (n k : ℕ) (xs : List ℕ) → All (λ z. n ≤ z) xs → All (λ z. n ≤ z) (discard k xs)
All-discard n k [] a = tt
All-discard n k (x ∷ xs) a = elim (Bool-cases (x == k)) [
  | inl e ↦ rw e (All-discard n k xs a.1)
  | inr e ↦ rw e (a.0, All-discard n k xs a.1)
]

discard-place :
    (k x : ℕ) (xs : List ℕ)
    → IsSorted xs
    → discard k (place x xs) ≡ (if x == k then discard k xs else place x (discard k xs))
unfolding place
discard-place k x [] s = ground arith
discard-place k x (y ∷ xs) s = ground (
  arith,
  discard-place k x xs s.1,
  place_least x (discard k xs),
  All-discard x k xs,
  All-mono x y xs,
  s.0,
)

pub sort-discard : (k : ℕ) (xs : List ℕ) → sort (discard k xs) ≡ discard k (sort xs)
unfolding sort
sort-discard k [] = refl
sort-discard k (x ∷ xs) =
    ground (arith, sort-discard k xs, discard-place k x (sort xs), sort-IsSorted xs)

-- The greatest number goes to the end.
place-append : (x k : ℕ) (xs : List ℕ) → x ≤ k → place x (xs ++ k ∷ []) ≡ place x xs ++ k ∷ []
unfolding place
place-append x k [] h = ground arith
place-append x k (y ∷ xs) h = ground (arith, place-append x k xs)

pub sort-append :
    (k : ℕ) (xs : List ℕ) → All (λ z. z ≤ k) xs → sort (xs ++ k ∷ []) ≡ sort xs ++ k ∷ []
unfolding sort
sort-append k [] a = refl
sort-append k (x ∷ xs) a = ap (place x) (sort-append k xs a.1) ∙ place-append x k (sort xs) a.0

-- `range` grows at the end, and shrinks at the front.
pub range_from-append : (s n : ℕ) → range_from s n ++ (s + n) ∷ [] ≡ range_from s (suc n)
range_from-append s zero = ground arith
range_from-append s (suc n) =
    ap (λ z. s ∷ z)
      (ap (λ z. range_from (suc s) n ++ z ∷ []) (omega arith) ∙ range_from-append (suc s) n)

discard_below : (k s n : ℕ) → k < s → discard k (range_from s n) ≡ range_from s n
discard_below k s zero h = refl
discard_below k s (suc n) h = ground (arith, discard_below k (suc s) n)

pub discard-range_from : (s n : ℕ) → discard s (range_from s (suc n)) ≡ range_from (suc s) n
discard-range_from s n = ground (arith, discard_below s (suc s) n)
