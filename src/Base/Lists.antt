-- ===== src/Base/Lists.antt =====
-- Lists measured by native numbers, and predicates on them by recursion.
use Prim.Native.Nat.{ℕ, zero, suc, ◌+◌}
use mathlib.Core.Path.{◌≡◌, ap, refl}
use mathlib.Core.Bool.{Bool, true, false, ◌&&◌, ◌||◌}
use mathlib.Core.List.{List, [], ◌∷◌, ◌++◌}
use native.Mathlib.Omega.{arith}
use tiny_dsv.Base.Tests.{◌==◌, if◌then◌else◌}

module _ {ℓ} {A : Type ℓ} where
  abbrev pub length : List A → ℕ
  length [] = 0
  length (x ∷ xs) = suc (length xs)

  pub length-append : (xs ys : List A) → length (xs ++ ys) ≡ length xs + length ys
  length-append [] ys = omega arith
  length-append (x ∷ xs) ys = omega (arith, length-append xs ys)

  abbrev pub any : (A → Bool) → List A → Bool
  any p [] = false
  any p (x ∷ xs) = p x || any p xs

  abbrev pub all : (A → Bool) → List A → Bool
  all p [] = true
  all p (x ∷ xs) = p x && all p xs

  abbrev pub All {κ} : (A → Type κ) → List A → Type κ
  All P [] = Unit
  All P (x ∷ xs) = P x × All P xs

-- `x in xs`, `set.add` and `set.discard` of a set of numbers.
abbrev pub contains : ℕ → List ℕ → Bool
contains a [] = false
contains a (x ∷ xs) = x == a || contains a xs

abbrev pub add : ℕ → List ℕ → List ℕ
add a xs = if contains a xs then xs else a ∷ xs

abbrev pub discard : ℕ → List ℕ → List ℕ
discard a [] = []
discard a (x ∷ xs) = if x == a then discard a xs else x ∷ discard a xs

pub contains-add : (a b : ℕ) (xs : List ℕ) → contains b (add a xs) ≡ (a == b || contains b xs)
contains-add a b xs = ground (arith, contains_eq a b xs)
  where
    contains_eq : (a b : ℕ) (xs : List ℕ) → a ≡ b → contains a xs ≡ contains b xs
    contains_eq a b xs e = ap (λ c. contains c xs) e

pub contains-discard :
    (a b : ℕ) (xs : List ℕ) → contains b (discard a xs) ≡ (if a == b then false else contains b xs)
contains-discard a b [] = ground arith
contains-discard a b (x ∷ xs) = ground (arith, contains-discard a b xs)

-- `range(start, start + count)`.
abbrev pub range_from : ℕ → ℕ → List ℕ
range_from start zero = []
range_from start (suc count) = start ∷ range_from (suc start) count

pub length-range_from : (s n : ℕ) → length (range_from s n) ≡ n
length-range_from s zero = refl
length-range_from s (suc n) = ap suc (length-range_from (suc s) n)
