-- ===== src/Base/Sums.antt =====
-- Sums over lists of indices, and the removal of one index.
use Prim.Native.Nat.{ℕ, ◌+◌, ◌≤◌}
use mathlib.Core.Path.{◌≡◌}
use mathlib.Core.Bool.{Bool, true, false, ◌||◌}
use mathlib.Core.List.{List, [], ◌∷◌, ◌++◌}
use native.Mathlib.Omega.{arith}
use tiny_dsv.Base.Tests.{◌==◌, if◌then◌else◌}
use tiny_dsv.Base.Lists.{length, contains}

-- `list.remove`, and `dict.pop` of a task.
abbrev pub remove_index : ℕ → List ℕ → List ℕ
remove_index i [] = []
remove_index i (x ∷ xs) = if x == i then xs else x ∷ remove_index i xs

abbrev pub sum_of : (ℕ → ℕ) → List ℕ → ℕ
sum_of f [] = 0
sum_of f (x ∷ xs) = f x + sum_of f xs

abbrev pub flag : Bool → ℕ
flag true = 1
flag false = 0

pub sum_of-append : (f : ℕ → ℕ) (xs : List ℕ) (i : ℕ) → sum_of f (xs ++ i ∷ []) ≡ sum_of f xs + f i
sum_of-append f [] i = omega arith
sum_of-append f (x ∷ xs) i = omega (arith, sum_of-append f xs i)

pub sum_of-remove_index :
    (f : ℕ → ℕ) (i : ℕ) (xs : List ℕ)
    → contains i xs ≡ true
    → sum_of f (remove_index i xs) + f i ≡ sum_of f xs
sum_of-remove_index f i [] h = absurd (ground arith)
sum_of-remove_index f i (x ∷ xs) h = ground (arith, sum_of-remove_index f i xs)

pub length-remove_index :
    (i : ℕ) (xs : List ℕ) → contains i xs ≡ true → length (remove_index i xs) + 1 ≡ length xs
length-remove_index i [] h = absurd (ground arith)
length-remove_index i (x ∷ xs) h = ground (arith, length-remove_index i xs)

pub contains-append :
    (i k : ℕ) (xs : List ℕ) → contains k (xs ++ i ∷ []) ≡ (contains k xs || i == k)
contains-append i k [] = ground arith
contains-append i k (x ∷ xs) = ground (arith, contains-append i k xs)

pub sum_of-positive : (f : ℕ → ℕ) (i : ℕ) (xs : List ℕ) → contains i xs ≡ true → f i ≤ sum_of f xs
sum_of-positive f i [] h = absurd (ground arith)
sum_of-positive f i (x ∷ xs) h = ground (arith, sum_of-positive f i xs)

-- How often `k` is in a list.
abbrev pub times : ℕ → List ℕ → ℕ
times k = sum_of (λ i. flag (i == k))

pub contains-times : (k : ℕ) (xs : List ℕ) → 1 ≤ times k xs → contains k xs ≡ true
contains-times k [] h = absurd (omega arith)
contains-times k (x ∷ xs) h = ground (arith, contains-times k xs)
