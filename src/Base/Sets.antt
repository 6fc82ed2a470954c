-- ===== src/Base/Sets.antt =====
-- Sets of numbers as lists without repetition: their union, and the size of a subset.
use Prim.Native.Nat.{ℕ, ◌+◌, ◌≤◌}
use mathlib.Core.Path.{◌≡◌}
use mathlib.Core.Bool.{true, false, ◌||◌}
use mathlib.Core.Logic.{inl, inr}
use mathlib.Core.List.{List, [], ◌∷◌}
use native.Mathlib.Omega.{arith}
use tiny_dsv.Base.Tests.{==_refl, Bool-cases}
use tiny_dsv.Base.Lists.{length, contains, add, discard, contains-add, contains-discard}

abbrev pub union : List ℕ → List ℕ → List ℕ
union [] ys = ys
union (x ∷ xs) ys = add x (union xs ys)

-- No number occurs twice.
abbrev pub Unique : List ℕ → Type 0
Unique [] = Unit
Unique (x ∷ xs) = (contains x xs ≡ false) × Unique xs

pub contains-union :
    (k : ℕ) (xs ys : List ℕ) → contains k (union xs ys) ≡ (contains k xs || contains k ys)
contains-union k [] ys = ground arith
contains-union k (x ∷ xs) ys =
    ground (arith, contains-add x k (union xs ys), contains-union k xs ys)

pub add-Unique : (a : ℕ) (xs : List ℕ) → Unique xs → Unique (add a xs)
add-Unique a xs u = elim (Bool-cases (contains a xs)) [ inl e ↦ rw e u | inr e ↦ rw e (e, u) ]

pub union-Unique : (xs ys : List ℕ) → Unique ys → Unique (union xs ys)
union-Unique [] ys u = u
union-Unique (x ∷ xs) ys u = add-Unique x (union xs ys) (union-Unique xs ys u)

length-discard_le : (a : ℕ) (xs : List ℕ) → length (discard a xs) ≤ length xs
length-discard_le a [] = omega arith
length-discard_le a (x ∷ xs) = ground (arith, length-discard_le a xs)

length-discard_lt :
    (a : ℕ) (xs : List ℕ) → contains a xs ≡ true → length (discard a xs) + 1 ≤ length xs
length-discard_lt a [] h = absurd (ground arith)
length-discard_lt a (x ∷ xs) h = ground (arith, length-discard_lt a xs, length-discard_le a xs)

-- A subset is not larger.
pub length-subset :
    (xs ys : List ℕ)
    → Unique xs
    → ((k : ℕ) → contains k xs ≡ true → contains k ys ≡ true)
    → length xs ≤ length ys
length-subset [] ys u h = omega arith
length-subset (x ∷ xs) ys u h = omega (
  arith,
  length-subset xs (discard x ys) u.1 (λ k c. ground (arith, contains-discard x k ys, h k, u.0)),
  length-discard_lt x ys (h x (ground (arith, ==_refl x))),
)
