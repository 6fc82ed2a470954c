-- ===== src/Base/Slices.antt =====
-- Prefixes and suffixes of lists, and a list as the sequence of its slices of one size.
use Prim.Native.Nat.{ℕ, zero, suc, ◌+◌, ◌-◌, ◌*◌, ◌/◌, ◌≤◌, ◌<◌, min}
use mathlib.Core.Path.{◌≡◌, refl, ap, sym, ◌∙◌}
use mathlib.Core.List.{List, [], ◌∷◌, ◌++◌}
use native.Mathlib.Omega.{arith}
use native.Mathlib.Nat.{div-add-mod, div-add-mod', mod-lt, mul-le-mul_right, suc-mul}
use tiny_dsv.Base.Lists.{length}

module _ {ℓ} {A : Type ℓ} where
  abbrev pub take : ℕ → List A → List A
  take zero xs = []
  take (suc n) [] = []
  take (suc n) (x ∷ xs) = x ∷ take n xs

  abbrev pub drop : ℕ → List A → List A
  drop zero xs = xs
  drop (suc n) [] = []
  drop (suc n) (x ∷ xs) = drop n xs

  pub length-take : (n : ℕ) (xs : List A) → length (take n xs) ≡ min n (length xs)
  length-take zero xs = omega arith
  length-take (suc n) [] = omega arith
  length-take (suc n) (x ∷ xs) = omega (arith, length-take n xs)

  pub length-drop : (n : ℕ) (xs : List A) → length (drop n xs) ≡ length xs - n
  length-drop zero xs = omega arith
  length-drop (suc n) [] = omega arith
  length-drop (suc n) (x ∷ xs) = omega (arith, length-drop n xs)

  drop_empty : (n : ℕ) → (let xs : List A = [] in drop n xs ≡ xs)
  drop_empty zero = refl
  drop_empty (suc n) = refl

  pub drop-drop : (m n : ℕ) (xs : List A) → drop m (drop n xs) ≡ drop (n + m) xs
  drop-drop m zero xs = ap (λ k. drop k xs) (let e : m ≡ 0 + m = omega arith in e)
  drop-drop m (suc n) [] = drop_empty m ∙ sym (drop_empty (suc n + m))
  drop-drop m (suc n) (x ∷ xs) =
      drop-drop m n xs
      ∙ ap (λ k. drop k (x ∷ xs)) (let e : suc (n + m) ≡ suc n + m = omega arith in e)

  pub take-drop : (n : ℕ) (xs : List A) → take n xs ++ drop n xs ≡ xs
  take-drop zero xs = refl
  take-drop (suc n) [] = refl
  take-drop (suc n) (x ∷ xs) = ap (λ ys. x ∷ ys) (take-drop n xs)

  pub drop_all : (n : ℕ) (xs : List A) → length xs ≤ n → drop n xs ≡ []
  drop_all zero [] h = refl
  drop_all zero (x ∷ xs) h = absurd (omega (arith, h))
  drop_all (suc n) [] h = refl
  drop_all (suc n) (x ∷ xs) h = drop_all n xs (omega (arith, h))

-- The number of slices of `size` that hold `count` elements.
abbrev pub ceil : (count size : ℕ) → ℕ
ceil count size = (count + size - 1) / size

module _ (count size : ℕ) (pos : 0 < size) where
  pub ceil-enough : count ≤ ceil count size * size
  ceil-enough = omega (arith, div-add-mod (count + size - 1) size, mod-lt (count + size - 1) pos)

  pub ceil-lt : (i : ℕ) → i < ceil count size → 0 < count → i * size < count
  ceil-lt i h c =
      omega (arith, div-add-mod' (count + size - 1) size, mul-le-mul_right size h, suc-mul i size)
