-- ===== src/Budget/Sublists.antt =====
-- Subsequences of lists of numbers.
use tiny_dsv.Base.{ℕ, List, [], ◌∷◌, ◌++◌}

-- `Sublist xs ys`: what is left of `ys` when some of its members are removed is `xs`.
pub data Sublist : List ℕ → List ℕ → Type 0 where
  done : Sublist [] []
  skip : {xs ys : List ℕ} {y : ℕ} → Sublist xs ys → Sublist xs (y ∷ ys)
  keep : {xs ys : List ℕ} {y : ℕ} → Sublist xs ys → Sublist (y ∷ xs) (y ∷ ys)

pub Sublist-refl : (xs : List ℕ) → Sublist xs xs
Sublist-refl [] = Sublist.done
Sublist-refl (x ∷ xs) = Sublist.keep (Sublist-refl xs)

pub Sublist-trans : {xs ys zs : List ℕ} → Sublist xs ys → Sublist ys zs → Sublist xs zs
Sublist-trans s Sublist.done = s
Sublist-trans s (Sublist.skip t) = Sublist.skip (Sublist-trans s t)
Sublist-trans (Sublist.skip s) (Sublist.keep t) = Sublist.skip (Sublist-trans s t)
Sublist-trans (Sublist.keep s) (Sublist.keep t) = Sublist.keep (Sublist-trans s t)

pub Sublist-append :
    {xs ys us vs : List ℕ} → Sublist xs ys → Sublist us vs → Sublist (xs ++ us) (ys ++ vs)
Sublist-append Sublist.done t = t
Sublist-append (Sublist.skip s) t = Sublist.skip (Sublist-append s t)
Sublist-append (Sublist.keep s) t = Sublist.keep (Sublist-append s t)

pub Sublist-prefix : (xs ys : List ℕ) → Sublist xs (xs ++ ys)
Sublist-prefix [] [] = Sublist.done
Sublist-prefix [] (y ∷ ys) = Sublist.skip (Sublist-prefix [] ys)
Sublist-prefix (x ∷ xs) ys = Sublist.keep (Sublist-prefix xs ys)
