-- ===== src/Dispatch/Pieces.antt =====
-- Lists that are exchanged in pieces: a list cut by sizes, and pieces joined in the order of ranks.
use tiny_dsv.Base.{
  ℕ, zero, suc, ◌+◌, ◌≤◌, ◌<◌, ◌≡◌, refl, ap, ◌∙◌, List, [], ◌∷◌, ◌++◌, map, length, length-append,
  arith,
}
use tiny_dsv.Base.Slices.{take, drop, length-take, length-drop, take-drop}

abbrev pub sum : List ℕ → ℕ
sum [] = 0
sum (n ∷ ns) = n + sum ns

-- The size of a piece, 0 out of range.
abbrev pub nth : ℕ → List ℕ → ℕ
nth i [] = 0
nth zero (n ∷ ns) = n
nth (suc i) (n ∷ ns) = nth i ns

module _ {ℓ} {A : Type ℓ} where
  abbrev pub tabulate : (count start : ℕ) → (ℕ → A) → List A
  tabulate zero start f = []
  tabulate (suc count) start f = f start ∷ tabulate count (suc start) f

  pub length-tabulate : (n s : ℕ) (f : ℕ → A) → length (tabulate n s f) ≡ n
  length-tabulate zero s f = refl
  length-tabulate (suc n) s f = ap suc (length-tabulate n (suc s) f)

  pub tabulate-ext :
      (n s : ℕ) (f g : ℕ → A) → ((i : ℕ) → s ≤ i → f i ≡ g i) → tabulate n s f ≡ tabulate n s g
  tabulate-ext zero s f g h = refl
  tabulate-ext (suc n) s f g h =
      ap (λ x. x ∷ tabulate n (suc s) f) (h s (omega arith))
      ∙ ap (λ l. g s ∷ l) (tabulate-ext n (suc s) f g (λ i le. h i (omega arith)))

  pub tabulate-ext_below :
      (n s b : ℕ) (f g : ℕ → A)
      → s + n ≤ b
      → ((i : ℕ) → i < b → f i ≡ g i)
      → tabulate n s f ≡ tabulate n s g
  tabulate-ext_below zero s b f g le h = refl
  tabulate-ext_below (suc n) s b f g le h =
      ap (λ x. x ∷ tabulate n (suc s) f) (h s (omega (arith, le)))
      ∙ ap (λ l. g s ∷ l) (tabulate-ext_below n (suc s) b f g (omega (arith, le)) h)

  -- The pieces of all ranks, joined.
  abbrev pub collect : (count start : ℕ) → (ℕ → List A) → List A
  collect zero start f = []
  collect (suc count) start f = f start ++ collect count (suc start) f

  -- The piece of one rank.
  abbrev pub piece : ℕ → List ℕ → List A → List A
  piece i [] xs = []
  piece zero (n ∷ ns) xs = take n xs
  piece (suc i) (n ∷ ns) xs = piece i ns (drop n xs)

module _ {ℓ} {A : Type ℓ} where
  pub take-append : (xs ys : List A) → take (length xs) (xs ++ ys) ≡ xs
  take-append [] ys = refl
  take-append (x ∷ xs) ys = ap (λ l. x ∷ l) (take-append xs ys)

  pub drop-append : (xs ys : List A) → drop (length xs) (xs ++ ys) ≡ ys
  drop-append [] ys = refl
  drop-append (x ∷ xs) ys = drop-append xs ys

  -- Pieces that were joined are cut apart again.
  pub piece-collect :
      (n s i : ℕ) (f : ℕ → List A)
      → i < n
      → piece i (tabulate n s (λ j. length (f j))) (collect n s f) ≡ f (s + i)
  piece-collect zero s i f h = absurd (omega (arith, h))
  piece-collect (suc n) s zero f h =
      take-append (f s) (collect n (suc s) f) ∙ ap f (let e : s ≡ s + 0 = omega arith in e)
  piece-collect (suc n) s (suc i) f h =
      ap (λ l. piece i (tabulate n (suc s) (λ j. length (f j))) l)
        (drop-append (f s) (collect n (suc s) f))
      ∙ piece-collect n (suc s) i f (omega (arith, h))
      ∙ ap f (let e : suc s + i ≡ s + suc i = omega arith in e)

  -- Pieces that were cut apart are joined again.
  pub collect-piece :
      (ns : List ℕ) (s : ℕ) (f : ℕ → List A) (xs : List A)
      → ((i : ℕ) → f (s + i) ≡ piece i ns xs)
      → sum ns ≡ length xs
      → collect (length ns) s f ≡ xs
  collect-piece [] s f [] h e = refl
  collect-piece [] s f (x ∷ xs) h e = absurd (omega (arith, e))
  collect-piece (n ∷ ns) s f xs h e =
      ap (λ l. l ++ collect (length ns) (suc s) f)
        (ap f (let same : s ≡ s + 0 = omega arith in same) ∙ h 0)
      ∙ ap (λ l. take n xs ++ l)
          (collect-piece ns (suc s) f (drop n xs)
            (λ i. ap f (let same : suc s + i ≡ s + suc i = omega arith in same) ∙ h (suc i))
            (omega (arith, e, length-drop n xs)))
      ∙ take-drop n xs

  pub collect-ext :
      (n s b : ℕ) (f g : ℕ → List A)
      → s + n ≤ b
      → ((i : ℕ) → i < b → f i ≡ g i)
      → collect n s f ≡ collect n s g
  collect-ext zero s b f g le h = refl
  collect-ext (suc n) s b f g le h =
      ap (λ l. l ++ collect n (suc s) f) (h s (omega (arith, le)))
      ∙ ap (λ l. g s ++ l) (collect-ext n (suc s) b f g (omega (arith, le)) h)

  -- The sizes of the pieces together are the size of the whole.
  pub sum-collect :
      (n s : ℕ) (f : ℕ → List A) → sum (tabulate n s (λ i. length (f i))) ≡ length (collect n s f)
  sum-collect zero s f = refl
  sum-collect (suc n) s f =
      omega (arith, sum-collect n (suc s) f, length-append (f s) (collect n (suc s) f))

  pub length-piece :
      (i : ℕ) (ns : List ℕ) (xs : List A) → sum ns ≡ length xs → length (piece i ns xs) ≡ nth i ns
  length-piece i [] xs h = refl
  length-piece zero (n ∷ ns) xs h = omega (arith, h, length-take n xs)
  length-piece (suc i) (n ∷ ns) xs h =
      length-piece i ns (drop n xs) (omega (arith, h, length-drop n xs))

pub tabulate-nth :
    (ns : List ℕ) (s : ℕ) (f : ℕ → ℕ)
    → ((i : ℕ) → f (s + i) ≡ nth i ns)
    → tabulate (length ns) s f ≡ ns
tabulate-nth [] s f h = refl
tabulate-nth (n ∷ ns) s f h =
    ap (λ x. x ∷ tabulate (length ns) (suc s) f)
      (ap f (let same : s ≡ s + 0 = omega arith in same) ∙ h 0)
    ∙ ap (λ l. n ∷ l)
        (tabulate-nth ns (suc s) f
          (λ i. ap f (let same : suc s + i ≡ s + suc i = omega arith in same) ∙ h (suc i)))

module _ {ℓ κ} {A : Type ℓ} {B : Type κ} (g : A → B) where
  pub length-map : (xs : List A) → length (map g xs) ≡ length xs
  length-map [] = refl
  length-map (x ∷ xs) = ap suc (length-map xs)

  pub map-append : (xs ys : List A) → map g (xs ++ ys) ≡ map g xs ++ map g ys
  map-append [] ys = refl
  map-append (x ∷ xs) ys = ap (λ l. g x ∷ l) (map-append xs ys)

  pub map-collect :
      (n s : ℕ) (f : ℕ → List A) → map g (collect n s f) ≡ collect n s (λ i. map g (f i))
  map-collect zero s f = refl
  map-collect (suc n) s f =
      map-append (f s) (collect n (suc s) f) ∙ ap (λ l. map g (f s) ++ l) (map-collect n (suc s) f)

  map-take : (n : ℕ) (xs : List A) → map g (take n xs) ≡ take n (map g xs)
  map-take zero xs = refl
  map-take (suc n) [] = refl
  map-take (suc n) (x ∷ xs) = ap (λ l. g x ∷ l) (map-take n xs)

  map-drop : (n : ℕ) (xs : List A) → map g (drop n xs) ≡ drop n (map g xs)
  map-drop zero xs = refl
  map-drop (suc n) [] = refl
  map-drop (suc n) (x ∷ xs) = map-drop n xs

  pub map-piece :
      (i : ℕ) (ns : List ℕ) (xs : List A) → map g (piece i ns xs) ≡ piece i ns (map g xs)
  map-piece i [] xs = refl
  map-piece zero (n ∷ ns) xs = map-take n xs
  map-piece (suc i) (n ∷ ns) xs =
      map-piece i ns (drop n xs) ∙ ap (λ l. piece i ns l) (map-drop n xs)
