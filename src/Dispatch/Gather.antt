-- ===== src/Dispatch/Gather.antt =====
-- Rows taken by a list of indices, as in tensor[indices]; the result none is an IndexError.
use tiny_dsv.Base.{
  ℕ, zero, suc, ◌≡◌, refl, ap, sym, ◌∙◌, Option, none, some, List, [], ◌∷◌, map, length, arith,
  range_from,
}

module _ {ℓ} {A : Type ℓ} where
  abbrev pub get_elem? : List A → ℕ → Option A
  get_elem? [] i = none
  get_elem? (x ∷ xs) zero = some x
  get_elem? (x ∷ xs) (suc i) = get_elem? xs i

  abbrev pub prefixed : Option A → Option (List A) → Option (List A)
  prefixed none rest = none
  prefixed (some x) none = none
  prefixed (some x) (some xs) = some (x ∷ xs)

  abbrev pub gather : List A → List ℕ → Option (List A)
  gather xs [] = some []
  gather xs (i ∷ is) = prefixed (get_elem? xs i) (gather xs is)

module _ {ℓ} {A : Type ℓ} where
  -- A prefix that is there comes from an element and a rest.
  pub prefixed-some :
      (o : Option A) (rest : Option (List A)) (ys : List A)
      → prefixed o rest ≡ some ys
      → (x : A) × (xs : List A) × (o ≡ some x) × (rest ≡ some xs) × (ys ≡ x ∷ xs)
  prefixed-some none rest ys h = absurd (ground arith)
  prefixed-some (some x) none ys h = absurd (ground arith)
  prefixed-some (some x) (some xs) ys h = (x, xs, refl, refl, ground arith)

  gather-shift :
      (x : A) (xs : List A) (s n : ℕ)
      → gather (x ∷ xs) (range_from (suc s) n) ≡ gather xs (range_from s n)
  gather-shift x xs s zero = refl
  gather-shift x xs s (suc n) = ap (λ o. prefixed (get_elem? xs s) o) (gather-shift x xs (suc s) n)

  pub gather_all : (xs : List A) → gather xs (range_from 0 (length xs)) ≡ some xs
  gather_all [] = refl
  gather_all (x ∷ xs) =
      ap (λ o. prefixed (some x) o) (gather-shift x xs 0 (length xs) ∙ gather_all xs)

  get-gather :
      (xs : List A) (is : List ℕ) (ys : List A) (j k : ℕ)
      → gather xs is ≡ some ys
      → get_elem? is j ≡ some k
      → get_elem? ys j ≡ get_elem? xs k
  get-gather xs [] ys j k h g = absurd (ground arith)
  get-gather xs (i ∷ is) ys zero k h g =
      let (x, rest, at, others, same) = prefixed-some (get_elem? xs i) (gather xs is) ys h in
      let same_index : i ≡ k = ground arith in
      ap (λ l. get_elem? l 0) same ∙ sym at ∙ ap (λ z. get_elem? xs z) same_index
  get-gather xs (i ∷ is) ys (suc j) k h g =
      let (x, rest, at, others, same) = prefixed-some (get_elem? xs i) (gather xs is) ys h in
      ap (λ l. get_elem? l (suc j)) same ∙ get-gather xs is rest j k others g

module _ {ℓ} {A : Type ℓ} where
  -- To gather twice is to gather by the gathered indices.
  pub gather-gather :
      (xs : List A) (is : List ℕ) (ys : List A) (js ks : List ℕ)
      → gather xs is ≡ some ys
      → gather is js ≡ some ks
      → gather ys js ≡ gather xs ks
  gather-gather xs is ys [] ks h g =
      let same : ks ≡ [] = ground arith in ap (λ l. gather xs l) (sym same)
  gather-gather xs is ys (j ∷ js) ks h g =
      let (k, rest, at, others, same) = prefixed-some (get_elem? is j) (gather is js) ks g in
      ap (λ o. prefixed o (gather ys js)) (get-gather xs is ys j k h at)
      ∙ ap (λ o. prefixed (get_elem? xs k) o) (gather-gather xs is ys js rest h others)
      ∙ ap (λ l. gather xs l) (sym same)

module _ {ℓ κ} {A : Type ℓ} {B : Type κ} (f : A → B) where
  get-map :
      (xs : List A) (i : ℕ) (b : B)
      → get_elem? (map f xs) i ≡ some b
      → (a : A) × (get_elem? xs i ≡ some a) × (f a ≡ b)
  get-map [] i b h = absurd (ground arith)
  get-map (x ∷ xs) zero b h = (x, refl, ground arith)
  get-map (x ∷ xs) (suc i) b h = get-map xs i b h

  -- What can be gathered from the images can be gathered.
  pub gather-map :
      (xs : List A) (is : List ℕ) (zs : List B)
      → gather (map f xs) is ≡ some zs
      → (ys : List A) × (gather xs is ≡ some ys) × (map f ys ≡ zs)
  gather-map xs [] zs h = ([], refl, ground arith)
  gather-map xs (i ∷ is) zs h =
      let (b, rest, at, others, same) =
        prefixed-some (get_elem? (map f xs) i) (gather (map f xs) is) zs h in
      let (a, at_a, image) = get-map xs i b at in
      let (ys, all_ys, images) = gather-map xs is rest others in
      (
        a ∷ ys,
        ap (λ o. prefixed o (gather xs is)) at_a ∙ ap (λ o. prefixed (some a) o) all_ys,
        ap (λ z. z ∷ map f ys) image ∙ ap (λ l. b ∷ l) images ∙ sym same,
      )

  get-map-some :
      (xs : List A) (i : ℕ) (a : A) → get_elem? xs i ≡ some a → get_elem? (map f xs) i ≡ some (f a)
  get-map-some [] i a h = absurd (ground arith)
  get-map-some (x ∷ xs) zero a h = let same : x ≡ a = ground arith in ap (λ z. some (f z)) same
  get-map-some (x ∷ xs) (suc i) a h = get-map-some xs i a h

  pub gather-map-some :
      (xs : List A) (is : List ℕ) (ys : List A)
      → gather xs is ≡ some ys
      → gather (map f xs) is ≡ some (map f ys)
  gather-map-some xs [] ys h =
      let same : ys ≡ [] = ground arith in ap (λ l. some (map f l)) (sym same)
  gather-map-some xs (i ∷ is) ys h =
      let (a, rest, at, others, same) = prefixed-some (get_elem? xs i) (gather xs is) ys h in
      ap (λ o. prefixed o (gather (map f xs) is)) (get-map-some xs i a at)
      ∙ ap (λ o. prefixed (some (f a)) o) (gather-map-some xs is rest others)
      ∙ ap (λ l. some (map f l)) (sym same)
