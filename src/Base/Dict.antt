-- ===== src/Base/Dict.antt =====
-- A Python dictionary with numbers for keys: an association list in insertion order.
use Prim.Native.Nat.{ℕ, ◌+◌, ◌≤◌}
use mathlib.Core.Path.{◌≡◌, refl}
use mathlib.Core.List.{List, [], ◌∷◌, ◌++◌, map}
use mathlib.Core.Option.{Option, none, some}
use native.Mathlib.Omega.{arith}
use tiny_dsv.Base.Tests.{◌==◌, if◌then◌else◌}

abbrev pub Dict {ℓ} : Type ℓ → Type ℓ
Dict V = List (ℕ × V)

module _ {ℓ} {V : Type ℓ} where
  abbrev pub lookup : ℕ → Dict V → Option V
  lookup k [] = none
  lookup k ((j, v) ∷ m) = if j == k then some v else lookup k m

  -- An assignment replaces the value in its place, or appends a new item.
  abbrev pub insert : ℕ → V → Dict V → Dict V
  insert k v [] = (k, v) ∷ []
  insert k v ((j, w) ∷ m) = if j == k then (k, v) ∷ m else (j, w) ∷ insert k v m

  abbrev pub erase : ℕ → Dict V → Dict V
  erase k [] = []
  erase k ((j, v) ∷ m) = if j == k then erase k m else (j, v) ∷ erase k m

  -- `OrderedDict.move_to_end` of a key that is present.
  abbrev pub move_to_end : ℕ → Dict V → Dict V
  move_to_end k m = elim (lookup k m) [ none ↦ m | some v ↦ erase k m ++ (k, v) ∷ [] ]

  abbrev pub keys : Dict V → List ℕ
  keys = map (λ item. item.0)

  -- The keys of a dictionary are distinct.
  abbrev pub Distinct : Dict V → Type ℓ
  Distinct [] = Unit
  Distinct ((k, v) ∷ m) = (lookup k m ≡ none) × Distinct m

  -- The sum of a measure over the values.
  abbrev pub total : (V → ℕ) → Dict V → ℕ
  total f [] = 0
  total f ((k, v) ∷ m) = f v + total f m

  pub lookup-insert :
      (k j : ℕ) (v : V) (m : Dict V)
      → lookup j (insert k v m) ≡ (if k == j then some v else lookup j m)
  lookup-insert k j v [] = refl
  lookup-insert k j v ((i, w) ∷ m) = ground (arith, lookup-insert k j v m)

  pub lookup-erase :
      (k j : ℕ) (m : Dict V) → lookup j (erase k m) ≡ (if k == j then none else lookup j m)
  lookup-erase k j [] = ground arith
  lookup-erase k j ((i, w) ∷ m) = ground (arith, lookup-erase k j m)

  pub erase_absent : (k : ℕ) (m : Dict V) → lookup k m ≡ none → erase k m ≡ m
  erase_absent k [] h = refl
  erase_absent k ((j, v) ∷ m) h = ground (arith, erase_absent k m)

  pub lookup-append :
      (k j : ℕ) (v : V) (m : Dict V)
      → lookup k m ≡ none
      → lookup j (m ++ (k, v) ∷ []) ≡ (if k == j then some v else lookup j m)
  lookup-append k j v [] h = refl
  lookup-append k j v ((i, w) ∷ m) h = ground (arith, lookup-append k j v m)

  pub erase-Distinct : (k : ℕ) (m : Dict V) → Distinct m → Distinct (erase k m)
  erase-Distinct k [] d = tt
  erase-Distinct k ((j, v) ∷ m) d = ground (arith, erase-Distinct k m d.1, lookup-erase k j m)

  pub insert-Distinct : (k : ℕ) (v : V) (m : Dict V) → Distinct m → Distinct (insert k v m)
  insert-Distinct k v [] d = (refl, tt)
  insert-Distinct k v ((j, w) ∷ m) d =
      ground (arith, insert-Distinct k v m d.1, lookup-insert k j v m)

  pub append-Distinct :
      (k : ℕ) (v : V) (m : Dict V) → lookup k m ≡ none → Distinct m → Distinct (m ++ (k, v) ∷ [])
  append-Distinct k v [] h d = (refl, tt)
  append-Distinct k v ((j, w) ∷ m) h d =
      ground (arith, append-Distinct k v m, lookup-append k j v m)

  module _ (f : V → ℕ) where
    pub total-erase :
        (k : ℕ) (v : V) (m : Dict V)
        → Distinct m
        → lookup k m ≡ some v
        → total f (erase k m) + f v ≡ total f m
    total-erase k v [] d h = ground arith
    total-erase k v ((j, w) ∷ m) d h = ground (arith, total-erase k v m d.1, erase_absent k m)

    pub total-erase-le : (k : ℕ) (m : Dict V) → total f (erase k m) ≤ total f m
    total-erase-le k [] = omega arith
    total-erase-le k ((j, w) ∷ m) = ground (arith, total-erase-le k m)

    pub total-insert_new :
        (k : ℕ) (v : V) (m : Dict V) → lookup k m ≡ none → total f (insert k v m) ≡ total f m + f v
    total-insert_new k v [] h = omega arith
    total-insert_new k v ((j, w) ∷ m) h = ground (arith, total-insert_new k v m)

    pub total-insert_old :
        (k : ℕ) (v w : V) (m : Dict V)
        → lookup k m ≡ some w
        → total f (insert k v m) + f w ≡ total f m + f v
    total-insert_old k v w [] h = ground arith
    total-insert_old k v w ((j, u) ∷ m) h = ground (arith, total-insert_old k v w m)

    pub total-append : (k : ℕ) (v : V) (m : Dict V) → total f (m ++ (k, v) ∷ []) ≡ total f m + f v
    total-append k v [] = omega arith
    total-append k v ((j, u) ∷ m) = omega (arith, total-append k v m)
