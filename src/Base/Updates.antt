-- ===== src/Base/Updates.antt =====
-- What a lookup in an updated dictionary says of the old one, and how an update changes the length.
use Prim.Native.Nat.{ℕ, ◌+◌, ◌≤◌}
use mathlib.Core.Path.{refl, ◌≡◌}
use mathlib.Core.Logic.{◌≢◌, ◌⊎◌, inl, inr}
use tiny_dsv.Base.Tests.{◌==◌, ==_iff, Bool-cases}
use mathlib.Core.List.{[], ◌∷◌, ◌++◌}
use mathlib.Core.Bool.{true, false}
use mathlib.Core.Option.{none, some}
use native.Mathlib.Omega.{arith}
use tiny_dsv.Base.Lists.{length, contains, discard}
use tiny_dsv.Base.Dict.{
  Dict, keys, lookup, insert, erase, move_to_end, total, Distinct, lookup-insert, lookup-erase,
  erase_absent, lookup-append, erase-Distinct, append-Distinct, total-erase, total-append,
}

module _ {ℓ} {V : Type ℓ} where
  pub insert_cases :
      (k j : ℕ) (v w : V) (m : Dict V)
      → lookup j (insert k v m) ≡ some w
      → ((k ≡ j) × (v ≡ w)) ⊎ ((k ≢ j) × (lookup j m ≡ some w))
  insert_cases k j v w m h = elim (Bool-cases (k == j)) [
    | inl e ↦ inl ((==_iff k j).0 e, ground (arith, lookup-insert k j v m))
    | inr e ↦
        inr (λ p. absurd (ground (arith, (==_iff k j).1 p)), ground (arith, lookup-insert k j v m))
  ]

  pub erase_cases :
      (k j : ℕ) (w : V) (m : Dict V)
      → lookup j (erase k m) ≡ some w
      → (k ≢ j) × (lookup j m ≡ some w)
  erase_cases k j w m h = ground (arith, lookup-erase k j m)

  pub lookup-insert_self : (k : ℕ) (v : V) (m : Dict V) → lookup k (insert k v m) ≡ some v
  lookup-insert_self k v m = ground (arith, lookup-insert k k v m)

  pub lookup-insert_ne :
      (k j : ℕ) (v : V) (m : Dict V) → k ≢ j → lookup j (insert k v m) ≡ lookup j m
  lookup-insert_ne k j v m h = ground (arith, lookup-insert k j v m)

  -- An assignment of the value that is there changes nothing.
  pub insert_same : (k : ℕ) (v : V) (m : Dict V) → lookup k m ≡ some v → insert k v m ≡ m
  insert_same k v [] h = absurd (ground arith)
  insert_same k v ((j, w) ∷ m) h = ground (arith, insert_same k v m)

  -- An assignment removes no key.
  pub lookup-insert-some :
      (k j : ℕ) (v w : V) (m : Dict V)
      → lookup j m ≡ some w
      → (u : V) × (lookup j (insert k v m) ≡ some u)
  lookup-insert-some k j v w m h = elim (Bool-cases (k == j)) [
    | inl e ↦ (v, ground (arith, lookup-insert k j v m))
    | inr e ↦ (w, ground (arith, lookup-insert k j v m))
  ]

  pub lookup-erase_ne : (k j : ℕ) (m : Dict V) → k ≢ j → lookup j (erase k m) ≡ lookup j m
  lookup-erase_ne k j m h = ground (arith, lookup-erase k j m)

  pub lookup-erase_self : (k : ℕ) (m : Dict V) → lookup k (erase k m) ≡ none
  lookup-erase_self k m = ground (arith, lookup-erase k k m)

  pub length-erase :
      (k : ℕ) (v : V) (m : Dict V)
      → Distinct m
      → lookup k m ≡ some v
      → length (erase k m) + 1 ≡ length m
  length-erase k v [] d h = ground arith
  length-erase k v ((j, w) ∷ m) d h = ground (arith, length-erase k v m d.1, erase_absent k m)

  pub length-insert_old :
      (k : ℕ) (v w : V) (m : Dict V) → lookup k m ≡ some w → length (insert k v m) ≡ length m
  length-insert_old k v w [] h = ground arith
  length-insert_old k v w ((j, u) ∷ m) h = ground (arith, length-insert_old k v w m)

  pub length-insert_new :
      (k : ℕ) (v : V) (m : Dict V) → lookup k m ≡ none → length (insert k v m) ≡ length m + 1
  length-insert_new k v [] h = omega arith
  length-insert_new k v ((j, u) ∷ m) h = ground (arith, length-insert_new k v m)

  length-snoc : (k : ℕ) (v : V) (m : Dict V) → length (m ++ (k, v) ∷ []) ≡ length m + 1
  length-snoc k v [] = omega arith
  length-snoc k v ((j, u) ∷ m) = omega (arith, length-snoc k v m)

  move_to_end-some :
      (k : ℕ) (v : V) (m : Dict V)
      → lookup k m ≡ some v
      → move_to_end k m ≡ erase k m ++ (k, v) ∷ []
  move_to_end-some k v m e = ground arith

  -- Moving a key to the end changes the order alone.
  module _ (k : ℕ) (v : V) (m : Dict V) (found : lookup k m ≡ some v) where
    pub lookup-move_to_end : (j : ℕ) → lookup j (move_to_end k m) ≡ lookup j m
    lookup-move_to_end j =
        rw (move_to_end-some k v m found)
          (ground (arith, lookup-append k j v (erase k m), lookup-erase k k m, lookup-erase k j m))

    module _ (d : Distinct m) where
      pub move_to_end-Distinct : Distinct (move_to_end k m)
      move_to_end-Distinct =
          rw (move_to_end-some k v m found)
            (append-Distinct k v (erase k m) (lookup-erase_self k m) (erase-Distinct k m d))

      pub total-move_to_end : (f : V → ℕ) → total f (move_to_end k m) ≡ total f m
      total-move_to_end f =
          rw (move_to_end-some k v m found)
            (omega (arith, total-append f k v (erase k m), total-erase f k v m d found))

      pub length-move_to_end : length (move_to_end k m) ≡ length m
      length-move_to_end =
          rw (move_to_end-some k v m found)
            (omega (arith, length-snoc k v (erase k m), length-erase k v m d found))

  pub keys-insert_old :
      (k : ℕ) (v w : V) (m : Dict V) → lookup k m ≡ some w → keys (insert k v m) ≡ keys m
  keys-insert_old k v w [] h = absurd (ground arith)
  keys-insert_old k v w ((j, u) ∷ m) h = ground (arith, keys-insert_old k v w m)

  pub keys-insert_new :
      (k : ℕ) (v : V) (m : Dict V) → lookup k m ≡ none → keys (insert k v m) ≡ keys m ++ k ∷ []
  keys-insert_new k v [] h = refl
  keys-insert_new k v ((j, u) ∷ m) h = ground (arith, keys-insert_new k v m)

  pub keys-erase : (k : ℕ) (m : Dict V) → keys (erase k m) ≡ discard k (keys m)
  keys-erase k [] = refl
  keys-erase k ((j, u) ∷ m) = ground (arith, keys-erase k m)

  pub lookup_of_missing : (k : ℕ) (m : Dict V) → contains k (keys m) ≡ false → lookup k m ≡ none
  lookup_of_missing k [] h = refl
  lookup_of_missing k ((j, u) ∷ m) h = ground (arith, lookup_of_missing k m)

  pub lookup_of_present :
      (k : ℕ) (m : Dict V) → contains k (keys m) ≡ true → (v : V) × (lookup k m ≡ some v)
  lookup_of_present k [] h = absurd (ground arith)
  lookup_of_present k ((j, u) ∷ m) h = elim (Bool-cases (j == k)) [
    | inl e ↦ (u, rw e)
    | inr e ↦ rw e (lookup_of_present k m (ground arith))
  ]

  pub contains_of_lookup :
      (k : ℕ) (v : V) (m : Dict V) → lookup k m ≡ some v → contains k (keys m) ≡ true
  contains_of_lookup k v [] h = absurd (ground arith)
  contains_of_lookup k v ((j, u) ∷ m) h = ground (arith, contains_of_lookup k v m)

  -- An assignment adds one item at most.
  pub length-insert_le : (k : ℕ) (v : V) (m : Dict V) → length (insert k v m) ≤ length m + 1
  length-insert_le k v [] = omega arith
  length-insert_le k v ((j, w) ∷ m) = ground (arith, length-insert_le k v m)

  pub total-insert_le :
      (f : V → ℕ) (k : ℕ) (v : V) (m : Dict V) → total f (insert k v m) ≤ total f m + f v
  total-insert_le f k v [] = omega arith
  total-insert_le f k v ((j, w) ∷ m) = ground (arith, total-insert_le f k v m)
