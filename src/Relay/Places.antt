-- ===== src/Relay/Places.antt =====
-- Which requests hold a place of a GPU relay (RelayState.admit_generation), and how many.
use tiny_dsv.Base.{
  ℕ, suc, ◌≤◌, ◌≡◌, refl, ap, sym, ◌∙◌, subst, Bool, true, false, ◌||◌, Option, none, some, List,
  [], ◌∷◌, length, contains, ◌==◌, ==_iff, arith, Bool-cases, inl, inr, if◌then◌else◌,
}
use tiny_dsv.Base.Dict.{Dict, lookup, keys, Distinct}
use tiny_dsv.Base.Sets.{union, Unique, contains-union, union-Unique, length-subset}
use tiny_dsv.Relay.State.{Row, Result, is_occupying, occupied}

abbrev pub is_some : {A : Type 0} → Option A → Bool
is_some none = false
is_some (some a) = true

abbrev pub holds : Option Row → Bool
holds none = false
holds (some row) = is_occupying row.status

contains-keys : {V : Type 0} (k : ℕ) (m : Dict V) → contains k (keys m) ≡ is_some (lookup k m)
contains-keys k [] = refl
contains-keys k ((j, v) ∷ m) = ground (arith, contains-keys k m)

keys-Unique : {V : Type 0} (m : Dict V) → Distinct m → Unique (keys m)
keys-Unique [] d = tt
keys-Unique ((k, v) ∷ m) d = (ground (arith, contains-keys k m, d.0), keys-Unique m d.1)

contains-occupied :
    (k : ℕ) (m : Dict Row) → Distinct m → contains k (occupied m) ≡ holds (lookup k m)
contains-occupied k [] d = refl
contains-occupied k ((j, row) ∷ m) d = go (is_occupying row.status) refl (contains-occupied k m d.1)
  where
    go :
        (b : Bool)
        → is_occupying row.status ≡ b
        → contains k (occupied m) ≡ holds (lookup k m)
        → contains k (let rest : List ℕ = occupied m in if b then j ∷ rest else rest)
          ≡ holds (if j == k then some row else lookup k m)
    go true e ih = elim (Bool-cases (j == k)) [ inl c ↦ rw c (sym e) | inr c ↦ rw c ih ]
    go false e ih = elim (Bool-cases (j == k)) [
      | inl c ↦ rw c (ih ∙ ap holds (subst (λ i. lookup i m ≡ none) ((==_iff j k).0 c) d.0) ∙ sym e)
      | inr c ↦ rw c ih
    ]

module _ {R : Type 0} where
  -- A request holds a place by its record or by its completion.
  abbrev pub has_place : ℕ → Dict Row → Dict (Option (Result R)) → Bool
  has_place k rows completions = holds (lookup k rows) || is_some (lookup k completions)

  abbrev pub places : Dict Row → Dict (Option (Result R)) → List ℕ
  places rows completions = union (occupied rows) (keys completions)

  contains-places :
      (k : ℕ) (rows : Dict Row) (c : Dict (Option (Result R)))
      → Distinct rows
      → contains k (places rows c) ≡ has_place k rows c
  contains-places k rows c d =
      rw (contains-union k (occupied rows) (keys c), contains-occupied k rows d, contains-keys k c)
        refl

  module _ (rows rows' : Dict Row) (c c' : Dict (Option (Result R))) (d : Distinct rows)
      (d' : Distinct rows') (u : Distinct c') where
    pub places-subset :
        ((k : ℕ) → has_place k rows' c' ≡ true → has_place k rows c ≡ true)
        → length (places rows' c') ≤ length (places rows c)
    places-subset h =
        length-subset (places rows' c') (places rows c)
          (union-Unique (occupied rows') (keys c') (keys-Unique c' u))
          (λ k e. contains-places k rows c d ∙ h k (sym (contains-places k rows' c' d') ∙ e))

    pub places-add :
        (id : ℕ)
        → ((k : ℕ) → has_place k rows' c' ≡ true → (id == k || has_place k rows c) ≡ true)
        → length (places rows' c') ≤ suc (length (places rows c))
    places-add id h =
        length-subset (places rows' c') (id ∷ places rows c)
          (union-Unique (occupied rows') (keys c') (keys-Unique c' u))
          (λ k e.
            ap (λ b. id == k || b) (contains-places k rows c d)
            ∙ h k (sym (contains-places k rows' c' d') ∙ e))
