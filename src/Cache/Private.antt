-- ===== src/Cache/Private.antt =====
-- The bytes that a consumer's leases pin, under changes of the entries and of the leases.
use mathlib.Core.Option
use tiny_dsv.Base.{
  ℕ, ◌+◌, ◌≤◌, ◌≡◌, refl, Option, none, some, [], ◌∷◌, arith, ◌==◌, ==_refl, Option-cases,
  Bool-cases, inl, inr,
}
use tiny_dsv.Base.Dict.{Dict, lookup, insert, erase, Distinct}
use tiny_dsv.Cache.State.{Entry}
use tiny_dsv.Cache.Acquire.{private}

abbrev pub bytes_at : Dict Entry → ℕ → Option ℕ
bytes_at entries k = Option.map (λ (e : Entry). e.bytes) (lookup k entries)

private-cons :
    (es fs : Dict Entry) (l k : ℕ) (m : Dict ℕ)
    → bytes_at es k ≡ bytes_at fs k
    → private es m ≡ private fs m
    → private es ((l, k) ∷ m) ≡ private fs ((l, k) ∷ m)
private-cons es fs l k m h ih = ground arith

-- Only the sizes of the leased entries matter.
pub private_cong :
    (es fs : Dict Entry) (leases : Dict ℕ)
    → Distinct leases
    → ((l k : ℕ) → lookup l leases ≡ some k → bytes_at es k ≡ bytes_at fs k)
    → private es leases ≡ private fs leases
private_cong es fs [] d h = refl
private_cong es fs ((l, k) ∷ m) d h =
    private-cons es fs l k m (h l k (rw (==_refl l)))
      (private_cong es fs m d.1 (λ j i e. h j i (deeper j i e)))
  where
    deeper : (j i : ℕ) → lookup j m ≡ some i → lookup j ((l, k) ∷ m) ≡ some i
    deeper j i e = ground (arith, d.0)

pub private-insert :
    (es : Dict Entry) (l k n : ℕ) (e : Entry) (leases : Dict ℕ)
    → lookup l leases ≡ none
    → lookup k es ≡ some e
    → private es leases ≡ some n
    → private es (insert l k leases) ≡ some (n + e.bytes)
private-insert es l k n e [] a h p = ground arith
private-insert es l k n e ((j, i) ∷ m) a h p = elim (Option-cases (private es m)) [
  | inl q ↦ ground arith
  | inr (x, q) ↦ ground (arith, private-insert es l k x e m)
]

pub private-erase :
    (es : Dict Entry) (l n : ℕ) (leases : Dict ℕ)
    → private es leases ≡ some n
    → (x : ℕ) × (private es (erase l leases) ≡ some x) × (x ≤ n)
private-erase es l n [] p = (n, p, omega arith)
private-erase es l n ((j, i) ∷ m) p =
    go (private es m) refl (lookup i es) refl (λ y e. private-erase es l y m e)
  where
    go :
        (q : Option ℕ)
        → private es m ≡ q
        → (o : Option Entry) → lookup i es ≡ o
        → ((y : ℕ) → private es m ≡ some y → (x : ℕ) × (private es (erase l m) ≡ some x) × (x ≤ y))
        → (x : ℕ) × (private es (erase l ((j, i) ∷ m)) ≡ some x) × (x ≤ n)
    go none e o f ih = absurd (ground arith)
    go (some y) e none f ih = absurd (ground arith)
    go (some y) e (some item) f ih =
        let (x, q, b) = ih y e in
        elim (Bool-cases (j == l)) [
          | inl g ↦ (x, ground arith, ground arith)
          | inr g ↦ (item.bytes + x, ground arith, ground arith)
        ]
