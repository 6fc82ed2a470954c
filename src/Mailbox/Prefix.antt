-- ===== src/Mailbox/Prefix.antt =====
-- A commit names a delivered prefix of the retained groups.
use tiny_dsv.Base.{
  ℕ, zero, suc, ◌+◌, ◌≤◌, ◌≡◌, refl, ap, sym, ◌∙◌, true, List, [], ◌∷◌, arith, all, length,
  range_from, min, subst, ltb,
}
use tiny_dsv.Base.Dict.{Dict, erase}
use tiny_dsv.Base.{length-range_from}
use tiny_dsv.Mailbox.State.{Row, list_eq}
use tiny_dsv.Mailbox.Commands.{is_delivered, erase_all, take, last_or, committed_after}
use tiny_dsv.Mailbox.Shape.{Shape, erase-Shape, row_at, take-range_from}

pub list_eq-eq : (xs ys : List ℕ) → list_eq xs ys ≡ true → xs ≡ ys
list_eq-eq [] [] h = refl
list_eq-eq [] (y ∷ ys) h = absurd (ground arith)
list_eq-eq (x ∷ xs) [] h = absurd (ground arith)
list_eq-eq (x ∷ xs) (y ∷ ys) h = ground (arith, list_eq-eq xs ys)

pub list_eq_refl : (xs : List ℕ) → list_eq xs xs ≡ true
list_eq_refl [] = refl
list_eq_refl (x ∷ xs) = ground (arith, list_eq_refl xs)

-- A prefix of an interval is an interval.
pub prefix_interval :
    (ids : List ℕ) (s n : ℕ)
    → ids ≡ take (length ids) (range_from s n)
    → (ids ≡ range_from s (length ids)) × (length ids ≤ n)
prefix_interval ids s n h =
    let e : ids ≡ range_from s (min (length ids) n) = h ∙ take-range_from (length ids) s n in
    let l : length ids ≡ min (length ids) n =
      ap length e ∙ length-range_from s (min (length ids) n) in
    (e ∙ ap (range_from s) (sym l), omega arith)

last_or-range_from : (d s n : ℕ) → d + 1 ≡ s → last_or d (range_from s n) + 1 ≡ s + n
last_or-range_from d s zero h = omega arith
last_or-range_from d s (suc n) h = omega (arith, last_or-range_from s (suc s) n (omega arith))

pub committed_after-range_from : (s n : ℕ) → committed_after (range_from s n) s ≡ s + n
committed_after-range_from s zero = omega arith
committed_after-range_from s (suc n) = omega (arith, last_or-range_from s (suc s) n (omega arith))

module _ {A : Type 0} (group_of : A → ℕ) where
  -- A delivered prefix ends at the cursor at the latest.
  pub delivered_prefix :
      (r : Dict (Row A)) (first count cursor j : ℕ)
      → Shape group_of r first count cursor
      → first ≤ cursor
      → j ≤ count
      → all (is_delivered r) (range_from first j) ≡ true
      → first + j ≤ cursor
  delivered_prefix r first count cursor j v low fits h =
      go j first (omega arith) (omega arith) low h
    where
      go :
          (i s : ℕ)
          → first ≤ s
          → s + i ≤ first + count
          → s ≤ cursor
          → all (is_delivered r) (range_from s i) ≡ true
          → s + i ≤ cursor
      go zero s a b c d = omega arith
      go (suc i) s a b c d =
          let (row, here) = row_at group_of v s a (omega arith) in
          let seen : ltb s cursor ≡ true = ground (arith, v.delivered s row here) in
          omega (arith, go i (suc s) (omega arith) (omega arith) (ground arith) (ground arith))

  pub Shape-subst :
      (r : Dict (Row A)) {a b a' b' c : ℕ}
      → Shape group_of r a b c
      → a ≡ a'
      → b ≡ b'
      → Shape group_of r a' b' c
  Shape-subst r {a} {b} {a'} {b'} {c} v x y =
      subst (λ z. Shape group_of r a' z c) y (subst (λ z. Shape group_of r z b c) x v)

  pub erase_all-Shape :
      (r : Dict (Row A)) (first cursor j n : ℕ)
      → Shape group_of r first (j + n) cursor
      → Shape group_of (erase_all (range_from first j) r) (first + j) n cursor
  erase_all-Shape r first cursor zero n v = Shape-subst r v (omega arith) (omega arith)
  erase_all-Shape r first cursor (suc j) n v =
      Shape-subst _
        (erase_all-Shape (erase first r) (suc first) cursor j n
          (erase-Shape group_of v (j + n) (omega arith)))
        (omega arith) refl
