-- ===== src/Mailbox/Shape.antt =====
-- The retained rows are a gapless interval of groups, delivered up to a cursor.
use tiny_dsv.Base.{
  ℕ, zero, suc, ◌+◌, ◌≤◌, ◌<◌, ◌≡◌, refl, ap, sym, ◌∙◌, true, false, ◌&&◌, ◌||◌, Option, none, some,
  List, [], ◌∷◌, ◌++◌, arith, ltb, leb, ◌==◌, All, length, contains, discard, range_from,
  Bool-cases, inl, inr, min, ◌⊎◌, subst,
}
use tiny_dsv.Base.Dict.{
  Dict, lookup, insert, erase, keys, Distinct, erase-Distinct, insert-Distinct,
}
use tiny_dsv.Base.Updates.{
  keys-insert_old, keys-insert_new, keys-erase, lookup_of_missing, lookup_of_present, length-erase,
  length-insert_old, length-insert_new, insert_cases, erase_cases,
}
use tiny_dsv.Mailbox.Sorting.{
  place, sort, sort-discard, sort-append, range_from-append, discard-range_from,
}
use tiny_dsv.Mailbox.State.{Row}
use tiny_dsv.Mailbox.Commands.{first_waiting, take}

contains-place : (k x : ℕ) (xs : List ℕ) → contains k (place x xs) ≡ (x == k || contains k xs)
unfolding place
contains-place k x [] = refl
contains-place k x (y ∷ xs) = ground (arith, contains-place k x xs)

pub contains-sort : (k : ℕ) (xs : List ℕ) → contains k (sort xs) ≡ contains k xs
unfolding sort
contains-sort k [] = refl
contains-sort k (x ∷ xs) = contains-place k x (sort xs) ∙ ap (λ z. x == k || z) (contains-sort k xs)

pub contains-range_from : (k s n : ℕ) → contains k (range_from s n) ≡ (leb s k && ltb k (s + n))
contains-range_from k s zero = ground arith
contains-range_from k s (suc n) = ground (arith, contains-range_from k (suc s) n)

All-contains :
    (k : ℕ) (xs : List ℕ) → ((z : ℕ) → contains z xs ≡ true → z ≤ k) → All (λ z. z ≤ k) xs
All-contains k [] h = tt
All-contains k (x ∷ xs) h = (h x (ground arith), All-contains k xs (λ z c. h z (ground arith)))

pub take-range_from : (i s n : ℕ) → take i (range_from s n) ≡ range_from s (min i n)
take-range_from zero s n = ground arith
take-range_from (suc i) s zero = ground arith
take-range_from (suc i) s (suc n) =
    ap (λ z. s ∷ z) (take-range_from i (suc s) n)
    ∙ ap (range_from s) (let e : suc (min i n) ≡ min (suc i) (suc n) = omega arith in e)

module _ {A : Type 0} (group_of : A → ℕ) where
  -- The rows of `count` groups from `first` on, delivered below `cursor`.
  pub record Shape (r : Dict (Row A)) (first count cursor : ℕ) : Type 0 where
    pub distinct : Distinct r
    pub sorted : sort (keys r) ≡ range_from first count
    pub size : length r ≡ count
    pub delivered : (k : ℕ) (row : Row A) → lookup k r ≡ some row → row.delivered ≡ ltb k cursor
    pub named : (k : ℕ) (row : Row A) → lookup k r ≡ some row → group_of row.packet ≡ k

  module _ {r : Dict (Row A)} {first count cursor : ℕ} (v : Shape r first count cursor) where
    has_key : (k : ℕ) → contains k (keys r) ≡ (leb first k && ltb k (first + count))
    has_key k =
        sym (contains-sort k (keys r))
        ∙ ap (contains k) v.sorted
        ∙ contains-range_from k first count

    pub row_at : (k : ℕ) → first ≤ k → k < first + count → (row : Row A) × (lookup k r ≡ some row)
    row_at k a b = lookup_of_present k r (has_key k ∙ ground arith)

    -- A new group goes to the end.
    pub append-Shape :
        (p : A)
        → group_of p ≡ first + count
        → cursor ≤ first + count
        → Shape
            (insert (first + count) (record { packet = p; delivered = false }) r)
            first
            (suc count)
            cursor
    append-Shape p named high = record {
      distinct = insert-Distinct k row r v.distinct;
      sorted =
          ap sort (keys-insert_new k row r absent)
          ∙ sort-append k (keys r) below
          ∙ ap (λ z. z ++ k ∷ []) v.sorted
          ∙ range_from-append first count;
      size = length-insert_new k row r absent ∙ omega (arith, v.size);
      delivered = λ j w h. elim (insert_cases k j row w r h) [
        | inl (e, y) ↦ ap (λ z. z.delivered) (sym y) ∙ ground arith
        | inr (e, y) ↦ v.delivered j w y
      ];
      named = λ j w h. elim (insert_cases k j row w r h) [
        | inl (e, y) ↦ ap (λ z. group_of z.packet) (sym y) ∙ named ∙ e
        | inr (e, y) ↦ v.named j w y
      ];
    }
      where
        k : ℕ
        k = first + count

        row : Row A
        row = record { packet = p; delivered = false }

        absent : lookup k r ≡ none
        absent = lookup_of_missing k r (has_key k ∙ ground arith)

        below : All (λ z. z ≤ k) (keys r)
        below = All-contains k (keys r) (λ z c. ground (arith, has_key z))

    -- The first group goes.
    pub erase-Shape : (n : ℕ) → count ≡ suc n → Shape (erase first r) (suc first) n cursor
    erase-Shape n e = record {
      distinct = erase-Distinct first r v.distinct;
      sorted =
          ap sort (keys-erase first r)
          ∙ sort-discard first (keys r)
          ∙ ap (discard first) v.sorted
          ∙ ap (λ z. discard first (range_from first z)) e
          ∙ discard-range_from first n;
      size =
          let (row, h) = row_at first (omega arith) (omega arith) in
          omega (arith, length-erase first row r v.distinct h, v.size);
      delivered = λ j w h. v.delivered j w (erase_cases first j w r h).1;
      named = λ j w h. v.named j w (erase_cases first j w r h).1;
    }

    -- The row at the cursor is delivered.
    pub deliver-Shape :
        (row : Row A)
        → lookup cursor r ≡ some row
        → Shape (insert cursor (record row { delivered = true }) r) first count (cursor + 1)
    deliver-Shape row h = record {
      distinct = insert-Distinct cursor row' r v.distinct;
      sorted = ap sort (keys-insert_old cursor row' row r h) ∙ v.sorted;
      size = length-insert_old cursor row' row r h ∙ v.size;
      delivered = λ j w q. elim (insert_cases cursor j row' w r q) [
        | inl (e, y) ↦ ap (λ z. z.delivered) (sym y) ∙ ground arith
        | inr (e, y) ↦ v.delivered j w y ∙ ground arith
      ];
      named = λ j w q. elim (insert_cases cursor j row' w r q) [
        | inl (e, y) ↦ ap (λ z. group_of z.packet) (sym y) ∙ v.named cursor row h ∙ e
        | inr (e, y) ↦ v.named j w y
      ];
    }
      where
        row' : Row A
        row' = record row { delivered = true }

  -- What is waiting is the row at the cursor, if the cursor is not at the end.
  abbrev pub Waiting : Dict (Row A) → ℕ → ℕ → Option (ℕ × Row A) → Type 0
  Waiting r cursor end q =
      ((end ≤ cursor) × (q ≡ none))
      ⊎ ((cursor < end) × (row : Row A) × (lookup cursor r ≡ some row) × (q ≡ some (cursor, row)))

  pub first_waiting-from :
      (r : Dict (Row A)) (first count cursor : ℕ)
      → Shape r first count cursor
      → (s n : ℕ) → first ≤ s
      → s + n ≡ first + count
      → s ≤ cursor
      → cursor ≤ s + n
      → Waiting r cursor (s + n) (first_waiting (range_from s n) r)
  unfolding first_waiting
  first_waiting-from r first count cursor v s zero low end a b = inl (omega arith, refl)
  first_waiting-from r first count cursor v s (suc n) low end a b =
      let (row, h) = row_at v s low (omega arith) in
      elim (Bool-cases (ltb s cursor)) [
        | inl e ↦
            rw (h, first_waiting, v.delivered s row h, e)
              (subst (λ z. Waiting r cursor z (first_waiting (range_from (suc s) n) r))
                (let e' : suc s + n ≡ s + suc n = omega arith in e')
                (first_waiting-from r first count cursor v (suc s) n (omega arith) (omega arith)
                  (ground arith) (omega arith)))
        | inr e ↦
            let same : s ≡ cursor = ground arith in
            inr (
              omega arith,
              row,
              ap (λ z. lookup z r) (sym same) ∙ h,
              rw (h, first_waiting, v.delivered s row h, e) (ap (λ z. some (z, row)) same),
            )
      ]
