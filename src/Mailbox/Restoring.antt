-- ===== src/Mailbox/Restoring.antt =====
-- What `_serve` makes of a recovery record: a mailbox without a gap, nothing of it delivered.
use tiny_dsv.Base.{
  ℕ, suc, ◌+◌, ◌-◌, ◌≤◌, ◌≡◌, refl, ap, sym, ◌∙◌, false, Option, none, some, List, [], ◌∷◌, arith,
  length, range_from, contains, Bool-cases, Bool, Option-cases, inl, inr, subst,
}
use tiny_dsv.Base.Dict.{Dict, lookup, insert, keys, Distinct, insert-Distinct}
use tiny_dsv.Base.Updates.{insert_cases, contains_of_lookup}
use tiny_dsv.Base.{length-range_from}
use tiny_dsv.Mailbox.Sorting.{place, sort}
use tiny_dsv.Mailbox.State.{
  Manager, Row, Recovery, Settings, range, load, opened, admit, restored, start, or_default,
}
use tiny_dsv.Mailbox.Shape.{contains-sort, contains-range_from}
use tiny_dsv.Mailbox.Prefix.{list_eq-eq}
use tiny_dsv.Mailbox.Delivery.{Inv}

length-place : (x : ℕ) (xs : List ℕ) → length (place x xs) ≡ suc (length xs)
unfolding place
length-place x [] = refl
length-place x (y ∷ xs) = ground (arith, length-place x xs)

length-sort : (xs : List ℕ) → length (sort xs) ≡ length xs
unfolding sort
length-sort [] = refl
length-sort (x ∷ xs) = length-place x (sort xs) ∙ ap suc (length-sort xs)

module _ {A : Type 0} where
  pub length-keys : (r : Dict (Row A)) → length (keys r) ≡ length r
  length-keys [] = refl
  length-keys ((k, row) ∷ r) = ap suc (length-keys r)

module _ {A : Type 0} (group_of : A → ℕ) where
  -- Every row stands under the group of its packet, and is not delivered.
  pub record Loaded (r : Dict (Row A)) : Type 0 where
    pub distinct : Distinct r
    pub waiting : (k : ℕ) (row : Row A) → lookup k r ≡ some row → row.delivered ≡ false
    pub named : (k : ℕ) (row : Row A) → lookup k r ≡ some row → group_of row.packet ≡ k

  load_lem :
      (agrees : A → Bool) (committed next : ℕ) (encoded : List A) (r r' : Dict (Row A))
      → Loaded r
      → load group_of agrees committed next encoded r ≡ some r'
      → Loaded r'
  unfolding load
  load_lem agrees committed next [] r r' v h = subst Loaded (ground arith) v
  load_lem agrees committed next (p ∷ encoded) r r' v h = elim (Bool-cases (agrees p)) [
    | inr e ↦ absurd (ground (arith, (rw (e, load) at h)))
    | inl e ↦
        load_lem agrees committed next encoded (insert (group_of p) row r) r'
          (record {
            distinct = insert-Distinct (group_of p) row r v.distinct;
            waiting = λ k w q. elim (insert_cases (group_of p) k row w r q) [
              | inl (e, y) ↦ ap (λ z. z.delivered) (sym y)
              | inr (e, y) ↦ v.waiting k w y
            ];
            named = λ k w q. elim (insert_cases (group_of p) k row w r q) [
              | inl (e, y) ↦ ap (λ z. group_of z.packet) (sym y) ∙ e
              | inr (e, y) ↦ v.named k w y
            ];
          })
          (ground (arith, (rw (e, load) at h)))
  ]
    where
      row : Row A
      row = record { packet = p; delivered = false }

  empty-Loaded : Loaded []
  empty-Loaded = record {
    distinct = tt;
    waiting = λ k row h. absurd (ground arith);
    named = λ k row h. absurd (ground arith);
  }

  opened-Inv :
      (s : Settings) (next committed dropped : ℕ) (r : Dict (Row A))
      → Loaded r
      → length r ≤ s.queue_capacity + s.groups_per_step
      → sort (keys r) ≡ range committed next
      → committed ≤ next
      → Inv group_of (opened group_of s next committed dropped r) committed
  opened-Inv s next committed dropped r v fits sorted low =
      let size : length r ≡ next - committed =
        sym (length-keys r)
        ∙ sym (length-sort (keys r))
        ∙ ap length sorted
        ∙ length-range_from committed (next - committed) in
      let from_first : (k : ℕ) (row : Row A) → lookup k r ≡ some row → committed ≤ k = λ k row h.
        ground (
          arith,
          contains_of_lookup k row r h,
          contains-sort k (keys r),
          ap (contains k) sorted,
          contains-range_from k committed (next - committed),
        ) in
      record {
        shape = record {
          distinct = v.distinct;
          sorted = sorted ∙ ap (range_from committed) (sym size);
          size = refl;
          delivered = λ k row h. v.waiting k row h ∙ ground (arith, from_first k row h);
          named = v.named;
        };
        next = omega (arith, size);
        under_way = λ id q. absurd (ground arith);
        fits = omega arith;
        low = omega arith;
        high = omega arith;
      }

  admit_lem :
      (s : Settings) (next committed dropped : ℕ) (r : Dict (Row A)) (m : Manager A)
      → Loaded r
      → admit group_of s next committed dropped r ≡ some m
      → m.committed ≤ m.next_group
      → Inv group_of m m.committed
  admit_lem s next committed dropped r m v h =
      subst (λ m. m.committed ≤ m.next_group → Inv group_of m m.committed)
        (let e : opened group_of s next committed dropped r ≡ m = ground arith in e)
        (opened-Inv s next committed dropped r v (ground arith)
          (list_eq-eq (sort (keys r)) (range committed next) (ground arith)))

  -- A manager that starts, from a recovery record or from none, whichever packets `_decode_packet`
  -- accepts, with its high-water mark no greater than its next group satisfies the mailbox
  -- invariant with nothing delivered.
  pub start_lem :
      (agrees : A → Bool) (s : Settings) (recovery : Option (Recovery A)) (m : Manager A)
      → start group_of agrees s recovery ≡ some m
      → m.committed ≤ m.next_group
      → Inv group_of m m.committed
  unfolding start
  start_lem agrees s none m h = admit_lem s s.next_group_id s.next_group_id 0 [] m empty-Loaded h
  start_lem agrees s (some r) m h =
      let chosen : restored group_of agrees s r next ≡ some m = ground arith in
      elim (Option-cases (load group_of agrees committed next r.pending [])) [
        | inl e ↦ absurd (ground (arith, (rw (e, restored) at chosen)))
        | inr (rows, e) ↦
            admit_lem s next committed (or_default r.dropped_groups 0) rows m
              (load_lem agrees committed next r.pending [] rows empty-Loaded e)
              (rw (e, restored) at chosen)
      ]
    where
      next : ℕ
      next = or_default r.next_group_id s.next_group_id

      committed : ℕ
      committed = or_default r.committed_highwater next
