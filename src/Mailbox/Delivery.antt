-- ===== src/Mailbox/Delivery.antt =====
-- Groups are delivered in order, each once, and committed as a delivered prefix.
use tiny_dsv.Base.{
  ℕ, ◌+◌, ◌-◌, ◌≤◌, ◌≡◌, refl, ap, sym, ◌∙◌, true, ◌⊎◌, inl, inr, Option, none, some, List, ◌++◌,
  arith, length, range_from, Bool-cases, all, subst,
}
use tiny_dsv.Base.Updates.{length-insert_old}
use tiny_dsv.Base.Dict.{insert, keys}
use tiny_dsv.Mailbox.Sorting.{sort}
use tiny_dsv.Mailbox.State.{Manager, bound}
use tiny_dsv.Mailbox.Commands.{
  Reply, first_waiting, get_packet, is_delivered, erase_all, may_commit, committed_after,
  commit_groups, take,
}
use tiny_dsv.Mailbox.Shape.{Shape, deliver-Shape, first_waiting-from, Waiting}
use tiny_dsv.Mailbox.Prefix.{
  list_eq-eq, prefix_interval, committed_after-range_from, delivered_prefix, erase_all-Shape,
  Shape-subst,
}

-- One for the group under way.
abbrev pub in_flight : Option ℕ → ℕ
in_flight none = 0
in_flight (some id) = 1

module _ {A : Type 0} (group_of : A → ℕ) where
  -- The groups from the high-water mark to the next cursor are retained without a gap, the last of
  -- them possibly under way; they fit the mailbox, and those below `cursor` are delivered.
  pub record Inv (m : Manager A) (cursor : ℕ) : Type 0 where
    pub shape : Shape group_of m.retained m.committed (length m.retained) cursor
    pub next : m.next_group ≡ m.committed + length m.retained + in_flight m.active
    pub under_way : (id : ℕ) → m.active ≡ some id → id ≡ m.committed + length m.retained
    pub fits : length m.retained + in_flight m.active ≤ bound m
    pub low : m.committed ≤ cursor
    pub high : cursor ≤ m.committed + length m.retained

  -- The next undelivered group is handed out, or nothing is waiting.
  abbrev pub Gets : Manager A → ℕ → Type 0
  Gets m cursor =
      ((cursor ≡ m.committed + length m.retained) × (get_packet m ≡ (m, Reply.empty)))
      ⊎ ((m' : Manager A) × (p : A) × (get_packet m ≡ (m', Reply.packet p))
          × (group_of p ≡ cursor)
          × (m'.active ≡ m.active)
          × Inv m' (cursor + 1))

  -- `get` hands out the packets in the order of their groups, each once.
  pub get_packet_lem : (m : Manager A) (cursor : ℕ) → Inv m cursor → Gets m cursor
  unfolding get_packet
  get_packet_lem m cursor v =
      elim (subst (λ z. Waiting group_of m.retained cursor last (first_waiting z m.retained))
        (sym v.shape.sorted)
        (first_waiting-from group_of m.retained m.committed n cursor v.shape m.committed n
          (omega arith) refl v.low v.high)) [
            | inl (done, e) ↦ inl (omega (arith, v.high), rw (e, get_packet))
            | inr (more, row, here, e) ↦ inr (
              record m { retained = insert cursor (record row { delivered = true }) m.retained },
              row.packet,
              rw (e, get_packet),
              v.shape.named cursor row here,
              refl,
              (let e =
                    length-insert_old cursor (record row { delivered = true }) row m.retained
                      here in
                  record {
                    shape =
                        Shape-subst group_of _ (deliver-Shape group_of v.shape row here) refl
                          (sym e);
                    next = omega (arith, v.next, e);
                    under_way = λ id a. omega (arith, v.under_way id a, e);
                    fits = omega (arith, v.fits, e);
                    low = omega (arith, v.low);
                    high = omega (arith, more, e);
                  }),
            )
          ]
    where
      n : ℕ
      n = length m.retained

      last : ℕ
      last = m.committed + n

  -- What a commit has done when it answers.
  abbrev pub Commits : Manager A → ℕ → List ℕ → ℕ → Option (Manager A × Reply A) → Type 0
  Commits m cursor ids rejected none = Unit {0}
  Commits m cursor ids rejected (some (m', r)) =
      (ids ≡ range_from m.committed (length ids))
      × (m'.committed ≡ m.committed + length ids)
      × (m'.committed ≤ cursor)
      × (r ≡ Reply.marks m'.committed (m.dropped + rejected))
      × (m'.active ≡ m.active)
      × Inv m' cursor

  -- Under the mailbox invariant, if a commit is answered then the sorted consumed and rejected
  -- groups are the interval that starts at the high-water mark, the new high-water mark is at its
  -- end and not beyond what was delivered, the answer names it and the increased number of dropped
  -- groups, the group under way is the same, and the invariant holds.
  pub commit_groups_lem :
      (consumed rejected : List ℕ) (m : Manager A) (cursor : ℕ)
      → Inv m cursor
      → Commits m cursor
          (sort (consumed ++ rejected))
          (length rejected)
          (commit_groups consumed rejected m)
  unfolding commit_groups
  commit_groups_lem consumed rejected m cursor v = elim (Bool-cases (may_commit ids m)) [
    | inr e ↦ rw e tt
    | inl e ↦ rw e (let (a, b, c, d) = go e in (a, b, c, refl, refl, d))
  ]
    where
      ids : List ℕ
      ids = sort (consumed ++ rejected)

      n : ℕ
      n = length m.retained

      m' : Manager A
      m' = record m {
        retained = erase_all ids m.retained;
        committed = committed_after ids m.committed;
        dropped = m.dropped + length rejected;
      }

      go :
          may_commit ids m ≡ true
          → (ids ≡ range_from m.committed (length ids))
            × (m'.committed ≡ m.committed + length ids)
            × (m'.committed ≤ cursor)
            × Inv m' cursor
      go e =
          let (here, fits) = prefix_interval ids m.committed n (
            list_eq-eq ids (take (length ids) (sort (keys m.retained))) (ground arith)
            ∙ ap (take (length ids)) v.shape.sorted) in
          let after =
            ap (λ z. committed_after z m.committed) here
            ∙ committed_after-range_from m.committed (length ids) in
          let low =
            delivered_prefix group_of m.retained m.committed n cursor (length ids) v.shape v.low
              fits (subst (λ z. all (is_delivered m.retained) z ≡ true) here (ground arith)) in
          let left =
            subst
              (λ z.
                Shape group_of (erase_all z m.retained) (m.committed + length ids) (n - length ids)
                  cursor)
              (sym here)
              (erase_all-Shape group_of m.retained m.committed cursor (length ids) (n - length ids)
                (Shape-subst group_of m.retained v.shape refl (omega arith))) in
          let size : length (erase_all ids m.retained) ≡ n - length ids = left.size in
          (
            here,
            after,
            omega (arith, low, after),
            record {
              shape = Shape-subst group_of _ left (sym after) (sym size);
              next = omega (arith, v.next, after, size);
              under_way = λ id a. omega (arith, v.under_way id a, after, size);
              fits = omega (arith, v.fits, size);
              low = omega (arith, low, after);
              high = omega (arith, v.high, after, size);
            },
          )
