-- ===== src/Mailbox/Replies.antt =====
-- The packets among the answers to the learner.
use tiny_dsv.Base.{
  ℕ, zero, suc, ◌+◌, ◌≡◌, refl, ap, ◌∙◌, Bool, true, false, not, ◌&&◌, Option, none, some, List, [],
  ◌∷◌, ◌++◌, arith, length, range_from, Bool-cases, inl, inr, subst,
}
use tiny_dsv.Mailbox.Sorting.{sort}
use tiny_dsv.Mailbox.State.{Manager}
use tiny_dsv.Mailbox.Commands.{World, Command, Reply, commit_groups, run_command, is_idle}
use tiny_dsv.Mailbox.Rounds.{Arrival, request, eof, run_arrivals}
use tiny_dsv.Mailbox.Delivery.{Inv, get_packet_lem, Commits, commit_groups_lem}

module _ {A : Type 0} (group_of : A → ℕ) where
  -- The groups of the packets that were sent, in order.
  unfoldable pub groups_sent : List (ℕ × Reply A) → List ℕ
  groups_sent [] = []
  groups_sent ((id, Reply.packet p) ∷ rs) = group_of p ∷ groups_sent rs
  groups_sent ((id, r) ∷ rs) = groups_sent rs

  pub groups_sent-append :
      (xs ys : List (ℕ × Reply A)) → groups_sent (xs ++ ys) ≡ groups_sent xs ++ groups_sent ys
  unfolding groups_sent
  groups_sent-append [] ys = refl
  groups_sent-append ((id, Reply.packet p) ∷ rs) ys =
      ap (λ z. group_of p ∷ z) (groups_sent-append rs ys)
  groups_sent-append ((id, Reply.empty) ∷ rs) ys = groups_sent-append rs ys
  groups_sent-append ((id, Reply.marks c d) ∷ rs) ys = groups_sent-append rs ys
  groups_sent-append ((id, Reply.value) ∷ rs) ys = groups_sent-append rs ys
  groups_sent-append ((id, Reply.ack) ∷ rs) ys = groups_sent-append rs ys
  groups_sent-append ((id, Reply.paused r) ∷ rs) ys = groups_sent-append rs ys
  groups_sent-append ((id, Reply.drained r) ∷ rs) ys = groups_sent-append rs ys

  pub append-range_from :
      (s a b : ℕ) → range_from s a ++ range_from (s + a) b ≡ range_from s (a + b)
  append-range_from s zero b =
      ap (λ z. range_from z b) (let e : s + 0 ≡ s = omega arith in e)
      ∙ ap (range_from s) (let e : b ≡ 0 + b = omega arith in e)
  append-range_from s (suc a) b =
      ap (λ z. s ∷ z)
        (ap (λ z. range_from (suc s) a ++ range_from z b)
            (let e : s + suc a ≡ suc s + a = omega arith in e)
          ∙ append-range_from (suc s) a b)
      ∙ ap (range_from s) (let e : suc (a + b) ≡ suc a + b = omega arith in e)

  -- The answers hold the packets from the cursor on, in order, and the manager is as before but for
  -- a cursor that has moved past them.
  pub record Sends (m : Manager A) (replies : List (ℕ × Reply A)) (cursor : ℕ) : Type 0 where
    pub count : ℕ
    pub sent : groups_sent replies ≡ range_from cursor count
    pub inv : Inv group_of m (cursor + count)

  pub quiet :
      (m : Manager A) (rs : List (ℕ × Reply A)) (cursor : ℕ)
      → groups_sent rs ≡ []
      → Inv group_of m cursor
      → Sends m rs cursor
  quiet m rs cursor e v = record {
    count = 0;
    sent = e;
    inv = subst (Inv group_of m) (omega arith) v;
  }

  pub both :
      (m m' : Manager A) (rs rs' : List (ℕ × Reply A)) (cursor : ℕ)
      → (a : Sends m rs cursor) → Sends m' rs' (cursor + a.count)
      → Sends m' (rs ++ rs') cursor
  both m m' rs rs' cursor a b = record {
    count = a.count + b.count;
    sent =
        groups_sent-append rs rs'
        ∙ ap (λ z. z ++ groups_sent rs') a.sent
        ∙ ap (λ z. range_from cursor a.count ++ z) b.sent
        ∙ append-range_from cursor a.count b.count;
    inv = subst (Inv group_of m') (omega arith) b.inv;
  }

  abbrev pub Answers : Option (Manager A × List (ℕ × Reply A)) → Manager A → ℕ → Type 0
  Answers none m cursor = Unit {0}
  Answers (some (m', rs)) m cursor = Sends m' rs cursor × (m'.active ≡ m.active)

  -- The invariant says nothing of the flags and the waiters.
  pub relabel :
      (m : Manager A) (cursor : ℕ) (paused closing : Bool) (ps cs : List ℕ)
      → Inv group_of m cursor
      → Inv group_of
          (record m { paused = paused; closing = closing; pause_waiters = ps; close_waiters = cs })
          cursor
  relabel m cursor paused closing ps cs v = record {
    shape = v.shape;
    next = v.next;
    under_way = v.under_way;
    fits = v.fits;
    low = v.low;
    high = v.high;
  }

  pub run_command_lem :
      (w : World) (id : ℕ) (c : Command) (m : Manager A) (cursor : ℕ)
      → Inv group_of m cursor
      → Answers (run_command w id c m) m cursor
  unfolding run_command groups_sent
  run_command_lem w id Command.get m cursor v = elim (get_packet_lem group_of m cursor v) [
    | inl (done, e) ↦ rw e (quiet m _ cursor refl v, refl)
    | inr (m', p, e, named, same, v') ↦
        rw e (record { count = 1; sent = ap (λ z. z ∷ []) named; inv = v' }, same)
  ]
  run_command_lem w id Command.pause m cursor v = (
    quiet _ [] cursor refl
        (relabel m cursor true m.closing (m.pause_waiters ++ id ∷ []) m.close_waiters v),
    refl,
  )
  run_command_lem w id (Command.commit consumed rejected) m cursor v =
      go (commit_groups consumed rejected m)
        (commit_groups_lem group_of consumed rejected m cursor v)
    where
      go :
          (o : Option (Manager A × Reply A))
          → Commits group_of m cursor (sort (consumed ++ rejected)) (length rejected) o
          → Answers (elim o [ none ↦ none | some (m', r) ↦ some (m', (id, r) ∷ []) ]) m cursor
      go none c = tt
      go (some (m', r)) (here, moved, low, marks, same, v') =
          (quiet m' _ cursor (ap (λ z. groups_sent ((id, z) ∷ [])) marks) v', same)
  run_command_lem w id Command.activate m cursor v =
      elim (Bool-cases (m.paused && is_idle m && w.control_ok)) [
        | inl e ↦ rw e (quiet m _ cursor refl v, refl)
        | inr e ↦ rw e tt
      ]
  run_command_lem w id Command.evaluate m cursor v =
      elim (Bool-cases (m.paused && is_idle m && w.can_evaluate)) [
        | inl e ↦ rw e (quiet m _ cursor refl v, refl)
        | inr e ↦ rw e tt
      ]
  run_command_lem w id Command.resume m cursor v =
      elim (Bool-cases (not m.closing && w.control_ok && w.stream_open)) [
        | inl e ↦ rw e (
          quiet _ _ cursor refl
              (relabel m cursor false m.closing m.pause_waiters m.close_waiters v),
          refl,
        )
        | inr e ↦ rw e tt
      ]
  run_command_lem w id Command.close m cursor v = (
    quiet _ [] cursor refl
        (relabel m cursor true true m.pause_waiters (m.close_waiters ++ id ∷ []) v),
    refl,
  )
  run_command_lem w id Command.unknown m cursor v = tt

  pub run_arrivals_lem :
      (w : World) (arrivals : List Arrival) (m : Manager A) (cursor : ℕ)
      → Inv group_of m cursor
      → Answers (run_arrivals w arrivals m) m cursor
  unfolding run_arrivals groups_sent
  run_arrivals_lem w [] m cursor v = (quiet m [] cursor refl v, refl)
  run_arrivals_lem w (eof ∷ rest) m cursor v =
      (quiet _ [] cursor refl (relabel m cursor true true m.pause_waiters m.close_waiters v), refl)
  run_arrivals_lem w (request id c ∷ rest) m cursor v =
      go (run_command w id c m) (run_command_lem w id c m cursor v)
        (λ m1 k v1. run_arrivals_lem w rest m1 k v1)
    where
      after :
          (m1 : Manager A) (rs : List (ℕ × Reply A))
          → (a : Sends m1 rs cursor) → m1.active ≡ m.active
          → (o : Option (Manager A × List (ℕ × Reply A))) → Answers o m1 (cursor + a.count)
          → Answers (elim o [ none ↦ none | some (m2, rs') ↦ some (m2, rs ++ rs') ]) m cursor
      after m1 rs a same none b = tt
      after m1 rs a same (some (m2, rs')) (b, same') = (both m1 m2 rs rs' cursor a b, same' ∙ same)

      go :
          (o : Option (Manager A × List (ℕ × Reply A)))
          → Answers o m cursor
          → ((m1 : Manager A) (k : ℕ) → Inv group_of m1 k → Answers (run_arrivals w rest m1) m1 k)
          → Answers
              (elim o [
                | none ↦ none
                | some (m1, rs) ↦ elim (run_arrivals w rest m1) [
                  | none ↦ none
                  | some (m2, rs') ↦ some (m2, rs ++ rs')
                ]
              ])
              m
              cursor
      go none a ih = tt
      go (some (m1, rs)) (a, same) ih =
          after m1 rs a same (run_arrivals w rest m1) (ih m1 (cursor + a.count) a.inv)
