-- ===== src/Mailbox/Runs.antt =====
-- Rounds of the loop and the runs that they make.
use tiny_dsv.Base.{
  ℕ, ◌+◌, ◌≤◌, ◌≡◌, refl, ap, ◌∙◌, Bool, true, false, not, ◌&&◌, ◌||◌, Option, none, some, List, [],
  ◌∷◌, ◌++◌, if◌then◌else◌, subst,
}
use tiny_dsv.Mailbox.State.{Manager, Settings, start, Recovery}
use tiny_dsv.Mailbox.Commands.{World, Reply, is_idle}
use tiny_dsv.Mailbox.Rounds.{
  Arrival, Outcome, Round, goes_on, stops, run_arrivals, settle, answer, drain, admit_group, round,
  is_nil,
}
use tiny_dsv.Mailbox.Delivery.{Inv}
use tiny_dsv.Mailbox.Restoring.{start_lem}
use tiny_dsv.Mailbox.Filling.{Settles, settle_lem, admit_group_lem}
use tiny_dsv.Mailbox.Replies.{
  groups_sent, Sends, quiet, both, Answers, relabel, run_arrivals_lem, groups_sent-append,
}

module _ {A : Type 0} (group_of : A → ℕ) where
  abbrev pub Rounds : Option (Round A) → ℕ → Type 0
  Rounds none cursor = Unit {0}
  Rounds (some (goes_on m rs)) cursor = Sends group_of m rs cursor
  Rounds (some (stops m rs)) cursor = Sends group_of m rs cursor

  answer-paused :
      (ids : List ℕ) (m : Manager A) → groups_sent group_of (answer Reply.paused ids m) ≡ []
  unfolding groups_sent
  answer-paused [] m = refl
  answer-paused (i ∷ ids) m = answer-paused ids m

  answer-drained :
      (ids : List ℕ) (m : Manager A) → groups_sent group_of (answer Reply.drained ids m) ≡ []
  unfolding groups_sent
  answer-drained [] m = refl
  answer-drained (i ∷ ids) m = answer-drained ids m

  pub drain_lem :
      (w : World) (m : Manager A) (cursor : ℕ) → Inv group_of m cursor → Rounds (drain w m) cursor
  unfolding drain groups_sent
  drain_lem w m cursor v =
      go (m.paused && is_idle m) (is_nil m.pause_waiters || (w.control_ok && not w.busy)) m.closing
        (w.close_ok && (is_nil m.close_waiters || not w.busy))
    where
      m' : Manager A
      m' = record m { pause_waiters = [] }

      v' : Inv group_of m' cursor
      v' = relabel group_of m cursor m.paused m.closing [] m.close_waiters v

      answers : List (ℕ × Reply A)
      answers = answer Reply.paused m.pause_waiters m'

      last : List (ℕ × Reply A)
      last = answer Reply.drained m.close_waiters m'

      go :
          (a b c d : Bool)
          → Rounds
              (if a
                then (if b
                    then (if c
                        then (if d then some (stops m' (answers ++ last)) else none)
                        else some (goes_on m' answers))
                    else none)
                else some (goes_on m []))
              cursor
      go false b c d = quiet group_of m [] cursor refl v
      go true false c d = tt
      go true true false d = quiet group_of m' answers cursor (answer-paused m.pause_waiters m') v'
      go true true true false = tt
      go true true true true =
          quiet group_of m' (answers ++ last) cursor
            (groups_sent-append group_of answers last
              ∙ ap (λ z. z ++ groups_sent group_of last) (answer-paused m.pause_waiters m')
              ∙ answer-drained m.close_waiters m')
            v'

  drained_round :
      (m1 : Manager A) (rs : List (ℕ × Reply A)) (cursor : ℕ)
      → (a : Sends group_of m1 rs cursor) → (r : Option (Round A)) → Rounds r (cursor + a.count)
      → Rounds
          (elim r [
            | none ↦ none
            | some (stops m3 answers) ↦ some (stops m3 (rs ++ answers))
            | some (goes_on m3 answers) ↦ some (goes_on (admit_group m3) (rs ++ answers))
          ])
          cursor
  drained_round m1 rs cursor a none b = tt
  drained_round m1 rs cursor a (some (stops m3 answers)) b =
      both group_of m1 m3 rs answers cursor a b
  drained_round m1 rs cursor a (some (goes_on m3 answers)) b =
      both group_of m1 (admit_group m3) rs answers cursor a (record {
        count = b.count;
        sent = b.sent;
        inv = admit_group_lem group_of m3 (cursor + a.count + b.count) b.inv;
      })

  settled_round :
      (w : World) (m1 : Manager A) (rs : List (ℕ × Reply A)) (cursor : ℕ)
      → (a : Sends group_of m1 rs cursor) → (o : Option (Manager A))
      → Settles group_of o (cursor + a.count)
      → Rounds
          (elim o [
            | none ↦ none
            | some m2 ↦ elim (drain w m2) [
              | none ↦ none
              | some (stops m3 answers) ↦ some (stops m3 (rs ++ answers))
              | some (goes_on m3 answers) ↦ some (goes_on (admit_group m3) (rs ++ answers))
            ]
          ])
          cursor
  settled_round w m1 rs cursor a none b = tt
  settled_round w m1 rs cursor a (some m2) b =
      drained_round m1 rs cursor a (drain w m2) (drain_lem w m2 (cursor + a.count) b)

module _ {A : Type 0} (group_of : A → ℕ) (take_packet : ℕ → A) where
  -- The rounds from one state of the loop to another, and all that was sent in them.
  pub data Run : Manager A → Manager A → List (ℕ × Reply A) → Type 0 where
    here : {m : Manager A} → Run m m []
    after :
        {m m1 m2 : Manager A} {rs rs' : List (ℕ × Reply A)} (w : World) (arrivals : List Arrival)
        (outcome : Outcome)
        → round take_packet w arrivals outcome m ≡ some (goes_on m1 rs)
        → Run m1 m2 rs'
        → Run m m2 (rs ++ rs')

  module _ (names : (id : ℕ) → group_of (take_packet id) ≡ id) where
    -- A round keeps the invariant, and hands out the groups from the cursor on.
    pub round_lem :
        (w : World) (arrivals : List Arrival) (outcome : Outcome) (m : Manager A) (cursor : ℕ)
        → Inv group_of m cursor
        → Rounds group_of (round take_packet w arrivals outcome m) cursor
    unfolding round
    round_lem w arrivals outcome m cursor v =
        go (run_arrivals w arrivals m) (run_arrivals_lem group_of w arrivals m cursor v)
      where
        go :
            (o : Option (Manager A × List (ℕ × Reply A)))
            → Answers group_of o m cursor
            → Rounds group_of
                (elim o [
                  | none ↦ none
                  | some (m1, rs) ↦ elim (settle take_packet outcome m1) [
                    | none ↦ none
                    | some m2 ↦ elim (drain w m2) [
                      | none ↦ none
                      | some (stops m3 answers) ↦ some (stops m3 (rs ++ answers))
                      | some (goes_on m3 answers) ↦ some (goes_on (admit_group m3) (rs ++ answers))
                    ]
                  ]
                ])
                cursor
        go none a = tt
        go (some (m1, rs)) (a, same) =
            settled_round group_of w m1 rs cursor a (settle take_packet outcome m1)
              (settle_lem group_of take_packet names outcome m1 (cursor + a.count) a.inv)

    pub Run_lem :
        {m m' : Manager A} {rs : List (ℕ × Reply A)}
        → Run m m' rs
        → (cursor : ℕ) → Inv group_of m cursor
        → Sends group_of m' rs cursor
    unfolding groups_sent
    Run_lem {m} here cursor v = quiet group_of m [] cursor refl v
    Run_lem {m} {m' = m2} (after {m1 = m1} {rs = rs} {rs' = rs'} w arrivals outcome e run) cursor
          v =
        let a : Sends group_of m1 rs cursor =
          subst (λ z. Rounds group_of z cursor) e (round_lem w arrivals outcome m cursor v) in
        both group_of m1 m2 rs rs' cursor a (Run_lem run (cursor + a.count) a.inv)

    -- If the backend gives for each group the packet of that group and the manager starts with its
    -- high-water mark no greater than its next group, then in every run of rounds the packets that
    -- are sent to the learner are those of consecutive groups from the high-water mark on, in order
    -- and each once, and the final state satisfies the mailbox invariant: the retained groups are
    -- without a gap, named by their packets, delivered exactly below the cursor, and with the one
    -- under way within the bound.
    pub deliveries_in_order :
        (agrees : A → Bool) (s : Settings) (recovery : Option (Recovery A)) {m m' : Manager A}
        {rs : List (ℕ × Reply A)}
        → start group_of agrees s recovery ≡ some m
        → m.committed ≤ m.next_group
        → Run m m' rs
        → Sends group_of m' rs m.committed
    deliveries_in_order agrees s recovery {m} {m'} {rs} e low run =
        Run_lem run m.committed (start_lem group_of agrees s recovery m e low)
