-- ===== src/Mailbox/Restart.antt =====
-- A manager that is started from the snapshot of another one holds the same groups.
use tiny_dsv.Base.{
  ℕ, zero, suc, ◌+◌, ◌≤◌, ◌<◌, ◌≡◌, ◌≢◌, refl, ap, ◌∙◌, Bool, true, false, none, some, List, [],
  ◌∷◌, ◌++◌, arith, length, range_from,
}
use tiny_dsv.Base.Dict.{Dict, lookup, insert}
use tiny_dsv.Mailbox.State.{Manager, Row, Settings, load, opened}
use tiny_dsv.Mailbox.Rounds.{packets}
use tiny_dsv.Mailbox.Shape.{Shape, row_at}
use tiny_dsv.Mailbox.Delivery.{Inv}

module _ {A : Type 0} where
  -- The rows of `ks`, as they are loaded.
  abbrev pub fresh : List ℕ → Dict (Row A) → Dict (Row A)
  fresh [] r = []
  fresh (k ∷ ks) r = elim (lookup k r) [
    | none ↦ fresh ks r
    | some row ↦ (k, record { packet = row.packet; delivered = false }) ∷ fresh ks r
  ]

  insert_fresh :
      (k : ℕ) (row : Row A) (acc : Dict (Row A))
      → lookup k acc ≡ none
      → insert k row acc ≡ acc ++ (k, row) ∷ []
  insert_fresh k row [] h = refl
  insert_fresh k row ((j, u) ∷ acc) h = ground (arith, insert_fresh k row acc)

  lookup_beside :
      (j k : ℕ) (row : Row A) (acc : Dict (Row A))
      → j ≢ k
      → lookup j acc ≡ none
      → lookup j (acc ++ (k, row) ∷ []) ≡ none
  lookup_beside j k row [] n h = ground arith
  lookup_beside j k row ((i, u) ∷ acc) n h = ground (arith, lookup_beside j k row acc)

  append_nil : (acc : Dict (Row A)) → acc ≡ acc ++ []
  append_nil [] = refl
  append_nil (y ∷ acc) = ap (λ z. y ∷ z) (append_nil acc)

  append_assoc : (acc xs : Dict (Row A)) (x : ℕ × Row A) → (acc ++ x ∷ []) ++ xs ≡ acc ++ x ∷ xs
  append_assoc [] xs x = refl
  append_assoc (y ∷ acc) xs x = ap (λ z. y ∷ z) (append_assoc acc xs x)

module _ {A : Type 0} (group_of : A → ℕ) (agrees : A → Bool) where
  module _ {r : Dict (Row A)} {first count cursor : ℕ}
      (v : Shape group_of r first count cursor) where
    accept :
        (p : A) (encoded : List A) (acc : Dict (Row A))
        → agrees p ≡ true
        → lookup (group_of p) acc ≡ none
        → first ≤ group_of p
        → group_of p < first + count
        → load group_of agrees first (first + count) (p ∷ encoded) acc
          ≡ load group_of agrees first
              (first + count)
              encoded
              (insert (group_of p) (record { packet = p; delivered = false }) acc)
    unfolding load
    accept p encoded acc good absent low high = ground (arith, good, absent)

    -- The packets of an interval are loaded in its order.
    pub load-packets :
        (s n : ℕ) (acc : Dict (Row A))
        → ((k : ℕ) (row : Row A) → lookup k r ≡ some row → agrees row.packet ≡ true)
        → first ≤ s
        → s + n ≡ first + count
        → ((j : ℕ) → s ≤ j → lookup j acc ≡ none)
        → load group_of agrees first (first + count) (packets (range_from s n) r) acc
          ≡ some (acc ++ fresh (range_from s n) r)
    unfolding load
    load-packets s zero acc good low end new = ap some (append_nil acc)
    load-packets s (suc n) acc good low end new =
        let (row, h) = row_at group_of v s low (omega arith) in
        let fresh_row : Row A = record { packet = row.packet; delivered = false } in
        let named = v.named s row h in
        let absent : lookup (group_of row.packet) acc ≡ none =
          ap (λ z. lookup z acc) named ∙ new s (omega arith) in
        rw (h, packets, fresh)
          (accept row.packet (packets (range_from (suc s) n) r) acc (good s row h) absent
              (omega (arith, named)) (omega (arith, named))
            ∙ ap
                (λ z.
                  load group_of agrees first (first + count) (packets (range_from (suc s) n) r) z)
                (ap (λ z. insert z fresh_row acc) named
                  ∙ insert_fresh s fresh_row acc (new s (omega arith)))
            ∙ load-packets (suc s) n (acc ++ (s, fresh_row) ∷ []) good (omega arith) (omega arith)
                (λ j le.
                  lookup_beside j s fresh_row acc (λ e. absurd (omega (arith, e)))
                    (new j (omega arith)))
            ∙ ap some (append_assoc acc (fresh (range_from (suc s) n) r) (s, fresh_row)))

  module _ (s : Settings) (m : Manager A) (cursor : ℕ) (v : Inv group_of m cursor)
      (good : (k : ℕ) (row : Row A)
        → lookup k m.retained ≡ some row
        → agrees row.packet ≡ true) where
    abbrev n : ℕ
    n = length m.retained

    abbrev rows : Dict (Row A)
    rows = fresh (range_from m.committed n) m.retained

    -- The manager that `s` and the snapshot of `m` give.
    abbrev restarted : Manager A
    restarted = opened group_of s m.next_group m.committed m.dropped rows
