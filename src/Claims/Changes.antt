-- ===== src/Claims/Changes.antt =====
-- What the operations on jobs make of a spool (relay_server.py): a property that the single changes
-- keep is kept by the scans of its directories.
use tiny_dsv.Base.{
  ℕ, ◌≡◌, sym, subst, false, not, ◌&&◌, ◌||◌, List, [], ◌∷◌, leb, ◌==◌, ==_iff, arith, Bool-cases,
  Option-cases, inl, inr,
}
use tiny_dsv.Base.Dict.{Dict, lookup, insert, erase}
use tiny_dsv.Claims.State.{Job, Spool, is_file, Reply}
use tiny_dsv.Claims.Jobs.{passes, fail_claim, prepend, unfinished_of, moved, pick, recover_claims}

module _ (P : Spool → Type 0)
    (fails : (s : Spool) (id message : ℕ) → P s → P (fail_claim id message s)) where
  prepend_lem : (id : ℕ) (out : Spool × Reply (List ℕ)) → P out.0 → P (prepend id out).0
  prepend_lem id (s, Reply.raised) p = p
  prepend_lem id (s, Reply.gives ids) p = p

  pub unfinished_of_lem :
      (now : ℕ) (files : Dict Job) (s : Spool) → P s → P (unfinished_of now files s).0
  unfinished_of_lem now [] s p = p
  unfinished_of_lem now ((name, job) ∷ rest) s p = elim (Bool-cases (is_file name s.outbox)) [
    | inl a ↦ rw a (unfinished_of_lem now rest s p)
    | inr a ↦ elim (Bool-cases (not (passes now job && job.id == name))) [
      | inl b ↦ rw (a, b) p
      | inr b ↦ elim (Bool-cases (leb job.deadline now)) [
        | inl d ↦
            rw (a, b, d) (unfinished_of_lem now rest (fail_claim job.id 1 s) (fails s job.id 1 p))
        | inr d ↦
            rw (a, b, d)
              (prepend_lem job.id (unfinished_of now rest s) (unfinished_of_lem now rest s p))
      ]
    ]
  ]

  pub recover_claims_lem :
      (now : ℕ) (files : Dict Job) (s : Spool) → P s → P (recover_claims now files s)
  recover_claims_lem now [] s p = p
  recover_claims_lem now ((name, job) ∷ rest) s p = elim (Bool-cases (is_file name s.outbox)) [
    | inl a ↦ rw a (recover_claims_lem now rest s p)
    | inr a ↦ elim (Bool-cases (not (passes now job && job.id == name))) [
      | inl b ↦ rw (a, b) p
      | inr b ↦ rw (a, b) (recover_claims_lem now rest (fail_claim job.id 4 s) (fails s job.id 4 p))
    ]
  ]

-- `P` holds while jobs are looked for, `Q` when one was handed out.
module _ (P Q : Spool → Type 0) (weaker : (s : Spool) → P s → Q s)
    (expires : (s : Spool) (name message : ℕ) (job : Job)
      → P s
      → is_file name s.inflight ≡ false
      → P (fail_claim name message (moved name job s)))
    (hands : (s : Spool) (name : ℕ) (job : Job)
      → P s
      → is_file name s.inflight ≡ false
      → Q (record s {
        inbox = erase name s.inbox;
        inflight = insert name job s.inflight;
        handed = name ∷ s.handed;
      })) where
  pub pick_lem : (now : ℕ) (names : List ℕ) (s : Spool) → P s → Q (pick now names s).0
  pick_lem now [] s p = weaker s p
  pick_lem now (name ∷ rest) s p = elim (Option-cases (lookup name s.inbox)) [
    | inl e ↦ rw (e, pick) (pick_lem now rest s p)
    | inr (job, e) ↦ elim (Bool-cases (not (passes now job && job.id == name))) [
      | inl b ↦ rw (e, b, pick) (weaker s p)
      | inr b ↦ elim (Bool-cases (is_file name s.inflight || is_file name s.outbox)) [
        | inl d ↦ rw (e, b, d, pick) (weaker s p)
        | inr d ↦
            let new : is_file name s.inflight ≡ false = ground (arith, d) in
            let same : job.id ≡ name = (==_iff job.id name).0 (ground (arith, b)) in
            elim (Bool-cases (leb job.deadline now)) [
              | inl x ↦
                  rw (e, b, d, x, pick)
                    (pick_lem now rest (fail_claim job.id 2 (moved name job s)) (
                      subst (λ z. P (fail_claim z 2 (moved name job s))) (sym same)
                        (expires s name 2 job p new)))
              | inr x ↦ rw (e, b, d, x, pick) (hands s name job p new)
            ]
      ]
    ]
  ]
