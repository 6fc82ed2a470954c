-- ===== src/Claims/Capacity.antt =====
-- The jobs that were handed out and have no answer stay within the limit, and no job is handed out
-- twice (relay_server.py, RelayState.claim).
use tiny_dsv.Base.{
  ℕ, suc, ◌+◌, ◌≤◌, ◌≡◌, ap, subst, true, false, not, ◌&&◌, ◌||◌, List, [], ◌∷◌, length, leb, ◌==◌,
  ==_iff, ==_refl, arith, Bool-cases, inl, inr,
}
use tiny_dsv.Base.Dict.{Dict, insert, erase, lookup-insert}
use tiny_dsv.Base.Sums.{times, flag}
use tiny_dsv.Claims.State.{Job, Answer, Spool, is_file, Reply}
use tiny_dsv.Claims.Jobs.{passes, failure, fail_claim, prepend, unfinished_of, moved}
use tiny_dsv.Claims.Changes.{unfinished_of_lem}

-- The number of claims without an answer.
abbrev pub open_count : Dict Job → Dict Answer → ℕ
open_count [] outbox = 0
open_count ((name, job) ∷ rest) outbox = flag (not (is_file name outbox)) + open_count rest outbox

open_count_mono :
    (files : Dict Job) (o o' : Dict Answer)
    → ((k : ℕ) → is_file k o ≡ true → is_file k o' ≡ true)
    → open_count files o' ≤ open_count files o
open_count_mono [] o o' h = omega arith
open_count_mono ((name, job) ∷ rest) o o' h = elim (Bool-cases (is_file name o)) [
  | inl e ↦ rw (e, h name e) (omega (arith, open_count_mono rest o o' h))
  | inr e ↦ elim (Bool-cases (is_file name o')) [
    | inl x ↦ rw (e, x) (omega (arith, open_count_mono rest o o' h))
    | inr x ↦ rw (e, x) (omega (arith, open_count_mono rest o o' h))
  ]
]

open_count-insert :
    (name : ℕ) (job : Job) (files : Dict Job) (o : Dict Answer)
    → open_count (insert name job files) o ≤ open_count files o + flag (not (is_file name o))
open_count-insert name job [] o = omega arith
open_count-insert name job ((k, j) ∷ rest) o = elim (Bool-cases (k == name)) [
  | inl e ↦ rw e (omega arith)
  | inr e ↦ rw e (omega (arith, open_count-insert name job rest o))
]

pub is_file-insert :
    {A : Type 0} (k j : ℕ) (a : A) (m : Dict A) → is_file j (insert k a m) ≡ (k == j || is_file j m)
is_file-insert k j a m = ground (arith, lookup-insert k j a m)

pub record Inv (s : Spool) : Type 0 where
  pub capacity : open_count s.inflight s.outbox ≤ s.max_inflight
  pub once : (id : ℕ) → times id s.handed ≤ 1
  pub held : (id : ℕ) → is_file id s.inflight ≡ false → times id s.handed ≡ 0

-- There is room for another claim.
pub record Roomy (s : Spool) : Type 0 where
  pub room : suc (open_count s.inflight s.outbox) ≤ s.max_inflight
  pub inv : Inv s

-- More answers.
pub answered-Inv :
    (s : Spool) (o : Dict Answer)
    → ((k : ℕ) → is_file k s.outbox ≡ true → is_file k o ≡ true)
    → Inv s
    → Inv (record s { outbox = o })
answered-Inv s o h v = record {
  capacity = omega (arith, v.capacity, open_count_mono s.inflight s.outbox o h);
  once = v.once;
  held = v.held;
}

pub fail_claim-Inv : (s : Spool) (id message : ℕ) → Inv s → Inv (fail_claim id message s)
unfolding fail_claim
fail_claim-Inv s id message v = elim (Bool-cases (is_file id s.outbox)) [
  | inl e ↦ rw (e, fail_claim) v
  | inr e ↦
      rw (e, fail_claim)
        (answered-Inv s (insert id (failure message) s.outbox)
          (λ k h. ground (arith, is_file-insert id k (failure message) s.outbox)) v)
]

-- A claim that is answered at once: there are more answers, its own among them.
pub expired_lem :
    (P : Spool → Type 0) (s : Spool) (name message : ℕ) (job : Job)
    → ((o : Dict Answer)
        → is_file name o ≡ true
        → ((k : ℕ) → is_file k s.outbox ≡ true → is_file k o ≡ true)
        → P (record (moved name job s) { outbox = o }))
    → P (fail_claim name message (moved name job s))
unfolding fail_claim
expired_lem P s name message job h = elim (Bool-cases (is_file name s.outbox)) [
  | inl e ↦ rw (e, fail_claim) (h s.outbox e (λ k x. x))
  | inr e ↦
      rw (e, fail_claim)
        (h (insert name (failure message) s.outbox)
          (ground (arith, is_file-insert name name (failure message) s.outbox, ==_refl name))
          (λ k x. ground (arith, is_file-insert name k (failure message) s.outbox)))
]

module _ (s : Spool) (name : ℕ) (job : Job) (o : Dict Answer) (own : is_file name o ≡ true)
    (more : (k : ℕ) → is_file k s.outbox ≡ true → is_file k o ≡ true) where
  expired_count : open_count (insert name job s.inflight) o ≤ open_count s.inflight s.outbox
  expired_count = ground (
    arith,
    open_count-insert name job s.inflight o,
    own,
    open_count_mono s.inflight s.outbox o more,
  )

  pub expired-Inv : Inv s → Inv (record (moved name job s) { outbox = o })
  expired-Inv v = record {
    capacity = omega (arith, v.capacity, expired_count);
    once = v.once;
    held = λ k h. v.held k (ground (arith, is_file-insert name k job s.inflight));
  }

  pub expired-Roomy : Roomy s → Roomy (record (moved name job s) { outbox = o })
  expired-Roomy r = record { room = omega (arith, r.room, expired_count); inv = expired-Inv r.inv }

pub handed-Inv :
    (s : Spool) (name : ℕ) (job : Job)
    → Roomy s
    → is_file name s.inflight ≡ false
    → Inv (record s {
      inbox = erase name s.inbox;
      inflight = insert name job s.inflight;
      handed = name ∷ s.handed;
    })
handed-Inv s name job r new = record {
  capacity = ground (arith, r.room, open_count-insert name job s.inflight s.outbox);
  once = λ k. ground (
    arith,
    r.inv.once k,
    r.inv.held name new,
    ==_iff name k,
    λ (e : name ≡ k). ap (λ z. times z s.handed) e,
  );
  held = λ k h. ground (arith, is_file-insert name k job s.inflight, r.inv.held k);
}

-- The scan counts the claims that it leaves without an answer.
abbrev pub Counted : Dict Job → Spool × Reply (List ℕ) → Type 0
Counted files (s, Reply.raised) = Unit
Counted files (s, Reply.gives ids) = open_count files s.outbox ≤ length ids

fail_claim-stays :
    (k : ℕ) (s : Spool) (id message : ℕ)
    → is_file k s.outbox ≡ true
    → is_file k (fail_claim id message s).outbox ≡ true
unfolding fail_claim
fail_claim-stays k s id message h = elim (Bool-cases (is_file id s.outbox)) [
  | inl e ↦ rw (e, fail_claim) h
  | inr e ↦ rw (e, fail_claim) (ground (arith, is_file-insert id k (failure message) s.outbox))
]

fail_claim-own : (s : Spool) (id message : ℕ) → is_file id (fail_claim id message s).outbox ≡ true
unfolding fail_claim
fail_claim-own s id message = elim (Bool-cases (is_file id s.outbox)) [
  | inl e ↦ rw (e, fail_claim) e
  | inr e ↦
      rw (e, fail_claim)
        (ground (arith, is_file-insert id id (failure message) s.outbox, ==_refl id))
]

-- An answer that is there stays.
stays :
    (k now : ℕ) (files : Dict Job) (s : Spool)
    → is_file k s.outbox ≡ true
    → is_file k (unfinished_of now files s).0.outbox ≡ true
stays k now files s h =
    unfinished_of_lem (λ z. is_file k z.outbox ≡ true) (fail_claim-stays k) now files s h

pub unfinished_of-Counted :
    (now : ℕ) (files : Dict Job) (s : Spool) → Counted files (unfinished_of now files s)
unfinished_of-Counted now [] s = omega arith
unfinished_of-Counted now ((name, job) ∷ rest) s = elim (Bool-cases (is_file name s.outbox)) [
  | inl a ↦ rw a (
      known (unfinished_of now rest s) (stays name now rest s a) (unfinished_of-Counted now rest s))
  | inr a ↦ elim (Bool-cases (not (passes now job && job.id == name))) [
    | inl b ↦ rw (a, b) tt
    | inr b ↦ elim (Bool-cases (leb job.deadline now)) [
      | inl d ↦
          rw (a, b, d)
            (known (unfinished_of now rest (fail_claim job.id 1 s))
              (stays name now rest (fail_claim job.id 1 s)
                (given (ground (arith, b, ==_iff job.id name))))
              (unfinished_of-Counted now rest (fail_claim job.id 1 s)))
      | inr d ↦ rw (a, b, d) (another (unfinished_of now rest s) (unfinished_of-Counted now rest s))
    ]
  ]
]
  where
    given : job.id ≡ name → is_file name (fail_claim job.id 1 s).outbox ≡ true
    given e =
        subst (λ z. is_file z (fail_claim job.id 1 s).outbox ≡ true) e (fail_claim-own s job.id 1)

    known :
        (out : Spool × Reply (List ℕ))
        → is_file name out.0.outbox ≡ true
        → Counted rest out
        → Counted ((name, job) ∷ rest) out
    known (z, Reply.raised) h c = tt
    known (z, Reply.gives ids) h c = ground (arith, h, c)

    another :
        (out : Spool × Reply (List ℕ))
        → Counted rest out
        → Counted ((name, job) ∷ rest) (prepend job.id out)
    another (z, Reply.raised) c = tt
    another (z, Reply.gives ids) c = elim (Bool-cases (is_file name z.outbox)) [
      | inl e ↦ rw e (omega (arith, c))
      | inr e ↦ rw e (omega (arith, c))
    ]
