-- ===== src/Relay/Entering.antt =====
-- The admission of a request to a GPU relay, and its start on a journal (RelayState.admit_generation,
-- RelayState.recover), preserve the invariant.
use tiny_dsv.Base.{
  ℕ, suc, ◌≤◌, ◌≡◌, ◌≢◌, refl, ap, sym, ◌∙◌, Bool, true, false, ◌||◌, Option, none, some, [], ◌∷◌,
  length, ◌==◌, ==_ne, arith, Bool-cases, Option-cases, inl, inr, if◌then◌else◌,
}
use tiny_dsv.Base.Dict.{Dict, lookup, Distinct, lookup-insert, insert-Distinct}
use tiny_dsv.Base.Updates.{insert_cases, length-insert_new, lookup-insert_self, lookup-insert_ne}
use tiny_dsv.Base.Sums.{times}
use tiny_dsv.Relay.State.{
  Status, Row, Result, Phase, Worker, Relay, is_occupying, reserved, max_tracked,
}
use tiny_dsv.Relay.Places.{has_place, places-subset, places-add}
use tiny_dsv.Relay.Invariant.{Inv, Runs, is_running, is_under_way}
use tiny_dsv.Relay.Generations.{admitted}
use tiny_dsv.Relay.Threads.{status_after, recovered, recover_all, recover}

module _ {R : Type 0} (s : Relay R) (v : Inv s) where
  module _ (id digest deadline : ℕ) (is_submitted : Bool) (phase : Phase R)
      (new : lookup id s.journal ≡ none) (room : suc (length (reserved s)) ≤ s.max_inflight)
      (rows : suc (length s.journal) ≤ max_tracked) (on : is_under_way phase ≡ true) where
    abbrev s' : Relay R
    s' = admitted id digest deadline is_submitted phase s

    abbrev first_row : Row
    first_row = record {
      status = Status.running;
      boot_id = s.boot_id;
      payload_sha256 = some digest;
      delivery_acknowledged = false;
    }

    abbrev worker : Worker R
    worker = record {
      request_id = id;
      is_submitted = is_submitted;
      phase = phase;
      cancel = false;
      dispatched = false;
      deadline = deadline;
    }

    look : (k : ℕ) → lookup k s'.journal ≡ (if id == k then some first_row else lookup k s.journal)
    look k = lookup-insert id k first_row s.journal

    held :
        (k : ℕ)
        → has_place k s'.journal s.completions ≡ true
        → (id == k || has_place k s.journal s.completions) ≡ true
    held k h = ground (arith, look k)

    old : (k : ℕ) → lookup k s'.journal ≡ none → lookup k s.journal ≡ none
    old k h = ground (arith, look k)

    idle : (c : ℕ) → lookup id s.active ≢ some c
    idle c h = let (r, at, is) = v.runs id c h in ground arith

    unused : (k c : ℕ) → lookup k s.active ≡ some c → s.next_context ≢ c
    unused k c h e = let (x, at, is, on') = v.owned k c h in omega (arith, v.fresh c x at, e)

    pub admitted-Inv : Inv s'
    admitted-Inv = record {
      distinct = insert-Distinct id first_row s.journal v.distinct;
      tracked = omega (arith, rows, length-insert_new id first_row s.journal new);
      entries = v.entries;
      capacity = omega (
        arith,
        room,
        places-add s.journal s'.journal s.completions s.completions v.distinct
            (insert-Distinct id first_row s.journal v.distinct) v.entries id held,
      );
      completed = λ k h. v.completed k (old k h);
      once = v.once;
      known = λ k h. v.known k (old k h);
      working = λ k x h b. elim (insert_cases s.next_context k worker x s.workers h) [
        | inl (e, same) ↦
            ap (λ y. lookup y.request_id s'.active) (sym same)
            ∙ lookup-insert_self id s.next_context s.active
            ∙ ap some e
        | inr (ne, was) ↦
            lookup-insert_ne id x.request_id s.next_context s.active
              (λ e. idle k (ap (λ z. lookup z s.active) e ∙ v.working k x was b))
            ∙ v.working k x was b
      ];
      owned = λ k c h. elim (insert_cases id k s.next_context c s.active h) [
        | inl (e, same) ↦ (
          worker,
          ap (λ z. lookup z s'.workers) (sym same)
              ∙ lookup-insert_self s.next_context worker s.workers,
          e,
          on,
        )
        | inr (ne, was) ↦
            rw (lookup-insert_ne s.next_context c worker s.workers (unused k c was))
              (v.owned k c was)
      ];
      runs = λ k c h. elim (insert_cases id k s.next_context c s.active h) [
        | inl (e, same) ↦ (
          first_row,
          ap (λ z. lookup z s'.journal) (sym e) ∙ lookup-insert_self id first_row s.journal,
          refl,
        )
        | inr (ne, was) ↦ rw (look k, ==_ne id k ne) (v.runs k c was)
      ];
      alive = λ k h. elim (Bool-cases (id == k)) [
        | inl e ↦ (s.next_context, ground (arith, lookup-insert id k s.next_context s.active))
        | inr e ↦
            let (c, z) = v.alive k (let (r0, l, r) = h in (r0, ground (arith, look k), r)) in
            (c, ground (arith, lookup-insert id k s.next_context s.active))
      ];
      unsent = λ k x h b. elim (insert_cases s.next_context k worker x s.workers h) [
        | inl (e, same) ↦ ap (λ y. times y.request_id s.sent) (sym same) ∙ v.known id new
        | inr (ne, was) ↦ v.unsent k x was b
      ];
      fresh = λ k x h. elim (insert_cases s.next_context k worker x s.workers h) [
        | inl (e, same) ↦ omega (arith, e)
        | inr (ne, was) ↦ omega (arith, v.fresh k x was)
      ];
    }

pub lookup-recover_all :
    (k : ℕ) (m : Dict Row)
    → lookup k (recover_all m) ≡ elim (lookup k m) [ none ↦ none | some row ↦ some (recovered row) ]
lookup-recover_all k [] = refl
lookup-recover_all k ((j, row) ∷ m) = elim (Bool-cases (j == k)) [
  | inl e ↦ rw e refl
  | inr e ↦ rw e (lookup-recover_all k m)
]

length-recover_all : (m : Dict Row) → length (recover_all m) ≡ length m
length-recover_all [] = refl
length-recover_all ((j, row) ∷ m) = ap suc (length-recover_all m)

recover_all-Distinct : (m : Dict Row) → Distinct m → Distinct (recover_all m)
recover_all-Distinct [] d = tt
recover_all-Distinct ((j, row) ∷ m) d =
    (ground (arith, lookup-recover_all j m, d.0), recover_all-Distinct m d.1)

status_after-holds : (status : Status) → is_occupying (status_after status) ≡ is_occupying status
status_after-holds Status.running = refl
status_after-holds Status.uncertain = refl
status_after-holds Status.finished = refl
status_after-holds Status.failed = refl
status_after-holds Status.cancelled = refl

status_after-running : (status : Status) → is_running (status_after status) ≡ false
status_after-running Status.running = refl
status_after-running Status.uncertain = refl
status_after-running Status.finished = refl
status_after-running Status.failed = refl
status_after-running Status.cancelled = refl

recovered-held :
    {R : Type 0} (rows : Dict Row) (c : Dict (Option (Result R))) (k : ℕ)
    → has_place {R = R} k (recover_all rows) [] ≡ true
    → has_place k rows c ≡ true
recovered-held rows c k h = elim (Option-cases (lookup k rows)) [
  | inl e ↦ absurd (ground (arith, lookup-recover_all k rows))
  | inr (row, e) ↦ ground (arith, lookup-recover_all k rows, status_after-holds row.status)
]

recovered-none :
    (rows : Dict Row) (k : ℕ) → lookup k (recover_all rows) ≡ none → lookup k rows ≡ none
recovered-none rows k h = elim (Option-cases (lookup k rows)) [
  | inl e ↦ e
  | inr (row, e) ↦ absurd (ground (arith, lookup-recover_all k rows))
]

recovered-idle : (rows : Dict Row) (k : ℕ) → Runs (lookup k (recover_all rows)) → ⊥
recovered-idle rows k (row, l, r) = elim (Option-cases (lookup k rows)) [
  | inl e ↦ ground (arith, lookup-recover_all k rows)
  | inr (old, e) ↦
      let same : recovered old ≡ row = ground (arith, lookup-recover_all k rows) in
      ground (arith, ap (λ z. is_running z.status) same, status_after-running old.status)
]

pub recover-Inv :
    {R : Type 0} (boot_id deadline : ℕ) (s : Relay R) → Inv s → Inv (recover boot_id deadline s)
unfolding recover
recover-Inv boot_id deadline s v = record {
  distinct = recover_all-Distinct s.journal v.distinct;
  tracked = omega (arith, v.tracked, length-recover_all s.journal);
  entries = tt;
  capacity = omega (
    arith,
    v.capacity,
    places-subset s.journal (recover_all s.journal) s.completions [] v.distinct
        (recover_all-Distinct s.journal v.distinct) tt (recovered-held s.journal s.completions),
  );
  completed = λ k h. refl;
  once = v.once;
  known = λ k h. v.known k (recovered-none s.journal k h);
  working = λ k x h b. absurd (ground arith);
  owned = λ k c h. absurd (ground arith);
  runs = λ k c h. absurd (ground arith);
  alive = λ k h. absurd (recovered-idle s.journal k h);
  unsent = λ k x h b. absurd (ground arith);
  fresh = λ k x h. absurd (ground arith);
}
