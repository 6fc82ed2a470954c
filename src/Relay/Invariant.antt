-- ===== src/Relay/Invariant.antt =====
-- The invariant of the GPU side of a relay (relay_server.py), and its preservation by the changes of
-- the state that the commands and threads are made of.
use tiny_dsv.Base.{
  ℕ, ◌≤◌, ◌<◌, ◌≡◌, ◌≢◌, ◌⊎◌, refl, ap, ◌∙◌, subst, Bool, true, false, Option, none, some, length,
  ◌==◌, ==_iff, ==_ne, arith, Bool-cases, Option-cases, inl, inr, if◌then◌else◌,
}
use tiny_dsv.Base.Dict.{
  Dict, lookup, insert, erase, Distinct, lookup-insert, lookup-erase, insert-Distinct,
}
use tiny_dsv.Base.Updates.{erase_cases, length-insert_old, lookup-erase_ne}
use tiny_dsv.Base.Sums.{times}
use tiny_dsv.Relay.State.{
  Status, Row, Result, Phase, Worker, Relay, is_occupying, reserved, max_tracked,
}
use tiny_dsv.Relay.Places.{is_some, has_place, places-subset}

abbrev pub is_running : Status → Bool
is_running Status.running = true
is_running _ = false

-- The thread has not finished its record.
abbrev pub is_under_way : {R : Type 0} → Phase R → Bool
is_under_way (Phase.answered r) = false
is_under_way _ = true

-- The request has a record that is running.
abbrev pub Runs : Option Row → Type 0
Runs o = (row : Row) × (o ≡ some row) × (is_running row.status ≡ true)

pub occupying_of_running : (status : Status) → is_running status ≡ true → is_occupying status ≡ true
occupying_of_running Status.running h = refl
occupying_of_running Status.uncertain h = refl
occupying_of_running Status.finished h = h
occupying_of_running Status.failed h = h
occupying_of_running Status.cancelled h = h

module _ {R : Type 0} where
  abbrev pub Serves : ℕ → Option (Worker R) → Type 0
  Serves id o = (w : Worker R) × (o ≡ some w) × (w.request_id ≡ id) × (is_under_way w.phase ≡ true)

  pub record Inv (s : Relay R) : Type 0 where
    pub distinct : Distinct s.journal
    pub tracked : length s.journal ≤ max_tracked
    pub entries : Distinct s.completions
    pub capacity : length (reserved s) ≤ s.max_inflight
    pub completed : (id : ℕ) → lookup id s.journal ≡ none → lookup id s.completions ≡ none
    pub once : (id : ℕ) → times id s.sent ≤ 1
    pub known : (id : ℕ) → lookup id s.journal ≡ none → times id s.sent ≡ 0
    pub working :
        (t : ℕ) (w : Worker R)
        → lookup t s.workers ≡ some w
        → is_under_way w.phase ≡ true
        → lookup w.request_id s.active ≡ some t
    pub owned : (id t : ℕ) → lookup id s.active ≡ some t → Serves id (lookup t s.workers)
    pub runs : (id t : ℕ) → lookup id s.active ≡ some t → Runs (lookup id s.journal)
    pub alive : (id : ℕ) → Runs (lookup id s.journal) → (t : ℕ) × (lookup id s.active ≡ some t)
    pub unsent :
        (t : ℕ) (w : Worker R)
        → lookup t s.workers ≡ some w
        → w.phase ≡ Phase.connecting
        → times w.request_id s.sent ≡ 0
    pub fresh : (t : ℕ) (w : Worker R) → lookup t s.workers ≡ some w → t < s.next_context

  -- A thread finishes the record of its request: `workers` are those that are left.
  module _ (s : Relay R) (v : Inv s) (t : ℕ) (w : Worker R) (here : lookup t s.workers ≡ some w)
      (busy : is_under_way w.phase ≡ true) (status : Status) (over : is_running status ≡ false)
      (row : Row) (mine : lookup w.request_id s.journal ≡ some row)
      (still : is_running row.status ≡ true) (workers : Dict (Worker R))
      (completions : Dict (Option (Result R)))
      (left : (k : ℕ) (u : Worker R)
        → lookup k workers ≡ some u
        → (k < s.next_context)
          × ((is_under_way u.phase ≡ false) ⊎ ((k ≢ t) × (lookup k s.workers ≡ some u))))
      (others : (k : ℕ) → k ≢ t → lookup k workers ≡ lookup k s.workers)
      (entries : Distinct completions)
      (fewer : (k : ℕ)
        → is_some (lookup k completions) ≡ true
        → is_some (lookup k s.completions) ≡ true) where
    abbrev pub finished : Relay R
    finished = record s {
      journal = insert w.request_id (record row { status = status }) s.journal;
      active = erase w.request_id s.active;
      workers = workers;
      completions = completions;
    }

    abbrev row' : Row
    row' = record row { status = status }

    look :
        (k : ℕ)
        → lookup k finished.journal ≡ (if w.request_id == k then some row' else lookup k s.journal)
    look k = lookup-insert w.request_id k row' s.journal

    owner :
        (k c : ℕ)
        → lookup k finished.active ≡ some c
        → (w.request_id ≢ k) × (lookup k s.active ≡ some c)
    owner k c h = erase_cases w.request_id k c s.active h

    at : (k : ℕ) → (w.request_id == k) ≡ true → lookup k s.journal ≡ some row
    at k e = subst (λ z. lookup z s.journal ≡ some row) ((==_iff w.request_id k).0 e) mine

    held :
        (k : ℕ)
        → has_place k finished.journal completions ≡ true
        → has_place k s.journal s.completions ≡ true
    held k h = elim (Bool-cases (w.request_id == k)) [
      | inl e ↦ rw (at k e, occupying_of_running row.status still) refl
      | inr e ↦ ground (arith, look k, fewer k)
    ]

    apart : (k c : ℕ) → w.request_id ≢ k → lookup k s.active ≡ some c → c ≢ t
    apart k c ne h e = let (u, at, is, on) = v.owned k c h in ne (ground arith)

    pub finished-Inv : Inv finished
    finished-Inv = record {
      distinct = insert-Distinct w.request_id row' s.journal v.distinct;
      tracked = omega (arith, v.tracked, length-insert_old w.request_id row' row s.journal mine);
      entries = entries;
      capacity = omega (
        arith,
        v.capacity,
        places-subset s.journal finished.journal s.completions completions v.distinct
            (insert-Distinct w.request_id row' s.journal v.distinct) entries held,
      );
      completed = λ k h. elim (Option-cases (lookup k completions)) [
        | inl e ↦ e
        | inr (x, e) ↦ absurd (ground (arith, look k, fewer k, v.completed k, ap is_some e))
      ];
      once = v.once;
      known = λ k h. ground (arith, v.known k, look k);
      working = λ k u h b. elim ((left k u h).1) [
        | inl e ↦ absurd (ground arith)
        | inr (ne, was) ↦
            lookup-erase_ne w.request_id u.request_id s.active (λ e. ne (
              ground (
                arith,
                v.working k u was b,
                v.working t w here busy,
                ap (λ z. lookup z s.active) e,
              )))
            ∙ v.working k u was b
      ];
      owned = λ k c h.
          let (ne, was) = owner k c h in rw (others c (apart k c ne was)) (v.owned k c was);
      runs = λ k c h.
          let (ne, was) = owner k c h in rw (look k, ==_ne w.request_id k ne) (v.runs k c was);
      alive = λ k h. elim (Bool-cases (w.request_id == k)) [
        | inl e ↦ absurd (let (row0, l, r) = h in ground (arith, look k))
        | inr e ↦
            let (row0, l, r) = h in
            let (c, z) = v.alive k (row0, ground (arith, look k), r) in
            (c, ground (arith, lookup-erase w.request_id k s.active))
      ];
      unsent = λ k u h b. elim ((left k u h).1) [
        | inl e ↦ absurd (ground (arith, ap is_under_way b))
        | inr (ne, was) ↦ v.unsent k u was b
      ];
      fresh = λ k u h. (left k u h).0;
    }
