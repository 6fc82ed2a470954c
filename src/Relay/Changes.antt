-- ===== src/Relay/Changes.antt =====
-- Further changes of the GPU side of a relay (relay_server.py) that preserve its invariant.
use tiny_dsv.Base.{
  ℕ, ◌≤◌, ◌<◌, ◌≡◌, ◌≢◌, ap, sym, ◌∙◌, subst, Bool, true, false, Option, none, some, ◌∷◌, length,
  ◌==◌, ==_iff, arith, Bool-cases, inl, inr,
}
use tiny_dsv.Base.Dict.{Dict, lookup, insert, erase, Distinct, lookup-insert}
use tiny_dsv.Base.Updates.{insert_cases, erase_cases, lookup-erase_ne}
use tiny_dsv.Base.Sums.{times}
use tiny_dsv.Relay.State.{Row, Result, Phase, Worker, Relay, max_tracked}
use tiny_dsv.Relay.Places.{has_place, places-subset}
use tiny_dsv.Relay.Invariant.{Inv, Runs, is_under_way}

abbrev pub is_connecting : {R : Type 0} → Phase R → Bool
is_connecting Phase.connecting = true
is_connecting _ = false

module _ {R : Type 0} (s : Relay R) (v : Inv s) where
  -- Records and completions change, and no thread is concerned.
  module _ (rows : Dict Row) (completions : Dict (Option (Result R))) (distinct : Distinct rows)
      (tracked : length rows ≤ max_tracked) (entries : Distinct completions)
      (same : (k : ℕ) → Runs (lookup k rows) → Runs (lookup k s.journal))
      (still : (k : ℕ) → Runs (lookup k s.journal) → Runs (lookup k rows))
      (kept : (k : ℕ)
        → lookup k rows ≡ none
        → (lookup k s.journal ≡ none) × (lookup k completions ≡ none))
      (held : (k : ℕ)
        → has_place k rows completions ≡ true
        → has_place k s.journal s.completions ≡ true) where
    pub recorded-Inv : Inv (record s { journal = rows; completions = completions })
    recorded-Inv = record {
      distinct = distinct;
      tracked = tracked;
      entries = entries;
      capacity = omega (
        arith,
        v.capacity,
        places-subset s.journal rows s.completions completions v.distinct distinct entries held,
      );
      completed = λ k h. (kept k h).1;
      once = v.once;
      known = λ k h. v.known k (kept k h).0;
      working = v.working;
      owned = v.owned;
      runs = λ k t h. still k (v.runs k t h);
      alive = λ k h. v.alive k (same k h);
      unsent = v.unsent;
      fresh = v.fresh;
    }

  -- A thread changes without finishing its record.
  module _ (t : ℕ) (w u : Worker R) (here : lookup t s.workers ≡ some w)
      (id : u.request_id ≡ w.request_id) (on : is_under_way u.phase ≡ is_under_way w.phase)
      (later : u.phase ≡ Phase.connecting → w.phase ≡ Phase.connecting) where
    moved : (x : Worker R) → u ≡ x → x.request_id ≡ w.request_id
    moved x e = sym (ap (λ y. y.request_id) e) ∙ id

    pub replaced-Inv : Inv (record s { workers = insert t u s.workers })
    replaced-Inv = record {
      distinct = v.distinct;
      tracked = v.tracked;
      entries = v.entries;
      capacity = v.capacity;
      completed = v.completed;
      once = v.once;
      known = v.known;
      working = λ k x h b. elim (insert_cases t k u x s.workers h) [
        | inl (e, same) ↦
            ap (λ z. lookup z s.active) (moved x same)
            ∙ v.working t w here (sym on ∙ ap (λ y. is_under_way y.phase) same ∙ b)
            ∙ ap some e
        | inr (ne, was) ↦ v.working k x was b
      ];
      owned = λ k c h.
          let (x, at, is, busy) = v.owned k c h in
          elim (Bool-cases (t == c)) [
            | inl e ↦
                let same : w ≡ x = ground (arith, here, at, e) in
                (
                  u,
                  ground (arith, lookup-insert t c u s.workers),
                  id ∙ ap (λ y. y.request_id) same ∙ is,
                  on ∙ ap (λ y. is_under_way y.phase) same ∙ busy,
                )
            | inr e ↦ (x, ground (arith, lookup-insert t c u s.workers), is, busy)
          ];
      runs = v.runs;
      alive = v.alive;
      unsent = λ k x h b. elim (insert_cases t k u x s.workers h) [
        | inl (e, same) ↦
            ap (λ z. times z s.sent) (moved x same)
            ∙ v.unsent t w here (later (ap (λ y. y.phase) same ∙ b))
        | inr (ne, was) ↦ v.unsent k x was b
      ];
      fresh = λ k x h. elim (insert_cases t k u x s.workers h) [
        | inl (e, same) ↦ subst (λ z. z < s.next_context) e (v.fresh t w here)
        | inr (ne, was) ↦ v.fresh k x was
      ];
    }

  -- A thread that has dispatched its request.
  module _ (t : ℕ) (w : Worker R) (here : lookup t s.workers ≡ some w)
      (phase : w.phase ≡ Phase.waiting) (new : times w.request_id s.sent ≡ 0) where
    busy : is_under_way w.phase ≡ true
    busy = ap is_under_way phase

    recorded : (k : ℕ) → w.request_id ≡ k → lookup k s.journal ≢ none
    recorded k e h =
        let (row, at, is) = v.runs w.request_id t (v.working t w here busy) in
        absurd (ground (arith, ap (λ z. lookup z s.journal) e))

    other :
        (k : ℕ) (x : Worker R)
        → lookup k s.workers ≡ some x
        → x.phase ≡ Phase.connecting
        → w.request_id ≢ x.request_id
    other k x h b e =
        let same : k ≡ t = ground (
          arith,
          v.working k x h (ap is_under_way b),
          v.working t w here busy,
          ap (λ z. lookup z s.active) e,
        ) in
        let eq : w ≡ x = ground (arith, here, h, ap (λ z. lookup z s.workers) same) in
        absurd (ground (arith, ap is_connecting (sym phase ∙ ap (λ y. y.phase) eq ∙ b)))

    pub sent-Inv : Inv (record s { sent = w.request_id ∷ s.sent })
    sent-Inv = record {
      distinct = v.distinct;
      tracked = v.tracked;
      entries = v.entries;
      capacity = v.capacity;
      completed = v.completed;
      once = λ k. ground (
        arith,
        v.once k,
        λ (e : w.request_id ≡ k). ap (λ z. times z s.sent) e,
        ==_iff w.request_id k,
      );
      known = λ k h.
          ground
            (arith, v.known k h, λ (e : w.request_id ≡ k). recorded k e h, ==_iff w.request_id k);
      working = v.working;
      owned = v.owned;
      runs = v.runs;
      alive = v.alive;
      unsent = λ k x h b.
          ground (arith, v.unsent k x h b, other k x h b, ==_iff w.request_id x.request_id);
      fresh = v.fresh;
    }

  -- A thread that has finished its record ends.
  module _ (t : ℕ) (w : Worker R) (here : lookup t s.workers ≡ some w)
      (over : is_under_way w.phase ≡ false) where
    pub erased-Inv : Inv (record s { workers = erase t s.workers })
    erased-Inv = record {
      distinct = v.distinct;
      tracked = v.tracked;
      entries = v.entries;
      capacity = v.capacity;
      completed = v.completed;
      once = v.once;
      known = v.known;
      working = λ k x h b. v.working k x (erase_cases t k x s.workers h).1 b;
      owned = λ k c h.
          let (x, at, is, busy) = v.owned k c h in
          (
            x,
            lookup-erase_ne t c s.workers
                  (λ e. ground (arith, here, at, ap (λ z. lookup z s.workers) e))
                ∙ at,
            is,
            busy,
          );
      runs = v.runs;
      alive = v.alive;
      unsent = λ k x h b. v.unsent k x (erase_cases t k x s.workers h).1 b;
      fresh = λ k x h. v.fresh k x (erase_cases t k x s.workers h).1;
    }
