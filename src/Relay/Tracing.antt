-- ===== src/Relay/Tracing.antt =====
-- The threads of one request of a GPU relay, and its result once it was published (relay_server.py).
use tiny_dsv.Base.{
  ℕ, ◌≡◌, ◌≢◌, refl, ap, sym, ◌∙◌, Bool, false, Option, none, some, ◌==◌, ==_iff, arith, Bool-cases,
  inl, inr,
}
use tiny_dsv.Base.Dict.{Dict, lookup, insert, erase, lookup-insert}
use tiny_dsv.Base.Updates.{insert_cases, erase_cases, lookup-insert_self}
use tiny_dsv.Relay.State.{Status, Row, Result, Phase, Worker, Relay}
use tiny_dsv.Relay.Generations.{admitted}
use tiny_dsv.Relay.Withdrawal.{insert-present}

module _ {R : Type 0} (id : ℕ) where
  -- The result is there and was not acknowledged.
  abbrev pub Waits : Result R → Dict Row → Dict (Option (Result R)) → Type 0
  Waits r rows completions =
      ((row : Row) × (lookup id rows ≡ some row) × (row.delivery_acknowledged ≡ false))
      × (lookup id completions ≡ some (some r))

  -- The request has one thread at most and a record when it has one; when its result `o` was
  -- published, the result waits and no thread is left.
  pub record Traced (o : Option (Result R)) (s : Relay R) : Type 0 where
    pub journaled :
        (t : ℕ) (w : Worker R)
        → lookup t s.workers ≡ some w
        → w.request_id ≡ id
        → (row : Row) × (lookup id s.journal ≡ some row)
    pub sole :
        (t : ℕ) (w : Worker R) (k : ℕ) (u : Worker R)
        → lookup t s.workers ≡ some w
        → w.request_id ≡ id
        → lookup k s.workers ≡ some u
        → u.request_id ≡ id
        → t ≡ k
    pub waits : (r : Result R) → o ≡ some r → Waits r s.journal s.completions
    pub left :
        (r : Result R)
        → o ≡ some r
        → (t : ℕ) (w : Worker R) → lookup t s.workers ≡ some w
        → w.request_id ≢ id

module _ {R : Type 0} (id : ℕ) (o : Option (Result R)) where
  -- Threads change or end, and the records stay.
  threads-Traced :
      (s : Relay R) (workers : Dict (Worker R))
      → Traced id o s
      → ((k : ℕ) (u : Worker R)
          → lookup k workers ≡ some u
          → (w : Worker R) × (lookup k s.workers ≡ some w) × (u.request_id ≡ w.request_id))
      → Traced id o (record s { workers = workers })
  threads-Traced s workers d old = record {
    journaled = λ t w at is. let (x, was, same) = old t w at in d.journaled t x was (sym same ∙ is);
    sole = λ t w k u at is at' is'.
        let (x, was, same) = old t w at in
        let (y, was', same') = old k u at' in
        d.sole t x k y was (sym same ∙ is) was' (sym same' ∙ is');
    waits = d.waits;
    left = λ r e t w at is. let (x, was, same) = old t w at in d.left r e t x was (sym same ∙ is);
  }

  pub replaced-Traced :
      (s : Relay R) (t : ℕ) (w u : Worker R)
      → Traced id o s
      → lookup t s.workers ≡ some w
      → u.request_id ≡ w.request_id
      → Traced id o (record s { workers = insert t u s.workers })
  replaced-Traced s t w u d here same = threads-Traced s (insert t u s.workers) d (λ k x at.
      elim (insert_cases t k u x s.workers at) [
        | inl (e, is) ↦
            (w, ap (λ z. lookup z s.workers) (sym e) ∙ here, sym (ap (λ y. y.request_id) is) ∙ same)
        | inr (ne, was) ↦ (x, was, refl)
      ])

  pub erased-Traced :
      (s : Relay R) (t : ℕ) → Traced id o s → Traced id o (record s { workers = erase t s.workers })
  erased-Traced s t d =
      threads-Traced s (erase t s.workers) d
        (λ k x at. (x, (erase_cases t k x s.workers at).1, refl))

  -- Records and completions change.
  pub recorded-Traced :
      (s : Relay R) (k : ℕ) (row : Row) (active : Dict ℕ) (completions : Dict (Option (Result R)))
      → Traced id o s
      → ((r : Result R)
          → o ≡ some r
          → Waits id r s.journal s.completions
          → Waits id r (insert k row s.journal) completions)
      → Traced id o (record s {
        journal = insert k row s.journal;
        active = active;
        completions = completions;
      })
  recorded-Traced s k row active completions d h = record {
    journaled = λ t w at is. insert-present id k row s.journal (d.journaled t w at is);
    sole = d.sole;
    waits = λ r e. h r e (d.waits r e);
    left = d.left;
  }

  pub completions-Traced :
      (s : Relay R) (completions : Dict (Option (Result R)))
      → Traced id o s
      → ((r : Result R)
          → o ≡ some r
          → lookup id s.completions ≡ some (some r)
          → lookup id completions ≡ some (some r))
      → Traced id o (record s { completions = completions })
  completions-Traced s completions d h = record {
    journaled = d.journaled;
    sole = d.sole;
    waits = λ r e. ((d.waits r e).0, h r e (d.waits r e).1);
    left = d.left;
  }

  -- The record that changes is of another request, or keeps whether it was acknowledged.
  pub insert-Waits :
      (r : Result R) (k : ℕ) (row : Row) (rows : Dict Row) (completions : Dict (Option (Result R)))
      → ((old : Row)
          → lookup k rows ≡ some old
          → row.delivery_acknowledged ≡ old.delivery_acknowledged)
      → Waits id r rows completions
      → Waits id r (insert k row rows) completions
  insert-Waits r k row rows completions h ((old, at, fresh), there) = elim (Bool-cases (k == id)) [
    | inl e ↦ (
      (
        row,
        ground (arith, lookup-insert k id row rows),
        h old (ap (λ z. lookup z rows) ((==_iff k id).0 e) ∙ at) ∙ fresh,
      ),
      there,
    )
    | inr e ↦ ((old, ground (arith, lookup-insert k id row rows), fresh), there)
  ]

  pub admitted-Traced :
      (k digest deadline : ℕ) (is_submitted : Bool) (phase : Phase R) (s : Relay R)
      → Traced id o s
      → lookup k s.journal ≡ none
      → Traced id o (admitted k digest deadline is_submitted phase s)
  admitted-Traced k digest deadline is_submitted phase s d new =
      let u : Worker R = record {
        request_id = k;
        is_submitted = is_submitted;
        phase = phase;
        cancel = false;
        dispatched = false;
        deadline = deadline;
      } in
      let row : Row = record {
        status = Status.running;
        boot_id = s.boot_id;
        payload_sha256 = some digest;
        delivery_acknowledged = false;
      } in
      let unknown : (x : Row) × (lookup id s.journal ≡ some x) → k ≢ id = λ known same.
        let (x, at) = known in ground (arith, new, at, ap (λ z. lookup z s.journal) same) in
      record {
        journaled = λ t w at is. elim (insert_cases s.next_context t u w s.workers at) [
          | inl (e, same) ↦ (
            row,
            ap (λ z. lookup z (insert k row s.journal)) (sym is ∙ sym (ap (λ y. y.request_id) same))
                ∙ lookup-insert_self k row s.journal,
          )
          | inr (ne, was) ↦ insert-present id k row s.journal (d.journaled t w was is)
        ];
        sole = λ t w j x at is at' is'. elim (insert_cases s.next_context t u w s.workers at) [
          | inl (e, same) ↦ elim (insert_cases s.next_context j u x s.workers at') [
            | inl (e', same') ↦ sym e ∙ e'
            | inr (ne', was') ↦
                absurd (unknown (d.journaled j x was' is') (ap (λ y. y.request_id) same ∙ is))
          ]
          | inr (ne, was) ↦ elim (insert_cases s.next_context j u x s.workers at') [
            | inl (e', same') ↦
                absurd (unknown (d.journaled t w was is) (ap (λ y. y.request_id) same' ∙ is'))
            | inr (ne', was') ↦ d.sole t w j x was is was' is'
          ]
        ];
        waits = λ r e.
            insert-Waits r k row s.journal s.completions
              (λ old at. absurd (ground (arith, new, at))) (d.waits r e);
        left = λ r e t w at is. elim (insert_cases s.next_context t u w s.workers at) [
          | inl (q, same) ↦
              let ((old, here, fresh), there) = d.waits r e in
              unknown (old, here) (ap (λ y. y.request_id) same ∙ is)
          | inr (ne, was) ↦ d.left r e t w was is
        ];
      }
