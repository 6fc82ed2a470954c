-- ===== src/Transport/Evidence.antt =====
-- No request is sent twice, and the ledger knows what is uncertain.
use tiny_dsv.Base.{
  ℕ, ◌+◌, ◌≤◌, ◌≡◌, refl, ap, sym, ◌∙◌, Bool, true, false, not, ◌&&◌, ◌||◌, Option, none, some, [],
  ◌∷◌, ◌++◌, contains, ◌==◌, ==_iff, ==_refl, arith, Bool-cases, inl, inr, if◌then◌else◌,
}
use tiny_dsv.Base.Dict.{Dict, lookup, insert, lookup-insert}
use tiny_dsv.Base.Sums.{times, flag, sum_of-append}
use tiny_dsv.Transport.State.{
  Stage, dispatching, not_dispatched, response_received, Answer, result, failure, Entry, Binding,
  Transport,
}
use tiny_dsv.Transport.Calls.{
  World, Write, missed, replaced, stored, is_stored, reject, Ending, request_failed,
  response_evidence, ledger_claim, returned, count_turn, add_trace, take_evidence, settle, dispatch,
  with_outcome, failed_stage, doubt, update,
}

-- A known outcome is a response, or the answer that the request was not dispatched.
abbrev pub is_settled : Answer → Stage → Bool
is_settled result response_received = true
is_settled (failure (some false)) not_dispatched = true
is_settled _ _ = false

-- The entry says that the request is uncertain unless the answer has settled it.
abbrev pub is_honest : Answer → Entry → Bool
is_honest a e = elim e.uncertain [ none ↦ false | some u ↦ u || is_settled a e.stage ]

abbrev pub agrees : Option Answer → Option Entry → Bool
agrees none e = false
agrees (some a) none = false
agrees (some a) (some e) = is_honest a e

abbrev pub knows : ℕ → Dict Answer → Dict Entry → Bool
knows k answers entries = agrees (lookup k answers) (lookup k entries)

pub record Inv (t : Transport) : Type 0 where
  pub once : (k : ℕ) → times k t.sent ≤ 1
  pub exclusive : (k : ℕ) → 1 ≤ times k t.sent → contains k t.claims ≡ true
  -- What was sent is recorded, as uncertain unless its answer has settled it.
  pub recorded : (k : ℕ) → 1 ≤ times k t.sent → knows k t.answers t.entries ≡ true

pub knows-insert :
    (id k : ℕ) (e : Entry) (answers : Dict Answer) (entries : Dict Entry)
    → knows k answers (insert id e entries)
      ≡ (if id == k then agrees (lookup k answers) (some e) else knows k answers entries)
knows-insert id k e answers entries = elim (Bool-cases (id == k)) [
  | inl c ↦ rw (knows, lookup-insert id k e entries, c) refl
  | inr c ↦ rw (knows, lookup-insert id k e entries, c) refl
]

knows-insert_both :
    (id k : ℕ) (a : Answer) (e : Entry) (answers : Dict Answer) (entries : Dict Entry)
    → knows k (insert id a answers) (insert id e entries)
      ≡ (if id == k then is_honest a e else knows k answers entries)
knows-insert_both id k a e answers entries = elim (Bool-cases (id == k)) [
  | inl c ↦ rw (knows, lookup-insert id k e entries, lookup-insert id k a answers, c) refl
  | inr c ↦ rw (knows, lookup-insert id k e entries, lookup-insert id k a answers, c) refl
]

put-Inv :
    (id : ℕ) (e : Entry) (t : Transport)
    → (1 ≤ times id t.sent → agrees (lookup id t.answers) (some e) ≡ true)
    → Inv t
    → Inv (record t { entries = insert id e t.entries })
put-Inv id e t h v = record {
  once = v.once;
  exclusive = v.exclusive;
  recorded = λ k s. knows-insert id k e t.answers t.entries ∙ elim (Bool-cases (id == k)) [
    | inl c ↦
        let same : id ≡ k = (==_iff id k).0 c in
        rw c (
          ap (λ z. agrees (lookup z t.answers) (some e)) (sym same)
          ∙ h (omega (arith, s, ap (λ z. times z t.sent) same)))
    | inr c ↦ rw c (v.recorded k s)
  ];
}

update-Inv :
    (disk : Write) (id : ℕ) (e : Entry) (t : Transport)
    → (1 ≤ times id t.sent → agrees (lookup id t.answers) (some e) ≡ true)
    → Inv t
    → Inv (update disk id e t)
update-Inv missed id e t h v = v
update-Inv replaced id e t h v = put-Inv id e t h v
update-Inv stored id e t h v = put-Inv id e t h v

update-answers :
    (disk : Write) (id : ℕ) (e : Entry) (t : Transport) → (update disk id e t).answers ≡ t.answers
update-answers missed id e t = refl
update-answers replaced id e t = refl
update-answers stored id e t = refl

known :
    (id : ℕ) (a : Answer) (e : Entry) (t : Transport)
    → lookup id t.answers ≡ some a
    → is_honest a e ≡ true
    → 1 ≤ times id t.sent
    → agrees (lookup id t.answers) (some e) ≡ true
known id a e t at h s = ap (λ o. agrees o (some e)) at ∙ h

count_turn-Inv : (b : Option (ℕ × Binding)) (t : Transport) → Inv t → Inv (count_turn b t)
count_turn-Inv none t v = v
count_turn-Inv (some (trial, b)) t v = record {
  once = v.once;
  exclusive = v.exclusive;
  recorded = v.recorded;
}

add_trace-Inv :
    (trace : ℕ) (b : Option (ℕ × Binding)) (t : Transport) → Inv t → Inv (add_trace trace b t)
add_trace-Inv trace none t v = record {
  once = v.once;
  exclusive = v.exclusive;
  recorded = v.recorded;
}
add_trace-Inv trace (some (trial, b)) t v = record {
  once = v.once;
  exclusive = v.exclusive;
  recorded = v.recorded;
}

reject-Inv :
    (w : World) (id : ℕ) (a : Answer) (e : Entry) (t : Transport)
    → lookup id t.answers ≡ some a
    → is_honest a e ≡ true
    → Inv t
    → Inv (reject w id e t)
reject-Inv w id a e t at h v = go w.evidence_ok
  where
    seen : Bool → Entry
    seen ok = record e { training_evidence = some ok }

    go :
        (ok : Bool)
        → Inv (
            update w.rejection_disk id
              (seen false)
              (if ok then update w.evidence_disk id (seen true) t else t))
    go false = update-Inv w.rejection_disk id (seen false) t (known id a (seen false) t at h) v
    go true =
        let t' : Transport = update w.evidence_disk id (seen true) t in
        update-Inv w.rejection_disk id (seen false) t'
          (known id a (seen false) t'
            (ap (λ z. lookup id z) (update-answers w.evidence_disk id (seen true) t) ∙ at) h)
          (update-Inv w.evidence_disk id (seen true) t (known id a (seen true) t at h) v)

take_evidence-Inv :
    (w : World) (id : ℕ) (b : Option (ℕ × Binding)) (a : Answer) (e : Entry) (t : Transport)
    → lookup id t.answers ≡ some a
    → is_honest a e ≡ true
    → Inv t
    → Inv (take_evidence w id b e t).0
unfolding take_evidence
take_evidence-Inv w id b a e t at h v = go w.is_trained (w.evidence_ok && is_stored w.evidence_disk)
  where
    seen : Entry
    seen = record e { training_evidence = some true }

    turn_answers : (c : Option (ℕ × Binding)) → lookup id (count_turn c t).answers ≡ some a
    turn_answers none = at
    turn_answers (some (trial, c)) = at

    go :
        (trained fine : Bool)
        → Inv
            (let out : Transport × Ending =
                (if not trained
                  then (t, returned)
                  else (if fine
                      then (add_trace w.trace b (update stored id seen (count_turn b t)), returned)
                      else (reject w id e (count_turn b t), Ending.training_evidence))) in
              out).0
    go false fine = v
    go true true = add_trace-Inv w.trace b (update stored id seen (count_turn b t)) (
        update-Inv stored id seen (count_turn b t)
          (known id a seen (count_turn b t) (turn_answers b) h) (count_turn-Inv b t v))
    go true false = reject-Inv w id a e (count_turn b t) (turn_answers b) h (count_turn-Inv b t v)

settle-Inv :
    (w : World) (id : ℕ) (b : Option (ℕ × Binding)) (e : Entry) (t : Transport)
    → lookup id t.answers ≡ some w.answer
    → Inv t
    → Inv (settle w id b e t).0
unfolding settle
settle-Inv w id b e t at v = go w.answer at (is_stored w.outcome_disk)
  where
    final : Entry
    final = record (with_outcome response_received false e) { acknowledged = true }

    honest :
        (f : Option Bool)
        → is_honest (failure f) (with_outcome (failed_stage (doubt f)) (doubt f) e) ≡ true
    honest none = refl
    honest (some true) = refl
    honest (some false) = refl

    go :
        (a : Answer)
        → lookup id t.answers ≡ some a
        → (ok : Bool)
        → Inv
            (let out : Transport × Ending = elim a [
              | failure f ↦ (
                update w.outcome_disk id (with_outcome (failed_stage (doubt f)) (doubt f) e) t,
                request_failed,
              )
              | result ↦
                  if ok
                  then take_evidence w id b final (update w.outcome_disk id final t)
                  else (update w.outcome_disk id final t, response_evidence)
            ] in
              out).0
    go (failure f) here ok =
        let e' : Entry = with_outcome (failed_stage (doubt f)) (doubt f) e in
        update-Inv w.outcome_disk id e' t (known id (failure f) e' t here (honest f)) v
    go result here true =
        take_evidence-Inv w id b result final (update w.outcome_disk id final t)
          (ap (λ z. lookup id z) (update-answers w.outcome_disk id final t) ∙ here) refl
          (update-Inv w.outcome_disk id final t (known id result final t here refl) v)
    go result here false =
        update-Inv w.outcome_disk id final t (known id result final t here refl) v

pub dispatch-Inv :
    (w : World) (id : ℕ) (b : Option (ℕ × Binding)) (e : Entry) (t : Transport)
    → contains id t.claims ≡ true
    → times id t.sent ≡ 0
    → Inv t
    → Inv (dispatch w id b e t).0
unfolding dispatch
dispatch-Inv w id b e t mine fresh v = go (is_stored w.dispatch_disk)
  where
    next : Transport
    next = record t {
      entries = insert id (with_outcome dispatching true e) t.entries;
      sent = t.sent ++ id ∷ [];
      answers = insert id w.answer t.answers;
    }

    more : (k : ℕ) → times k next.sent ≡ times k t.sent + flag (id == k)
    more k = sum_of-append (λ i. flag (i == k)) t.sent id

    sent : Inv next
    sent = record {
      once = λ k. elim (Bool-cases (id == k)) [
        | inl c ↦
            omega (arith, more k, ap flag c, fresh, ap (λ z. times z t.sent) ((==_iff id k).0 c))
        | inr c ↦ omega (arith, more k, ap flag c, v.once k)
      ];
      exclusive = λ k s. elim (Bool-cases (id == k)) [
        | inl c ↦ ap (λ z. contains z t.claims) (sym ((==_iff id k).0 c)) ∙ mine
        | inr c ↦ v.exclusive k (omega (arith, s, more k, ap flag c))
      ];
      recorded = λ k s.
          knows-insert_both id k w.answer (with_outcome dispatching true e) t.answers t.entries
          ∙ elim (Bool-cases (id == k)) [
            | inl c ↦ rw c refl
            | inr c ↦ rw c (v.recorded k (omega (arith, s, more k, ap flag c)))
          ];
    }

    go :
        (ok : Bool)
        → Inv
            (let out : Transport × Ending =
                (if ok then settle w id b (with_outcome dispatching true e) next else (
                  update w.dispatch_disk id (with_outcome dispatching true e) t,
                  ledger_claim,
                )) in
              out).0
    go false =
        update-Inv w.dispatch_disk id (with_outcome dispatching true e) t
          (λ s. absurd (omega (arith, s, fresh))) v
    go true =
        settle-Inv w id b (with_outcome dispatching true e) next
          (lookup-insert id id w.answer t.answers ∙ rw (==_refl id) refl) sent
