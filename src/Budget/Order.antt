-- ===== src/Budget/Order.antt =====
-- A ByteBudget admits in the order of the queue (rollout_manager/host_memory.py).
use tiny_dsv.Base.{
  ℕ, ◌+◌, ◌≡◌, refl, ap, sym, ◌∙◌, subst, Bool, true, false, not, ◌&&◌, ◌||◌, Option, none, some,
  List, [], ◌∷◌, ◌++◌, leb, ltb, ◌==◌, ==_iff, if◌then◌else◌, arith, Bool-cases, Option-cases, inl,
  inr,
}
use tiny_dsv.Base.Dict.{lookup, insert, erase, keys}
use tiny_dsv.Budget.State.{
  Budget, used, new_budget, is_waiting, is_allocated, enqueue, without, cancel, entry_of, Turn,
  is_head, tail, acquire, quarantine, release, Event, enter, after_turn, leave, step, run,
}
use tiny_dsv.Budget.Sublists.{Sublist, Sublist-refl, Sublist-trans, Sublist-append, Sublist-prefix}

-- The admitted keys and then the waiting ones, in the order in which they were enqueued.
abbrev Ordered : Budget → Type 0
Ordered b = Sublist (b.admitted ++ keys b.waiting) b.enqueued

without-Sublist : (key : ℕ) (xs : List (ℕ × ℕ)) → Sublist (keys (without key xs)) (keys xs)
without-Sublist key [] = Sublist.done
without-Sublist key ((k, n) ∷ rest) = elim (Bool-cases (k == key)) [
  | inl e ↦ rw e (Sublist.skip (without-Sublist key rest))
  | inr e ↦ rw e (Sublist.keep (without-Sublist key rest))
]

cancel-Ordered : (key : ℕ) (b : Budget) → Ordered b → Ordered (cancel key b)
unfolding cancel
cancel-Ordered key b v =
    Sublist-trans (Sublist-append (Sublist-refl b.admitted) (without-Sublist key b.waiting)) v

append_assoc : (xs ys zs : List ℕ) → (xs ++ ys) ++ zs ≡ xs ++ (ys ++ zs)
append_assoc [] ys zs = refl
append_assoc (x ∷ xs) ys zs = ap (λ l. x ∷ l) (append_assoc xs ys zs)

keys-append : (xs ys : List (ℕ × ℕ)) → keys (xs ++ ys) ≡ keys xs ++ keys ys
keys-append [] ys = refl
keys-append (x ∷ xs) ys = ap (λ l. x.0 ∷ l) (keys-append xs ys)

enter-Ordered : (key size : ℕ) (b : Budget) → Ordered b → Ordered (enter key size b)
unfolding enqueue
enter-Ordered key size b v =
    go (not (ltb 0 size && leb size b.capacity)) (is_allocated key b || is_waiting key b.waiting)
  where
    go :
        (x y : Bool)
        → Ordered (
            let out : Option Budget =
              if x
              then none
              else if y
              then none
              else some (record b {
                waiting = b.waiting ++ (key, size) ∷ [];
                enqueued = b.enqueued ++ key ∷ [];
              }) in
            elim out [ none ↦ cancel key b | some b' ↦ b' ])
    go true y = cancel-Ordered key b v
    go false true = cancel-Ordered key b v
    go false false =
        subst (λ l. Sublist l (b.enqueued ++ key ∷ []))
          (append_assoc b.admitted (keys b.waiting) (key ∷ [])
            ∙ ap (λ l. b.admitted ++ l) (sym (keys-append b.waiting ((key, size) ∷ []))))
          (Sublist-append v (Sublist-refl (key ∷ [])))

-- The head of the queue moves to the admitted keys.
moved :
    (key size : ℕ) (waiting : List (ℕ × ℕ))
    → is_head key size waiting ≡ true
    → keys waiting ≡ key ∷ keys (tail waiting)
moved key size [] h = absurd (ground arith)
moved key size ((k, n) ∷ rest) h = ap (λ z. z ∷ keys rest) ((==_iff k key).0 (ground arith))

acquire-Ordered :
    (key : ℕ) (is_cancelled : Bool) (b : Budget)
    → Ordered b
    → Ordered (acquire key is_cancelled b).0
unfolding acquire
acquire-Ordered key true b v = cancel-Ordered key b v
acquire-Ordered key false b v = go (entry_of key b.waiting)
  where
    take_it :
        (size : ℕ) (x : Bool)
        → (is_head key size b.waiting && leb (used b + size) b.capacity) ≡ x
        → Ordered
            (let out : Budget × Turn =
                if x
                then (
                  record b {
                    waiting = tail b.waiting;
                    allocations =
                        insert key (record { bytes = size; is_quarantined = false }) b.allocations;
                    admitted = b.admitted ++ key ∷ [];
                  },
                  Turn.admits,
                )
                else (b, Turn.waits) in
              out).0
    take_it size false e = v
    take_it size true e =
        subst (λ l. Sublist l b.enqueued)
          (ap (λ l. b.admitted ++ l) (moved key size b.waiting (ground arith))
            ∙ sym (append_assoc b.admitted (key ∷ []) (keys (tail b.waiting))))
          v

    go :
        (o : Option ℕ)
        → Ordered
            (let out : Budget × Turn = elim o [
              | none ↦ (b, Turn.cancelled)
              | some size ↦
                  if is_head key size b.waiting && leb (used b + size) b.capacity
                  then (
                    record b {
                      waiting = tail b.waiting;
                      allocations =
                          insert key
                            (record { bytes = size; is_quarantined = false })
                            b.allocations;
                      admitted = b.admitted ++ key ∷ [];
                    },
                    Turn.admits,
                  )
                  else (b, Turn.waits)
            ] in
              out).0
    go none = v
    go (some size) =
        take_it size (is_head key size b.waiting && leb (used b + size) b.capacity) refl

leave_quarantined-Ordered : (key : ℕ) (b : Budget) → Ordered b → Ordered (leave key true b)
unfolding quarantine
leave_quarantined-Ordered key b v = elim (Option-cases (lookup key b.allocations)) [
  | inl e ↦ rw (e, leave, quarantine) v
  | inr (a, e) ↦ rw (e, leave, quarantine) v
]

after_turn-Ordered : (key : ℕ) (out : Budget × Turn) → Ordered out.0 → Ordered (after_turn key out)
after_turn-Ordered key (b, Turn.cancelled) v = cancel-Ordered key b v
after_turn-Ordered key (b, Turn.waits) v = v
after_turn-Ordered key (b, Turn.admits) v = v

step-Ordered : (e : Event) (b : Budget) → Ordered b → Ordered (step e b)
unfolding release
step-Ordered (Event.enters key size) b v = enter-Ordered key size b v
step-Ordered (Event.turns key c) b v =
    after_turn-Ordered key (acquire key c b) (acquire-Ordered key c b v)
step-Ordered (Event.leaves key true) b v = leave_quarantined-Ordered key b v
step-Ordered (Event.leaves key false) b v =
    cancel-Ordered key (record b { allocations = erase key b.allocations }) v

run-Ordered : (es : List Event) (b : Budget) → Ordered b → Ordered (run es b)
run-Ordered [] b v = v
run-Ordered (e ∷ es) b v = run-Ordered es (step e b) (step-Ordered e b v)

-- The budget is a first-in first-out queue: in every history of a new budget the admitted keys are
-- a subsequence of the enqueued keys, in the same order.
pub admission_order :
    (es : List Event) (capacity : ℕ) (b : Budget)
    → new_budget capacity ≡ some b
    → Sublist (run es b).admitted (run es b).enqueued
admission_order es capacity b h = elim (Bool-cases (leb capacity 0)) [
  | inl e ↦ absurd (ground arith)
  | inr e ↦ Sublist-trans (Sublist-prefix (run es b).admitted (keys (run es b).waiting)) (
      run-Ordered es b (
        subst Ordered
          (let same : record {
            capacity = capacity;
            waiting = [];
            allocations = [];
            enqueued = [];
            admitted = [];
          }
                ≡ b =
              ground arith in
            same)
          Sublist.done))
]
