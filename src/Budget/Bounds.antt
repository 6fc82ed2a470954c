-- ===== src/Budget/Bounds.antt =====
-- The allocations of a ByteBudget stay within its capacity, and the head of its queue is admitted as
-- soon as it fits (rollout_manager/host_memory.py).
use tiny_dsv.Base.{
  ℕ, ◌+◌, ◌≤◌, ◌≡◌, refl, ap, ◌∙◌, subst, Bool, true, false, not, ◌&&◌, ◌||◌, Option, none, some,
  List, [], ◌∷◌, ◌++◌, leb, ltb, ◌==◌, ==_refl, if◌then◌else◌, All, arith, Bool-cases, inl, inr,
}
use tiny_dsv.Base.Dict.{lookup, insert, total-insert_old, total-erase-le}
use tiny_dsv.Base.Updates.{total-insert_le, lookup-insert_self, lookup-insert_ne}
use tiny_dsv.Base.{◌<◌, ◌≢◌, ◌⊎◌}
use tiny_dsv.Budget.State.{
  Allocation, Budget, used, new_budget, is_waiting, is_allocated, enqueue, without, cancel,
  entry_of, Turn, is_head, tail, acquire, quarantine, release, Event, enter, after_turn, leave,
  step, run,
}

-- A reservation can fit the budget.
abbrev pub Fits : ℕ → ℕ × ℕ → Type 0
Fits capacity (k, n) = n ≤ capacity

-- The allocations fit the capacity together, and each entry of the queue alone.
pub record Inv (b : Budget) : Type 0 where
  pub within : used b ≤ b.capacity
  pub fits : All (Fits b.capacity) b.waiting

without-All : (P : ℕ × ℕ → Type 0) (key : ℕ) (xs : List (ℕ × ℕ)) → All P xs → All P (without key xs)
without-All P key [] a = tt
without-All P key ((k, n) ∷ rest) a = elim (Bool-cases (k == key)) [
  | inl e ↦ rw e (without-All P key rest a.1)
  | inr e ↦ rw e (a.0, without-All P key rest a.1)
]

snoc-All :
    (P : ℕ × ℕ → Type 0) (x : ℕ × ℕ) (xs : List (ℕ × ℕ)) → All P xs → P x → All P (xs ++ x ∷ [])
snoc-All P x [] a p = (p, tt)
snoc-All P x (y ∷ xs) a p = (a.0, snoc-All P x xs a.1 p)

tail-All : (P : ℕ × ℕ → Type 0) (xs : List (ℕ × ℕ)) → All P xs → All P (tail xs)
tail-All P [] a = tt
tail-All P (x ∷ xs) a = a.1

cancel-Inv : (key : ℕ) (b : Budget) → Inv b → Inv (cancel key b)
unfolding cancel
cancel-Inv key b v = record {
  within = v.within;
  fits = without-All (Fits b.capacity) key b.waiting v.fits;
}

enter-Inv : (key size : ℕ) (b : Budget) → Inv b → Inv (enter key size b)
unfolding enqueue
enter-Inv key size b v =
    go (not (ltb 0 size && leb size b.capacity)) refl
      (is_allocated key b || is_waiting key b.waiting)
  where
    go :
        (x : Bool)
        → not (ltb 0 size && leb size b.capacity) ≡ x
        → (y : Bool)
        → Inv (
            let out : Option Budget =
              if x
              then none
              else if y
              then none
              else some (record b {
                waiting = b.waiting ++ (key, size) ∷ [];
                enqueued = b.enqueued ++ key ∷ [];
              }) in
            elim out [ none ↦ cancel key b | some b' ↦ b' ])
    go true e y = cancel-Inv key b v
    go false e true = cancel-Inv key b v
    go false e false = record {
      within = v.within;
      fits = snoc-All (Fits b.capacity) (key, size) b.waiting v.fits (ground arith);
    }

acquire-Inv :
    (key : ℕ) (is_cancelled : Bool) (b : Budget) → Inv b → Inv (acquire key is_cancelled b).0
unfolding acquire
acquire-Inv key true b v = cancel-Inv key b v
acquire-Inv key false b v = go (entry_of key b.waiting)
  where
    take_it :
        (size : ℕ) (x : Bool)
        → (is_head key size b.waiting && leb (used b + size) b.capacity) ≡ x
        → Inv
            (let out : Budget × Turn =
                if x
                then (
                  record b {
                    waiting = tail b.waiting;
                    allocations =
                        insert key (record { bytes = size; is_quarantined = false }) b.allocations;
                    admitted = b.admitted ++ key ∷ [];
                  },
                  Turn.admits,
                )
                else (b, Turn.waits) in
              out).0
    take_it size false e = v
    take_it size true e = record {
      within = ground (
        arith,
        total-insert_le (λ (a : Allocation). a.bytes) key
            (record { bytes = size; is_quarantined = false }) b.allocations,
      );
      fits = tail-All (Fits b.capacity) b.waiting v.fits;
    }

    go :
        (o : Option ℕ)
        → Inv
            (let out : Budget × Turn = elim o [
              | none ↦ (b, Turn.cancelled)
              | some size ↦
                  if is_head key size b.waiting && leb (used b + size) b.capacity
                  then (
                    record b {
                      waiting = tail b.waiting;
                      allocations =
                          insert key
                            (record { bytes = size; is_quarantined = false })
                            b.allocations;
                      admitted = b.admitted ++ key ∷ [];
                    },
                    Turn.admits,
                  )
                  else (b, Turn.waits)
            ] in
              out).0
    go none = v
    go (some size) =
        take_it size (is_head key size b.waiting && leb (used b + size) b.capacity) refl

leave_quarantined-Inv : (key : ℕ) (b : Budget) → Inv b → Inv (leave key true b)
unfolding quarantine
leave_quarantined-Inv key b v = go (lookup key b.allocations) refl
  where
    go :
        (o : Option Allocation)
        → lookup key b.allocations ≡ o
        → Inv (
            let out : Option Budget = elim o [
              | none ↦ none
              | some a ↦ some (record b {
                allocations = insert key (record a { is_quarantined = true }) b.allocations;
              })
            ] in
            elim out [ none ↦ b | some b' ↦ b' ])
    go none h = v
    go (some a) h = record {
      within = omega (
        arith,
        v.within,
        total-insert_old (λ (x : Allocation). x.bytes) key (record a { is_quarantined = true }) a
            b.allocations h,
      );
      fits = v.fits;
    }

release-Inv : (key : ℕ) (b : Budget) → Inv b → Inv (release key b)
unfolding release
release-Inv key b v = cancel-Inv key _ (record {
  within = omega (arith, v.within, total-erase-le (λ (a : Allocation). a.bytes) key b.allocations);
  fits = v.fits;
})

after_turn-Inv : (key : ℕ) (out : Budget × Turn) → Inv out.0 → Inv (after_turn key out)
after_turn-Inv key (b, Turn.cancelled) v = cancel-Inv key b v
after_turn-Inv key (b, Turn.waits) v = v
after_turn-Inv key (b, Turn.admits) v = v

step-Inv : (e : Event) (b : Budget) → Inv b → Inv (step e b)
step-Inv (Event.enters key size) b v = enter-Inv key size b v
step-Inv (Event.turns key c) b v = after_turn-Inv key (acquire key c b) (acquire-Inv key c b v)
step-Inv (Event.leaves key true) b v = leave_quarantined-Inv key b v
step-Inv (Event.leaves key false) b v = release-Inv key b v

pub run-Inv : (es : List Event) (b : Budget) → Inv b → Inv (run es b)
run-Inv [] b v = v
run-Inv (e ∷ es) b v = run-Inv es (step e b) (step-Inv e b v)

new_budget-Inv : (capacity : ℕ) (b : Budget) → new_budget capacity ≡ some b → Inv b
new_budget-Inv capacity b h = elim (Bool-cases (leb capacity 0)) [
  | inl e ↦ absurd (ground arith)
  | inr e ↦
      subst Inv
        (let same : record {
          capacity = capacity;
          waiting = [];
          allocations = [];
          enqueued = [];
          admitted = [];
        }
              ≡ b =
            ground arith in
          same)
        (record { within = omega arith; fits = tt })
]

-- In every history of a new budget, with any reservations, admissions, cancellations, quarantines
-- and releases, the allocated bytes stay within the capacity.
pub within_capacity :
    (es : List Event) (capacity : ℕ) (b : Budget)
    → new_budget capacity ≡ some b
    → used (run es b) ≤ (run es b).capacity
within_capacity es capacity b h = (run-Inv es b (new_budget-Inv capacity b h)).within

-- The head of the queue has moved to the allocations, and nothing else has changed.
pub record Admitted (k n : ℕ) (rest : List (ℕ × ℕ)) (b b' : Budget) : Type 0 where
  pub waiting : b'.waiting ≡ rest
  pub allocated : lookup k b'.allocations ≡ some (record { bytes = n; is_quarantined = false })
  pub others : (j : ℕ) → k ≢ j → lookup j b'.allocations ≡ lookup j b.allocations
  pub admitted : b'.admitted ≡ b.admitted ++ k ∷ []

-- The head is admitted, or waits with the budget as it was.
abbrev pub Served : (k n : ℕ) (rest : List (ℕ × ℕ)) → Budget → Budget × Turn → Type 0
Served k n rest b (b', turn) =
    (used b + n ≤ b.capacity) × (turn ≡ Turn.admits) × Admitted k n rest b b'
    ⊎ (b.capacity < used b + n) × (turn ≡ Turn.waits) × (b' ≡ b)

acquire_head :
    (k n : ℕ) (rest : List (ℕ × ℕ)) (b : Budget)
    → b.waiting ≡ (k, n) ∷ rest
    → Served k n rest b (acquire k false b)
unfolding acquire
acquire_head k n rest b h =
    let entry : entry_of k b.waiting ≡ some n = ap (λ w. entry_of k w) h ∙ rw (==_refl k) refl in
    let head : is_head k n b.waiting ≡ true =
      ap (λ w. is_head k n w) h ∙ rw (==_refl k, ==_refl n) refl in
    elim (Bool-cases (leb (used b + n) b.capacity)) [
      | inl e ↦
          rw (acquire, entry, head, e)
            (inl (
              ground arith,
              refl,
              record {
                waiting = ap tail h;
                allocated = lookup-insert_self k _ b.allocations;
                others = λ j ne. lookup-insert_ne k j _ b.allocations ne;
                admitted = refl;
              },
            ))
      | inr e ↦ rw (acquire, entry, head, e) (inr (ground arith, refl, refl))
    ]

-- In every history of a new budget, a turn of acquire of the key at the head of the queue, if it is
-- not cancelled, moves the key with its bytes from the queue to the allocations and changes nothing
-- else when its bytes fit what is left of the capacity, and otherwise waits with the budget
-- unchanged; the bytes of the head fit the capacity when nothing is allocated.
pub head_is_admitted :
    (es : List Event) (capacity : ℕ) (b : Budget) (k n : ℕ) (rest : List (ℕ × ℕ))
    → new_budget capacity ≡ some b
    → (run es b).waiting ≡ (k, n) ∷ rest
    → Served k n rest (run es b) (acquire k false (run es b)) × (n ≤ (run es b).capacity)
head_is_admitted es capacity b k n rest h at =
    let v = run-Inv es b (new_budget-Inv capacity b h) in
    (acquire_head k n rest (run es b) at, (subst (All (Fits (run es b).capacity)) at v.fits).0)
