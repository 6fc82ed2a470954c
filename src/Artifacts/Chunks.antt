-- ===== src/Artifacts/Chunks.antt =====
-- The chunks of an artifact as slices of its content (artifacts.py, ArtifactQueue.receive_chunk,
-- start and commit).
use tiny_dsv.Base.{
  ℕ, zero, suc, ◌+◌, ◌-◌, ◌*◌, ◌≤◌, ◌<◌, ◌≡◌, refl, ap, sym, ◌∙◌, subst, min, true, false, not,
  ◌||◌, none, some, List, [], ◌++◌, length, leb, ltb, ◌==◌, ==_refl, ==_iff, arith, if◌then◌else◌,
  Bool-cases, inl, inr,
}
use tiny_dsv.Base.Dict.{Dict, lookup, insert, lookup-insert}
use tiny_dsv.Base.Updates.{length-insert_new, lookup-insert_self}
use tiny_dsv.Base.Slices.{
  ceil, ceil-lt, drop, take-drop, drop-drop, drop_all, length-take, length-drop,
}
use native.Mathlib.Nat.{suc-mul, zero-mul}
use tiny_dsv.Artifacts.State.{Manifest, Queue, Config, validate_manifest}
use tiny_dsv.Artifacts.Sending.{slice}
use tiny_dsv.Artifacts.Receiving.{
  receive_chunk, assemble, has_chunk, count_chunks, next_index, follows,
}

-- The first `k` chunks of a content are there, and no other.
pub record Partial (size : ℕ) (blob : List ℕ) (k : ℕ) (chunks : Dict (List ℕ)) : Type 0 where
  pub slices : (i : ℕ) → lookup i chunks ≡ (if ltb i k then some (slice size i blob) else none)
  pub count : length chunks ≡ k

module _ (size : ℕ) (blob : List ℕ) where
  pub none-Partial : Partial size blob 0 []
  none-Partial = record { slices = λ i. ground arith; count = refl }

  pub insert-Partial :
      (k : ℕ) (chunks : Dict (List ℕ))
      → Partial size blob k chunks
      → Partial size blob (k + 1) (insert k (slice size k blob) chunks)
  insert-Partial k chunks p = record {
    slices = λ i. elim (Bool-cases (k == i)) [
      | inl e ↦
          subst
            (λ z.
              lookup z (insert k (slice size k blob) chunks)
              ≡ (if ltb z (k + 1) then some (slice size z blob) else none))
            ((==_iff k i).0 e) (ground (arith, lookup-insert_self k (slice size k blob) chunks))
      | inr e ↦ ground (arith, lookup-insert k i (slice size k blob) chunks, p.slices i)
    ];
    count = ground (arith, length-insert_new k (slice size k blob) chunks, p.slices k, p.count);
  }

  pub has_chunk-Partial :
      (k i : ℕ) (chunks : Dict (List ℕ)) → Partial size blob k chunks → has_chunk i chunks ≡ ltb i k
  has_chunk-Partial k i chunks p = ground (arith, p.slices i)

  pub follows-Partial :
      (k : ℕ) (chunks : Dict (List ℕ)) → Partial size blob k chunks → follows k chunks ≡ true
  follows-Partial zero chunks p = refl
  follows-Partial (suc k) chunks p = has_chunk-Partial (suc k) k chunks p ∙ ground arith

  count_chunks-Partial :
      (k fuel i : ℕ) (chunks : Dict (List ℕ))
      → Partial size blob k chunks
      → i ≤ k
      → k ≤ i + fuel
      → count_chunks fuel i chunks ≡ k
  count_chunks-Partial k zero i chunks p low high = omega (arith, low, high)
  count_chunks-Partial k (suc fuel) i chunks p low high = elim (Bool-cases (ltb i k)) [
    | inl e ↦
        rw (has_chunk-Partial k i chunks p, e)
          (count_chunks-Partial k fuel (suc i) chunks p (ground arith) (omega (arith, high)))
    | inr e ↦ rw (has_chunk-Partial k i chunks p, e) (ground arith)
  ]

  -- The index from which a transfer goes on.
  pub next_index-Partial :
      (k : ℕ) (chunks : Dict (List ℕ)) → Partial size blob k chunks → next_index chunks ≡ k
  next_index-Partial k chunks p =
      count_chunks-Partial k (length chunks) 0 chunks p (omega arith) (omega (arith, p.count))

  drop_next : (i : ℕ) → slice size i blob ++ drop (suc i * size) blob ≡ drop (i * size) blob
  drop_next i =
      ap (λ z. slice size i blob ++ z)
        (ap (λ k. drop k blob) (suc-mul i size) ∙ sym (drop-drop size (i * size) blob))
      ∙ take-drop size (drop (i * size) blob)

  assemble-Partial :
      (k n i : ℕ) (chunks : Dict (List ℕ))
      → Partial size blob k chunks
      → i + n ≡ k
      → length blob ≤ k * size
      → assemble n i chunks ≡ some (drop (i * size) blob)
  assemble-Partial k zero i chunks p bound enough = ap some (
      sym (
        drop_all (i * size) blob
          (omega (arith, enough, ap (λ z. z * size) (let e : k ≡ i = omega (arith, bound) in e)))))
  assemble-Partial k (suc n) i chunks p bound enough =
      let here : lookup i chunks ≡ some (slice size i blob) = ground (arith, p.slices i, bound) in
      let rest = assemble-Partial k n (suc i) chunks p (omega (arith, bound)) enough in
      rw (here, rest, assemble) (ap some (drop_next i))

  -- All chunks together are the content.
  pub assemble-all :
      (n : ℕ) (chunks : Dict (List ℕ))
      → Partial size blob n chunks
      → length blob ≤ n * size
      → assemble n 0 chunks ≡ some blob
  assemble-all n chunks p enough =
      assemble-Partial n n 0 chunks p (omega arith) enough
      ∙ ap (λ z. some (drop z blob)) (zero-mul size)

-- A chunk of the content is received after the chunks before it.
pub receive_chunk_lem :
    (c : Config) (id k : ℕ) (m : Manifest) (blob : List ℕ) (chunks : Dict (List ℕ)) (q : Queue)
    → 0 < c.chunk_bytes
    → 0 < length blob
    → validate_manifest c m ≡ some m
    → m.bytes ≡ length blob
    → Partial c.chunk_bytes blob k chunks
    → k < ceil m.bytes c.chunk_bytes
    → lookup id q.incoming
      ≡ some (record { manifest = m; chunks = chunks; blob = none; receipt = none })
    → receive_chunk c id k (slice c.chunk_bytes k blob) (c.digest (slice c.chunk_bytes k blob)) q
      ≡ some (record q {
        incoming =
            insert id
              (record {
                manifest = m;
                chunks = insert k (slice c.chunk_bytes k blob) chunks;
                blob = none;
                receipt = none;
              })
              q.incoming;
      })
unfolding receive_chunk
receive_chunk_lem c id k m blob chunks q pos positive valid bytes p more here =
    rw (==_refl (c.digest (slice c.chunk_bytes k blob)), here, valid)
      (rw (fits, follows-Partial c.chunk_bytes blob k chunks p, free) refl)
  where
    len : length (slice c.chunk_bytes k blob) ≡ min c.chunk_bytes (m.bytes - k * c.chunk_bytes)
    len =
        length-take c.chunk_bytes (drop (k * c.chunk_bytes) blob)
        ∙ ap (λ z. min c.chunk_bytes z)
            (length-drop (k * c.chunk_bytes) blob ∙ ap (λ z. z - k * c.chunk_bytes) (sym bytes))

    before : k * c.chunk_bytes < m.bytes
    before = ceil-lt m.bytes c.chunk_bytes pos k more (omega (arith, positive, bytes))

    fits :
        (leb m.bytes (k * c.chunk_bytes)
          || not (
              length (slice c.chunk_bytes k blob)
              == min c.chunk_bytes (m.bytes - k * c.chunk_bytes)))
        ≡ false
    fits =
        rw (len, ==_refl (min c.chunk_bytes (m.bytes - k * c.chunk_bytes))) (ground (arith, before))

    free : lookup k chunks ≡ none
    free = ground (arith, p.slices k)
