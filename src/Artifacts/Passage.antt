-- ===== src/Artifacts/Passage.antt =====
-- A content passes from one ArtifactQueue to another, in one go or after a break (artifacts.py).
use tiny_dsv.Base.{
  ℕ, zero, suc, ◌+◌, ◌-◌, ◌≤◌, ◌<◌, ◌≡◌, refl, sym, subst, true, false, Option, none, some, List,
  length, leb, ltb, ==_refl, arith, Bool-cases, inl, inr,
}
use tiny_dsv.Base.{[], ◌⊎◌}
use tiny_dsv.Base.Dict.{Dict, lookup, insert}
use tiny_dsv.Base.Updates.{lookup-insert_self}
use tiny_dsv.Base.Slices.{ceil, ceil-enough}
use tiny_dsv.Artifacts.State.{
  Kind, Manifest, Receipt, Incoming, Queue, Config, validate_manifest, receipt_of, same_kind,
  same_manifest, same_receipt, is_bounded,
}
use tiny_dsv.Artifacts.Sending.{slice, chunk, acknowledge}
use tiny_dsv.Artifacts.Receiving.{receive_chunk, start, commit, admits, has_conflict}
use tiny_dsv.Artifacts.Chunks.{
  Partial, none-Partial, insert-Partial, next_index-Partial, assemble-all, receive_chunk_lem,
}

-- `count` chunks from `index` on are read at the sender and written at the receiver.
abbrev pub transfer : Config → (id count index : ℕ) → (sender receiver : Queue) → Option Queue
transfer c id zero index p q = some q
transfer c id (suc count) index p q = elim (chunk c id index p) [
  | none ↦ none
  | some raw ↦ elim (receive_chunk c id index raw (c.digest raw) q) [
    | none ↦ none
    | some q' ↦ transfer c id count (index + 1) p q'
  ]
]

-- An entry that is being received.
abbrev pub receiving : Manifest → Dict (List ℕ) → Incoming
receiving m chunks = record { manifest = m; chunks = chunks; blob = none; receipt = none }

pub same_kind_refl : (k : Kind) → same_kind k k ≡ true
same_kind_refl Kind.policy_lease = refl
same_kind_refl Kind.sealed_group = refl
same_kind_refl Kind.public_capsule = refl

pub same_manifest_refl : (m : Manifest) → same_manifest m m ≡ true
same_manifest_refl m =
    rw (same_kind_refl m.kind)
      (ground (arith, ==_refl m.id, ==_refl m.key, ==_refl m.bytes, ==_refl m.sha256))

same_receipt_refl : (r : Receipt) → same_receipt r r ≡ true
same_receipt_refl r = ground (arith, ==_refl r.id, ==_refl r.bytes, ==_refl r.sha256)

-- A valid manifest is of some bytes.
pub validate_manifest-pos :
    (c : Config) (m : Manifest) → validate_manifest c m ≡ some m → 0 < m.bytes
unfolding validate_manifest
validate_manifest-pos c m h = elim (Bool-cases (leb 1 m.bytes)) [
  | inl e ↦ ground arith
  | inr e ↦ absurd (ground arith)
]

-- The receiver with an entry for the manifest; one that is there stays as it is.
abbrev pub opened : Manifest → Queue → Queue
opened m q = elim (lookup m.id q.incoming) [
  | none ↦ record q { incoming = insert m.id (receiving m []) q.incoming }
  | some e ↦ q
]

-- The receiver has no entry for the manifest and room for one, and k is 0, or it has an entry with
-- the first k chunks.
abbrev pub Held : Config → Manifest → (blob : List ℕ) (k : ℕ) → Queue → Type 0
Held c m blob k q =
    (k ≡ 0) × (lookup m.id q.incoming ≡ none) × (is_bounded c m.bytes q ≡ true)
    ⊎ (chunks : Dict (List ℕ)) × Partial c.chunk_bytes blob k chunks
      × (lookup m.id q.incoming ≡ some (receiving m chunks))

-- The rest of the chunks passes, the receiver commits the content, the sender takes the receipt.
abbrev pub Passed : Config → Manifest → (blob : List ℕ) (k : ℕ) (sender receiver : Queue) → Type 0
Passed c m blob k p q =
    (q1 : Queue) × (q2 : Queue) × (e : Incoming) × (transfer c m.id (ceil m.bytes c.chunk_bytes - k)
        k p q
      ≡ some q1)
    × (commit c m.id q1 ≡ some (q2, receipt_of m))
    × (lookup m.id q2.incoming ≡ some e)
    × (e.blob ≡ some blob)
    × ((p' : Queue) × (acknowledge c (receipt_of m) p ≡ some p'))

module _ (c : Config) (m : Manifest) (blob : List ℕ) (pos : 0 < c.chunk_bytes)
    (valid : validate_manifest c m ≡ some m) (bytes : m.bytes ≡ length blob)
    (digest : m.sha256 ≡ c.digest blob) (p : Queue)
    (here : lookup m.id p.outgoing
      ≡ some (record { manifest = m; blob = blob; delivery = none })) where
  some_bytes : 0 < length blob
  some_bytes = omega (arith, bytes, validate_manifest-pos c m valid)

  chunk_lem :
      (i : ℕ)
      → i < ceil m.bytes c.chunk_bytes
      → chunk c m.id i p ≡ some (slice c.chunk_bytes i blob)
  unfolding chunk
  chunk_lem i h =
      rw (here, valid, chunk)
        (rw (let e : ltb i (ceil m.bytes c.chunk_bytes) ≡ true = ground (arith, h) in e) refl)

  transfer_lem :
      (n k : ℕ) (chunks : Dict (List ℕ)) (q : Queue)
      → k + n ≡ ceil m.bytes c.chunk_bytes
      → Partial c.chunk_bytes blob k chunks
      → lookup m.id q.incoming ≡ some (receiving m chunks)
      → (q' : Queue) × (chunks' : Dict (List ℕ)) × (transfer c m.id n k p q ≡ some q')
        × Partial c.chunk_bytes blob (ceil m.bytes c.chunk_bytes) chunks'
        × (lookup m.id q'.incoming ≡ some (receiving m chunks'))
  transfer_lem zero k chunks q e part at = (
    q,
    chunks,
    refl,
    subst (λ z. Partial c.chunk_bytes blob z chunks) (omega (arith, e)) part,
    at,
  )
  transfer_lem (suc n) k chunks q e part at =
      let raw : List ℕ = slice c.chunk_bytes k blob in
      let chunks' : Dict (List ℕ) = insert k raw chunks in
      let q' : Queue = record q { incoming = insert m.id (receiving m chunks') q.incoming } in
      let more : k < ceil m.bytes c.chunk_bytes = omega (arith, e) in
      let (q2, chunks2, t, part2, at2) =
        transfer_lem n (k + 1) chunks' q' (omega (arith, e))
          (insert-Partial c.chunk_bytes blob k chunks part)
          (lookup-insert_self m.id (receiving m chunks') q.incoming) in
      (
        q2,
        chunks2,
        rw
            (
              chunk_lem k more,
              receive_chunk_lem c m.id k m blob chunks q pos some_bytes valid bytes part more at,
              transfer,
            )
            t,
        part2,
        at2,
      )

  commit_lem :
      (chunks : Dict (List ℕ)) (q : Queue)
      → Partial c.chunk_bytes blob (ceil m.bytes c.chunk_bytes) chunks
      → lookup m.id q.incoming ≡ some (receiving m chunks)
      → commit c m.id q
        ≡ some (
          record q {
            incoming =
                insert m.id
                  (record {
                    manifest = m;
                    chunks = chunks;
                    blob = some blob;
                    receipt = some (receipt_of m);
                  })
                  q.incoming;
          },
          receipt_of m,
        )
  unfolding commit
  commit_lem chunks q part at =
      rw (at, valid, commit)
        (rw
          (
            assemble-all c.chunk_bytes blob (ceil m.bytes c.chunk_bytes) chunks part
                (omega (arith, bytes, ceil-enough m.bytes c.chunk_bytes pos)),
            sym bytes,
            sym digest,
            ==_refl m.bytes,
            ==_refl m.sha256,
          )
          refl)

  acknowledge_lem :
      acknowledge c (receipt_of m) p
      ≡ some (record p {
        outgoing =
            insert m.id
              (record { manifest = m; blob = blob; delivery = some (receipt_of m) })
              p.outgoing;
      })
  unfolding acknowledge
  acknowledge_lem = rw (here, valid, same_receipt_refl (receipt_of m), acknowledge) refl

  start_lem_resumed :
      (k : ℕ) (chunks : Dict (List ℕ)) (q : Queue)
      → Partial c.chunk_bytes blob k chunks
      → lookup m.id q.incoming ≡ some (receiving m chunks)
      → admits q.role m.kind ≡ true
      → has_conflict m q.incoming ≡ false
      → start c m q ≡ some (q, k, false)
  unfolding start
  start_lem_resumed k chunks q part at role free =
      rw
        (
          valid,
          role,
          free,
          at,
          same_manifest_refl m,
          next_index-Partial c.chunk_bytes blob k chunks part,
          start,
        )
        refl

  remaining-Passed :
      (k : ℕ) (chunks : Dict (List ℕ)) (q : Queue)
      → k ≤ ceil m.bytes c.chunk_bytes
      → Partial c.chunk_bytes blob k chunks
      → lookup m.id q.incoming ≡ some (receiving m chunks)
      → Passed c m blob k p q
  remaining-Passed k chunks q low part at =
      let (q1, chunks1, t, part1, at1) =
        transfer_lem (ceil m.bytes c.chunk_bytes - k) k chunks q (omega (arith, low)) part at in
      let e : Incoming = record {
        manifest = m;
        chunks = chunks1;
        blob = some blob;
        receipt = some (receipt_of m);
      } in
      (
        q1,
        record q1 { incoming = insert m.id e q1.incoming },
        e,
        t,
        commit_lem chunks1 q1 part1 at1,
        lookup-insert_self m.id e q1.incoming,
        refl,
        (_, acknowledge_lem),
      )

  start_lem_new :
      (q : Queue)
      → lookup m.id q.incoming ≡ none
      → is_bounded c m.bytes q ≡ true
      → admits q.role m.kind ≡ true
      → has_conflict m q.incoming ≡ false
      → start c m q ≡ some (opened m q, 0, false)
  unfolding start
  start_lem_new q gone room role free = rw (valid, role, free, gone, room, start, opened) refl

  -- A sender holds the content of a valid manifest, and a receiver of a role that admits it, with
  -- no other content under the key, has no entry for it but room for one and k is 0, or has an
  -- entry with the first k chunks of it: then start makes the entry or leaves it as it is and
  -- answers k, the chunks from k on pass, the commit succeeds and stores exactly the content, and
  -- the sender accepts the receipt. With k = 0 this is the whole passage, with a greater k its
  -- continuation after a break.
  pub resume_lem :
      (k : ℕ) (q : Queue)
      → k ≤ ceil m.bytes c.chunk_bytes
      → Held c m blob k q
      → admits q.role m.kind ≡ true
      → has_conflict m q.incoming ≡ false
      → (start c m q ≡ some (opened m q, k, false)) × Passed c m blob k p (opened m q)
  resume_lem k q low held role free = elim held [
    | inl (z, gone, room) ↦
        subst (λ i. (start c m q ≡ some (opened m q, i, false)) × Passed c m blob i p (opened m q))
          (sym z)
          (
            start_lem_new q gone room role free,
            rw (opened, gone)
                (remaining-Passed 0 []
                  (record q { incoming = insert m.id (receiving m []) q.incoming }) (omega arith)
                  (none-Partial c.chunk_bytes blob)
                  (lookup-insert_self m.id (receiving m []) q.incoming)),
          )
    | inr (chunks, part, at) ↦
        rw (opened, at)
          (start_lem_resumed k chunks q part at role free, remaining-Passed k chunks q low part at)
  ]
