-- ===== src/Artifacts/Receiving.antt =====
-- The incoming side of an ArtifactQueue (artifacts.py): start, receive_chunk, commit and received.
use tiny_dsv.Base.{
  ℕ, zero, suc, ◌-◌, ◌*◌, min, Bool, true, false, not, ◌&&◌, ◌||◌, Option, none, some, List, [],
  ◌∷◌, ◌++◌, length, leb, ◌==◌, if◌then◌else◌,
}
use tiny_dsv.Base.Dict.{Dict, lookup, insert}
use tiny_dsv.Base.Slices.{ceil}
use tiny_dsv.Artifacts.State.{
  Kind, Role, Manifest, Receipt, Incoming, Queue, Config, same_kind, same_manifest, same_receipt,
  receipt_of, validate_manifest, is_bounded,
}

-- A controller takes policy leases alone, a sampler takes everything else.
abbrev pub admits : Role → Kind → Bool
admits Role.cpu Kind.policy_lease = true
admits Role.cpu _ = false
admits Role.gpu Kind.policy_lease = false
admits Role.gpu _ = true
admits Role.any_role _ = true

-- Another content was received under this kind and key.
abbrev pub has_conflict : Manifest → Dict Incoming → Bool
has_conflict m [] = false
has_conflict m ((id, e) ∷ rest) =
    (same_kind e.manifest.kind m.kind
      && e.manifest.key == m.key
      && not (same_manifest e.manifest m))
    || has_conflict m rest

abbrev pub has_chunk : ℕ → Dict (List ℕ) → Bool
has_chunk i chunks = elim (lookup i chunks) [ none ↦ false | some raw ↦ true ]

-- The first index from `i` on without a chunk; there are `fuel` chunks at most.
abbrev pub count_chunks : (fuel i : ℕ) → Dict (List ℕ) → ℕ
count_chunks zero i chunks = i
count_chunks (suc fuel) i chunks =
    let rest = count_chunks fuel (suc i) chunks in if has_chunk i chunks then rest else i

abbrev pub next_index : Dict (List ℕ) → ℕ
next_index chunks = count_chunks (length chunks) 0 chunks

abbrev pub is_committed : Incoming → Bool
is_committed e = elim e.receipt [ none ↦ false | some r ↦ true ]

-- The state, the next index and whether the artifact is committed.
unfoldable pub start : Config → Manifest → Queue → Option (Queue × ℕ × Bool)
start c manifest q = elim (validate_manifest c manifest) [
  | none ↦ none
  | some m ↦
      if not (admits q.role m.kind)
      then none
      else if has_conflict m q.incoming
      then none
      else elim (lookup m.id q.incoming) [
        | none ↦
            if not (is_bounded c m.bytes q)
            then none
            else some (
              record q {
                incoming =
                    insert m.id (record { manifest = m; chunks = []; blob = none; receipt = none })
                      q.incoming;
              },
              0,
              false,
            )
        | some e ↦
            if same_manifest e.manifest m
            then some (q, next_index e.chunks, is_committed e)
            else none
      ]
]

abbrev pub same_bytes : List ℕ → List ℕ → Bool
same_bytes [] [] = true
same_bytes (x ∷ xs) (y ∷ ys) = x == y && same_bytes xs ys
same_bytes _ _ = false

-- The chunk before this one is there.
abbrev pub follows : ℕ → Dict (List ℕ) → Bool
follows zero chunks = true
follows (suc i) chunks = has_chunk i chunks

unfoldable pub receive_chunk :
    Config → (id index : ℕ) → (raw : List ℕ) → (sha256 : ℕ) → Queue → Option Queue
receive_chunk c id index raw sha256 q =
    if not (c.digest raw == sha256) then none else elim (lookup id q.incoming) [
      | none ↦ none
      | some e ↦ elim (validate_manifest c e.manifest) [
        | none ↦ none
        | some m ↦
            if leb m.bytes (index * c.chunk_bytes)
              || not (length raw == min c.chunk_bytes (m.bytes - index * c.chunk_bytes))
            then none
            else if not (follows index e.chunks)
            then none
            else elim (lookup index e.chunks) [
              | some old ↦ if same_bytes old raw then some q else none
              | none ↦ some (record q {
                incoming = insert id (record e { chunks = insert index raw e.chunks }) q.incoming;
              })
            ]
      ]
    ]

-- The chunks from `index` on, joined.
abbrev pub assemble : (count index : ℕ) → Dict (List ℕ) → Option (List ℕ)
assemble zero index chunks = some []
assemble (suc count) index chunks = elim (lookup index chunks) [
  | none ↦ none
  | some raw ↦ elim (assemble count (suc index) chunks) [
    | none ↦ none
    | some rest ↦ some (raw ++ rest)
  ]
]

unfoldable pub commit : Config → (id : ℕ) → Queue → Option (Queue × Receipt)
commit c id q = elim (lookup id q.incoming) [
  | none ↦ none
  | some e ↦ elim (validate_manifest c e.manifest) [
    | none ↦ none
    | some m ↦ elim e.receipt [
      | some r ↦ if same_receipt r (receipt_of m) then some (q, receipt_of m) else none
      | none ↦ elim (assemble (ceil m.bytes c.chunk_bytes) 0 e.chunks) [
        | none ↦ none
        | some blob ↦
            if not (length blob == m.bytes && c.digest blob == m.sha256)
            then none
            else some (
              record q {
                incoming =
                    insert id (record e { blob = some blob; receipt = some (receipt_of m) })
                      q.incoming;
              },
              receipt_of m,
            )
      ]
    ]
  ]
]

-- The first committed content under a kind and a key; the inner none is a content that changed.
abbrev pub find_received :
    Config → Kind → (key : ℕ) → Dict Incoming → Option (Option (Manifest × List ℕ))
find_received c kind key [] = none
find_received c kind key ((id, e) ∷ rest) =
    let others = find_received c kind key rest in
    elim (validate_manifest c e.manifest) [
      | none ↦ some none
      | some m ↦
          if same_kind m.kind kind && m.key == key && is_committed e
          then elim e.blob [
            | none ↦ some none
            | some blob ↦
                if length blob == m.bytes && c.digest blob == m.sha256
                then some (some (m, blob))
                else some none
          ]
          else others
    ]

unfoldable pub received : Config → Kind → (key : ℕ) → Queue → Option (Option (Manifest × List ℕ))
received c kind key q = find_received c kind key q.incoming
