-- ===== src/Artifacts/Sending.antt =====
-- The outgoing side of an ArtifactQueue (artifacts.py): publish, next, chunk and acknowledge.
use tiny_dsv.Base.{
  ℕ, ◌*◌, Bool, true, false, not, ◌&&◌, Option, none, some, List, [], ◌∷◌, length, ltb, ◌==◌,
  if◌then◌else◌,
}
use tiny_dsv.Base.Dict.{Dict, lookup, insert, keys}
use tiny_dsv.Base.Slices.{take, drop, ceil}
use tiny_dsv.Mailbox.Sorting.{sort}
use tiny_dsv.Artifacts.State.{
  Kind, Manifest, Receipt, Outgoing, Queue, Config, same_kind, same_manifest, same_receipt,
  receipt_of, validate_manifest, is_bounded,
}

-- The manifest of a content.
abbrev pub manifest_of : Config → Kind → (key : ℕ) → (source : List ℕ) → Manifest
manifest_of c kind key source = record {
  id = c.identity kind key (length source) (c.digest source);
  kind = kind;
  key = key;
  bytes = length source;
  sha256 = c.digest source;
}

-- The outgoing manifest with this kind and key.
abbrev pub find_manifest : Kind → (key : ℕ) → Dict Outgoing → Option Manifest
find_manifest kind key [] = none
find_manifest kind key ((id, e) ∷ rest) =
    if same_kind e.manifest.kind kind && e.manifest.key == key
    then some e.manifest
    else find_manifest kind key rest

-- The directory of the entry is there already.
abbrev pub is_present : ℕ → Dict Outgoing → Bool
is_present id entries = elim (lookup id entries) [ none ↦ false | some e ↦ true ]

-- `copied` is what the copy of the source holds. An equal manifest is answered as it is stored.
unfoldable pub publish_artifact :
    Config → Kind → (key : ℕ) → (source copied : List ℕ) → Queue → Option (Queue × Manifest)
publish_artifact c kind key source copied q =
    elim (validate_manifest c (manifest_of c kind key source)) [
      | none ↦ none
      | some m ↦ elim (find_manifest kind key q.outgoing) [
        | some previous ↦ if same_manifest previous m then some (q, previous) else none
        | none ↦
            if not (is_bounded c m.bytes q)
            then none
            else if not (length copied == m.bytes && c.digest copied == m.sha256)
            then none
            else if is_present m.id q.outgoing
            then none
            else some (
              record q {
                outgoing =
                    insert m.id (record { manifest = m; blob = copied; delivery = none })
                      q.outgoing;
              },
              m,
            )
      ]
    ]

-- The first outgoing entry, in the order of the names, that is not delivered.
abbrev pub first_undelivered : List ℕ → Dict Outgoing → Option Manifest
first_undelivered [] entries = none
first_undelivered (id ∷ ids) entries = elim (lookup id entries) [
  | none ↦ first_undelivered ids entries
  | some e ↦ elim e.delivery [ none ↦ some e.manifest | some r ↦ first_undelivered ids entries ]
]

unfoldable pub next_artifact : Config → Queue → Option Manifest
next_artifact c q = elim (first_undelivered (sort (keys q.outgoing)) q.outgoing) [
  | none ↦ none
  | some m ↦ validate_manifest c m
]

-- The slice of a content that a chunk holds.
abbrev pub slice : (size index : ℕ) → List ℕ → List ℕ
slice size index blob = take size (drop (index * size) blob)

unfoldable pub chunk : Config → (id index : ℕ) → Queue → Option (List ℕ)
chunk c id index q = elim (lookup id q.outgoing) [
  | none ↦ none
  | some e ↦ elim (validate_manifest c e.manifest) [
    | none ↦ none
    | some m ↦
        if not (ltb index (ceil m.bytes c.chunk_bytes))
        then none
        else some (slice c.chunk_bytes index e.blob)
  ]
]

unfoldable pub acknowledge : Config → Receipt → Queue → Option Queue
acknowledge c receipt q = elim (lookup receipt.id q.outgoing) [
  | none ↦ none
  | some e ↦ elim (validate_manifest c e.manifest) [
    | none ↦ none
    | some m ↦ if not (same_receipt receipt (receipt_of m)) then none else elim e.delivery [
      | none ↦ some (record q {
        outgoing = insert receipt.id (record e { delivery = some receipt }) q.outgoing;
      })
      | some old ↦ if same_receipt old receipt then some q else none
    ]
  ]
]
