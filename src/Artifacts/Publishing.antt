-- ===== src/Artifacts/Publishing.antt =====
-- The publication of an artifact binds its key to its content (artifacts.py, ArtifactQueue.publish).
use tiny_dsv.Base.{
  ℕ, ◌≡◌, refl, ap, sym, ◌∙◌, subst, Bool, true, false, not, ◌&&◌, Option, none, some, List, [],
  ◌∷◌, length, leb, ltb, ◌==◌, ==_refl, arith, if◌then◌else◌, Bool-cases, Option-cases, inl, inr,
}
use tiny_dsv.Base.Dict.{Dict, insert}
use tiny_dsv.Artifacts.State.{
  Kind, Manifest, Outgoing, Queue, Config, validate_manifest, same_kind, same_manifest, is_small,
  is_bounded,
}
use tiny_dsv.Artifacts.Sending.{publish_artifact, manifest_of, find_manifest, is_present}
use tiny_dsv.Artifacts.Passage.{same_manifest_refl, same_kind_refl}

find_manifest-insert :
    (kind : Kind) (key id : ℕ) (e : Outgoing) (entries : Dict Outgoing)
    → find_manifest kind key entries ≡ none
    → (same_kind e.manifest.kind kind && e.manifest.key == key) ≡ true
    → find_manifest kind key (insert id e entries) ≡ some e.manifest
find_manifest-insert kind key id e [] h t = rw t refl
find_manifest-insert kind key id e ((j, w) ∷ rest) h t = elim (Bool-cases (j == id)) [
  | inl c ↦ rw (c, t) refl
  | inr c ↦ elim (Bool-cases (same_kind w.manifest.kind kind && w.manifest.key == key)) [
    | inl d ↦ absurd (ground arith)
    | inr d ↦ rw (c, d) (find_manifest-insert kind key id e rest (ground arith) t)
  ]
]

-- What a publication leaves: the manifest of the content, bound to the key.
abbrev Published : Config → Kind → (key : ℕ) → (source : List ℕ) → Queue → Manifest → Type 0
Published c kind key source q m =
    (same_manifest m (manifest_of c kind key source) ≡ true)
    × (find_manifest kind key q.outgoing ≡ some m)

pub validate_manifest-eq : (c : Config) (m n : Manifest) → validate_manifest c m ≡ some n → m ≡ n
unfolding validate_manifest
validate_manifest-eq c m n h =
    go (not (leb 1 m.bytes && leb m.bytes c.max_bytes))
      (not (c.identity m.kind m.key m.bytes m.sha256 == m.id))
      (is_small m.kind && ltb c.max_small m.bytes) h
  where
    go :
        (x y z : Bool)
        → (if x then none else if y then none else if z then none else some m) ≡ some n
        → m ≡ n
    go true y z h = absurd (ground arith)
    go false true z h = absurd (ground arith)
    go false false true h = absurd (ground arith)
    go false false false h = ground arith

publish_artifact-Published :
    (c : Config) (kind : Kind) (key : ℕ) (source copied : List ℕ) (q q' : Queue) (m : Manifest)
    → publish_artifact c kind key source copied q ≡ some (q', m)
    → (validate_manifest c (manifest_of c kind key source) ≡ some (manifest_of c kind key source))
      × Published c kind key source q' m
unfolding publish_artifact
publish_artifact-Published c kind key source copied q q' m h =
    elim (Option-cases (validate_manifest c mine)) [
      | inl e ↦ absurd (ground arith)
      | inr (n, e) ↦
          let e' : validate_manifest c mine ≡ some mine =
            e ∙ ap some (sym (validate_manifest-eq c mine n e)) in
          (
            e',
            found (find_manifest kind key q.outgoing) refl
                (let h' = (rw (e', publish_artifact) at h) in h'),
          )
    ]
  where
    mine : Manifest
    mine = manifest_of c kind key source

    old :
        (previous : Manifest) (b : Bool)
        → same_manifest previous mine ≡ b
        → find_manifest kind key q.outgoing ≡ some previous
        → (let out : Option (Queue × Manifest) = if b then some (q, previous) else none in out)
          ≡ some (q', m)
        → Published c kind key source q' m
    old previous true s e h =
        subst (λ (z : Queue × Manifest). Published c kind key source z.0 z.1)
          (let eq : (q, previous) ≡ (q', m) = ground arith in eq) (s, e)
    old previous false s e h = absurd (ground arith)

    new :
        (x y z : Bool)
        → find_manifest kind key q.outgoing ≡ none
        → (let out : Option (Queue × Manifest) =
              if x
              then none
              else if y
              then none
              else if z
              then none
              else some (
                record q {
                  outgoing =
                      insert mine.id
                        (record { manifest = mine; blob = copied; delivery = none })
                        q.outgoing;
                },
                mine,
              ) in
            out)
          ≡ some (q', m)
        → Published c kind key source q' m
    new true y z e h = absurd (ground arith)
    new false true z e h = absurd (ground arith)
    new false false true e h = absurd (ground arith)
    new false false false e h =
        subst (λ (z : Queue × Manifest). Published c kind key source z.0 z.1)
          (let eq : (
            record q {
              outgoing =
                  insert mine.id (record { manifest = mine; blob = copied; delivery = none })
                    q.outgoing;
            },
            mine,
          )
                ≡ (q', m) =
              ground arith in
            eq)
          (
            same_manifest_refl mine,
            find_manifest-insert kind key mine.id
                (record { manifest = mine; blob = copied; delivery = none }) q.outgoing e
                (rw (same_kind_refl kind) (==_refl key)),
          )

    found :
        (f : Option Manifest)
        → find_manifest kind key q.outgoing ≡ f
        → (let out : Option (Queue × Manifest) = elim f [
          | some previous ↦ if same_manifest previous mine then some (q, previous) else none
          | none ↦
              if not (is_bounded c mine.bytes q)
              then none
              else if not (length copied == mine.bytes && c.digest copied == mine.sha256)
              then none
              else if is_present mine.id q.outgoing
              then none
              else some (
                record q {
                  outgoing =
                      insert mine.id
                        (record { manifest = mine; blob = copied; delivery = none })
                        q.outgoing;
                },
                mine,
              )
        ] in
            out)
          ≡ some (q', m)
        → Published c kind key source q' m
    found (some previous) e h = old previous (same_manifest previous mine) refl e h
    found none e h =
        new (not (is_bounded c mine.bytes q))
          (not (length copied == mine.bytes && c.digest copied == mine.sha256))
          (is_present mine.id q.outgoing) e h

-- After a publication has succeeded, publishing the same content under the same kind and key
-- answers the same manifest and changes nothing, and publishing a content with another manifest
-- under them is refused.
pub publish_artifact_lem :
    (c : Config) (kind : Kind) (key : ℕ) (source copied other copied' : List ℕ) (q q' : Queue)
    (m : Manifest)
    → publish_artifact c kind key source copied q ≡ some (q', m)
    → (publish_artifact c kind key source copied' q' ≡ some (q', m))
      × (same_manifest m (manifest_of c kind key other) ≡ false
          → publish_artifact c kind key other copied' q' ≡ none)
unfolding publish_artifact
publish_artifact_lem c kind key source copied other copied' q q' m h =
    let (valid, (same, bound)) = publish_artifact-Published c kind key source copied q q' m h in
    (
      rw (valid, bound, same, publish_artifact) refl,
      λ d. elim (Option-cases (validate_manifest c (manifest_of c kind key other))) [
        | inl e ↦ rw (e, publish_artifact) refl
        | inr (n, e) ↦
            rw
              (
                e,
                bound,
                ap (λ z. same_manifest m z) (sym (validate_manifest-eq c _ n e)) ∙ d,
                publish_artifact,
              )
              refl
      ],
    )
